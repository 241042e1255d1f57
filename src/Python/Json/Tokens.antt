-- ===== src/Python/Json/Tokens.antt =====
-- `!=` on the texts that `json.dumps` returns: token by token.
use wu_kong_easy_sdk_csharp.Common.{
  Bool, true, false, ◌&&◌, not, List, [], ◌∷◌, ◌≡◌, refl, ◌==◌, str_eq, eq_iff, arith, and_left,
  and_right, ap,
}
use wu_kong_easy_sdk_csharp.Python.Int.{int_eq, int_eq_iff}
use wu_kong_easy_sdk_csharp.Python.Json.Dumps.{
  Token, lbrace, rbrace, lbracket, rbracket, comma, colon, null_word, bool_word, int_word,
  real_word, text_word,
}

abbrev bool_eq : Bool → Bool → Bool
bool_eq true b = b
bool_eq false b = not b

token_eq : Token → Token → Bool
token_eq lbrace lbrace = true
token_eq rbrace rbrace = true
token_eq lbracket lbracket = true
token_eq rbracket rbracket = true
token_eq comma comma = true
token_eq colon colon = true
token_eq null_word null_word = true
token_eq (bool_word a) (bool_word b) = bool_eq a b
token_eq (int_word a) (int_word b) = int_eq a b
token_eq (real_word a j) (real_word b k) = int_eq a b && (j == k)
token_eq (text_word s) (text_word t) = str_eq s t
token_eq _ _ = false

unfoldable pub tokens_eq : List Token → List Token → Bool
unfolding token_eq
tokens_eq [] [] = true
tokens_eq (a ∷ as') (b ∷ bs) = token_eq a b && tokens_eq as' bs
tokens_eq _ _ = false

token_eq_sound : (a b : Token) → token_eq a b ≡ true → a ≡ b
unfolding token_eq
token_eq_sound lbrace lbrace h = refl
token_eq_sound rbrace rbrace h = refl
token_eq_sound lbracket lbracket h = refl
token_eq_sound rbracket rbracket h = refl
token_eq_sound comma comma h = refl
token_eq_sound colon colon h = refl
token_eq_sound null_word null_word h = refl
token_eq_sound (bool_word a) (bool_word b) h = ground arith
token_eq_sound (int_word a) (int_word b) h = ap int_word ((int_eq_iff a b).0 h)
token_eq_sound (real_word a j) (real_word b k) h = ground (arith, int_eq_iff a b)
token_eq_sound (text_word s) (text_word t) h = ap text_word ((eq_iff s t).0 h)
token_eq_sound _ _ h = absurd (cc)

token_eq_refl : (a : Token) → token_eq a a ≡ true
unfolding token_eq
token_eq_refl (bool_word a) = ground arith
token_eq_refl (int_word a) = (int_eq_iff a a).1 refl
token_eq_refl (real_word a j) = ground (arith, int_eq_iff a a)
token_eq_refl (text_word s) = (eq_iff s s).1 refl
token_eq_refl _ = refl

pub tokens_eq_sound : (as' bs : List Token) → tokens_eq as' bs ≡ true → as' ≡ bs
unfolding tokens_eq
tokens_eq_sound [] [] h = refl
tokens_eq_sound [] (b ∷ bs) h = absurd (cc)
tokens_eq_sound (a ∷ as') [] h = absurd (cc)
tokens_eq_sound (a ∷ as') (b ∷ bs) h =
    cc (token_eq_sound a b (and_left _ _ h), tokens_eq_sound as' bs (and_right (token_eq a b) _ h))

pub tokens_eq_refl : (as' : List Token) → tokens_eq as' as' ≡ true
unfolding tokens_eq
tokens_eq_refl [] = refl
tokens_eq_refl (a ∷ as') = rw (token_eq_refl a) (tokens_eq_refl as')
