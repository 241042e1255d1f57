-- ===== src/Cluster/Diagnostics/Redacted.antt =====
-- A redacted value holds no token.
use wu_kong_easy_sdk_csharp.Common.{
  ℕ, zero, suc, ◌-◌, ◌<◌, true, false, List, [], ◌∷◌, ◌++◌, all, length, codes, ◌≡◌, refl, sym,
  arith, Bool-cases, inl, inr, All,
}
use wu_kong_easy_sdk_csharp.Python.Text.Search.{Text, starts_with}
use wu_kong_easy_sdk_csharp.Python.Text.Replace.{
  occurs, replace_skip, replace, replace-hit, replace-miss,
}
use mathlib.Core.Path.{subst}
use wu_kong_easy_sdk_csharp.Release.Publish.{is_hex}
use wu_kong_easy_sdk_csharp.Cluster.Diagnostics.{redacted, redact}

-- A token as `os.urandom(24).hex()` makes it.
abbrev pub IsToken : Text → Type 0
IsToken t = (length t ≡ 48) × (all is_hex t ≡ true)

starts_with-empty : (t : Text) → length t ≡ 48 → starts_with [] t ≡ false
unfolding starts_with
starts_with-empty [] h = absurd (omega (arith, h))
starts_with-empty (b ∷ t) h = refl

-- A text of hexadecimal digits that starts the replaced text starts the text.
starts_with-replace :
    (old s t : Text)
    → all is_hex t ≡ true
    → starts_with (replace s old redacted) t ≡ true
    → starts_with s t ≡ true
unfolding starts_with replace_skip
starts_with-replace old s [] x h = refl
starts_with-replace old [] (b ∷ t) x h = h
starts_with-replace old (c ∷ cs) (b ∷ t) x h = elim (Bool-cases (starts_with (c ∷ cs) old)) [
  | inl e ↦ absurd (ground (arith, e))
  | inr e ↦ ground (arith, e, starts_with-replace old cs t)
]

-- A character that is kept begins no token that it did not begin before.
kept_start :
    (old : Text) (c : ℕ) (cs t : Text)
    → all is_hex t ≡ true
    → starts_with (c ∷ cs) t ≡ false
    → starts_with (c ∷ replace cs old redacted) t ≡ false
unfolding starts_with
kept_start old c cs [] x h = h
kept_start old c cs (b ∷ t) x h = ground (arith, starts_with-replace old cs t)

-- Across a bracket no token can stand.
starts_with-bracket :
    (xs rest t : Text)
    → all is_hex t ≡ true
    → length xs < length t
    → starts_with (xs ++ (b']' ∷ rest)) t ≡ false
unfolding starts_with
starts_with-bracket xs rest [] x h = absurd (omega arith)
starts_with-bracket [] rest (b ∷ t) x h = ground arith
starts_with-bracket (y ∷ xs) rest (b ∷ t) x h = ground (arith, starts_with-bracket xs rest t)

occurs-bracket :
    (xs rest t : Text)
    → all is_hex t ≡ true
    → length xs < length t
    → occurs rest t ≡ false
    → occurs (xs ++ (b']' ∷ rest)) t ≡ false
unfolding occurs
occurs-bracket [] rest t x h e = ground (arith, starts_with-bracket [] rest t x h)
occurs-bracket (y ∷ xs) rest t x h e =
    ground (arith, starts_with-bracket (y ∷ xs) rest t x h, occurs-bracket xs rest t x)

-- ---------------------------------------------------------------- one replacement

module _ (t : Text) (hex : all is_hex t ≡ true) where
  -- The text of the replacement and what follows it hold no token, if what follows holds none.
  occurs-redacted :
      (rest : Text) → length t ≡ 48 → occurs rest t ≡ false → occurs (redacted ++ rest) t ≡ false
  occurs-redacted rest h e = occurs-bracket (codes "[redacted") rest t hex (omega (arith, h)) e

  abbrev Clear : Text → Type 0
  Clear s = occurs s t ≡ false

  -- A replacement brings no token in.
  occurs-replace :
      (old : Text) (k : ℕ) (s : Text)
      → length t ≡ 48
      → occurs s t ≡ false
      → occurs (replace_skip old redacted k s) t ≡ false
  unfolding occurs replace_skip
  occurs-replace old k [] h e = e
  occurs-replace old (suc k) (c ∷ cs) h e = occurs-replace old k cs h (ground arith)
  occurs-replace old zero (c ∷ cs) h e = elim (Bool-cases (starts_with (c ∷ cs) old)) [
    | inl m ↦ subst Clear (sym (replace-hit old redacted c cs m)) (
        occurs-redacted (replace_skip old redacted (length old - 1) cs) h
          (occurs-replace old (length old - 1) cs h (ground arith)))
    | inr m ↦
        subst Clear (sym (replace-miss old redacted c cs m))
          (ground (arith, kept_start old c cs t hex, occurs-replace old 0 cs h))
  ]

  -- It takes the token itself out.
  occurs-replace_self :
      (k : ℕ) (s : Text) → length t ≡ 48 → occurs (replace_skip t redacted k s) t ≡ false
  unfolding occurs replace_skip
  occurs-replace_self k [] h = starts_with-empty t h
  occurs-replace_self (suc k) (c ∷ cs) h = occurs-replace_self k cs h
  occurs-replace_self zero (c ∷ cs) h = elim (Bool-cases (starts_with (c ∷ cs) t)) [
    | inl m ↦ subst Clear (sym (replace-hit t redacted c cs m)) (
        occurs-redacted (replace_skip t redacted (length t - 1) cs) h
          (occurs-replace_self (length t - 1) cs h))
    | inr m ↦
        subst Clear (sym (replace-miss t redacted c cs m))
          (ground (arith, kept_start t c cs t hex m, occurs-replace_self 0 cs h))
  ]

-- ---------------------------------------------------------------- all tokens

stays_out :
    (tokens : List Text) (t s : Text)
    → IsToken t
    → occurs s t ≡ false
    → occurs (redact tokens s) t ≡ false
unfolding redact
stays_out [] t s i e = e
stays_out (old ∷ tokens) t s i e =
    stays_out tokens t (replace s old redacted) i (occurs-replace t i.1 old 0 s i.0 e)

-- A redacted value holds none of the tokens, whatever it held.
pub redact_clears :
    (tokens : List Text) (value : Text)
    → All IsToken tokens
    → All (λ t. occurs (redact tokens value) t ≡ false) tokens
unfolding redact
redact_clears [] value h = tt
redact_clears (t ∷ tokens) value (i, h) = (
  stays_out tokens t (replace value t redacted) i (occurs-replace_self t i.1 0 value i.0),
  redact_clears tokens (replace value t redacted) h,
)
