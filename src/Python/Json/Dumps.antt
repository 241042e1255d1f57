-- ===== src/Python/Json/Dumps.antt =====
-- `json.dumps(v, sort_keys=True)` as the sequence of its lexical tokens.
pub mod Injective
use Prim.Native.Nat.{Ordering}
use Prim.Native.String.{compare}
use wu_kong_easy_sdk_csharp.Common.{ℕ, String, Bool, true, false, List, [], ◌∷◌, ◌≡◌, refl}
use wu_kong_easy_sdk_csharp.Python.Int.{ℤ, pos}
use wu_kong_easy_sdk_csharp.Python.Json.{
  Json, null, bool, int, real, str, arr, obj, Items, nil, cons, Fields, end, field,
}

pub data Token : Type 0 where
  lbrace rbrace lbracket rbracket comma colon : Token
  null_word : Token
  bool_word : Bool → Token
  int_word : ℤ → Token
  real_word : ℤ → ℕ → Token
  text_word : String → Token

-- `sorted(d.items())`: keys are distinct, so only they are compared
insert_field : String → Json → Fields → Fields
insert_field k v end = field k v end
insert_field k v (field j w fs) = elim (compare k j) [
  | Ordering.gt ↦ field j w (insert_field k v fs)
  | _ ↦ field k v (field j w fs)
]

unfoldable mutual
  unfolding insert_field

  pub sort_keys : Json → Json
  sort_keys (arr xs) = arr (sort_items xs)
  sort_keys (obj fs) = obj (sort_fields fs)
  sort_keys v = v

  pub sort_items : Items → Items
  sort_items nil = nil
  sort_items (cons x xs) = cons (sort_keys x) (sort_items xs)

  pub sort_fields : Fields → Fields
  sort_fields end = end
  sort_fields (field k v fs) = insert_field k (sort_keys v) (sort_fields fs)

-- The tokens of a value, in front of those that follow.
unfoldable mutual
  pub emit : Json → List Token → List Token
  emit null r = null_word ∷ r
  emit (bool b) r = bool_word b ∷ r
  emit (int z) r = int_word z ∷ r
  emit (real z k) r = real_word z k ∷ r
  emit (str s) r = text_word s ∷ r
  emit (arr xs) r = lbracket ∷ emit_items xs (rbracket ∷ r)
  emit (obj fs) r = lbrace ∷ emit_fields fs (rbrace ∷ r)

  pub emit_items : Items → List Token → List Token
  emit_items nil r = r
  emit_items (cons x xs) r = emit x (emit_more xs r)

  pub emit_more : Items → List Token → List Token
  emit_more nil r = r
  emit_more (cons x xs) r = comma ∷ emit x (emit_more xs r)

  pub emit_fields : Fields → List Token → List Token
  emit_fields end r = r
  emit_fields (field k v fs) r = text_word k ∷ colon ∷ emit v (emit_rest fs r)

  pub emit_rest : Fields → List Token → List Token
  emit_rest end r = r
  emit_rest (field k v fs) r = comma ∷ text_word k ∷ colon ∷ emit v (emit_rest fs r)

unfoldable pub dumps : Json → List Token
unfolding sort_keys emit
dumps v = emit (sort_keys v) []

abbrev sample : Fields → Json
sample rest = obj (field "b" (bool true) rest)

dumps_sorts :
    dumps (sample (field "a" (int (pos 1)) end))
    ≡ lbrace
      ∷ text_word "a"
      ∷ colon
      ∷ int_word (pos 1)
      ∷ comma
      ∷ text_word "b"
      ∷ colon
      ∷ bool_word true
      ∷ rbrace
      ∷ []
unfolding dumps
dumps_sorts = refl
