-- ===== src/Cluster/Diagnostics/Bounded.antt =====
-- The length of a redacted value.
use wu_kong_easy_sdk_csharp.Common.{
  ℕ, zero, suc, ◌-◌, ◌≤◌, String, true, false, List, [], ◌∷◌, length, take, ◌≡◌, sym, arith,
  Bool-cases, inl, inr, All, length-append,
}
use wu_kong_easy_sdk_csharp.Python.Text.Search.{Text, starts_with}
use wu_kong_easy_sdk_csharp.Python.Text.Replace.{
  occurs, replace_skip, replace, replace-hit, replace-miss,
}
use mathlib.Core.Path.{subst}
use wu_kong_easy_sdk_csharp.Cluster.Diagnostics.{redacted, redact, value_of, max_value, Item}
use wu_kong_easy_sdk_csharp.Cluster.Diagnostics.Redacted.{IsToken, redact_clears}

starts_with-length : (s t : Text) → starts_with s t ≡ true → length t ≤ length s
unfolding starts_with
starts_with-length s [] h = omega arith
starts_with-length [] (b ∷ t) h = absurd (cc)
starts_with-length (a ∷ s) (b ∷ t) h = ground (arith, starts_with-length s t)

length-replace :
    (old : Text) (k : ℕ) (s : Text)
    → length old ≡ 48
    → length (replace_skip old redacted k s) ≤ length s - k
unfolding replace_skip
length-replace old k [] h = omega arith
length-replace old (suc k) (c ∷ cs) h = omega (arith, length-replace old k cs h)
length-replace old zero (c ∷ cs) h = elim (Bool-cases (starts_with (c ∷ cs) old)) [
  | inl m ↦
      subst (λ x. length x ≤ suc (length cs) - 0) (sym (replace-hit old redacted c cs m))
        (omega (
          arith,
          starts_with-length (c ∷ cs) old m,
          length-replace old (length old - 1) cs h,
          h,
          length-append redacted (replace_skip old redacted (length old - 1) cs),
        ))
  | inr m ↦
      subst (λ x. length x ≤ suc (length cs) - 0) (sym (replace-miss old redacted c cs m))
        (omega (arith, length-replace old 0 cs h))
]

length-redact :
    (tokens : List Text) (value : Text)
    → All IsToken tokens
    → length (redact tokens value) ≤ length value
unfolding redact
length-redact [] value h = omega arith
length-redact (t ∷ tokens) value (i, h) =
    omega (arith, length-redact tokens (replace value t redacted) h, length-replace t 0 value i.0)

length-take_le : (n : ℕ) (s : Text) → length (take n s) ≤ n
length-take_le zero s = omega arith
length-take_le (suc n) [] = omega arith
length-take_le (suc n) (c ∷ cs) = omega (arith, length-take_le n cs)

-- A value of the report: at most 512 characters, and none of the tokens in it.
pub record Safe (tokens : List Text) (value : Text) : Type 0 where
  pub short : length value ≤ 512
  pub clean : All (λ t. occurs value t ≡ false) tokens

pub value_of-Safe :
    (tokens : List Text) (raw : Text) → All IsToken tokens → Safe tokens (value_of tokens raw)
unfolding value_of
value_of-Safe tokens raw h = record {
  short = omega (arith, length-redact tokens (take max_value raw) h, length-take_le max_value raw);
  clean = redact_clears tokens (take max_value raw) h;
}

abbrev pub SafeEntry : List Text → String × Text → Type 0
SafeEntry tokens (key, value) = Safe tokens value

abbrev pub SafeItem : List Text → Item → Type 0
SafeItem tokens item = All (SafeEntry tokens) item
