-- ===== src/Python/Text/Decimal.antt =====
-- `int` of a decimal text is the number that its digits spell.
use wu_kong_easy_sdk_csharp.Common.{
  ℕ, suc, ◌+◌, ◌*◌, Bool, true, false, none, some, List, [], ◌∷◌, ◌==◌, ltb, length, all,
  if◌then◌else◌, ◌≡◌, refl, arith, Option-cases, Bool-cases, inl, inr, and_left, and_right, ==_iff,
}
use wu_kong_easy_sdk_csharp.Python.Result.{value_error, ok, err}
use wu_kong_easy_sdk_csharp.Python.Int.{pos}
use wu_kong_easy_sdk_csharp.Python.Text.{
  Unicode, max_str_digits, is_digit, is_decimal, lstrip, rstrip, strip, scan, signed_text,
  int_of_text,
}
use native.Mathlib.Nat.{zero-add}

module _ (u : Unicode) where
  abbrev digit_or_zero : ℕ → ℕ
  digit_or_zero c = elim (u.decimal c) [ none ↦ 0 | some d ↦ d ]

  -- The number that the digits spell after `n`.
  abbrev pub spelled : ℕ → List ℕ → ℕ
  spelled n [] = n
  spelled n (c ∷ cs) = spelled (n * 10 + digit_or_zero c) cs

  digit_not_space : (c : ℕ) → is_digit u c ≡ true → u.is_space c ≡ false
  digit_not_space c h = elim (Option-cases (u.decimal c)) [
    | inl e ↦ absurd (ground arith)
    | inr (d, e) ↦ u.decimal_not_space c d e
  ]

  rstrip_digits : (cs : List ℕ) → all (is_digit u) cs ≡ true → rstrip u cs ≡ cs
  unfolding rstrip
  rstrip_digits [] h = refl
  rstrip_digits (c ∷ []) h = ground (arith, digit_not_space c)
  rstrip_digits (c ∷ d ∷ cs) h = rw (rstrip_digits (d ∷ cs) (and_right (is_digit u c) _ h))

  strip_digits : (cs : List ℕ) → all (is_digit u) cs ≡ true → strip u cs ≡ cs
  unfolding strip lstrip
  strip_digits [] h = refl
  strip_digits (c ∷ cs) h =
      rw (digit_not_space c (and_left (is_digit u c) _ h)) (rstrip_digits (c ∷ cs) h)

  scan_digits :
      (n count : ℕ) (prev : Bool) (c : ℕ) (cs : List ℕ)
      → all (is_digit u) (c ∷ cs) ≡ true
      → scan u n count prev (c ∷ cs) ≡ some (spelled n (c ∷ cs), count + length (c ∷ cs))
  unfolding scan
  scan_digits n count prev c [] h = ground arith
  scan_digits n count prev c (d ∷ cs) h = elim (Option-cases (u.decimal c)) [
    | inl e ↦ absurd (ground arith)
    | inr (k, e) ↦ rw (e, scan) (ground (arith, e, scan_digits (n * 10 + k) (suc count) true d cs))
  ]

  sign_free : (c : ℕ) → is_digit u c ≡ true → ((c == b'-') ≡ false) × ((c == b'+') ≡ false)
  sign_free c h = (free b'-' u.sign_not_decimal.1, free b'+' u.sign_not_decimal.0)
    where
      free : (s : ℕ) → u.decimal s ≡ none → (c == s) ≡ false
      free s e = elim (Bool-cases (c == s)) [
        | inl p ↦ let q : u.decimal c ≡ none = rw ((==_iff c s).0 p) e in absurd (ground arith)
        | inr p ↦ p
      ]

  -- `int` of a text that `isdecimal` accepts is the number that its digits spell, if there are at most
  -- 4300 of them, and a ValueError otherwise.
  pub int_of_text-is_decimal :
      (cs : List ℕ)
      → is_decimal u cs ≡ true
      → int_of_text u cs ≡ (
          if ltb max_str_digits (length cs)
          then err (value_error "Exceeds the limit for integer string conversion")
          else ok (pos (spelled 0 cs)))
  unfolding int_of_text signed_text is_decimal
  int_of_text-is_decimal [] h = cc
  int_of_text-is_decimal (c ∷ cs) h =
      let (m, p) = sign_free c (and_left (is_digit u c) _ h) in
      rw (strip_digits (c ∷ cs) h, m, p, scan_digits 0 0 false c cs h, zero-add)
