-- ===== src/Python/Text.antt =====
-- `str.isdecimal`, `str.strip` and `int(text)`, over the code points of a text.
pub mod Decimal
pub mod Search
pub mod Replace
use wu_kong_easy_sdk_csharp.Common.{
  ℕ, zero, suc, ◌+◌, ◌-◌, ◌*◌, ◌≤◌, Bool, true, false, not, ◌&&◌, ◌||◌, Option, none, some, List,
  [], ◌∷◌, ◌==◌, leb, ltb, length, all, if◌then◌else◌, ◌≡◌, refl, codes,
}
use wu_kong_easy_sdk_csharp.Python.Result.{Exc, value_error, Result, ok, err, ◌>>=◌}
use wu_kong_easy_sdk_csharp.Python.Int.{ℤ, pos, negsuc, negate}

-- The interpreter's Unicode database: the value of a decimal digit, and the white space. The laws are
-- properties of the published tables.
pub record Unicode : Type 0 where
  pub decimal : ℕ → Option ℕ
  pub is_space : ℕ → Bool
  pub decimal_not_space : (c d : ℕ) → decimal c ≡ some d → is_space c ≡ false
  pub sign_not_decimal : (decimal b'+' ≡ none) × (decimal b'-' ≡ none)
  pub underscore_not_decimal : decimal b'_' ≡ none
  pub dot_not_decimal : decimal b'.' ≡ none

abbrev pub max_str_digits : ℕ
max_str_digits = 4300

module _ (u : Unicode) where
  abbrev pub is_digit : ℕ → Bool
  is_digit c = elim (u.decimal c) [ none ↦ false | some d ↦ true ]

  -- text.isdecimal()
  unfoldable pub is_decimal : List ℕ → Bool
  is_decimal [] = false
  is_decimal (c ∷ cs) = all is_digit (c ∷ cs)

  unfoldable pub lstrip : List ℕ → List ℕ
  lstrip [] = []
  lstrip (c ∷ cs) = if u.is_space c then lstrip cs else c ∷ cs

  abbrev add_left : ℕ → List ℕ → List ℕ
  add_left c [] = if u.is_space c then [] else c ∷ []
  add_left c (d ∷ rest) = c ∷ d ∷ rest

  unfoldable pub rstrip : List ℕ → List ℕ
  rstrip [] = []
  rstrip (c ∷ cs) = add_left c (rstrip cs)

  -- text.strip()
  unfoldable pub strip : List ℕ → List ℕ
  unfolding lstrip rstrip
  strip cs = rstrip (lstrip cs)

  -- The digits of an `int` literal, one underscore allowed between two of them: the value and the
  -- number of digits. `prev` says that a digit stands before.
  scan : ℕ → ℕ → Bool → List ℕ → Option (ℕ × ℕ)
  scan n count prev [] = if prev then some (n, count) else none
  scan n count prev (c ∷ cs) = elim (u.decimal c) [
    | some d ↦ scan (n * 10 + d) (suc count) true cs
    | none ↦ elim (prev && (c == b'_')) [ true ↦ scan n count false cs | false ↦ none ]
  ]

  abbrev finish : (ℕ → ℤ) → Option (ℕ × ℕ) → Result ℤ
  finish signed none = err (value_error "invalid literal for int()")
  finish signed (some (n, count)) =
      if ltb max_str_digits count
      then err (value_error "Exceeds the limit for integer string conversion")
      else ok (signed n)

  signed_text : List ℕ → Result ℤ
  unfolding scan
  signed_text [] = finish pos (scan 0 0 false [])
  signed_text (c ∷ cs) =
      if c == b'-'
      then finish negate (scan 0 0 false cs)
      else if c == b'+'
      then finish pos (scan 0 0 false cs)
      else finish pos (scan 0 0 false (c ∷ cs))

  -- int(text)
  unfoldable pub int_of_text : List ℕ → Result ℤ
  unfolding signed_text strip
  int_of_text cs = signed_text (strip cs)

-- The ASCII part of the tables.
abbrev pub ascii_decimal : ℕ → Option ℕ
ascii_decimal c = if leb 48 c && leb c 57 then some (c - 48) else none

abbrev pub ascii_is_space : ℕ → Bool
ascii_is_space c = (leb 9 c && leb c 13) || (c == 32)
