-- ===== src/Examples/Ascii.antt =====
-- A Unicode table that knows the ASCII characters only.
use wu_kong_easy_sdk_csharp.Common.{ℕ, some, ◌≡◌, refl, arith, false}
use wu_kong_easy_sdk_csharp.Python.Text.{Unicode, ascii_decimal, ascii_is_space}

pub digit_not_space : (c d : ℕ) → ascii_decimal c ≡ some d → ascii_is_space c ≡ false
digit_not_space c d h = ground arith

abbrev pub ascii : Unicode
ascii = record {
  decimal = ascii_decimal;
  is_space = ascii_is_space;
  decimal_not_space = digit_not_space;
  sign_not_decimal = (refl, refl);
  underscore_not_decimal = refl;
  dot_not_decimal = refl;
}
