-- ===== src/Python/Json/Equality.antt =====
-- `==` against a text or None decides equality.
use wu_kong_easy_sdk_csharp.Common.{String, true, false, ◌≡◌, refl, ap, eq_iff}
use wu_kong_easy_sdk_csharp.Python.Json.{Json, null, bool, str, py_eq}

pub py_eq-str : (v : Json) (s : String) → py_eq v (str s) ≡ true → v ≡ str s
unfolding py_eq
py_eq-str (str t) s h = ap str ((eq_iff t s).0 h)
py_eq-str (bool true) s h = absurd (cc)
py_eq-str (bool false) s h = absurd (cc)
py_eq-str _ s h = absurd (cc)

pub py_eq-null : (v : Json) → py_eq v null ≡ true → v ≡ null
unfolding py_eq
py_eq-null null h = refl
py_eq-null (bool true) h = absurd (cc)
py_eq-null (bool false) h = absurd (cc)
py_eq-null _ h = absurd (cc)

pub py_eq-str_self : (s : String) → py_eq (str s) (str s) ≡ true
unfolding py_eq
py_eq-str_self s = (eq_iff s s).1 refl
