-- ===== src/Python/Json.antt =====
-- The values of `json.loads`: Python's None, bool, int, float, str, list and dict.
pub mod Dumps
pub mod Equality
pub mod Tokens
use wu_kong_easy_sdk_csharp.Common.{
  ℕ, zero, suc, ◌+◌, String, Bool, true, false, Option, none, some, ◌==◌, ◌&&◌, str_eq,
  if◌then◌else◌, ◌≡◌, refl,
}
use wu_kong_easy_sdk_csharp.Python.Int.{ℤ, pos, negsuc, ratio_eq}

mutual
  -- `real z k` is the float z / 2 ^ k in lowest terms (every finite float but -0.0 is one). A dict is
  -- its items in insertion order, each key once.
  pub data Json : Type 0 where
    null : Json
    bool : Bool → Json
    int : ℤ → Json
    real : ℤ → ℕ → Json
    str : String → Json
    arr : Items → Json
    obj : Fields → Json

  pub data Items : Type 0 where
    nil : Items
    cons : Json → Items → Items

  pub data Fields : Type 0 where
    end : Fields
    field : String → Json → Fields → Fields

-- d[key], where `none` is a KeyError
unfoldable pub lookup : Fields → String → Option Json
lookup end key = none
lookup (field k v fs) key = if str_eq k key then some v else lookup fs key

-- d.get(key)
unfoldable pub get : Fields → String → Json
unfolding lookup
get fs key = elim (lookup fs key) [ none ↦ null | some v ↦ v ]

unfoldable pub size_of : Fields → ℕ
size_of end = 0
size_of (field k v fs) = suc (size_of fs)

-- Python's numbers: True is 1 and False is 0.
abbrev pub number : Json → Option (ℤ × ℕ)
number (bool false) = some (pos 0, 0)
number (bool true) = some (pos 1, 0)
number (int z) = some (z, 0)
number (real z k) = some (z, k)
number _ = none

abbrev pub number_eq : Option (ℤ × ℕ) → Option (ℤ × ℕ) → Bool
number_eq (some (a, j)) (some (b, k)) = ratio_eq a j b k
number_eq _ _ = false

-- `==` on these values
unfoldable mutual
  pub py_eq : Json → Json → Bool
  py_eq null null = true
  py_eq (str s) (str t) = str_eq s t
  py_eq (arr xs) (arr ys) = items_eq xs ys
  py_eq (obj fs) (obj gs) = (size_of fs == size_of gs) && fields_in fs gs
  py_eq v w = number_eq (number v) (number w)

  pub items_eq : Items → Items → Bool
  items_eq nil nil = true
  items_eq (cons x xs) (cons y ys) = py_eq x y && items_eq xs ys
  items_eq _ _ = false

  pub fields_in : Fields → Fields → Bool
  fields_in end gs = true
  fields_in (field k v fs) gs =
      elim (lookup gs k) [ none ↦ false | some w ↦ py_eq v w ] && fields_in fs gs

-- `type(v) is int`: a bool is not
abbrev pub is_int : Json → Bool
is_int (int z) = true
is_int _ = false

true-eq-one : py_eq (bool true) (int (pos 1)) ≡ true
unfolding py_eq size_of lookup
true-eq-one = refl
