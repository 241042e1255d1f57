-- ===== src/Python/Text/Replace.antt =====
-- `t in s` and `s.replace(old, new)`, over the code points of a text.
use wu_kong_easy_sdk_csharp.Common.{
  ℕ, zero, suc, ◌-◌, Bool, true, false, ◌||◌, [], ◌∷◌, ◌++◌, length, ◌≡◌,
}
use wu_kong_easy_sdk_csharp.Python.Text.Search.{Text, starts_with}

-- t in s
unfoldable pub occurs : Text → Text → Bool
occurs [] t = starts_with [] t
occurs (c ∷ cs) t = starts_with (c ∷ cs) t || occurs cs t

-- The replacement from left to right; `k` characters of an occurrence are left to skip. `old` is not
-- empty.
unfoldable pub replace_skip : Text → Text → ℕ → Text → Text
replace_skip old new k [] = []
replace_skip old new (suc k) (c ∷ cs) = replace_skip old new k cs
replace_skip old new zero (c ∷ cs) = elim (starts_with (c ∷ cs) old) [
  | true ↦ new ++ replace_skip old new (length old - 1) cs
  | false ↦ c ∷ replace_skip old new 0 cs
]

-- s.replace(old, new)
abbrev pub replace : Text → Text → Text → Text
replace s old new = replace_skip old new 0 s

module _ (old new : Text) (c : ℕ) (cs : Text) where
  pub replace-hit :
      starts_with (c ∷ cs) old ≡ true
      → replace_skip old new 0 (c ∷ cs) ≡ new ++ replace_skip old new (length old - 1) cs
  unfolding replace_skip
  replace-hit m = rw (m, replace_skip)

  pub replace-miss :
      starts_with (c ∷ cs) old ≡ false
      → replace_skip old new 0 (c ∷ cs) ≡ c ∷ replace_skip old new 0 cs
  unfolding replace_skip
  replace-miss m = rw (m, replace_skip)
