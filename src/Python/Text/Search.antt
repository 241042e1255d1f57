-- ===== src/Python/Text/Search.antt =====
-- `==`, `startswith`, `endswith` and the split into lines, over the code points of a text.
use wu_kong_easy_sdk_csharp.Common.{
  ℕ, Bool, true, false, ◌&&◌, ◌||◌, List, [], ◌∷◌, ◌==◌, ◌≡◌, refl, ◌↔◌, arith, if◌then◌else◌,
}

abbrev pub Text : Type 0
Text = List ℕ

unfoldable pub text_eq : Text → Text → Bool
text_eq [] [] = true
text_eq (a ∷ s) (b ∷ t) = (a == b) && text_eq s t
text_eq _ _ = false

-- s.startswith(t)
unfoldable pub starts_with : Text → Text → Bool
starts_with s [] = true
starts_with [] (b ∷ t) = false
starts_with (a ∷ s) (b ∷ t) = (a == b) && starts_with s t

-- s.endswith(t)
unfoldable pub ends_with : Text → Text → Bool
unfolding text_eq
ends_with [] t = text_eq [] t
ends_with (a ∷ s) t = text_eq (a ∷ s) t || ends_with s t

abbrev first_line : ℕ → List Text → List Text
first_line c [] = (c ∷ []) ∷ []
first_line c (l ∷ ls) = (c ∷ l) ∷ ls

-- s.split("\n")
unfoldable pub lines : Text → List Text
lines [] = [] ∷ []
lines (c ∷ cs) = let rest = lines cs in if c == b'\n' then [] ∷ rest else first_line c rest

text_eq_sound : (s t : Text) → text_eq s t ≡ true → s ≡ t
unfolding text_eq
text_eq_sound [] [] h = refl
text_eq_sound [] (b ∷ t) h = absurd (cc)
text_eq_sound (a ∷ s) [] h = absurd (cc)
text_eq_sound (a ∷ s) (b ∷ t) h = ground (arith, text_eq_sound s t)

pub text_eq_self : (t : Text) → text_eq t t ≡ true
unfolding text_eq
text_eq_self [] = refl
text_eq_self (b ∷ t) = ground (arith, text_eq_self t)

pub text_eq_iff : (s t : Text) → (text_eq s t ≡ true) ↔ (s ≡ t)
text_eq_iff s t = (text_eq_sound s t, λ e. rw e (text_eq_self t))
