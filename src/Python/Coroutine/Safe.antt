-- ===== src/Python/Coroutine/Safe.antt =====
-- Scripts that keep an assertion where they return, with another one for where they raise.
use wu_kong_easy_sdk_csharp.Common.{List, [], ◌∷◌}
use wu_kong_easy_sdk_csharp.Python.Coroutine.Script.{Script, give, look_up, gathered, ◌>>=◌}
use wu_kong_easy_sdk_csharp.Python.Coroutine.Ensures.{Ensures}
use wu_kong_easy_sdk_csharp.Python.Coroutine.Leads.{Assertion, Leads, Leads-bind}

module _ {Call : Type 0} {Answer : Call → Type 0} {S : Type 0} {I E : Assertion Answer S} where
  -- What keeps I where it returns; it raises only with E.
  pub Safe-bind :
      {A B : Type 0} (m : Script Answer S A) (f : A → Script Answer S B)
      → Leads I m I E
      → ((a : A) → Leads I (f a) I E)
      → Leads I (m >>= f) I E
  Safe-bind m f km kf = Leads-bind m f km kf

  pub Safe-give : {A : Type 0} (a : A) → Leads I (give a) I E
  unfolding give Ensures
  Safe-give a = record { at = λ h s p. p }

  pub Safe-look_up : {A : Type 0} (f : S → A) → Leads I (look_up f) I E
  unfolding look_up Ensures
  Safe-look_up f = record { at = λ h s p. p }

  pub Safe-gathered :
      {A B : Type 0} (f : A → Script Answer S B) (xs : List A)
      → ((a : A) → Leads I (f a) I E)
      → Leads I (gathered f xs) I E
  unfolding gathered
  Safe-gathered f [] k = Safe-give []
  Safe-gathered f (x ∷ xs) k =
      Safe-bind (f x) _ (k x)
        (λ b. Safe-bind (gathered f xs) _ (Safe-gathered f xs k) (λ bs. Safe-give (b ∷ bs)))

pub ruleset safe_rules = (Safe-bind, Safe-give, Safe-look_up, Safe-gathered)
