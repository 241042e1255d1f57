-- ===== src/Interop/Scenario/Cleanup/Sure.antt =====
-- What the `finally` of `scenarios` reads for the report: no call of it raises, so `clean_up` follows.
use wu_kong_easy_sdk_csharp.Common.{ℕ, String, true, false, List, [], ◌∷◌, ◌++◌, ◌≡◌, refl, ◌∙◌}
use wu_kong_easy_sdk_csharp.Python.Coroutine.{History, followed_by}
use wu_kong_easy_sdk_csharp.Python.Coroutine.Script.{Script, give, assign, look_up, call, ◌>>=◌}
use wu_kong_easy_sdk_csharp.Python.Coroutine.Ensures.{Ensures}
use wu_kong_easy_sdk_csharp.Python.Coroutine.Leads.{Assertion, Leads, Leads-bind}
use wu_kong_easy_sdk_csharp.Interop.Scenario.{Call, Answer, Local}
use wu_kong_easy_sdk_csharp.Interop.Scenario.Calls.{count, attempts, fixture_failures}
use wu_kong_easy_sdk_csharp.Interop.Scenario.Scenarios.{
  collect, count_kind, count_events, summarise,
}
use wu_kong_easy_sdk_csharp.Interop.Scenario.Tracked.{
  new_clients, new_proxies, Tracked, Tracked-quiet, Keeps-assign,
}

-- The lists agree with the history, n cases are reported, and the stage is known.
pub record At (cases : List String) (n : ℕ) (stage : String) (h : History Answer) (s : Local)
    : Type 0 where
  pub tracked : Tracked cases n h s
  pub stage_is : s.report.stage ≡ stage

abbrev pub Never : Assertion Answer Local
Never h s = false ≡ true

-- A script that keeps this and does not raise.
pub record Sure (cases : List String) (n : ℕ) (stage : String) {A : Type 0}
    (m : Script Answer Local A) : Type 0 where
  pub leads : Leads (At cases n stage) m (At cases n stage) Never

module _ {cases : List String} {n : ℕ} {stage : String} where
  Sure-bind :
      {A B : Type 0} (m : Script Answer Local A) (f : A → Script Answer Local B)
      → Sure cases n stage m
      → ((a : A) → Sure cases n stage (f a))
      → Sure cases n stage (m >>= f)
  Sure-bind m f km kf = record { leads = Leads-bind m f km.leads (λ a. (kf a).leads) }

  Sure-give : {A : Type 0} (a : A) → Sure cases n stage (give a)
  unfolding give Ensures
  Sure-give a = record { leads = record { at = λ h s p. p } }

  Sure-look_up : {A : Type 0} (f : Local → A) → Sure cases n stage (look_up f)
  unfolding look_up Ensures
  Sure-look_up f = record { leads = record { at = λ h s p. p } }

  Sure-assign :
      (f : Local → Local)
      → ((s : Local)
          → ((f s).actors ≡ s.actors)
            × ((f s).proxies ≡ s.proxies)
            × ((f s).report.cases ≡ s.report.cases))
      → ((s : Local) → (f s).report.stage ≡ s.report.stage)
      → Sure cases n stage (assign f)
  unfolding assign Ensures
  Sure-assign f same at = record {
    leads = record {
      at = λ h s p. record {
        tracked = (Keeps-assign f same).at h s p.tracked;
        stage_is = at s ∙ p.stage_is;
      };
    };
  }

  At-quiet :
      (h : History Answer) (s : Local) (c : Call) (r : Answer c)
      → new_clients c r ≡ []
      → new_proxies c r ≡ []
      → At cases n stage h s
      → At cases n stage (h ++ ((c, r) ∷ [])) s
  At-quiet h s c r nc np p = record {
    tracked = Tracked-quiet h s c r nc np p.tracked;
    stage_is = p.stage_is;
  }

  Sure-count : (client : ℕ) (kind : String) → Sure cases n stage (call (count client kind))
  unfolding count call followed_by Ensures
  Sure-count client kind = record {
    leads = record { at = λ h s p r. At-quiet h s _ r refl refl p };
  }

  Sure-attempts : (proxy : ℕ) → Sure cases n stage (call (attempts proxy))
  unfolding attempts call followed_by Ensures
  Sure-attempts proxy = record { leads = record { at = λ h s p r. At-quiet h s _ r refl refl p } }

  Sure-fixture_failures : (client : ℕ) → Sure cases n stage (call (fixture_failures client))
  unfolding fixture_failures call followed_by Ensures
  Sure-fixture_failures client = record {
    leads = record { at = λ h s p r. At-quiet h s _ r refl refl p };
  }

  Sure-collect :
      {A B : Type 0} (f : A → Script Answer Local B) (xs : List A)
      → ((a : A) → Sure cases n stage (f a))
      → Sure cases n stage (collect f xs)
  unfolding collect
  Sure-collect f [] k = Sure-give []
  Sure-collect f (x ∷ xs) k =
      Sure-bind (f x) _ (k x)
        (λ b. Sure-bind (collect f xs) _ (Sure-collect f xs k) (λ bs. Sure-give (b ∷ bs)))

  pub summarise-Sure : Sure cases n stage summarise
  unfolding summarise count_events count_kind
  summarise-Sure =
      search
        (
          Sure-bind, Sure-give, Sure-look_up, Sure-assign, Sure-count, Sure-attempts,
          Sure-fixture_failures, Sure-collect,
        )
        depth 16
