-- ===== src/Interop/Scenario/Cleanup/Outcome.antt =====
-- How `scenarios` ends, whatever the server, the proxies and the clients do.
use wu_kong_easy_sdk_csharp.Common.{
  ℕ, String, Bool, false, false≢true, none, List, [], ◌++◌, append-nil, take, ◌+◌, ◌≡◌, refl, sym,
  ap, arith, ◌∙◌, ◌⊎◌, inl, inr,
}
use wu_kong_easy_sdk_csharp.Python.Result.{Result, ok, err}
use wu_kong_easy_sdk_csharp.Python.Text.{Unicode}
use wu_kong_easy_sdk_csharp.Python.Coroutine.{History, World, run}
use wu_kong_easy_sdk_csharp.Python.Coroutine.Script.{◌>>◌}
use wu_kong_easy_sdk_csharp.Python.Coroutine.Ensures.{run-Ensures}
use wu_kong_easy_sdk_csharp.Python.Coroutine.Leads.{
  After, Leads, Leads-bind, Leads-weaken, Leads-try_finally,
}
use wu_kong_easy_sdk_csharp.Interop.Scenario.{Call, Answer, Local}
use wu_kong_easy_sdk_csharp.Interop.Scenario.Clients.{Fixture}
use wu_kong_easy_sdk_csharp.Interop.Scenario.Scenarios.{summarise, clean_up, scenarios}
use wu_kong_easy_sdk_csharp.Python.Coroutine.Asks.{made}
use wu_kong_easy_sdk_csharp.Interop.Scenario.Tracked.{new_clients, new_proxies, Tracked}
use wu_kong_easy_sdk_csharp.Interop.Scenario.Complete.{Ended, Completed}
use wu_kong_easy_sdk_csharp.Interop.Scenario.Complete.Body.{all_cases, first_case, body-Completed}
use wu_kong_easy_sdk_csharp.Interop.Scenario.Cleanup.{
  asked, Interrupted, closing_calls, clean_up-Closing,
}
use wu_kong_easy_sdk_csharp.Interop.Scenario.Cleanup.Sure.{At, summarise-Sure}
use mathlib.Core.Path.{subst}

-- The last calls close every client and every proxy that the history shows to have been made, in order,
-- and stop the server.
pub record CleanedUp (h : History Answer) : Type 0 where
  pub before : List Call
  pub calls : asked h ≡ before ++ closing_calls (made new_clients h) (made new_proxies h)

-- What `clean_up` leaves, if the lists of clients and proxies agree with the history.
clean_up-CleanedUp :
    (cases : List String) (n : ℕ) (F : Local → Type 0)
    → Leads
        (λ h s. Tracked cases n h s × F s)
        clean_up
        (λ h s. CleanedUp h × F s)
        (λ h s. Interrupted h × F s)
clean_up-CleanedUp cases n F = record {
  at = λ h s (t, f).
      (Leads-weaken clean_up
          (λ h' s' k. (
            record {
              before = asked h;
              calls =
                  k.calls
                  ∙ ap (λ cs. asked h ++ cs)
                      (ap (λ cs. closing_calls cs s.proxies) (t.clients ∙ sym k.clients)
                        ∙ ap (λ ps. closing_calls (made new_clients h') ps)
                            (t.proxies ∙ sym k.proxies));
            },
            subst F (sym k.same) f,
          ))
          (λ h' s' b. (b.interrupted, subst F (sym b.same) f)) (clean_up-Closing h s)).at
        h s
        (record {
          same = refl;
          calls = sym (append-nil (asked h));
          clients = refl;
          proxies = refl;
        });
}

-- The cases that a run has reported are the first of the list.
pub record Reported (cases : List String) (s : Local) : Type 0 where
  pub number : ℕ
  pub reported : s.report.cases ≡ take number cases

-- How a run ends: cleaned up, unless a call of the cleaning raised.
abbrev pub Left : History Answer → Type 0
Left h = CleanedUp h ⊎ Interrupted h

-- The report has the first n cases and a stage.
record Shows (cases : List String) (n : ℕ) (stage : String) (s : Local) : Type 0 where
  reported : s.report.cases ≡ take n cases
  stage_is : s.report.stage ≡ stage

-- The `finally`, from any stage on.
finally_Leads :
    (cases : List String) (n : ℕ) (stage : String)
    → Leads
        (At cases n stage)
        (summarise >> clean_up)
        (λ h s. CleanedUp h × Shows cases n stage s)
        (λ h s. Interrupted h × Shows cases n stage s)
finally_Leads cases n stage =
    Leads-bind summarise _
      (Leads-weaken summarise
        (λ h s p. (p.tracked, record { reported = p.tracked.reported; stage_is = p.stage_is }))
        (λ h s p. absurd (false≢true p)) summarise-Sure.leads)
      (λ u. clean_up-CleanedUp cases n (Shows cases n stage))

after_success :
    (cases : List String) (n : ℕ)
    → Leads
        (Completed cases n)
        (summarise >> clean_up)
        (λ h s. CleanedUp h × Shows cases n "completed" s)
        (λ h s. Left h × Reported cases s)
after_success cases n = record {
  at = λ h s p.
      (Leads-weaken _ (λ h s q. q)
          (λ h s (i, k). (inr i, record { number = n; reported = k.reported }))
          (finally_Leads cases n "completed")).at
        h s (record { tracked = p.tracked; stage_is = p.stage });
}

after_failure :
    (cases : List String)
    → Leads
        (Ended cases)
        (summarise >> clean_up)
        (λ h s. Left h × Reported cases s)
        (λ h s. Left h × Reported cases s)
after_failure cases = record {
  at = λ h s p.
      (Leads-weaken _ (λ h s (i, k). (inl i, record { number = p.number; reported = k.reported }))
          (λ h s (i, k). (inr i, record { number = p.number; reported = k.reported }))
          (finally_Leads cases p.number s.report.stage)).at
        h s (record { tracked = p.tracked; stage_is = refl });
}

scenarios-Leads :
    (u : Unicode) (x : Fixture)
    → Leads
        (Tracked (all_cases x.trust) 0)
        (scenarios u x)
        (λ h s. CleanedUp h × Shows (all_cases x.trust) (5 + first_case x.trust) "completed" s)
        (λ h s. Left h × Reported (all_cases x.trust) s)
unfolding scenarios
scenarios-Leads u x =
    Leads-try_finally _ _ (body-Completed u x) (after_success _ _) (after_failure _)

all_of : (trust : Bool) → take (5 + first_case trust) (all_cases trust) ≡ all_cases trust
all_of trust = ground arith

-- The start of a run.
abbrev pub fresh : Local
fresh = record {
  actors = [];
  proxies = [];
  report = record {
    stage = "";
    cases = [];
    browser = none;
    certificate_rejections = [];
    tls = false;
    actors = [];
    fixture_failures = [];
    proxy_attempts = [];
  };
}

fresh-Tracked : (cases : List String) → Tracked cases 0 [] fresh
unfolding made
fresh-Tracked cases = record { clients = refl; proxies = refl; reported = refl }

scenarios_end :
    (u : Unicode) (x : Fixture) (w : World Answer)
    → After
        (λ h s. CleanedUp h × Shows (all_cases x.trust) (5 + first_case x.trust) "completed" s)
        (λ h s. Left h × Reported (all_cases x.trust) s)
        (run w [] (scenarios u x fresh)).1
        (run w [] (scenarios u x fresh)).0
scenarios_end u x w =
    run-Ensures _ w (scenarios u x fresh) [] ((scenarios-Leads u x).at [] fresh (fresh-Tracked _))

After-Left :
    (cases : List String) (n : ℕ) (h : History Answer) (end : Result (Unit {0}) × Local)
    → After
        (λ h s. CleanedUp h × Shows cases n "completed" s)
        (λ h s. Left h × Reported cases s)
        h
        end
    → Left h × Reported cases end.1
After-Left cases n h (ok u, s) (c, p) = (inl c, record { number = n; reported = p.reported })
After-Left cases n h (err e, s) q = q

-- However the scenarios end, in whatever order the tasks run and whatever they are answered: every
-- client and every proxy that was made is closed, in order, and the server is stopped, unless one of
-- these calls raises, which then is the last; and the reported cases are the first of the list.
pub scenarios_clean_up :
    (u : Unicode) (x : Fixture) (w : World Answer)
    → let end = run w [] (scenarios u x fresh) in
      (CleanedUp end.1 ⊎ Interrupted end.1) × Reported (all_cases x.trust) end.0.1
scenarios_clean_up u x w = After-Left _ _ _ _ (scenarios_end u x w)

-- If the scenarios return, all their cases are reported, the stage is "completed", and every client and
-- every proxy that was made is closed, in order, and the server is stopped.
pub scenarios_pass :
    (u : Unicode) (x : Fixture) (w : World Answer) (s : Local) (h : History Answer)
    → run w [] (scenarios u x fresh) ≡ ((ok tt, s), h)
    → (s.report.cases ≡ all_cases x.trust) × (s.report.stage ≡ "completed") × CleanedUp h
scenarios_pass u x w s h e =
    let (c, p) =
      subst
        (λ end.
          After
            (λ h s. CleanedUp h × Shows (all_cases x.trust) (5 + first_case x.trust) "completed" s)
            (λ h s. Left h × Reported (all_cases x.trust) s) end.1 end.0)
        e (scenarios_end u x w) in
    (p.reported ∙ all_of x.trust, p.stage_is, c)
