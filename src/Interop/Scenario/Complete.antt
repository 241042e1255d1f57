-- ===== src/Interop/Scenario/Complete.antt =====
-- How far the scenarios have come: each stage reports its case at its end.
pub mod Body
use wu_kong_easy_sdk_csharp.Common.{
  ℕ, suc, String, Bool, true, false, List, [], ◌∷◌, ◌++◌, take, ◌≡◌, refl, ap, sym, ◌∙◌,
  if◌then◌else◌,
}
use wu_kong_easy_sdk_csharp.Python.Text.{Unicode}
use wu_kong_easy_sdk_csharp.Python.Coroutine.{History}
use wu_kong_easy_sdk_csharp.Python.Coroutine.Script.{Script, ◌>>=◌, ◌>>◌, assign, give}
use wu_kong_easy_sdk_csharp.Python.Coroutine.Ensures.{Ensures}
use wu_kong_easy_sdk_csharp.Python.Coroutine.Leads.{
  Assertion, Leads, Leads-bind, Leads-weaken, Keeps, Keeps-give,
}
use wu_kong_easy_sdk_csharp.Interop.Scenario.{Answer, Client, Local, Operation, set_stage, add_case}
use wu_kong_easy_sdk_csharp.Interop.Scenario.Clients.{Fixture}
use wu_kong_easy_sdk_csharp.Interop.Scenario.Stages.{Peers, Stage, initial, invalid_tokens}
use wu_kong_easy_sdk_csharp.Interop.Scenario.Certificates.{reject_certificates}
use wu_kong_easy_sdk_csharp.Interop.Scenario.Faults.{
  recover_network, restart_server, disconnect_manually,
}
use wu_kong_easy_sdk_csharp.Interop.Scenario.Scenarios.{open_peers, body}
use wu_kong_easy_sdk_csharp.Python.Coroutine.Asks.{Asks-gather, Asks}
use wu_kong_easy_sdk_csharp.Interop.Scenario.Tracked.{Tracked, Keeps-assign}
use wu_kong_easy_sdk_csharp.Interop.Scenario.Kept.{keeps_rules, Keeps-both}
use wu_kong_easy_sdk_csharp.Interop.Scenario.Kept.Opened.{Keeps-pair, Quiet-exchanging}
use wu_kong_easy_sdk_csharp.Interop.Scenario.Kept.Stages.{
  Keeps-reject_token, Keeps-reject_certificate, Keeps-baseline, Keeps-await_event, Keeps-await_loss,
  Keeps-check_retry, Keeps-await_return, Keeps-check_offline, Keeps-open_peers,
}

-- A run that has ended anywhere: some of the cases, from the first on, are reported.
pub record Ended (cases : List String) (h : History Answer) (s : Local) : Type 0 where
  pub number : ℕ
  pub tracked : Tracked cases number h s

-- A run that has come through.
pub record Completed (cases : List String) (n : ℕ) (h : History Answer) (s : Local) : Type 0 where
  pub tracked : Tracked cases n h s
  pub stage : s.report.stage ≡ "completed"

module _ {cases : List String} {n : ℕ} where
  -- A step of a stage, before its case is reported.
  pub Stage-step :
      {A B : Type 0} {R : Assertion Answer Local} (m : Script Answer Local A)
      (f : A → Script Answer Local B)
      → Keeps (Tracked cases n) m
      → ((a : A) → Leads (Tracked cases n) (f a) R (Ended cases))
      → Leads (Tracked cases n) (m >>= f) R (Ended cases)
  Stage-step m f km lf =
      Leads-bind m f (Leads-weaken m (λ h s t. t) (λ h s t. record { number = n; tracked = t }) km)
        lf

  Stage-report :
      (name : String)
      → take (suc n) cases ≡ take n cases ++ (name ∷ [])
      → Leads (Tracked cases n) (assign (add_case name)) (Tracked cases (suc n)) (Ended cases)
  unfolding assign Ensures
  Stage-report name e = record {
    at = λ h s t. record {
      clients = t.clients;
      proxies = t.proxies;
      reported = ap (λ cs. cs ++ (name ∷ [])) t.reported ∙ sym e;
    };
  }

-- The case that the next stage reports.
abbrev pub Next : List String → ℕ → String → Type 0
Next cases n name = take (suc n) cases ≡ take n cases ++ (name ∷ [])

abbrev pub Through : List String → ℕ → Stage → Type 0
Through cases n m = Leads (Tracked cases n) m (Tracked cases (suc n)) (Ended cases)

module _ {cases : List String} {n : ℕ} where
  Stage-report_then :
      (name : String) (m : Stage)
      → Next cases n name
      → Keeps (Tracked cases (suc n)) m
      → Through cases n (assign (add_case name) >> m)
  Stage-report_then name m e k =
      Leads-bind _ _ (Stage-report name e)
        (λ u. Leads-weaken m (λ h s t. t) (λ h s t. record { number = suc n; tracked = t }) k)

  complete_stage :
      Leads
        (Tracked cases (suc n))
        (assign (set_stage "completed"))
        (Completed cases (suc n))
        (Ended cases)
  unfolding assign Ensures
  complete_stage = record {
    at = λ h s t. record {
      tracked = record { clients = t.clients; proxies = t.proxies; reported = t.reported };
      stage = refl;
    };
  }

  complete :
      (name : String)
      → Next cases n name
      → Leads
          (Tracked cases n)
          (assign (add_case name) >> assign (set_stage "completed"))
          (Completed cases (suc n))
          (Ended cases)
  complete name e = Leads-bind _ _ (Stage-report name e) (λ u. complete_stage)

  pub initial-Through :
      (u : Unicode) (p : Peers)
      → Next cases n "bidirectional Unicode/custom payload and exact SENDACK/RECV correlation"
      → Through cases n (initial u p)
  unfolding initial
  initial-Through u p e =
      search (Stage-step, Stage-report, keeps_rules, Keeps-both, Keeps-pair, Quiet-exchanging) depth
        20

  pub invalid_tokens-Through :
      (x : Fixture)
      → Next cases n "both SDKs reject invalid Token without reconnect"
      → Through cases n (invalid_tokens x)
  unfolding invalid_tokens
  invalid_tokens-Through x e =
      search (Stage-step, Stage-report, keeps_rules, Keeps-reject_token) depth 20

  pub recover_network-Through :
      (u : Unicode) (p : Peers)
      → Next cases n "automatic reconnect after interrupted network and one failed retry"
      → Through cases n (recover_network u p)
  unfolding recover_network
  recover_network-Through u p e =
      search
        (
          Stage-step, Stage-report, keeps_rules, Keeps-baseline, Keeps-assign, Keeps-await_loss,
          Keeps-check_retry, Keeps-await_return, Keeps-pair,
        )
        depth 20

  pub restart_server-Through :
      (u : Unicode) (p : Peers)
      → Next cases n
          "automatic reconnect and bidirectional messages after real server crash/restart"
      → Through cases n (restart_server u p)
  unfolding restart_server
  restart_server-Through u p e =
      search (Stage-step, Stage-report, keeps_rules, Keeps-assign, Keeps-await_event, Keeps-pair)
        depth 20

  pub reject_certificates-Through :
      (x : Fixture) (c j : String)
      → Next cases n "C# and Chromium reject untrusted CA and mismatched host certificates"
      → Through cases n (reject_certificates x c j)
  unfolding reject_certificates
  reject_certificates-Through x c j e =
      search (Stage-step, Stage-report_then, keeps_rules, Keeps-assign, Keeps-reject_certificate)
        depth 20

  pub disconnect_manually-Completed :
      (u : Unicode) (p : Peers)
      → Next cases n
          "manual disconnect stops reconnect, rejects offline SEND, and allows explicit reconnect"
      → Leads (Tracked cases n) (disconnect_manually u p) (Completed cases (suc n)) (Ended cases)
  unfolding disconnect_manually
  disconnect_manually-Completed u p e =
      search
        (
          Stage-step, complete, keeps_rules, Keeps-assign, Keeps-both, Keeps-check_offline,
          Keeps-pair,
        )
        depth 20
