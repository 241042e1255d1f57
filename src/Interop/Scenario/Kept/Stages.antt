-- ===== src/Interop/Scenario/Kept/Stages.antt =====
-- What the stages keep before they report their cases.
use wu_kong_easy_sdk_csharp.Common.{ℕ, String, List}
use wu_kong_easy_sdk_csharp.Python.Coroutine.Leads.{Keeps}
use wu_kong_easy_sdk_csharp.Interop.Scenario.{Client}
use wu_kong_easy_sdk_csharp.Interop.Scenario.Clients.{Fixture}
use wu_kong_easy_sdk_csharp.Interop.Scenario.Stages.{reject_token}
use wu_kong_easy_sdk_csharp.Interop.Scenario.Certificates.{Trial, has_sent, reject_certificate}
use wu_kong_easy_sdk_csharp.Interop.Scenario.Faults.{
  Baseline, baseline, await_event, await_loss, check_retry, await_return, check_offline,
}
use wu_kong_easy_sdk_csharp.Interop.Scenario.Scenarios.{open_peers}
use wu_kong_easy_sdk_csharp.Interop.Scenario.Tracked.{Tracked, Keeps-assign}
use wu_kong_easy_sdk_csharp.Interop.Scenario.Kept.{
  keeps_rules, Keeps-is_connected, Keeps-has_counted, Keeps-has_attempted, Keeps-or_else,
}
use wu_kong_easy_sdk_csharp.Interop.Scenario.Kept.Opened.{Keeps-actor}

ruleset test_rules =
    (keeps_rules, Keeps-is_connected, Keeps-has_counted, Keeps-has_attempted, Keeps-or_else)

module _ {cases : List String} {n : ℕ} where
  pub Keeps-reject_token :
      (x : Fixture) (identity : String × String) → Keeps (Tracked cases n) (reject_token x identity)
  unfolding reject_token
  Keeps-reject_token x identity = search (test_rules, Keeps-actor, Keeps-assign) depth 14

  Keeps-has_sent : (proxy : ℕ) → Keeps (Tracked cases n) (has_sent proxy)
  unfolding has_sent
  Keeps-has_sent proxy = search keeps_rules depth 14

  pub Keeps-reject_certificate :
      (x : Fixture) (a : Trial) → Keeps (Tracked cases n) (reject_certificate x a)
  unfolding reject_certificate
  Keeps-reject_certificate x a =
      search (test_rules, Keeps-has_sent, Keeps-actor, Keeps-assign) depth 14

  pub Keeps-baseline : (c : Client) (proxy : ℕ) → Keeps (Tracked cases n) (baseline c proxy)
  unfolding baseline
  Keeps-baseline c proxy = search keeps_rules depth 14

  pub Keeps-await_event :
      (kind : String) (e : Client × ℕ) → Keeps (Tracked cases n) (await_event kind e)
  unfolding await_event
  Keeps-await_event kind e = search keeps_rules depth 14

  pub Keeps-await_loss : (b : Baseline) → Keeps (Tracked cases n) (await_loss b)
  unfolding await_loss
  Keeps-await_loss b = search (keeps_rules, Keeps-await_event) depth 14

  pub Keeps-check_retry : (b : Baseline) → Keeps (Tracked cases n) (check_retry b)
  unfolding check_retry
  Keeps-check_retry b = search keeps_rules depth 14

  pub Keeps-await_return : (b : Baseline) → Keeps (Tracked cases n) (await_return b)
  unfolding await_return
  Keeps-await_return b = search Keeps-await_event

  pub Keeps-check_offline : (e : Client × ℕ × ℕ × ℕ) → Keeps (Tracked cases n) (check_offline e)
  unfolding check_offline
  Keeps-check_offline e = search test_rules depth 14

  pub Keeps-open_peers : (x : Fixture) (c j : String) → Keeps (Tracked cases n) (open_peers x c j)
  unfolding open_peers
  Keeps-open_peers x c j = search (keeps_rules, Keeps-actor, Keeps-assign) depth 14
