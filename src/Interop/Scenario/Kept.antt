-- ===== src/Interop/Scenario/Kept.antt =====
-- What the parts of the stages keep: the lists of clients and proxies agree with the history, and no
-- case is reported.
pub mod Opened
pub mod Stages
use wu_kong_easy_sdk_csharp.Common.{
  ℕ, String, Bool, true, false, ◌&&◌, Option, none, some, List, [], ◌∷◌, ◌++◌, map, take, ◌≡◌, refl,
  sym, ap, ◌∙◌, str_eq,
}
use wu_kong_easy_sdk_csharp.Python.Result.{Exc, Result, ok, err}
use wu_kong_easy_sdk_csharp.Python.Json.{Json}
use wu_kong_easy_sdk_csharp.Python.Text.{Unicode}
use wu_kong_easy_sdk_csharp.Python.Coroutine.{
  Coroutine, done, ask, choose, History, followed_by, gather,
}
use wu_kong_easy_sdk_csharp.Python.Coroutine.Script.{
  Script, give, resume, raise_when, from_result, ◌>>=◌, ◌>>◌, call, assign,
}
use wu_kong_easy_sdk_csharp.Python.Coroutine.Ensures.{Ensures}
use wu_kong_easy_sdk_csharp.Python.Coroutine.Leads.{
  After, Leads, Keeps, Keeps-bind, Keeps-give, Keeps-raise, Keeps-from_result, Keeps-raise_when,
  Keeps-look_up, Keeps-if, Keeps-each,
}
use wu_kong_easy_sdk_csharp.Interop.Scenario.{Call, Answer, Client, Report, Local, Operation}
use wu_kong_easy_sdk_csharp.Interop.Scenario.Clients.{
  Fixture, invalid_page, open_proxy, open_client, check_page, actor, exchange, exchanging, greeting,
  pair,
}
use wu_kong_easy_sdk_csharp.Interop.Scenario.Stages.{
  is_connected, or_else, has_counted, has_attempted, commanding, ignore, both, Peers,
}
use wu_kong_easy_sdk_csharp.Python.Coroutine.Asks.{
  made, made-append, made_same, Asks-gather, Asks-followed_by, Asks,
}
use wu_kong_easy_sdk_csharp.Interop.Scenario.Tracked.{
  Neither, new_clients, new_proxies, Quiet, Tracked, Tracked-quiet, Keeps-call, Keeps-assign,
}
use wu_kong_easy_sdk_csharp.Interop.Scenario.Calls.{start_proxy, spawn}
use wu_kong_easy_sdk_csharp.Interop.Scenario.Quiet.{quiet_calls, Quiet-command}

pub ruleset keeps_rules = (
  Keeps-bind, Keeps-give, Keeps-raise, Keeps-from_result, Keeps-raise_when, Keeps-look_up, Keeps-if,
  Keeps-each, Keeps-call, quiet_calls,
)

Quiet-ignore : {A : Type 0} (r : Result A) → Quiet (ignore r)
unfolding Asks
Quiet-ignore (ok a) = tt
Quiet-ignore (err e) = tt

Quiet-commanding : (op : Operation) (c : Client) → Quiet (commanding op c)
unfolding commanding
Quiet-commanding op c = Asks-followed_by Neither _ ignore (Quiet-command c.handle op _) Quiet-ignore

module _ {cases : List String} {n : ℕ} where
  pub Keeps-is_connected : (c : Client) → Keeps (Tracked cases n) (is_connected c)
  unfolding is_connected
  Keeps-is_connected c = search keeps_rules

  pub Keeps-has_counted :
      (c : Client) (kind : String) (k : ℕ) → Keeps (Tracked cases n) (has_counted c kind k)
  unfolding has_counted
  Keeps-has_counted c kind k = search keeps_rules

  pub Keeps-has_attempted : (p k : ℕ) → Keeps (Tracked cases n) (has_attempted p k)
  unfolding has_attempted
  Keeps-has_attempted p k = search keeps_rules

  pub Keeps-or_else :
      (a b : Script Answer Local Bool)
      → Keeps (Tracked cases n) a
      → Keeps (Tracked cases n) b
      → Keeps (Tracked cases n) (or_else a b)
  unfolding or_else
  Keeps-or_else a b ka kb = search keeps_rules

  pub Keeps-check_page : (c : Client) → Keeps (Tracked cases n) (check_page c)
  unfolding check_page
  Keeps-check_page c = search (keeps_rules, Keeps-assign)

  pub Keeps-both : (op : Operation) (p : Peers) → Keeps (Tracked cases n) (both op p)
  unfolding both
  Keeps-both op p = search (keeps_rules, Asks-gather, Quiet-commanding)
