-- ===== src/Interop/Scenario/Quiet.antt =====
-- Which calls of `scenarios` make neither clients nor proxies: all but two.
use wu_kong_easy_sdk_csharp.Common.{ℕ, String, Bool, Option, refl}
use wu_kong_easy_sdk_csharp.Interop.Actor.{Reject}
use wu_kong_easy_sdk_csharp.Interop.Scenario.{Operation}
use wu_kong_easy_sdk_csharp.Interop.Scenario.Calls.{
  start_server, close_log, stop_server, set_token, command, event, count, fixture_failures,
  attempts, client_bytes, drop, enable, close_proxy, close_client, random_token, uuid, sleep,
}
use wu_kong_easy_sdk_csharp.Python.Coroutine.Asks.{Asks}
use wu_kong_easy_sdk_csharp.Interop.Scenario.Tracked.{Quiet}

pub Quiet-start_server : Quiet (start_server)
unfolding Asks start_server
Quiet-start_server = λ r. ((refl, refl), tt)

pub Quiet-close_log : Quiet (close_log)
unfolding Asks close_log
Quiet-close_log = λ r. ((refl, refl), tt)

pub Quiet-stop_server : (crash : Bool) → Quiet (stop_server crash)
unfolding Asks stop_server
Quiet-stop_server crash = λ r. ((refl, refl), tt)

pub Quiet-set_token : (uid token : String) → Quiet (set_token uid token)
unfolding Asks set_token
Quiet-set_token uid token = λ r. ((refl, refl), tt)

pub Quiet-command :
    (client : ℕ) (op : Operation) (expect : Reject) → Quiet (command client op expect)
unfolding Asks command
Quiet-command client op expect = λ r. ((refl, refl), tt)

pub Quiet-event :
    (client : ℕ) (kind : String) (after : ℕ) (number : Option String)
    → Quiet (event client kind after number)
unfolding Asks event
Quiet-event client kind after number = λ r. ((refl, refl), tt)

pub Quiet-count : (client : ℕ) (kind : String) → Quiet (count client kind)
unfolding Asks count
Quiet-count client kind = λ r. ((refl, refl), tt)

pub Quiet-fixture_failures : (client : ℕ) → Quiet (fixture_failures client)
unfolding Asks fixture_failures
Quiet-fixture_failures client = λ r. ((refl, refl), tt)

pub Quiet-attempts : (proxy : ℕ) → Quiet (attempts proxy)
unfolding Asks attempts
Quiet-attempts proxy = λ r. ((refl, refl), tt)

pub Quiet-client_bytes : (proxy : ℕ) → Quiet (client_bytes proxy)
unfolding Asks client_bytes
Quiet-client_bytes proxy = λ r. ((refl, refl), tt)

pub Quiet-drop : (proxy : ℕ) → Quiet (drop proxy)
unfolding Asks drop
Quiet-drop proxy = λ r. ((refl, refl), tt)

pub Quiet-enable : (proxy : ℕ) → Quiet (enable proxy)
unfolding Asks enable
Quiet-enable proxy = λ r. ((refl, refl), tt)

pub Quiet-close_proxy : (proxy : ℕ) → Quiet (close_proxy proxy)
unfolding Asks close_proxy
Quiet-close_proxy proxy = λ r. ((refl, refl), tt)

pub Quiet-close_client : (client : ℕ) → Quiet (close_client client)
unfolding Asks close_client
Quiet-close_client client = λ r. ((refl, refl), tt)

pub Quiet-random_token : Quiet (random_token)
unfolding Asks random_token
Quiet-random_token = λ r. ((refl, refl), tt)

pub Quiet-uuid : Quiet (uuid)
unfolding Asks uuid
Quiet-uuid = λ r. ((refl, refl), tt)

pub Quiet-sleep : (milliseconds : ℕ) → Quiet (sleep milliseconds)
unfolding Asks sleep
Quiet-sleep milliseconds = λ r. ((refl, refl), tt)

pub ruleset quiet_calls = (
  Quiet-start_server, Quiet-close_log, Quiet-stop_server, Quiet-set_token, Quiet-command,
  Quiet-event, Quiet-count, Quiet-fixture_failures, Quiet-attempts, Quiet-client_bytes, Quiet-drop,
  Quiet-enable, Quiet-close_proxy, Quiet-close_client, Quiet-random_token, Quiet-uuid, Quiet-sleep,
)
