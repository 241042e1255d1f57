-- ===== src/Examples/Sdk.antt =====
-- Valid options, a lost connection that is retried and a session with two requests.
use wu_kong_easy_sdk_csharp.Common.{
  ◌≤◌, true, false, none, some, List, [], ◌∷◌, ◌≡◌, ◌↔◌, refl, arith,
}
use wu_kong_easy_sdk_csharp.Python.Int.{pos}
use wu_kong_easy_sdk_csharp.Sdk.Options.{Options, Policy, validate, delay}
use wu_kong_easy_sdk_csharp.Sdk.Options.Valid.{Valid, validate_sound, delay_bounds}
use wu_kong_easy_sdk_csharp.Sdk.Supervisor
use wu_kong_easy_sdk_csharp.Sdk.Supervisor.{Ending, failed, lost, kicked, Pass, supervise}
use wu_kong_easy_sdk_csharp.Sdk.Supervisor.Retries.{InOrder, run_order, silent, supervise_stops}
use wu_kong_easy_sdk_csharp.Sdk.Requests
use wu_kong_easy_sdk_csharp.Sdk.Requests.{
  send, ping, begin, opened, Step, begun, entered, ponged, completed, left, released, Pending,
  receiver_failed, take_out, enter, leave, release, complete_next,
}
use wu_kong_easy_sdk_csharp.Sdk.Requests.Capacity.{in_flight, capacity_kept}
use wu_kong_easy_sdk_csharp.Sdk.Requests.Care.{Settled}
use wu_kong_easy_sdk_csharp.Sdk.Requests.Settled.{receiver_settles}
use mathlib.Core.List.{Memᴰ}

-- The defaults, in ticks.
abbrev defaults : Options
defaults = record {
  connect_timeout = pos 100000000;
  request_timeout = pos 150000000;
  ping_interval = pos 250000000;
  pong_timeout = pos 100000000;
  auto_reconnect = true;
  max_reconnect_attempts = pos 5;
  initial_reconnect_delay = pos 10000000;
  max_reconnect_delay = pos 300000000;
  max_pending_requests = pos 256;
  max_queued_events = pos 128;
  max_message_bytes = pos 1048576;
}

validate_sound_example : Valid defaults
unfolding validate
validate_sound_example = validate_sound defaults refl

abbrev policy : Policy
policy = record { auto_reconnect = true; max_attempts = 5; initial_delay = 1000; max_delay = 30000 }

-- The delays of the README: 1, 2, 4, 8, 16 seconds, and then at most 30.
delays : (delay policy 0 ≡ 1000) × (delay policy 4 ≡ 16000) × (delay policy 5 ≡ 30000)
unfolding delay
delays = (refl, refl, refl)

delay_bounds_example :
    (1000 ≤ delay policy 3) × (delay policy 3 ≤ 30000) × (delay policy 3 ≤ delay policy 4)
delay_bounds_example = delay_bounds policy 3 (omega arith)

abbrev pass : Ending → Pass
pass e = record { ending = e; stopped = false; stopped_in_delay = false }

abbrev passes : List Pass
passes = pass lost ∷ pass failed ∷ pass lost ∷ pass (kicked true) ∷ pass lost ∷ []

run_order_example : InOrder policy false 0 (Supervisor.run policy false passes).0
run_order_example = run_order policy false passes

supervise_stops_example :
    (supervise policy true 1 (pass (kicked true) ∷ passes)
      ≡ supervise policy true 1 (pass (kicked true) ∷ []))
    × (silent (supervise policy true 1 (pass (kicked true) ∷ passes)).0 ≡ true)
supervise_stops_example = supervise_stops policy true 1 (pass (kicked true)) passes refl

-- A send and a ping; the ping is answered and ends, and the send waits.
abbrev two_requests : List Step
two_requests =
    begun send ∷ entered 0 ∷ begun ping ∷ entered 1 ∷ ponged ∷ completed ∷ left 1 ∷ released ∷ []

capacity_kept_example :
    let s = Requests.run two_requests (opened 2) in
    (in_flight s ≤ 2) × ((begin send s ≡ none) ↔ (in_flight s ≡ 2))
capacity_kept_example = capacity_kept 2 two_requests send

abbrev waiting : Pending
waiting = record { id = 0; method = send; completion = some receiver_failed }

receiver_settles_example : Settled waiting
unfolding Requests.run Requests.step opened begin take_out enter leave release complete_next
receiver_settles_example =
    receiver_settles 2 two_requests (begun send ∷ completed ∷ []) waiting refl refl (Memᴰ.head refl)
      (omega arith) refl
