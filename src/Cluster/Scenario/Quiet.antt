-- ===== src/Cluster/Scenario/Quiet.antt =====
-- Which calls of `cluster_scenarios` make neither clients nor nodes: all but two.
use wu_kong_easy_sdk_csharp.Common.{ℕ, String, Bool, Option, List, refl}
use wu_kong_easy_sdk_csharp.Python.Json.{Json}
use wu_kong_easy_sdk_csharp.Python.Coroutine.Asks.{Asks}
use wu_kong_easy_sdk_csharp.Interop.Actor.{Reject}
use wu_kong_easy_sdk_csharp.Cluster.Scenario.{Operation}
use wu_kong_easy_sdk_csharp.Cluster.Scenario.Calls.{
  start_node, stop_node, is_running, close_log, stable_slots, node_health, channel_ready,
  channel_inventory, set_token, create_channel, route, command, event, count, close_client,
  has_exited, wait_present, diagnose, wait_tasks, random_token, uuid, sleep,
}
use wu_kong_easy_sdk_csharp.Cluster.Scenario.Tracked.{Quiet}

pub Quiet-start_node : (node : ℕ) → Quiet (start_node node)
unfolding Asks start_node
Quiet-start_node node = λ r. ((refl, refl), tt)

pub Quiet-stop_node : (node : ℕ) (crash : Bool) → Quiet (stop_node node crash)
unfolding Asks stop_node
Quiet-stop_node node crash = λ r. ((refl, refl), tt)

pub Quiet-is_running : (node : ℕ) → Quiet (is_running node)
unfolding Asks is_running
Quiet-is_running node = λ r. ((refl, refl), tt)

pub Quiet-close_log : (node : ℕ) → Quiet (close_log node)
unfolding Asks close_log
Quiet-close_log node = λ r. ((refl, refl), tt)

pub Quiet-stable_slots : (alive : List ℕ) → Quiet (stable_slots alive)
unfolding Asks stable_slots
Quiet-stable_slots alive = λ r. ((refl, refl), tt)

pub Quiet-node_health : (at node : ℕ) (ready : Bool) → Quiet (node_health at node ready)
unfolding Asks node_health
Quiet-node_health at node ready = λ r. ((refl, refl), tt)

pub Quiet-channel_ready :
    (at : ℕ) (channel : Json) (alive : List ℕ) (type : ℕ) (complete : Bool)
    → Quiet (channel_ready at channel alive type complete)
unfolding Asks channel_ready
Quiet-channel_ready at channel alive type complete = λ r. ((refl, refl), tt)

pub Quiet-channel_inventory : (at : ℕ) → Quiet (channel_inventory at)
unfolding Asks channel_inventory
Quiet-channel_inventory at = λ r. ((refl, refl), tt)

pub Quiet-set_token : (uid token : String) → Quiet (set_token uid token)
unfolding Asks set_token
Quiet-set_token uid token = λ r. ((refl, refl), tt)

pub Quiet-create_channel :
    (channel : String) (subscribers : List String) → Quiet (create_channel channel subscribers)
unfolding Asks create_channel
Quiet-create_channel channel subscribers = λ r. ((refl, refl), tt)

pub Quiet-route : (node : ℕ) → Quiet (route node)
unfolding Asks route
Quiet-route node = λ r. ((refl, refl), tt)

pub Quiet-command :
    (client : ℕ) (op : Operation) (expect : Reject) → Quiet (command client op expect)
unfolding Asks command
Quiet-command client op expect = λ r. ((refl, refl), tt)

pub Quiet-event :
    (client : ℕ) (kind : String) (after : ℕ) (number : Option String)
    → Quiet (event client kind after number)
unfolding Asks event
Quiet-event client kind after number = λ r. ((refl, refl), tt)

pub Quiet-count : (client : ℕ) (kind : String) → Quiet (count client kind)
unfolding Asks count
Quiet-count client kind = λ r. ((refl, refl), tt)

pub Quiet-close_client : (client : ℕ) → Quiet (close_client client)
unfolding Asks close_client
Quiet-close_client client = λ r. ((refl, refl), tt)

pub Quiet-has_exited : (client : ℕ) → Quiet (has_exited client)
unfolding Asks has_exited
Quiet-has_exited client = λ r. ((refl, refl), tt)

pub Quiet-wait_present : (uids : List String) → Quiet (wait_present uids)
unfolding Asks wait_present
Quiet-wait_present uids = λ r. ((refl, refl), tt)

pub Quiet-diagnose : Quiet (diagnose)
unfolding Asks diagnose
Quiet-diagnose = λ r. ((refl, refl), tt)

pub Quiet-wait_tasks : Quiet (wait_tasks)
unfolding Asks wait_tasks
Quiet-wait_tasks = λ r. ((refl, refl), tt)

pub Quiet-random_token : Quiet (random_token)
unfolding Asks random_token
Quiet-random_token = λ r. ((refl, refl), tt)

pub Quiet-uuid : Quiet (uuid)
unfolding Asks uuid
Quiet-uuid = λ r. ((refl, refl), tt)

pub Quiet-sleep : (milliseconds : ℕ) → Quiet (sleep milliseconds)
unfolding Asks sleep
Quiet-sleep milliseconds = λ r. ((refl, refl), tt)

pub ruleset quiet_calls = (
  Quiet-start_node, Quiet-stop_node, Quiet-is_running, Quiet-close_log, Quiet-stable_slots,
  Quiet-node_health, Quiet-channel_ready, Quiet-channel_inventory, Quiet-set_token,
  Quiet-create_channel, Quiet-route, Quiet-command, Quiet-event, Quiet-count, Quiet-close_client,
  Quiet-has_exited, Quiet-wait_present, Quiet-diagnose, Quiet-wait_tasks, Quiet-random_token,
  Quiet-uuid, Quiet-sleep,
)
