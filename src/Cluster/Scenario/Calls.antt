-- ===== src/Cluster/Scenario/Calls.antt =====
-- The calls of `cluster_scenarios` as coroutines of one call.
use wu_kong_easy_sdk_csharp.Common.{ℕ, String, Bool, Option, List}
use wu_kong_easy_sdk_csharp.Python.Result.{Result, ok}
use wu_kong_easy_sdk_csharp.Python.Json.{Json, Fields}
use wu_kong_easy_sdk_csharp.Python.Coroutine.{Coroutine, done, ask}
use wu_kong_easy_sdk_csharp.Interop.Actor.{Reject}
use wu_kong_easy_sdk_csharp.Cluster.Scenario.{Operation, Call, Answer}

unfoldable pub make_node : (node : ℕ) → Coroutine Answer (Result (Unit {0}))
make_node node = ask (Call.make_node node) done

unfoldable pub start_node : (node : ℕ) → Coroutine Answer (Result (Unit {0}))
start_node node = ask (Call.start_node node) done

unfoldable pub stop_node : (node : ℕ) (crash : Bool) → Coroutine Answer (Result (Unit {0}))
stop_node node crash = ask (Call.stop_node node crash) done

unfoldable pub is_running : (node : ℕ) → Coroutine Answer (Result Bool)
is_running node = ask (Call.is_running node) (λ a. done (ok a))

unfoldable pub close_log : (node : ℕ) → Coroutine Answer (Result (Unit {0}))
close_log node = ask (Call.close_log node) (λ a. done (ok a))

unfoldable pub stable_slots : (alive : List ℕ) → Coroutine Answer (Result Json)
stable_slots alive = ask (Call.stable_slots alive) done

unfoldable pub node_health : (at node : ℕ) (ready : Bool) → Coroutine Answer (Result Json)
node_health at node ready = ask (Call.node_health at node ready) done

unfoldable pub channel_ready :
    (at : ℕ) (channel : Json) (alive : List ℕ) (type : ℕ) (complete : Bool)
    → Coroutine Answer (Result Json)
channel_ready at channel alive type complete =
    ask (Call.channel_ready at channel alive type complete) done

unfoldable pub channel_inventory : (at : ℕ) → Coroutine Answer (Result Json)
channel_inventory at = ask (Call.channel_inventory at) done

unfoldable pub set_token : (uid token : String) → Coroutine Answer (Result (Unit {0}))
set_token uid token = ask (Call.set_token uid token) done

unfoldable pub create_channel :
    (channel : String) (subscribers : List String) → Coroutine Answer (Result (Unit {0}))
create_channel channel subscribers = ask (Call.create_channel channel subscribers) done

unfoldable pub route : (node : ℕ) → Coroutine Answer (Result Json)
route node = ask (Call.route node) done

unfoldable pub spawn : (language uid : String) (endpoint : Json) → Coroutine Answer (Result ℕ)
spawn language uid endpoint = ask (Call.spawn language uid endpoint) done

unfoldable pub command : (client : ℕ) → Operation → Reject → Coroutine Answer (Result Json)
command client op expect = ask (Call.command client op expect) done

unfoldable pub event :
    (client : ℕ) (kind : String) (after : ℕ) (client_msg_no : Option String)
    → Coroutine Answer (Result Fields)
event client kind after number = ask (Call.event client kind after number) done

unfoldable pub count : (client : ℕ) (kind : String) → Coroutine Answer (Result ℕ)
count client kind = ask (Call.count client kind) (λ a. done (ok a))

unfoldable pub close_client : (client : ℕ) → Coroutine Answer (Result (Unit {0}))
close_client client = ask (Call.close_client client) done

unfoldable pub has_exited : (client : ℕ) → Coroutine Answer (Result Bool)
has_exited client = ask (Call.has_exited client) (λ a. done (ok a))

unfoldable pub wait_present : (uids : List String) → Coroutine Answer (Result (Unit {0}))
wait_present uids = ask (Call.wait_present uids) done

unfoldable pub diagnose : Coroutine Answer (Result (Unit {0}))
diagnose = ask Call.diagnose done

unfoldable pub wait_tasks : Coroutine Answer (Result (Unit {0}))
wait_tasks = ask Call.wait_tasks done

unfoldable pub random_token : Coroutine Answer (Result String)
random_token = ask Call.random_token (λ a. done (ok a))

unfoldable pub uuid : Coroutine Answer (Result String)
uuid = ask Call.uuid (λ a. done (ok a))

unfoldable pub sleep : (milliseconds : ℕ) → Coroutine Answer (Result (Unit {0}))
sleep milliseconds = ask (Call.sleep milliseconds) done
