-- ===== src/Examples/ClusterScenario.antt =====
-- A world in which the second node does not start.
use wu_kong_easy_sdk_csharp.Common.{ℕ, zero, suc, true, false, some, [], ◌≢◌, ◌⊎◌}
use wu_kong_easy_sdk_csharp.Python.Result.{Result, ok, err, timeout_error}
use wu_kong_easy_sdk_csharp.Python.Json.{null, end}
use wu_kong_easy_sdk_csharp.Python.Coroutine.{History, World, run}
use wu_kong_easy_sdk_csharp.Cluster.Scenario.{
  Call, Answer, make_node, start_node, stop_node, is_running, close_log, stable_slots, node_health,
  channel_ready, channel_inventory, set_token, create_channel, route, spawn, command, event, count,
  close_client, has_exited, wait_present, diagnose, wait_tasks, random_token, uuid, sleep,
}
use wu_kong_easy_sdk_csharp.Cluster.Scenario.Clients.{Network}
use wu_kong_easy_sdk_csharp.Cluster.Scenario.Run.{cluster_scenarios}
use wu_kong_easy_sdk_csharp.Cluster.Scenario.Closed.{Closed, Cancelled}
use wu_kong_easy_sdk_csharp.Cluster.Scenario.Closed.Outcome.{fresh, cluster_scenarios_close}
use wu_kong_easy_sdk_csharp.Examples.Ascii.{ascii}

abbrev starts : ℕ → Result (Unit {0})
starts (suc (suc zero)) = err timeout_error
starts node = ok tt

abbrev answer : History Answer → (c : Call) → Answer c
answer h (make_node node) = ok tt
answer h (start_node node) = starts node
answer h (stop_node node crash) = ok tt
answer h (is_running node) = false
answer h (close_log node) = tt
answer h (stable_slots alive) = ok null
answer h (node_health at node ready) = ok null
answer h (channel_ready at channel alive type complete) = ok null
answer h (channel_inventory at) = ok null
answer h (set_token uid token) = ok tt
answer h (create_channel channel subscribers) = ok tt
answer h (route node) = ok null
answer h (spawn language uid endpoint) = ok 0
answer h (command client op expect) = ok null
answer h (event client kind after number) = ok end
answer h (count client kind) = 0
answer h (close_client client) = ok tt
answer h (has_exited client) = true
answer h (wait_present uids) = ok tt
answer h diagnose = ok tt
answer h wait_tasks = ok tt
answer h random_token = "token"
answer h uuid = "c1"
answer h (sleep milliseconds) = ok tt

abbrev world : World Answer
world = record { answer = answer; turn = λ h. true }

abbrev network : Network
network = record {
  scheme = λ url. some "ws";
  hostname = λ url. some "127.0.0.1";
  port = λ url. some 5100;
  websocket = λ node. 5100;
}

cluster_scenarios_close_example :
    Closed
      (run world [] (cluster_scenarios ascii network fresh)).1
      (run world [] (cluster_scenarios ascii network fresh)).0.1
    ⊎ (Cancelled (run world [] (cluster_scenarios ascii network fresh)).1
        × ((run world [] (cluster_scenarios ascii network fresh)).0.0 ≢ ok tt))
cluster_scenarios_close_example = cluster_scenarios_close ascii network world
