-- ===== src/Cluster/Scenario/Run.antt =====
-- How `cluster_scenarios` runs its `try` and what it does when that has ended.
use wu_kong_easy_sdk_csharp.Common.{
  ℕ, String, Bool, true, false, not, List, [], ◌∷◌, map, all, str_eq, if◌then◌else◌,
}
use wu_kong_easy_sdk_csharp.Python.Result.{Exc, raised, system_exit}
use wu_kong_easy_sdk_csharp.Python.Text.{Unicode}
use wu_kong_easy_sdk_csharp.Python.Coroutine.Script.{
  Script, give, raise, ◌>>=◌, ◌>>◌, assign, look_up, each, call, gathered, try_finally, try_except,
}
use wu_kong_easy_sdk_csharp.Cluster.Scenario.{Answer, Client, Local}
use wu_kong_easy_sdk_csharp.Cluster.Scenario.Calls.{
  stop_node, is_running, close_log, count, close_client, has_exited, diagnose, random_token,
}
use wu_kong_easy_sdk_csharp.Cluster.Scenario.Clients.{Network}
use wu_kong_easy_sdk_csharp.Cluster.Scenario.Body.{Stage, gather_settled, cluster_body}

-- `except Exception` does not catch a cancellation or an exit.
abbrev pub is_exception : Exc → Bool
is_exception (system_exit message) = false
is_exception (raised name) = not (str_eq name "CancelledError")
is_exception e = true

-- The evidence is collected and the exception is raised again.
unfoldable pub preserve : Exc → Stage
preserve e = if is_exception e then (call diagnose >> raise e) else raise e

abbrev pub kinds : List String
kinds = "connected" ∷ "disconnected" ∷ "reconnecting" ∷ "error" ∷ "message" ∷ []

unfoldable pub count_kind : Client → String → Script Answer Local (String × ℕ)
count_kind client kind = call (count client.handle kind) >>= (λ n. give (kind, n))

unfoldable pub count_events : Client → Script Answer Local (String × ℕ × List (String × ℕ))
count_events client =
    gathered (count_kind client) kinds >>= (λ counts. give (client.language, client.node, counts))

-- What is reported of the clients and nodes after they have been closed.
unfoldable pub check_stopped : List Client → List ℕ → Stage
check_stopped clients nodes = do
  exited ← gathered (λ c. call (has_exited c.handle)) clients
  assign
      (λ s. record s { report = record s.report { owned_clients_stopped = all (λ b. b) exited } })
  running ← gathered (λ n. call (is_running n)) nodes
  assign (λ s. record s { report = record s.report { owned_nodes_stopped = all not running } })

unfoldable pub close_owned : List Client → Stage
close_owned clients = do
  closes ← gather_settled (map (λ c. close_client c.handle) clients)
  nodes ← look_up (λ s. s.nodes)
  stops ← gather_settled (map (λ n. stop_node n false) nodes)
  each (λ n. call (close_log n)) nodes
  check_stopped clients nodes

-- The `finally`.
unfoldable pub close_cluster : Stage
close_cluster = do
  clients ← look_up (λ s. s.actors)
  counts ← gathered count_events clients
  assign (λ s. record s { report = record s.report { actors = counts } })
  close_owned clients

unfoldable pub cluster_scenarios : Unicode → Network → Stage
cluster_scenarios u net = do
  c ← call random_token
  j ← call random_token
  o ← call random_token
  try_finally (try_except (cluster_body u net c j o) preserve) close_cluster
