-- ===== src/Cluster/Scenario/Closed/Outcome.antt =====
-- How a run of `cluster_scenarios` ends.
use wu_kong_easy_sdk_csharp.Common.{false, none, [], refl, ◌≢◌, ◌⊎◌, inl, inr}
use wu_kong_easy_sdk_csharp.Python.Result.{Exc, Result, ok, err}
use wu_kong_easy_sdk_csharp.Python.Text.{Unicode}
use wu_kong_easy_sdk_csharp.Python.Coroutine.{History, World, run}
use wu_kong_easy_sdk_csharp.Python.Coroutine.Script.{call}
use wu_kong_easy_sdk_csharp.Python.Coroutine.Ensures.{run-Ensures}
use wu_kong_easy_sdk_csharp.Python.Coroutine.Leads.{
  Assertion, After, Leads, Leads-bind, Leads-weaken, Leads-try_finally, Leads-try_except,
}
use wu_kong_easy_sdk_csharp.Python.Coroutine.Asks.{made, Leads-call_returns}
use wu_kong_easy_sdk_csharp.Cluster.Scenario.{Answer, Local}
use wu_kong_easy_sdk_csharp.Cluster.Scenario.Calls.{random_token}
use wu_kong_easy_sdk_csharp.Cluster.Scenario.Clients.{Network}
use wu_kong_easy_sdk_csharp.Cluster.Scenario.Run.{close_cluster, cluster_scenarios}
use wu_kong_easy_sdk_csharp.Cluster.Scenario.Tracked.{Neither, Tracked, Tracked-quiet}
use wu_kong_easy_sdk_csharp.Cluster.Scenario.Quiet.{Quiet-random_token}
use wu_kong_easy_sdk_csharp.Cluster.Scenario.Kept.{Keeps-cluster_body, Keeps-preserve}
use wu_kong_easy_sdk_csharp.Cluster.Scenario.Closed.{Closed, Cancelled}
use wu_kong_easy_sdk_csharp.Cluster.Scenario.Closed.Owned.{
  close_cluster-Closed, Returns-random_token,
}

-- The start of a run.
abbrev pub fresh : Local
fresh = record {
  nodes = [];
  actors = [];
  report = record {
    stage = "";
    cases = [];
    connections = [];
    connect_rejections = [];
    pending_exchange = none;
    exchanges = [];
    actors = [];
    owned_clients_stopped = false;
    owned_nodes_stopped = false;
  };
}

fresh-Tracked : Tracked [] fresh
unfolding made
fresh-Tracked = record { clients = refl; nodes = refl }

-- A token is made before the `try`: no call of it raises.
token-Tracked : {E : Assertion Answer Local} → Leads Tracked (call random_token) Tracked E
token-Tracked {E = E} =
    Leads-call_returns Neither Tracked E Tracked-quiet random_token Quiet-random_token
      Returns-random_token

-- How the `finally` ends.
abbrev pub Left : Assertion Answer Local
Left h s = Closed h s ⊎ Cancelled h

after_failure : Leads Tracked close_cluster Left Left
after_failure = Leads-weaken close_cluster (λ h s k. inl k) (λ h s k. inr k) close_cluster-Closed

cluster_scenarios-Closed :
    (u : Unicode) (net : Network) → Leads Tracked (cluster_scenarios u net) Closed Left
unfolding cluster_scenarios
cluster_scenarios-Closed u net = Leads-bind _ _ token-Tracked (λ c.
    Leads-bind _ _ token-Tracked (λ j. Leads-bind _ _ token-Tracked (λ o.
      Leads-try_finally _ _ (Leads-try_except _ _ (Keeps-cluster_body u net c j o) Keeps-preserve)
        (Leads-weaken close_cluster (λ h s k. k) (λ h s k. inr k) close_cluster-Closed)
        after_failure)))

err_lem : (e : Exc) → err e ≢ ok (tt {0})
err_lem e h = cc

-- How the run ends.
Ended : History Answer → Result (Unit {0}) × Local → Type 0
Ended h end = Closed h end.1 ⊎ (Cancelled h × (end.0 ≢ ok tt))

After-Ended :
    (h : History Answer) (end : Result (Unit {0}) × Local) → After Closed Left h end → Ended h end
unfolding Ended
After-Ended h (ok u, s) k = inl k
After-Ended h (err x, s) (inl k) = inl k
After-Ended h (err x, s) (inr k) = inr (k, err_lem x)

-- However the scenarios of the cluster end and whatever else raises, on the way or in the `finally`:
-- every client that was started has been told to close, then every node that was made to stop, and
-- then its log is closed; unless a cancellation reaches the `finally` at one of its waits, after which
-- it asks for nothing more of this, and the scenarios do not return.
pub cluster_scenarios_close :
    (u : Unicode) (net : Network) (w : World Answer)
    → let end = run w [] (cluster_scenarios u net fresh) in
      Closed end.1 end.0.1 ⊎ (Cancelled end.1 × (end.0.0 ≢ ok tt))
unfolding Ended
cluster_scenarios_close u net w = After-Ended _ _ (
    run-Ensures _ w (cluster_scenarios u net fresh) []
      ((cluster_scenarios-Closed u net).at [] fresh fresh-Tracked))
