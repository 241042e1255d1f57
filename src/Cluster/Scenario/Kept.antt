-- ===== src/Cluster/Scenario/Kept.antt =====
-- What the functions of `cluster_scenarios` keep: the lists of clients and nodes agree with the history.
use wu_kong_easy_sdk_csharp.Common.{map, ℕ, zero, suc, String, Bool, List, [], ◌∷◌}
use wu_kong_easy_sdk_csharp.Python.Result.{Exc, Result}
use wu_kong_easy_sdk_csharp.Python.Text.{Unicode}
use wu_kong_easy_sdk_csharp.Python.Json.{Json, Fields}
use wu_kong_easy_sdk_csharp.Python.Coroutine.{Coroutine}
use wu_kong_easy_sdk_csharp.Python.Coroutine.Script.{Script, attempt, settled}
use wu_kong_easy_sdk_csharp.Python.Coroutine.Leads.{
  Assertion, Keeps, Keeps-bind, Keeps-give, script_rules,
}
use wu_kong_easy_sdk_csharp.Cluster.Scenario.{Answer, Client, Local}
use wu_kong_easy_sdk_csharp.Cluster.Scenario.Clients.{
  Network, Identity, retire, login_round, login_loop, actor, receive, exchange, messaging,
}
use wu_kong_easy_sdk_csharp.Cluster.Scenario.Run.{preserve}
use wu_kong_easy_sdk_csharp.Python.Coroutine.Asks.{Leads-attempt}
use wu_kong_easy_sdk_csharp.Cluster.Scenario.Calls.{start_node}
use wu_kong_easy_sdk_csharp.Cluster.Scenario.Body.{
  all_nodes, gather_settled, bootstrap, create_accounts, await_loss, await_survivors, restart_node,
  failover, rejoin, failovers, cluster_body,
}
use wu_kong_easy_sdk_csharp.Cluster.Scenario.Tracked.{
  Neither, Quiet, Tracked, Tracked-quiet, Keeps-call, Keeps-assign, Keeps-open_client,
  Keeps-add_node,
}
use wu_kong_easy_sdk_csharp.Cluster.Scenario.Quiet.{quiet_calls, Quiet-start_node}

pub ruleset keeps_rules = (script_rules, Keeps-call, Keeps-assign, quiet_calls)

Keeps-retire :
    (who : Identity) (recovery : Bool) (c : Client) (result : Fields)
    → Keeps Tracked (retire who recovery c result)
unfolding retire
Keeps-retire who recovery c result = search keeps_rules depth 12

Keeps-login_round :
    (who : Identity) (recovery : Bool) (endpoint : Json) (again : Script Answer Local Client)
    → Keeps Tracked again
    → Keeps Tracked (login_round who recovery endpoint again)
unfolding login_round
Keeps-login_round who recovery endpoint again k =
    search (keeps_rules, Keeps-open_client, Keeps-retire) depth 14

Keeps-login_loop :
    (who : Identity) (recovery : Bool) (endpoint : Json) (n : ℕ)
    → Keeps Tracked (login_loop who recovery endpoint n)
unfolding login_loop
Keeps-login_loop who recovery endpoint zero = search keeps_rules
Keeps-login_loop who recovery endpoint (suc n) =
    Keeps-login_round who recovery endpoint _ (Keeps-login_loop who recovery endpoint n)

Keeps-actor :
    (net : Network) (who : Identity) (recovery : Bool) → Keeps Tracked (actor net who recovery)
unfolding actor
Keeps-actor net who recovery = search (keeps_rules, Keeps-login_loop) depth 12

Keeps-receive :
    (u : Unicode) (ack : Fields) (sender : Client) (number : String) (group_send : Bool)
    (receiver : Client)
    → Keeps Tracked (receive u ack sender number group_send receiver)
unfolding receive
Keeps-receive u ack sender number group_send receiver = search keeps_rules depth 12

Keeps-exchange :
    (u : Unicode) (sender : Client) (recipients : List Client) (group_send : Bool)
    → Keeps Tracked (exchange u sender recipients group_send)
unfolding exchange
Keeps-exchange u sender recipients group_send = search (keeps_rules, Keeps-receive) depth 14

Keeps-messaging : (u : Unicode) (clients : List Client) → Keeps Tracked (messaging u clients)
unfolding messaging
Keeps-messaging u clients = search (keeps_rules, Keeps-exchange) depth 12

Keeps-await_loss : (old : Client) (lost retried : ℕ) → Keeps Tracked (await_loss old lost retried)
unfolding await_loss
Keeps-await_loss old lost retried = search keeps_rules depth 14

Keeps-await_survivors :
    (node survivor : ℕ) (channels : List Json)
    → Keeps Tracked (await_survivors node survivor channels)
unfolding await_survivors
Keeps-await_survivors node survivor channels = search keeps_rules depth 14

Keeps-restart_node : (node survivor : ℕ) → Keeps Tracked (restart_node node survivor)
unfolding restart_node
Keeps-restart_node node survivor = search keeps_rules depth 12

Keeps-failover :
    (u : Unicode) (net : Network) (who : Identity) (survivor : ℕ) (old : Client)
    (put : Client → List Client) (channels : List Json)
    → Keeps Tracked (failover u net who survivor old put channels)
unfolding failover
Keeps-failover u net who survivor old put channels =
    search (keeps_rules, Keeps-await_loss, Keeps-await_survivors, Keeps-actor, Keeps-messaging)
      depth 16

Keeps-rejoin :
    (u : Unicode) (net : Network) (who : Identity) (survivor : ℕ) (label : String)
    (replacement : Client) (put : Client → List Client)
    → Keeps Tracked (rejoin u net who survivor label replacement put)
unfolding rejoin
Keeps-rejoin u net who survivor label replacement put =
    search (keeps_rules, Keeps-restart_node, Keeps-actor, Keeps-messaging) depth 16

Keeps-failovers :
    (u : Unicode) (net : Network) (csharp js observer : Client) (channels : List Json)
    → Keeps Tracked (failovers u net csharp js observer channels)
unfolding failovers
Keeps-failovers u net csharp js observer channels =
    search (keeps_rules, Keeps-failover, Keeps-rejoin) depth 12

Keeps-attempt : {A : Type 0} (t : Coroutine Answer (Result A)) → Quiet t → Keeps Tracked (attempt t)
Keeps-attempt t q = Leads-attempt Neither Tracked Tracked Tracked-quiet t q

Keeps-settled :
    {A : Type 0} (f : ℕ → Coroutine Answer (Result A)) (xs : List ℕ)
    → ((n : ℕ) → Quiet (f n))
    → Keeps Tracked (settled (map f xs))
unfolding settled
Keeps-settled f [] q = Keeps-give []
Keeps-settled f (x ∷ xs) q =
    Keeps-bind _ _ (Keeps-attempt (f x) (q x))
      (λ r. Keeps-bind _ _ (Keeps-settled f xs q) (λ rs. Keeps-give (r ∷ rs)))

Keeps-gather_settled :
    {A : Type 0} (f : ℕ → Coroutine Answer (Result A)) (xs : List ℕ)
    → ((n : ℕ) → Quiet (f n))
    → Keeps Tracked (gather_settled (map f xs))
unfolding gather_settled
Keeps-gather_settled f xs q = Keeps-bind _ _ (search keeps_rules) (λ a.
    Keeps-bind _ _ (Keeps-settled f xs q)
      (λ rs. Keeps-bind _ _ (search keeps_rules) (λ b. Keeps-give rs)))

Keeps-bootstrap : Keeps Tracked bootstrap
unfolding bootstrap
Keeps-bootstrap = Keeps-bind _ _ (search keeps_rules) (λ a.
    Keeps-bind _ _ (search (keeps_rules, Keeps-add_node)) (λ b.
      Keeps-bind _ _ (Keeps-gather_settled start_node all_nodes Quiet-start_node)
        (λ started. search keeps_rules depth 12)))

Keeps-create_accounts :
    (csharp js observer : String) → Keeps Tracked (create_accounts csharp js observer)
unfolding create_accounts
Keeps-create_accounts csharp js observer = search keeps_rules depth 12

pub Keeps-cluster_body :
    (u : Unicode) (net : Network) (c j o : String) → Keeps Tracked (cluster_body u net c j o)
unfolding cluster_body
Keeps-cluster_body u net c j o =
    search
      (
        keeps_rules, Keeps-bootstrap, Keeps-create_accounts, Keeps-actor, Keeps-messaging,
        Keeps-failovers,
      )
      depth 20

pub Keeps-preserve : (e : Exc) → Keeps Tracked (preserve e)
unfolding preserve
Keeps-preserve e = search keeps_rules depth 12
