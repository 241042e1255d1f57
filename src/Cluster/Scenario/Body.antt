-- ===== src/Cluster/Scenario/Body.antt =====
-- `cluster_scenarios` as a whole: the bootstrap, the two failovers, and how it ends.
use wu_kong_easy_sdk_csharp.Common.{
  ℕ, String, Bool, true, false, not, none, List, [], ◌∷◌, ◌++◌, ◌==◌, length, keep_if, map, codes,
  if◌then◌else◌,
}
use wu_kong_easy_sdk_csharp.Python.Result.{assertion_error, type_error, Result, ok, err}
use wu_kong_easy_sdk_csharp.Python.Int.{pos}
use wu_kong_easy_sdk_csharp.Python.Text.{Unicode}
use wu_kong_easy_sdk_csharp.Python.Text.Replace.{occurs}
use wu_kong_easy_sdk_csharp.Python.Json.{
  Json, int, str, arr, obj, Items, nil, cons, end, field, py_eq,
}
use wu_kong_easy_sdk_csharp.Python.Coroutine.Script.{
  Script, give, ◌>>=◌, ◌>>◌, assign, look_up, raise_when, from_result, each, call, settled,
}
use wu_kong_easy_sdk_csharp.Interop.Actor.{succeeds, rejected}
use wu_kong_easy_sdk_csharp.Interop.Scenario.{truthy, subscript}
use wu_kong_easy_sdk_csharp.Cluster.Scenario.{
  Answer, Client, Local, set_stage, add_case, state, send,
}
use wu_kong_easy_sdk_csharp.Python.Coroutine.{Coroutine}
use wu_kong_easy_sdk_csharp.Cluster.Scenario.Calls.{
  make_node, start_node, stop_node, is_running, stable_slots, node_health, channel_ready,
  channel_inventory, set_token, create_channel, command, event, count, close_client, uuid,
  wait_tasks,
}
use wu_kong_easy_sdk_csharp.Cluster.Scenario.Clients.{Network, Identity, actor, group, messaging}
use Prim.Native.String.{◌++◌ as join}

abbrev pub Stage : Type 0
Stage = Script Answer Local (Unit {0})

abbrev pub all_nodes : List ℕ
all_nodes = 1 ∷ 2 ∷ 3 ∷ []

unfoldable pub add_node : ℕ → Stage
add_node node = do call (make_node node); assign (λ s. record s { nodes = s.nodes ++ (node ∷ []) })

-- for result in started: if isinstance(result, BaseException): raise result
unfoldable pub first_error : List (Result (Unit {0})) → Result (Unit {0})
first_error [] = ok tt
first_error (ok u ∷ rs) = first_error rs
first_error (err e ∷ rs) = err e

-- await asyncio.gather(*tasks, return_exceptions=True): the exceptions of the tasks are values, but a
-- cancellation of the await raises, before the tasks have begun or while they run.
unfoldable pub gather_settled :
    {A : Type 0} → List (Coroutine Answer (Result A)) → Script Answer Local (List (Result A))
gather_settled tasks = do call wait_tasks; results ← settled tasks; call wait_tasks; give results

unfoldable pub bootstrap : Stage
bootstrap = do
  assign (set_stage "three-node bootstrap")
  each add_node all_nodes
  started ← gather_settled (map start_node all_nodes)
  from_result (first_error started)
  leaders ← call (stable_slots all_nodes)
  give tt

abbrev pub identities : List Identity
identities =
    record { language = "csharp"; uid = "cluster-csharp"; node = 1 }
    ∷ record { language = "js"; uid = "cluster-js"; node = 2 }
    ∷ record { language = "js"; uid = "cluster-observer"; node = 3 }
    ∷ []

abbrev pub uids : List String
uids = map (λ who. who.uid) identities

unfoldable pub create_accounts : (csharp js observer : String) → Stage
create_accounts csharp js observer = do
  call (set_token "cluster-csharp" csharp)
  call (set_token "cluster-js" js)
  call (set_token "cluster-observer" observer)
  call (create_channel group uids)

-- uid in channel_id
abbrev pub contains : Json → String → Bool
contains (str s) uid = occurs (codes s) (codes uid)
contains v uid = false

-- row['channel_type'] == 1 and sum(uid in row['channel_id'] for uid in tokens) == 2
unfoldable pub is_person : Json → Result Bool
is_person row = elim (subscript row "channel_type") [
  | err e ↦ err e
  | ok type ↦
      if py_eq type (int (pos 1))
      then elim (subscript row "channel_id") [
        | err e ↦ err e
        | ok id ↦ ok (length (keep_if (contains id) uids) == 2)
      ]
      else ok false
]

-- The channels of the rows that are persons' channels. Their order is not modelled.
unfoldable pub person_channels : Items → Result (List Json)
person_channels nil = ok []
person_channels (cons row rows) =
    let rest = person_channels rows in
    elim (is_person row) [
      | err e ↦ err e
      | ok false ↦ rest
      | ok true ↦ elim (subscript row "channel_id") [
        | err e ↦ err e
        | ok id ↦ elim rest [ err e ↦ err e | ok ids ↦ ok (id ∷ ids) ]
      ]
    ]

unfoldable pub established : Json → Result (List Json)
established inventory = elim (subscript inventory "items") [
  | err e ↦ err e
  | ok (arr rows) ↦ person_channels rows
  | ok v ↦ err type_error
]

-- The client's reports of the loss, and the SEND that is rejected while it is offline.
unfoldable pub await_loss : Client → (lost retried : ℕ) → Script Answer Local Json
await_loss old lost retried = do
  gone ← call (event old.handle "disconnected" lost none)
  retry ← call (event old.handle "reconnecting" retried none)
  v ← call (command old.handle state succeeds)
  connected ← from_result (subscript v "connected")
  raise_when (truthy connected)
      (assertion_error "Client still reports connected to the killed node")
  number ← call uuid
  rejection ← call (
      command old.handle (send "offline-target" 1 (obj (field "type" (int (pos 1)) end)) number)
        rejected)
  call (close_client old.handle)
  give rejection

-- The survivors agree without the node.
unfoldable pub await_survivors : (node survivor : ℕ) → List Json → Stage
await_survivors node survivor channels = do
  nodes ← look_up (λ s. s.nodes)
  let alive = keep_if (λ n. not (n == node)) nodes
  health ← call (node_health survivor node false)
  slots ← call (stable_slots alive)
  meta ← call (channel_ready survivor (str group) alive 2 false)
  each (λ channel. call (channel_ready survivor channel alive 1 false) >>= (λ row. give tt))
      channels

-- The node comes back, and the survivors agree with it.
unfoldable pub restart_node : (node survivor : ℕ) → Stage
restart_node node survivor = do
  call (start_node node)
  health ← call (node_health survivor node true)
  slots ← call (stable_slots all_nodes)
  meta ← call (channel_ready survivor (str group) all_nodes 2 true)
  give tt

-- `clients[index]` is `old`; `put` puts another client in its place.
module _ (u : Unicode) (net : Network) where
  unfoldable pub failover :
      (who : Identity) (survivor : ℕ) (old : Client) (put : Client → List Client)
      → List Json
      → Script Answer Local Client
  failover who survivor old put channels = do
    assign (set_stage (join who.language " ingress node crash and application address switch"))
    lost ← call (count old.handle "disconnected")
    retried ← call (count old.handle "reconnecting")
    call (stop_node who.node true)
    rejection ← await_loss old lost retried
    await_survivors who.node survivor channels
    replacement ← actor net (record who { node = survivor }) true
    messaging u (put replacement)
    running ← call (is_running who.node)
    raise_when running (assertion_error "Failed node unexpectedly restarted during failover proof")
    category ← from_result (subscript rejection "category")
    assign (
        add_case (
          join who.language
            " reports node loss and offline rejection; application switches address and resumes person/group delivery"))
    give replacement

  unfoldable pub rejoin :
      (who : Identity) (survivor : ℕ) (label : String) (replacement : Client)
      (put : Client → List Client)
      → Script Answer Local Client
  rejoin who survivor label replacement put = do
    assign (set_stage (join "node " (join label " restart")))
    restart_node who.node survivor
    call (close_client replacement.handle)
    returned ← actor net who false
    messaging u (put returned)
    assign (
        add_case
          (join "node " (join label " rejoins with persisted credentials and group membership")))
    give returned

  -- The rounds of the loop over the failovers, with the three clients.
  unfoldable pub failovers : (csharp js observer : Client) → List Json → Stage
  failovers csharp js observer channels = do
    away ←
        failover (record { language = "csharp"; uid = "cluster-csharp"; node = 1 }) 3 csharp
          (λ c. c ∷ js ∷ observer ∷ []) channels
    back ←
        rejoin (record { language = "csharp"; uid = "cluster-csharp"; node = 1 }) 3 "1" away
          (λ c. c ∷ js ∷ observer ∷ [])
    js_away ←
        failover (record { language = "js"; uid = "cluster-js"; node = 2 }) 1 js
          (λ c. back ∷ c ∷ observer ∷ []) channels
    js_back ←
        rejoin (record { language = "js"; uid = "cluster-js"; node = 2 }) 1 "2" js_away
          (λ c. back ∷ c ∷ observer ∷ [])
    assign (set_stage "completed")

  -- The `try`.
  unfoldable pub cluster_body : (csharp_token js_token observer_token : String) → Stage
  cluster_body c j o = do
    bootstrap
    create_accounts c j o
    csharp ← actor net (record { language = "csharp"; uid = "cluster-csharp"; node = 1 }) false
    js ← actor net (record { language = "js"; uid = "cluster-js"; node = 2 }) false
    observer ← actor net (record { language = "js"; uid = "cluster-observer"; node = 3 }) false
    assign (set_stage "cross-node person and group delivery")
    messaging u (csharp ∷ js ∷ observer ∷ [])
    inventory ← call (channel_inventory 1)
    channels ← from_result (established inventory)
    raise_when (not (length channels == 3))
        (assertion_error "Expected exactly three established person channels")
    meta ← call (channel_ready 1 (str group) all_nodes 2 true)
    assign (
        add_case
          "three-node cross-ingress person and group delivery with exact ACK/RECV and JSON types")
    failovers csharp js observer channels
