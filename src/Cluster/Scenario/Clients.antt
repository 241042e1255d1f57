-- ===== src/Cluster/Scenario/Clients.antt =====
-- The functions `actor`, `exchange` and `messaging` of `cluster_scenarios`.
use wu_kong_easy_sdk_csharp.Common.{
  ℕ, zero, suc, String, Bool, true, false, not, ◌&&◌, Option, none, some, List, [], ◌∷◌, ◌++◌, ◌==◌,
  map, take, keep_if, str_eq, if◌then◌else◌,
}
use wu_kong_easy_sdk_csharp.Python.Result.{assertion_error, timeout_error, raised, Result, ok, err}
use wu_kong_easy_sdk_csharp.Python.Int.{pos}
use wu_kong_easy_sdk_csharp.Python.Text.{Unicode}
use wu_kong_easy_sdk_csharp.Python.Json.{
  Json, null, bool, int, str, arr, obj, nil, cons, Fields, end, field,
}
use wu_kong_easy_sdk_csharp.Python.Coroutine.Script.{
  Script, give, raise, ◌>>=◌, ◌>>◌, assign, raise_when, from_result, each, call,
}
use wu_kong_easy_sdk_csharp.Interop.Actor.{either, succeeds}
use wu_kong_easy_sdk_csharp.Interop.Exchange.{index, verify_exchange}
use wu_kong_easy_sdk_csharp.Interop.Scenario.{truthy, as_dict, subscript}
use wu_kong_easy_sdk_csharp.Cluster.Verify.{verify_group, retry_activation}
use wu_kong_easy_sdk_csharp.Cluster.Scenario.{Answer, Client, Local, connect, send}
use wu_kong_easy_sdk_csharp.Cluster.Scenario.Calls.{
  route, spawn, command, event, close_client, wait_present, uuid, sleep,
}

-- What `urllib.parse.urlsplit` finds, and the ports that the nodes' gateways were given.
pub record Network : Type 0 where
  pub scheme : Json → Option String
  pub hostname : Json → Option String
  pub port : Json → Option ℕ
  pub websocket : ℕ → ℕ

abbrev pub is_text : String → Option String → Bool
is_text s none = false
is_text s (some t) = str_eq s t

abbrev pub is_port : ℕ → Option ℕ → Bool
is_port n none = false
is_port n (some m) = n == m

unfoldable pub owned_endpoint : Network → ℕ → Json → Bool
owned_endpoint net node endpoint =
    is_text "ws" (net.scheme endpoint)
    && is_text "127.0.0.1" (net.hostname endpoint)
    && is_port (net.websocket node) (net.port endpoint)

-- An identity: the language, the user and the node that it logs in to.
pub record Identity : Type 0 where
  pub language : String
  pub uid : String
  pub node : ℕ

abbrev pub client_of : Identity → ℕ → Client
client_of who handle = record {
  handle = handle;
  language = who.language;
  node = who.node;
  uid = who.uid;
}

unfoldable pub open_client : Identity → Json → Script Answer Local Client
open_client who endpoint = do
  handle ← call (spawn who.language who.uid endpoint)
  let client = client_of who handle
  assign (λ s. record s { actors = s.actors ++ (client ∷ []) })
  give client

abbrev pub add_connection : Identity → Local → Local
add_connection who s = record s {
  report = record s.report {
    connections = s.report.connections ++ ((who.language, who.uid, who.node) ∷ []);
  };
}

abbrev pub add_rejection : Identity → Json → Local → Local
add_rejection who category s = record s {
  report = record s.report {
    connect_rejections = s.report.connect_rejections ++ ((who.language, who.node, category) ∷ []);
  };
}

-- A login that failed: the client is closed, and unless it is retried the exception is raised.
unfoldable pub retire : Identity → Bool → Client → Fields → Script Answer Local (Unit {0})
retire who recovery client result = do
  category ← from_result (index result "category")
  assign (add_rejection who category)
  call (close_client client.handle)
  raise_when (not (retry_activation result recovery)) (assertion_error "connect rejected")
  call (sleep 2000)

-- The rounds that the timeout lets happen: each but the last sleeps two seconds.
abbrev pub login_rounds : (recovery : Bool) → ℕ
login_rounds recovery = if recovery then 56 else 13

-- One round of the loop, and what follows a login that is retried.
unfoldable pub login_round :
    Identity → Bool → Json → (again : Script Answer Local Client) → Script Answer Local Client
login_round who recovery endpoint again = do
  client ← open_client who endpoint
  v ← call (command client.handle connect either)
  result ← from_result (as_dict v)
  connected ← from_result (index result "ok")
  if truthy connected
      then (assign (add_connection who) >> give client)
      else (retire who recovery client result >> again)

unfoldable pub login_loop : Identity → Bool → Json → ℕ → Script Answer Local Client
login_loop who recovery endpoint zero = raise timeout_error
login_loop who recovery endpoint (suc n) =
    login_round who recovery endpoint (login_loop who recovery endpoint n)

module _ (net : Network) where
  unfoldable pub actor : Identity → (recovery : Bool) → Script Answer Local Client
  actor who recovery = do
    v ← call (route who.node)
    endpoint ← from_result (subscript v "ws_addr")
    raise_when (not (owned_endpoint net who.node endpoint))
        (assertion_error "Route did not identify the selected owned node")
    login_loop who recovery endpoint (login_rounds recovery)

abbrev pub group : String
group = "csharp-js-cluster-group"

abbrev pub payload : Json
payload = obj (
    field "type" (int (pos 9001)) (
      field "text" (str "三节点 中文 👩🏽\u{200d}💻") (
        field "nested"
          (obj (
            field "enabled" (bool true) (
              field "id" (str "9223372036854775807")
                (field "items" (arr (cons null (cons (int (pos 7)) (cons (str "群聊") nil)))) end))))
          end)))

-- group if group_send else recipients[0].uid
abbrev pub target_of : Bool → List Client → Result String
target_of true recipients = ok group
target_of false [] = err (raised "IndexError")
target_of false (r ∷ rs) = ok r.uid

abbrev pub type_of : (group_send : Bool) → ℕ
type_of group_send = if group_send then 2 else 1

abbrev pub set_pending : Option String → Local → Local
set_pending number s = record s { report = record s.report { pending_exchange = number } }

abbrev pub add_exchange : Client → List Client → Bool → Local → Local
add_exchange sender recipients group_send s = record s {
  report = record s.report {
    exchanges =
        s.report.exchanges ++ ((sender.uid, map (λ r. r.uid) recipients, type_of group_send) ∷ []);
    pending_exchange = none;
  };
}

module _ (u : Unicode) where
  -- What is checked of a recipient's message.
  unfoldable pub receive : Fields → Client → String → Bool → Client → Script Answer Local (Unit {0})
  receive ack sender correlation group_send receiver = do
    message ← call (event receiver.handle "message" 0 (some correlation))
    from_result (verify_exchange u ack message sender.uid payload correlation)
    if group_send then from_result (verify_group message group) else give tt

  unfoldable pub exchange :
      Client → List Client → (group_send : Bool) → Script Answer Local (Unit {0})
  exchange sender recipients group_send = do
    correlation ← call uuid
    assign (set_pending (some correlation))
    target ← from_result (target_of group_send recipients)
    v ← call (command sender.handle (send target (type_of group_send) payload correlation) succeeds)
    ack ← from_result (as_dict v)
    each (receive ack sender correlation group_send) recipients
    id ← from_result (index ack "messageId")
    sequence ← from_result (index ack "messageSeq")
    assign (add_exchange sender recipients group_send)

  abbrev pub others : Client → List Client → List Client
  others c = keep_if (λ d. not (d.handle == c.handle))

  unfoldable pub messaging : List Client → Script Answer Local (Unit {0})
  messaging clients = do
    call (wait_present (map (λ c. c.uid) clients))
    each
        (λ sender. each (λ receiver. exchange sender (receiver ∷ []) false) (others sender clients))
        clients
    each (λ sender. exchange sender (others sender clients) true) (take 2 clients)
