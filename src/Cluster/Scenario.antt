-- ===== src/Cluster/Scenario.antt =====
-- `cluster_scenarios` of scripts/interop_cluster.py: what it asks of the nodes and the clients, and the
-- variables that its functions share.
pub mod Calls
pub mod Clients
pub mod Body
pub mod Run
pub mod Tracked
pub mod Quiet
pub mod Kept
pub mod Closed
use wu_kong_easy_sdk_csharp.Common.{ℕ, String, Bool, Option, List, [], ◌∷◌, ◌++◌}
use wu_kong_easy_sdk_csharp.Python.Result.{Result}
use wu_kong_easy_sdk_csharp.Python.Json.{Json, Fields}
use wu_kong_easy_sdk_csharp.Interop.Actor.{Reject}

-- What a command tells a client to do. The channel type of a message is 1 for a person, 2 for a group.
pub data Operation : Type 0 where
  connect state : Operation
  send : (target : String) (type : ℕ) (payload : Json) (client_msg_no : String) → Operation

-- The calls. Nodes have their numbers, clients are numbered by whoever makes them. The polls are those of
-- the sibling modules, and `diagnose` is the collection of evidence, of which only a cancellation is not
-- caught. `wait_tasks` is an await of `gather` with `return_exceptions`: a cancellation raises there.
pub data Call : Type 0 where
  make_node : (node : ℕ) → Call
  start_node : (node : ℕ) → Call
  stop_node : (node : ℕ) (crash : Bool) → Call
  is_running : (node : ℕ) → Call
  close_log : (node : ℕ) → Call
  stable_slots : (alive : List ℕ) → Call
  node_health : (at node : ℕ) (ready : Bool) → Call
  channel_ready : (at : ℕ) (channel : Json) (alive : List ℕ) (type : ℕ) (complete : Bool) → Call
  channel_inventory : (at : ℕ) → Call
  set_token : (uid token : String) → Call
  create_channel : (channel : String) (subscribers : List String) → Call
  route : (node : ℕ) → Call
  spawn : (language uid : String) (endpoint : Json) → Call
  command : (client : ℕ) → Operation → Reject → Call
  event : (client : ℕ) (kind : String) (after : ℕ) (client_msg_no : Option String) → Call
  count : (client : ℕ) (kind : String) → Call
  close_client : (client : ℕ) → Call
  has_exited : (client : ℕ) → Call
  wait_present : (uids : List String) → Call
  diagnose wait_tasks : Call
  random_token : Call
  uuid : Call
  sleep : (milliseconds : ℕ) → Call

abbrev pub Answer : Call → Type 0
Answer (make_node node) = Result (Unit {0})
Answer (start_node node) = Result (Unit {0})
Answer (stop_node node crash) = Result (Unit {0})
Answer (is_running node) = Bool
Answer (close_log node) = Unit {0}
Answer (stable_slots alive) = Result Json
Answer (node_health at node ready) = Result Json
Answer (channel_ready at channel alive type complete) = Result Json
Answer (channel_inventory at) = Result Json
Answer (set_token uid token) = Result (Unit {0})
Answer (create_channel channel subscribers) = Result (Unit {0})
Answer (route node) = Result Json
Answer (spawn language uid endpoint) = Result ℕ
Answer (command client op expect) = Result Json
Answer (event client kind after number) = Result Fields
Answer (count client kind) = ℕ
Answer (close_client client) = Result (Unit {0})
Answer (has_exited client) = Bool
Answer (wait_present uids) = Result (Unit {0})
Answer diagnose = Result (Unit {0})
Answer wait_tasks = Result (Unit {0})
Answer random_token = String
Answer uuid = String
Answer (sleep milliseconds) = Result (Unit {0})

-- Its name is f'{language}@node{node}'.
pub record Client : Type 0 where
  pub handle : ℕ
  pub language : String
  pub node : ℕ
  pub uid : String

-- An exchange that has ended: the sender, the recipients and the channel type.
abbrev pub Exchanged : Type 0
Exchanged = String × List String × ℕ

pub record Report : Type 0 where
  pub stage : String
  pub cases : List String
  pub connections : List (String × String × ℕ)
  pub connect_rejections : List (String × ℕ × Json)
  pub pending_exchange : Option String
  pub exchanges : List Exchanged
  -- the language and the node of each client, with its counts
  pub actors : List (String × ℕ × List (String × ℕ))
  pub owned_clients_stopped : Bool
  pub owned_nodes_stopped : Bool

-- The variables of `cluster_scenarios` that its functions change.
pub record Local : Type 0 where
  pub nodes : List ℕ
  pub actors : List Client
  pub report : Report

abbrev pub set_stage : String → Local → Local
set_stage stage s = record s { report = record s.report { stage = stage } }

abbrev pub add_case : String → Local → Local
add_case name s = record s { report = record s.report { cases = s.report.cases ++ (name ∷ []) } }
