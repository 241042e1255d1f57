-- ===== src/Interop/Scenario.antt =====
-- `scenarios` of scripts/interop.py: what it asks of the server, the proxies and the clients, and the
-- variables that its functions share.
pub mod Calls
pub mod Clients
pub mod Stages
pub mod Faults
pub mod Certificates
pub mod Scenarios
pub mod Tracked
pub mod Quiet
pub mod Kept
pub mod Cleanup
pub mod Readings
pub mod Made
pub mod Refused
pub mod Offline
pub mod Complete
use wu_kong_easy_sdk_csharp.Common.{
  ℕ, String, Bool, true, false, not, Option, none, some, List, [], ◌∷◌, ◌++◌, ◌==◌, ltb, str_eq,
}
use wu_kong_easy_sdk_csharp.Python.Result.{Exc, type_error, raised, Result, ok, err}
use wu_kong_easy_sdk_csharp.Python.Int.{ℤ, pos, negsuc}
use wu_kong_easy_sdk_csharp.Python.Json.{
  Json, null, bool, int, real, str, arr, obj, Items, nil, cons, Fields, end, field,
}
use wu_kong_easy_sdk_csharp.Interop.Actor.{Reject}
use wu_kong_easy_sdk_csharp.Interop.Exchange.{index}

-- What a command tells a client to do.
pub data Operation : Type 0 where
  connect disconnect state : Operation
  send : (target : String) (payload : Json) (client_msg_no : String) → Operation

-- The calls of the scenarios. Proxies and clients are numbered by whoever makes them.
pub data Call : Type 0 where
  start_server close_log : Call
  stop_server : (crash : Bool) → Call
  set_token : (uid token : String) → Call
  start_proxy : (certificate : Option String) → Call
  spawn : (language uid token : String) (proxy : ℕ) → Call
  command : (client : ℕ) → Operation → Reject → Call
  event : (client : ℕ) (kind : String) (after : ℕ) (client_msg_no : Option String) → Call
  count : (client : ℕ) (kind : String) → Call
  fixture_failures : (client : ℕ) → Call
  attempts client_bytes drop enable close_proxy : (proxy : ℕ) → Call
  close_client : (client : ℕ) → Call
  random_token uuid : Call
  sleep : (milliseconds : ℕ) → Call

-- What they give. The methods of `Actor`, `Proxy` and `Server` that wait may raise; the others only
-- read or write attributes.
abbrev pub Answer : Call → Type 0
Answer start_server = Result (Unit {0})
Answer close_log = Unit {0}
Answer (stop_server crash) = Result (Unit {0})
Answer (set_token uid token) = Result (Unit {0})
Answer (start_proxy certificate) = Result ℕ
Answer (spawn language uid token proxy) = Result ℕ
Answer (command client op expect) = Result Json
Answer (event client kind after number) = Result Fields
Answer (count client kind) = ℕ
Answer (fixture_failures client) = List Fields
Answer (attempts proxy) = ℕ
Answer (client_bytes proxy) = ℕ
Answer (drop proxy) = Unit {0}
Answer (enable proxy) = Unit {0}
Answer (close_proxy proxy) = Result (Unit {0})
Answer (close_client client) = Result (Unit {0})
Answer random_token = String
Answer uuid = String
Answer (sleep milliseconds) = Result (Unit {0})

pub record Client : Type 0 where
  pub handle : ℕ
  pub name : String
  pub uid : String

-- `report`: what the scenarios put into it.
pub record Report : Type 0 where
  pub stage : String
  pub cases : List String
  pub browser : Option Json
  -- client, certificate and category
  pub certificate_rejections : List (String × String × Json)
  pub tls : Bool
  pub actors : List (String × List (String × ℕ))
  pub fixture_failures : List Fields
  pub proxy_attempts : List ℕ

-- The variables of `scenarios` that its functions change.
pub record Local : Type 0 where
  pub actors : List Client
  pub proxies : List ℕ
  pub report : Report

-- bool(v)
unfoldable pub truthy : Json → Bool
truthy null = false
truthy (bool b) = b
truthy (int (pos n)) = ltb 0 n
truthy (int (negsuc n)) = true
truthy (real (pos n) k) = ltb 0 n
truthy (real (negsuc n) k) = true
truthy (str s) = not (str_eq s "")
truthy (arr nil) = false
truthy (arr (cons v vs)) = true
truthy (obj end) = false
truthy (obj (field k v fs)) = true

-- A value that is used as a dict.
abbrev pub as_dict : Json → Result Fields
as_dict (obj fields) = ok fields
as_dict v = err (raised "AttributeError")

-- v[key]
abbrev pub subscript : Json → String → Result Json
subscript (obj fields) key = index fields key
subscript v key = err type_error

abbrev pub set_stage : String → Local → Local
set_stage stage s = record s { report = record s.report { stage = stage } }

abbrev pub add_case : String → Local → Local
add_case name s = record s { report = record s.report { cases = s.report.cases ++ (name ∷ []) } }
