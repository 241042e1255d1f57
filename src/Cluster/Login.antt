-- ===== src/Cluster/Login.antt =====
-- The login loop of `actor` and the exchange of `cluster_scenarios` (scripts/interop_cluster.py).
pub mod Bounded
use wu_kong_easy_sdk_csharp.Common.{
  ℕ, zero, suc, ◌+◌, String, Bool, true, false, not, Option, none, some, List, [], ◌∷◌, ◌++◌,
  if◌then◌else◌,
}
use wu_kong_easy_sdk_csharp.Python.Result.{
  assertion_error, timeout_error, key_error, Exc, Result, ok, err, ◌>>=◌, ◌>>◌,
}
use wu_kong_easy_sdk_csharp.Python.Int.{ℤ, pos, negsuc}
use wu_kong_easy_sdk_csharp.Python.Text.{Unicode}
use wu_kong_easy_sdk_csharp.Python.Json.{
  Json, null, bool, int, real, str, arr, obj, Items, nil, cons, Fields, end, field, lookup, get,
}
use wu_kong_easy_sdk_csharp.Interop.Exchange.{verify_exchange}
use wu_kong_easy_sdk_csharp.Cluster.Verify.{verify_group, retry_activation}

-- bool(v)
abbrev pub truthy : Json → Bool
truthy null = false
truthy (bool b) = b
truthy (int (pos zero)) = false
truthy (real (pos zero) k) = false
truthy (str String.[]) = false
truthy (arr nil) = false
truthy (obj end) = false
truthy _ = true

-- What the loop does to the clients that it creates, in order; a client is known by its number.
pub data Event : Type 0 where
  created connected closed : ℕ → Event

-- How the loop ends: with a connected client, with an exception, or cut off by its timeout.
pub data Login : Type 0 where
  client : ℕ → Login
  failed : Exc → Login

abbrev pub then_log : List Event → Login × List Event → Login × List Event
then_log es (l, rest) = (l, es ++ rest)

-- The loop over the results of the commands `connect`, of which the timeout lets so many happen; `n`
-- numbers the clients. A result without 'ok', or a
-- rejection without 'category', raises KeyError.
unfoldable pub login : Bool → ℕ → List Fields → Login × List Event
login recovery n [] = (failed timeout_error, [])
login recovery n (result ∷ results) = elim (lookup result "ok") [
  | none ↦ (failed key_error, created n ∷ [])
  | some v ↦ elim (truthy v) [
    | true ↦ (client n, created n ∷ connected n ∷ [])
    | false ↦ elim (lookup result "category") [
      | none ↦ (failed key_error, created n ∷ [])
      | some category ↦ elim (retry_activation result recovery) [
        | true ↦ then_log (created n ∷ closed n ∷ []) (login recovery (suc n) results)
        | false ↦ (failed (assertion_error "connect rejected"), created n ∷ closed n ∷ [])
      ]
    ]
  ]
]

-- if group_send: verify_group(message, group)
abbrev pub check_group : Option String → Fields → Result (Unit {0})
check_group none message = ok tt
check_group (some channel) message = verify_group message channel

-- The receivers of one exchange, each with the message that it got.
module _ (u : Unicode) where
  unfoldable pub check_received :
      Fields
      → String
      → Json
      → String
      → Option String
      → List (String × Fields)
      → Result (List String)
  check_received ack sender payload correlation group [] = ok []
  check_received ack sender payload correlation group ((uid, message) ∷ rest) = do
    verify_exchange u ack message sender payload correlation
    check_group group message
    received ← check_received ack sender payload correlation group rest
    ok (uid ∷ received)
