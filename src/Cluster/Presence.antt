-- ===== src/Cluster/Presence.antt =====
-- The wait of `messaging` in scripts/interop_cluster.py: every live node sees every client online, for a
-- second, before a message is sent.
pub mod Stable
use wu_kong_easy_sdk_csharp.Common.{
  ℕ, ◌-◌, String, Bool, true, false, not, ◌&&◌, Option, none, some, List, [], ◌∷◌, any, all, ◌==◌,
  leb, str_eq, keep_if, if◌then◌else◌,
}

-- A row of /user/onlinestatus.
pub record OnlineRow : Type 0 where
  pub uid : String
  pub online : ℕ
  pub device_flag : ℕ

abbrev pub is_online : OnlineRow → Bool
is_online row = (row.online == 1) && (row.device_flag == 2)

-- uid in online
unfoldable pub sees : List OnlineRow → String → Bool
sees rows uid = any (λ row. is_online row && str_eq row.uid uid) rows

-- {c.uid for c in clients} - online, in the order of the clients
unfoldable pub absent : List OnlineRow → List String → List String
absent rows = keep_if (λ uid. not (sees rows uid))

-- One node: stopped, or running with its rows.
pub data NodeView : Type 0 where
  stopped : NodeView
  running : List OnlineRow → NodeView

abbrev empty : List String → Bool
empty [] = true
empty (uid ∷ uids) = false

abbrev pub none_absent : List String → NodeView → Bool
none_absent uids stopped = true
none_absent uids (running rows) = empty (absent rows uids)

-- `not missing`
unfoldable pub all_present : List String → List NodeView → Bool
all_present uids nodes = all (none_absent uids) nodes

abbrev pub second : ℕ
second = 1000000000

pub data Wait : Type 0 where
  ready : Wait
  since : Option ℕ → Wait

-- One round at the clock `now`: `stable_since` is reset, set, or old enough.
unfoldable pub settle : Option ℕ → Bool → ℕ → Wait
settle stable_since false now = since none
settle none true now = since (some now)
settle (some start) true now = if leb second (now - start) then ready else since (some start)

-- The rounds that the timeout of 45 seconds lets happen: the time at which the wait ends. A request that
-- fails raises out of the wait, so a round here is one whose requests all succeeded.
unfoldable pub wait_present : List String → Option ℕ → List (List NodeView × ℕ) → Option ℕ
wait_present uids stable_since [] = none
wait_present uids stable_since ((nodes, now) ∷ rounds) =
    elim (settle stable_since (all_present uids nodes) now) [
      | ready ↦ some now
      | since start ↦ wait_present uids start rounds
    ]
