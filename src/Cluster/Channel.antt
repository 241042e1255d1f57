-- ===== src/Cluster/Channel.antt =====
-- `channel_ready` and `node_health` of scripts/interop_cluster.py: the first row that will do.
pub mod Ready
pub mod Health
use wu_kong_easy_sdk_csharp.Common.{
  ℕ, zero, suc, String, Bool, true, false, not, ◌&&◌, ◌||◌, Option, none, some, List, [], ◌∷◌, ◌==◌,
  leb, length, any, str_eq, keep_if, if◌then◌else◌,
}
use wu_kong_easy_sdk_csharp.Cluster.Slots.{sorted, numbers_eq, is_in, three}

-- A row of /manager/channel-runtime-meta.
pub record ChannelRow : Type 0 where
  pub channel_id : String
  pub channel_type : ℕ
  pub status : String
  pub min_isr : ℕ
  pub leader : ℕ
  pub fenced : Bool  -- a truthy write_fence_token
  pub replicas : List ℕ
  pub isr : List ℕ

-- set(xs), each number once
unfoldable pub dedup : List ℕ → List ℕ
dedup [] = []
dedup (x ∷ xs) = let rest = dedup xs in if is_in x rest then rest else x ∷ rest

-- set(isr) & set(alive)
unfoldable pub common : List ℕ → List ℕ → List ℕ
unfolding dedup
common isr alive = keep_if (λ n. is_in n alive) (dedup isr)

unfoldable pub channel_row_ready : String → ℕ → List ℕ → Bool → ChannelRow → Bool
channel_row_ready channel_id channel_type alive complete row =
    str_eq row.channel_id channel_id
    && (row.channel_type == channel_type)
    && str_eq row.status "active"
    && (row.min_isr == 2)
    && is_in row.leader alive
    && not row.fenced
    && numbers_eq (sorted row.replicas) three
    && leb 2 (length (common row.isr alive))
    && (not complete || numbers_eq (sorted row.isr) three)

-- The first row that passes, over the rows of one page.
unfoldable pub first_ready : String → ℕ → List ℕ → Bool → List ChannelRow → Option ChannelRow
first_ready channel_id channel_type alive complete [] = none
first_ready channel_id channel_type alive complete (row ∷ rows) =
    if channel_row_ready channel_id channel_type alive complete row
    then some row
    else first_ready channel_id channel_type alive complete rows

-- The pages in the order of the polls, none for a request that fails; none at the end is the timeout. A
-- page is its rows up to one where a key that is read is missing, whose KeyError ends the poll.
unfoldable pub channel_ready :
    String → ℕ → List ℕ → Bool → List (Option (List ChannelRow)) → Option ChannelRow
channel_ready channel_id channel_type alive complete [] = none
channel_ready channel_id channel_type alive complete (none ∷ polls) =
    channel_ready channel_id channel_type alive complete polls
channel_ready channel_id channel_type alive complete (some rows ∷ polls) =
    elim (first_ready channel_id channel_type alive complete rows) [
      | some row ↦ some row
      | none ↦ channel_ready channel_id channel_type alive complete polls
    ]

-- A row of /manager/nodes.
pub record NodeRow : Type 0 where
  pub node_id : ℕ
  pub fresh : Bool
  pub runtime_ready : Bool
  pub status : String

abbrev pub healthy : NodeRow → Bool
healthy row = row.fresh && row.runtime_ready && str_eq row.status "alive"

abbrev pub same_bool : Bool → Bool → Bool
same_bool true b = b
same_bool false b = not b

unfoldable pub first_health : ℕ → Bool → List NodeRow → Option NodeRow
first_health target ready [] = none
first_health target ready (row ∷ rows) =
    if (row.node_id == target) && same_bool (healthy row) ready
    then some row
    else first_health target ready rows

unfoldable pub node_health : ℕ → Bool → List (Option (List NodeRow)) → Option NodeRow
node_health target ready [] = none
node_health target ready (none ∷ polls) = node_health target ready polls
node_health target ready (some rows ∷ polls) = elim (first_health target ready rows) [
  | some row ↦ some row
  | none ↦ node_health target ready polls
]
