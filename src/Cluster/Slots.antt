-- ===== src/Cluster/Slots.antt =====
-- `stable_slots` of scripts/interop_cluster.py: one leader for each Slot, seen alike by every surviving
-- node for a second.
pub mod Converged
pub mod Agreement
pub mod Stable
use wu_kong_easy_sdk_csharp.Common.{
  ℕ, zero, suc, ◌+◌, ◌-◌, Bool, true, false, not, ◌&&◌, ◌||◌, Option, none, some, List, [], ◌∷◌,
  ◌++◌, map, ◌==◌, leb, length, all, any, if◌then◌else◌, ◌≡◌, refl,
}

pub data Role : Type 0 where
  leader follower other_role : Role

-- A row of /manager/slots. A page that lacks a key raises KeyError, which the loop treats as it treats
-- its own ValueError; such a page is no `Page`.
pub record Row : Type 0 where
  pub slot_id : ℕ
  pub has_task : Bool
  pub node_id : ℕ
  pub leader_id : ℕ
  pub role : Role
  pub desired_peers : List ℕ
  pub log_voters : List ℕ
  pub runtime_voters : List ℕ
  pub has_quorum : Bool
  pub hash_slots : List ℕ

pub record Page : Type 0 where
  pub total : ℕ
  pub items : List Row

-- `sorted` of numbers
unfoldable pub insert_number : ℕ → List ℕ → List ℕ
insert_number n [] = n ∷ []
insert_number n (m ∷ ms) = let rest = insert_number n ms in if leb n m then n ∷ m ∷ ms else m ∷ rest

unfoldable pub sorted : List ℕ → List ℕ
unfolding insert_number
sorted [] = []
sorted (n ∷ ns) = insert_number n (sorted ns)

unfoldable pub insert_row : Row → List Row → List Row
insert_row r [] = r ∷ []
insert_row r (s ∷ ss) =
    let rest = insert_row r ss in if leb r.slot_id s.slot_id then r ∷ s ∷ ss else s ∷ rest

-- sorted(page['items'], key=lambda row: row['slot_id'])
unfoldable pub sorted_rows : List Row → List Row
unfolding insert_row
sorted_rows [] = []
sorted_rows (r ∷ rs) = insert_row r (sorted_rows rs)

unfoldable pub numbers_eq : List ℕ → List ℕ → Bool
numbers_eq [] [] = true
numbers_eq (a ∷ xs) (b ∷ ys) = (a == b) && numbers_eq xs ys
numbers_eq _ _ = false

abbrev pub is_in : ℕ → List ℕ → Bool
is_in n = any (λ m. m == n)

abbrev pub three : List ℕ
three = 1 ∷ 2 ∷ 3 ∷ []

-- range(n)
abbrev pub range_from : ℕ → ℕ → List ℕ
range_from zero first = []
range_from (suc n) first = first ∷ range_from n (suc first)

-- log['role'] == ('leader' if leader == node_id else 'follower')
abbrev pub right_role : Role → Bool → Bool
right_role leader b = b
right_role follower b = not b
right_role other_role b = false

-- The test of one row, whose failure is 'Slot election has not converged'.
unfoldable pub row_converged : ℕ → List ℕ → Row → Bool
row_converged node_id alive row =
    not row.has_task
    && (row.node_id == node_id)
    && is_in row.leader_id alive
    && numbers_eq (sorted row.desired_peers) three
    && numbers_eq (sorted row.log_voters) three
    && numbers_eq (sorted row.runtime_voters) three
    && row.has_quorum
    && right_role row.role (row.leader_id == node_id)

-- The Slots with their leaders.
abbrev pub Fingerprint : Type 0
Fingerprint = List (ℕ × ℕ)

abbrev pub leader_of : Row → ℕ × ℕ
leader_of row = (row.slot_id, row.leader_id)

abbrev pub hashes : List Row → List ℕ
hashes [] = []
hashes (r ∷ rs) = r.hash_slots ++ hashes rs

-- The snapshot of one node, or none where the code raises ValueError.
unfoldable pub snapshot : ℕ → List ℕ → Page → Option Fingerprint
snapshot node_id alive page =
    let rows = sorted_rows page.items in
    if (page.total == 10)
      && (length rows == 10)
      && all (row_converged node_id alive) rows
      && numbers_eq (sorted (hashes rows)) (range_from 256 0)
    then some (map leader_of rows)
    else none

unfoldable pub fingerprint_eq : Fingerprint → Fingerprint → Bool
fingerprint_eq [] [] = true
fingerprint_eq ((a, b) ∷ xs) ((c, d) ∷ ys) = (a == c) && (b == d) && fingerprint_eq xs ys
fingerprint_eq _ _ = false

-- A page, or none where the request fails.
abbrev pub fetched_snapshot : ℕ → List ℕ → Option Page → Option Fingerprint
fetched_snapshot node_id alive none = none
fetched_snapshot node_id alive (some page) = snapshot node_id alive page

module _ (page_of : ℕ → Option Page) (alive : List ℕ) where
  abbrev pub cons_some : Option Fingerprint → Option (List Fingerprint) → Option (List Fingerprint)
  cons_some (some f) (some fs) = some (f ∷ fs)
  cons_some _ _ = none

  -- The loop `for node_id in alive`.
  unfoldable pub snapshots : List ℕ → Option (List Fingerprint)
  snapshots [] = some []
  snapshots (node_id ∷ rest) =
      cons_some (fetched_snapshot node_id alive (page_of node_id)) (snapshots rest)

  -- `snapshots[0]`, if no snapshot differs from it. (With no node alive `snapshots[0]` raises.)
  abbrev pub agreed : Option (List Fingerprint) → Option Fingerprint
  agreed (some (f ∷ fs)) = if all (λ g. fingerprint_eq g f) (f ∷ fs) then some f else none
  agreed _ = none

  -- One round of requests: the leaders that all surviving nodes agree on.
  unfoldable pub observe : Option Fingerprint
  observe = agreed (snapshots alive)

-- Nanoseconds of the monotonic clock.
abbrev pub second : ℕ
second = 1000000000

-- What a round leaves: the result, or `previous` and `since`.
pub data Outcome : Type 0 where
  stable : Fingerprint → Outcome
  waiting : Option Fingerprint → ℕ → Outcome

abbrev pub same_as : Option Fingerprint → Fingerprint → Bool
same_as none f = false
same_as (some g) f = fingerprint_eq g f

-- The round's end, at the clock that it reads; none is the handler of the exceptions.
unfoldable pub settle : Option Fingerprint → ℕ → Option Fingerprint → ℕ → Outcome
settle previous since none now = waiting none 0
settle previous since (some current) now =
    if same_as previous current && leb second (now - since)
    then stable current
    else if not (same_as previous current)
    then waiting (some current) now
    else waiting previous since

-- The loop over the rounds that run before the timeout of 60 seconds; none is that timeout.
unfoldable pub stable_slots :
    Option Fingerprint → ℕ → List (Option Fingerprint × ℕ) → Option Fingerprint
stable_slots previous since [] = none
stable_slots previous since ((current, now) ∷ rounds) = elim (settle previous since current now) [
  | stable f ↦ some f
  | waiting previous' since' ↦ stable_slots previous' since' rounds
]
