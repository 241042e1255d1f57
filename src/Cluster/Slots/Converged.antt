-- ===== src/Cluster/Slots/Converged.antt =====
-- What one round of `stable_slots` has established when the nodes agree.
use wu_kong_easy_sdk_csharp.Common.{
  ℕ, suc, Bool, true, false, some, List, [], ◌∷◌, map, ◌==◌, leb, length, all, if◌then◌else◌, ◌≡◌,
  refl, ap, ◌∙◌, arith, All, and_left, and_right, Bool-cases, inl, inr,
}
use wu_kong_easy_sdk_csharp.Cluster.Slots.{
  Role, leader, follower, other_role, Row, Page, insert_row, sorted_rows, sorted, numbers_eq, is_in,
  three, range_from, right_role, row_converged, Fingerprint, leader_of, hashes, snapshot,
  fingerprint_eq,
}

pub numbers_eq_sound : (xs ys : List ℕ) → numbers_eq xs ys ≡ true → xs ≡ ys
unfolding numbers_eq
numbers_eq_sound [] [] h = refl
numbers_eq_sound [] (b ∷ ys) h = absurd (cc)
numbers_eq_sound (a ∷ xs) [] h = absurd (cc)
numbers_eq_sound (a ∷ xs) (b ∷ ys) h = ground (arith, numbers_eq_sound xs ys)

pub fingerprint_eq_sound : (f g : Fingerprint) → fingerprint_eq f g ≡ true → f ≡ g
unfolding fingerprint_eq
fingerprint_eq_sound [] [] h = refl
fingerprint_eq_sound [] (b ∷ ys) h = absurd (cc)
fingerprint_eq_sound (a ∷ xs) [] h = absurd (cc)
fingerprint_eq_sound ((a, b) ∷ xs) ((c, d) ∷ ys) h = ground (arith, fingerprint_eq_sound xs ys)

pub fingerprint_eq_self : (f : Fingerprint) → fingerprint_eq f f ≡ true
unfolding fingerprint_eq
fingerprint_eq_self [] = refl
fingerprint_eq_self ((a, b) ∷ xs) = ground (arith, fingerprint_eq_self xs)

-- ---------------------------------------------------------------- the rows are those of the page

module _ {ℓ} (P : Row → Type ℓ) where
  All-insert_row : (r : Row) (rs : List Row) → All P (insert_row r rs) → P r × All P rs
  unfolding insert_row
  All-insert_row r [] h = h
  All-insert_row r (s ∷ ss) h = elim (Bool-cases (leb r.slot_id s.slot_id)) [
    | inl e ↦ rw (e, insert_row) at h
    | inr e ↦
        let (first, later) : P s × All P (insert_row r ss) = rw (e, insert_row) at h in
        let (here, rest) = All-insert_row r ss later in (here, (first, rest))
  ]

  All-sorted_rows : (rs : List Row) → All P (sorted_rows rs) → All P rs
  unfolding sorted_rows
  All-sorted_rows [] h = h
  All-sorted_rows (r ∷ rs) h =
      let (here, rest) = All-insert_row r (sorted_rows rs) h in (here, All-sorted_rows rs rest)

length-insert_row : (r : Row) (rs : List Row) → length (insert_row r rs) ≡ suc (length rs)
unfolding insert_row
length-insert_row r [] = refl
length-insert_row r (s ∷ ss) = ground (arith, length-insert_row r ss)

length-sorted_rows : (rs : List Row) → length (sorted_rows rs) ≡ length rs
unfolding sorted_rows
length-sorted_rows [] = refl
length-sorted_rows (r ∷ rs) = length-insert_row r (sorted_rows rs) ∙ ap suc (length-sorted_rows rs)

all_sound {ℓ} :
    {A : Type ℓ} (p : A → Bool) (xs : List A) → all p xs ≡ true → All (λ x. p x ≡ true) xs
all_sound p [] h = tt
all_sound p (x ∷ xs) h = (and_left (p x) _ h, all_sound p xs (and_right (p x) _ h))

-- ---------------------------------------------------------------- one row, one node, all nodes

-- A Slot of a node: no task is pending, its leader is alive, all three replicas are voters, it has a
-- quorum, and the node has the role of leader exactly if it is that leader.
pub record RowConverged (alive : List ℕ) (node : ℕ) (row : Row) : Type 0 where
  pub no_task : row.has_task ≡ false
  pub own_row : row.node_id ≡ node
  pub leader_alive : is_in row.leader_id alive ≡ true
  pub desired : sorted row.desired_peers ≡ three
  pub log_votes : sorted row.log_voters ≡ three
  pub runtime_votes : sorted row.runtime_voters ≡ three
  pub quorum : row.has_quorum ≡ true
  pub role : row.role ≡ (if row.leader_id == node then leader else follower)

right_role_sound :
    (r : Role) (b : Bool) → right_role r b ≡ true → r ≡ (if b then leader else follower)
right_role_sound leader true h = refl
right_role_sound leader false h = absurd (cc)
right_role_sound follower true h = absurd (cc)
right_role_sound follower false h = refl
right_role_sound other_role b h = absurd (cc)

row_converged_sound :
    (alive : List ℕ) (node : ℕ) (row : Row)
    → row_converged node alive row ≡ true
    → RowConverged alive node row
unfolding row_converged
row_converged_sound alive node row h = record {
  no_task = ground arith;
  own_row = ground arith;
  leader_alive = ground arith;
  desired = numbers_eq_sound (sorted row.desired_peers) three (ground arith);
  log_votes = numbers_eq_sound (sorted row.log_voters) three (ground arith);
  runtime_votes = numbers_eq_sound (sorted row.runtime_voters) three (ground arith);
  quorum = ground arith;
  role = right_role_sound row.role (row.leader_id == node) (ground arith);
}

-- The page of a node shows ten converged Slots, every hash slot once, and these leaders.
pub record PageShows (alive : List ℕ) (node : ℕ) (f : Fingerprint) (page : Page) : Type 0 where
  pub ten_in_all : page.total ≡ 10
  pub ten_rows : length page.items ≡ 10
  pub converged : All (RowConverged alive node) page.items
  pub coverage : sorted (hashes (sorted_rows page.items)) ≡ range_from 256 0
  pub leaders : map leader_of (sorted_rows page.items) ≡ f

map_All {ℓ κ μ} :
    {A : Type ℓ} (P : A → Type κ) (Q : A → Type μ)
    → ((x : A) → P x → Q x)
    → (xs : List A) → All P xs
    → All Q xs
map_All P Q f [] h = tt
map_All P Q f (x ∷ xs) h = (f x h.0, map_All P Q f xs h.1)

pub snapshot_sound :
    (alive : List ℕ) (node : ℕ) (f : Fingerprint) (page : Page)
    → snapshot node alive page ≡ some f
    → PageShows alive node f page
unfolding snapshot
snapshot_sound alive node f page h = record {
  ten_in_all = ground arith;
  ten_rows = ground (arith, length-sorted_rows page.items);
  converged =
      map_All (λ r. row_converged node alive r ≡ true) (RowConverged alive node)
        (row_converged_sound alive node) page.items
        (All-sorted_rows (λ r. row_converged node alive r ≡ true) page.items
          (all_sound (row_converged node alive) (sorted_rows page.items) (ground arith)));
  coverage =
      numbers_eq_sound (sorted (hashes (sorted_rows page.items))) (range_from 256 0) (ground arith);
  leaders = ground arith;
}
