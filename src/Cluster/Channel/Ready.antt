-- ===== src/Cluster/Channel/Ready.antt =====
-- What `channel_ready` and `node_health` have seen when they return.
use mathlib.Core.List.{Memᴰ}
use wu_kong_easy_sdk_csharp.Common.{
  ℕ, ◌≤◌, String, Bool, true, false, Option, none, some, List, [], ◌∷◌, length, keep_if, ◌≡◌, ◌≢◌,
  refl, sym, false≢true, ap, ◌∙◌, arith, eq_iff, Bool-cases, inl, inr, Option-cases,
}
use wu_kong_easy_sdk_csharp.Cluster.Slots.{sorted, is_in, three}
use wu_kong_easy_sdk_csharp.Cluster.Slots.Converged.{numbers_eq_sound}
use wu_kong_easy_sdk_csharp.Cluster.Channel.{
  ChannelRow, dedup, common, channel_row_ready, first_ready, channel_ready,
}

-- Two different replicas in sync that are alive.
pub record LiveQuorum (isr alive : List ℕ) : Type 0 where
  pub one : ℕ
  pub other : ℕ
  pub differ : one ≢ other
  pub one_in_sync : is_in one isr ≡ true
  pub other_in_sync : is_in other isr ≡ true
  pub one_alive : is_in one alive ≡ true
  pub other_alive : is_in other alive ≡ true

pub record ChannelReady (channel_id : String) (channel_type : ℕ) (alive : List ℕ) (complete : Bool)
    (row : ChannelRow) : Type 0 where
  pub same_channel : row.channel_id ≡ channel_id
  pub same_type : row.channel_type ≡ channel_type
  pub active : row.status ≡ "active"
  pub two_needed : row.min_isr ≡ 2
  pub leader_alive : is_in row.leader alive ≡ true
  pub not_fenced : row.fenced ≡ false
  pub all_replicas : sorted row.replicas ≡ three
  pub quorum : LiveQuorum row.isr alive
  pub all_in_sync : complete ≡ true → sorted row.isr ≡ three

-- ---------------------------------------------------------------- sets of numbers

is_in-dedup : (n : ℕ) (xs : List ℕ) → is_in n (dedup xs) ≡ true → is_in n xs ≡ true
unfolding dedup
is_in-dedup n [] h = h
is_in-dedup n (x ∷ xs) h = ground (arith, is_in-dedup n xs)

-- Every list whose numbers differ has two of them if it is long enough.
Distinct : List ℕ → Type 0
Distinct [] = Unit
Distinct (x ∷ xs) = (is_in x xs ≡ false) × Distinct xs

dedup-Distinct : (xs : List ℕ) → Distinct (dedup xs)
unfolding dedup Distinct
dedup-Distinct [] = tt
dedup-Distinct (x ∷ xs) = elim (Bool-cases (is_in x (dedup xs))) [
  | inl e ↦ rw e (dedup-Distinct xs)
  | inr e ↦ rw e (e, dedup-Distinct xs)
]

self_in : (x : ℕ) (xs : List ℕ) → is_in x (x ∷ xs) ≡ true
self_in x xs = ground arith

later_in : (n x : ℕ) (xs : List ℕ) → is_in n xs ≡ true → is_in n (x ∷ xs) ≡ true
later_in n x xs h = ground arith

-- A number of the list that passes.
record Kept (p : ℕ → Bool) (xs : List ℕ) : Type 0 where
  number : ℕ
  listed : is_in number xs ≡ true
  passes : p number ≡ true

later_kept : (p : ℕ → Bool) (x : ℕ) (xs : List ℕ) → Kept p xs → Kept p (x ∷ xs)
later_kept p x xs k = record {
  number = k.number;
  listed = later_in k.number x xs k.listed;
  passes = k.passes;
}

one_kept : (p : ℕ → Bool) (xs : List ℕ) → 1 ≤ length (keep_if p xs) → Kept p xs
one_kept p [] h = absurd (omega arith)
one_kept p (x ∷ xs) h = elim (Bool-cases (p x)) [
  | inl e ↦ record { number = x; listed = self_in x xs; passes = e }
  | inr e ↦ later_kept p x xs (one_kept p xs (ground arith))
]

record TwoKept (p : ℕ → Bool) (xs : List ℕ) : Type 0 where
  first : Kept p xs
  second : Kept p xs
  differ : first.number ≢ second.number

apart : (x n : ℕ) (xs : List ℕ) → is_in x xs ≡ false → is_in n xs ≡ true → x ≢ n
apart x n xs h k e = absurd (false≢true (sym h ∙ rw e k))

two_kept : (p : ℕ → Bool) (xs : List ℕ) → Distinct xs → 2 ≤ length (keep_if p xs) → TwoKept p xs
unfolding Distinct later_kept
two_kept p [] d h = absurd (omega arith)
two_kept p (x ∷ xs) d h = elim (Bool-cases (p x)) [
  | inl e ↦
      let k = one_kept p xs (ground arith) in
      record {
        first = record { number = x; listed = self_in x xs; passes = e };
        second = later_kept p x xs k;
        differ = apart x k.number xs d.0 k.listed;
      }
  | inr e ↦
      let t = two_kept p xs d.1 (ground arith) in
      record {
        first = later_kept p x xs t.first;
        second = later_kept p x xs t.second;
        differ = t.differ;
      }
]

live_quorum : (isr alive : List ℕ) → 2 ≤ length (common isr alive) → LiveQuorum isr alive
unfolding common
live_quorum isr alive h =
    let t = two_kept (λ n. is_in n alive) (dedup isr) (dedup-Distinct isr) h in
    record {
      one = t.first.number;
      other = t.second.number;
      differ = t.differ;
      one_in_sync = is_in-dedup t.first.number isr t.first.listed;
      other_in_sync = is_in-dedup t.second.number isr t.second.listed;
      one_alive = t.first.passes;
      other_alive = t.second.passes;
    }

-- ---------------------------------------------------------------- the poll of a channel

module _ (channel_id : String) (channel_type : ℕ) (alive : List ℕ) (complete : Bool) where
  channel_row_ready_sound :
      (row : ChannelRow)
      → channel_row_ready channel_id channel_type alive complete row ≡ true
      → ChannelReady channel_id channel_type alive complete row
  unfolding channel_row_ready
  channel_row_ready_sound row h = record {
    same_channel = (eq_iff row.channel_id channel_id).0 (ground arith);
    same_type = ground arith;
    active = (eq_iff row.status "active").0 (ground arith);
    two_needed = ground arith;
    leader_alive = ground arith;
    not_fenced = ground arith;
    all_replicas = numbers_eq_sound (sorted row.replicas) three (ground arith);
    quorum = live_quorum row.isr alive (ground arith);
    all_in_sync = λ c. numbers_eq_sound (sorted row.isr) three (ground (arith, c));
  }

  first_ready_sound :
      (rows : List ChannelRow) (row : ChannelRow)
      → first_ready channel_id channel_type alive complete rows ≡ some row
      → Memᴰ row rows × (channel_row_ready channel_id channel_type alive complete row ≡ true)
  unfolding first_ready
  first_ready_sound [] row h = absurd (cc)
  first_ready_sound (r ∷ rs) row h =
      elim (Bool-cases (channel_row_ready channel_id channel_type alive complete r)) [
        | inl e ↦ let same : r ≡ row = ground arith in (Memᴰ.head (sym same), rw (← same) e)
        | inr e ↦ let (m, k) = first_ready_sound rs row (ground arith) in (Memᴰ.tail m, k)
      ]

  -- The page that showed the row.
  pub record Shown (polls : List (Option (List ChannelRow))) (row : ChannelRow) : Type 0 where
    pub rows : List ChannelRow
    pub polled : Memᴰ (some rows) polls
    pub listed : Memᴰ row rows

  -- `channel_ready` returns a row only of a page that was polled, and only of this channel: active,
  -- not fenced, with a leader that is alive, all three replicas, and two different replicas that are in
  -- sync and alive; if `complete` is asked, all three are in sync.
  pub channel_ready_sound :
      (polls : List (Option (List ChannelRow))) (row : ChannelRow)
      → channel_ready channel_id channel_type alive complete polls ≡ some row
      → Shown polls row × ChannelReady channel_id channel_type alive complete row
  unfolding channel_ready
  channel_ready_sound [] row h = absurd (cc)
  channel_ready_sound (none ∷ polls) row h =
      let (s, r) = channel_ready_sound polls row h in
      (record { rows = s.rows; polled = Memᴰ.tail s.polled; listed = s.listed }, r)
  channel_ready_sound (some rows ∷ polls) row h =
      elim (Option-cases (first_ready channel_id channel_type alive complete rows)) [
        | inl e ↦
            let (s, r) = channel_ready_sound polls row (rw (e, channel_ready) at h) in
            (record { rows = s.rows; polled = Memᴰ.tail s.polled; listed = s.listed }, r)
        | inr (found, e) ↦
            let same : found ≡ row = ground arith in
            let (m, k) = first_ready_sound rows row (e ∙ ap some same) in
            (
              record { rows = rows; polled = Memᴰ.head refl; listed = m },
              channel_row_ready_sound row k,
            )
      ]
