-- ===== src/Cluster/Channel/Health.antt =====
-- The row that `node_health` returns.
use mathlib.Core.List.{Memᴰ}
use text.Mathlib.TextEquality.{eq_iff as str_eq_iff}
use wu_kong_easy_sdk_csharp.Common.{
  ℕ, Bool, true, false, ◌&&◌, Option, none, some, List, [], ◌∷◌, ◌==◌, ◌≡◌, refl, sym, arith,
  Bool-cases, Option-cases, inl, inr, ==_iff, and_left, and_right, ◌↔◌, ◌∙◌,
}
use wu_kong_easy_sdk_csharp.Cluster.Channel.{NodeRow, healthy, same_bool, first_health, node_health}

-- What a row has to say of a node that is up.
pub record Up (row : NodeRow) : Type 0 where
  pub fresh : row.fresh ≡ true
  pub runtime_ready : row.runtime_ready ≡ true
  pub alive : row.status ≡ "alive"

-- A row of a polled page, of this node, that shows it up exactly if that was asked for.
pub record HealthShown (target : ℕ) (ready : Bool) (polls : List (Option (List NodeRow)))
    (row : NodeRow) : Type 0 where
  pub rows : List NodeRow
  pub polled : Memᴰ (some rows) polls
  pub listed : Memᴰ row rows
  pub same_node : row.node_id ≡ target
  pub as_asked : (ready ≡ true) ↔ Up row

healthy_iff : (row : NodeRow) → (healthy row ≡ true) ↔ Up row
healthy_iff row = (
  λ h. record {
    fresh = ground arith;
    runtime_ready = ground arith;
    alive = (str_eq_iff row.status "alive").0 (ground arith);
  },
  λ up. rw (up.fresh, up.runtime_ready, (str_eq_iff row.status "alive").1 up.alive),
)

-- The health that was asked for.
shown : (row : NodeRow) (ready : Bool) → healthy row ≡ ready → (ready ≡ true) ↔ Up row
shown row ready h = (λ r. (healthy_iff row).0 (h ∙ r), λ up. sym h ∙ (healthy_iff row).1 up)

same_bool_sound : (a b : Bool) → same_bool a b ≡ true → a ≡ b
same_bool_sound true b h = sym h
same_bool_sound false b h = ground arith

module _ (target : ℕ) (ready : Bool) where
  first_health_sound :
      (rows : List NodeRow) (row : NodeRow)
      → first_health target ready rows ≡ some row
      → Memᴰ row rows × (row.node_id ≡ target) × (healthy row ≡ ready)
  unfolding first_health
  first_health_sound [] row h = absurd (cc)
  first_health_sound (r ∷ rs) row h =
      elim (Bool-cases ((r.node_id == target) && same_bool (healthy r) ready)) [
        | inl e ↦
            let same : r ≡ row = ground arith in
            (
              Memᴰ.head (sym same),
              rw (← same) ((==_iff r.node_id target).0 (and_left (r.node_id == target) _ e)),
              rw (← same) (same_bool_sound (healthy r) ready (and_right (r.node_id == target) _ e)),
            )
        | inr e ↦ let (m, i, k) = first_health_sound rs row (ground arith) in (Memᴰ.tail m, i, k)
      ]

  later :
      (o : Option (List NodeRow)) (polls : List (Option (List NodeRow))) (row : NodeRow)
      → HealthShown target ready polls row
      → HealthShown target ready (o ∷ polls) row
  later o polls row s = record {
    rows = s.rows;
    polled = Memᴰ.tail s.polled;
    listed = s.listed;
    same_node = s.same_node;
    as_asked = s.as_asked;
  }

  -- `node_health` returns a row only of a page that was polled and of this node. If the node is to be
  -- up, the row is fresh, its runtime is ready and its status is "alive"; if not, one of these fails.
  pub node_health_sound :
      (polls : List (Option (List NodeRow))) (row : NodeRow)
      → node_health target ready polls ≡ some row
      → HealthShown target ready polls row
  unfolding node_health
  node_health_sound [] row h = absurd (cc)
  node_health_sound (none ∷ polls) row h = later none polls row (node_health_sound polls row h)
  node_health_sound (some rows ∷ polls) row h =
      elim (Option-cases (first_health target ready rows)) [
        | inl e ↦
            later (some rows) polls row (node_health_sound polls row (rw (e, node_health) at h))
        | inr (found, e) ↦
            let same : some found ≡ some row = rw (e, node_health) at h in
            let (m, i, k) = first_health_sound rows row (rw e same) in
            record {
              rows = rows;
              polled = Memᴰ.head refl;
              listed = m;
              same_node = i;
              as_asked = shown row ready k;
            }
      ]
