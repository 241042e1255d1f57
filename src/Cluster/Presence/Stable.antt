-- ===== src/Cluster/Presence/Stable.antt =====
-- The wait ends only after a second in which no client was missing on any live node.
use mathlib.Core.Path.{subst}
use wu_kong_easy_sdk_csharp.Common.{
  ℕ, ◌+◌, ◌-◌, ◌≤◌, String, Bool, true, false, Option, none, some, List, [], ◌∷◌, ◌++◌, leb, leb→le,
  ◌≡◌, refl, ◌∙◌, ap, arith, All, append_assoc, Bool-cases, inl, inr, ◌⊎◌,
}
use wu_kong_easy_sdk_csharp.Cluster.Presence.{
  OnlineRow, sees, absent, NodeView, stopped, running, none_absent, all_present, second, Wait,
  ready, since, settle, wait_present,
}

abbrev pub Round : Type 0
Round = List NodeView × ℕ

-- Each live node of the round sees each client online.
abbrev pub Present : List String → NodeView → Type 0
Present uids stopped = Unit
Present uids (running rows) = All (λ uid. sees rows uid ≡ true) uids

abbrev pub AllPresent : List String → Round → Type 0
AllPresent uids (nodes, now) = All (Present uids) nodes

-- The rounds end a run of rounds with everybody present, from `first` to `last`, a second at least.
pub record PresentRun (uids : List String) (rounds : List Round) (last : ℕ) : Type 0 where
  pub before : List Round
  pub opening : List NodeView
  pub first : ℕ
  pub inside : List Round
  pub closing : List NodeView
  pub after : List Round
  pub spelled : rounds ≡ before ++ ((opening, first) ∷ (inside ++ ((closing, last) ∷ after)))
  pub all_inside : All (AllPresent uids) inside
  pub at_first : All (Present uids) opening
  pub at_last : All (Present uids) closing
  pub a_second : first + second ≤ last

module _ (uids : List String) where
  no_absent :
      (rows : List OnlineRow) (us : List String)
      → none_absent us (running rows) ≡ true
      → All (λ uid. sees rows uid ≡ true) us
  unfolding absent
  no_absent rows [] h = tt
  no_absent rows (uid ∷ us) h = elim (Bool-cases (sees rows uid)) [
    | inl e ↦ (e, no_absent rows us (ground arith))
    | inr e ↦ absurd (ground arith)
  ]

  present : (node : NodeView) → none_absent uids node ≡ true → Present uids node
  present stopped h = tt
  present (running rows) h = no_absent rows uids h

  all_present_sound :
      (nodes : List NodeView) → all_present uids nodes ≡ true → All (Present uids) nodes
  unfolding all_present
  all_present_sound [] h = tt
  all_present_sound (n ∷ ns) h = (present n (ground arith), all_present_sound ns (ground arith))

  -- What `stable_since` says of the rounds so far.
  abbrev Since : List Round → Option ℕ → Type 0
  Since done none = Unit
  Since done (some start) =
      (before : List Round) × (opening : List NodeView) × (inside : List Round) × (done
        ≡ before ++ ((opening, start) ∷ inside))
      × All (Present uids) opening
      × All (AllPresent uids) inside

  Follows : List Round → Round → List Round → Wait → Type 0
  Follows done (nodes, now) rest ready = PresentRun uids (done ++ ((nodes, now) ∷ rest)) now
  Follows done r rest (since start) = Since (done ++ (r ∷ [])) start

  All-snoc :
      (xs : List Round) (r : Round)
      → All (AllPresent uids) xs
      → AllPresent uids r
      → All (AllPresent uids) (xs ++ (r ∷ []))
  All-snoc [] r h k = (k, tt)
  All-snoc (x ∷ xs) r h k = (h.0, All-snoc xs r h.1 k)

  settle-Follows :
      (done : List Round) (start : Option ℕ) (here : Bool) (nodes : List NodeView) (now : ℕ)
      (rest : List Round)
      → (here ≡ true → All (Present uids) nodes)
      → Since done start
      → Follows done (nodes, now) rest (settle start here now)
  unfolding settle Follows
  settle-Follows done none false nodes now rest p s = tt
  settle-Follows done (some t) false nodes now rest p s = tt
  settle-Follows done none true nodes now rest p s = (done, nodes, [], refl, p refl, tt)
  settle-Follows done (some t) true nodes now rest p (before, opening, inside, e, o, a) =
      elim (Bool-cases (leb second (now - t))) [
        | inl late ↦ rw late (record {
          before = before;
          opening = opening;
          first = t;
          inside = inside;
          closing = nodes;
          after = rest;
          spelled =
              ap (λ x. x ++ ((nodes, now) ∷ rest)) e
              ∙ append_assoc before ((opening, t) ∷ inside) ((nodes, now) ∷ rest);
          all_inside = a;
          at_first = o;
          at_last = p refl;
          a_second = omega (arith, leb→le second (now - t) late);
        })
        | inr early ↦ rw early (
          before,
          opening,
          inside ++ ((nodes, now) ∷ []),
          ap (λ x. x ++ ((nodes, now) ∷ [])) e
              ∙ append_assoc before ((opening, t) ∷ inside) ((nodes, now) ∷ []),
          o,
          All-snoc inside (nodes, now) a (p refl),
        )
      ]

  Wait-cases : (w : Wait) → (w ≡ ready) ⊎ ((s : Option ℕ) × (w ≡ since s))
  Wait-cases ready = inl refl
  Wait-cases (since s) = inr (s, refl)

  run :
      (done : List Round) (start : Option ℕ) (rounds : List Round) (last : ℕ)
      → Since done start
      → wait_present uids start rounds ≡ some last
      → PresentRun uids (done ++ rounds) last
  unfolding wait_present Follows
  run done start [] last s h = absurd (cc)
  run done start ((nodes, now) ∷ rest) last s h =
      let here = all_present uids nodes in
      let follows = settle-Follows done start here nodes now rest (all_present_sound nodes) s in
      elim (Wait-cases (settle start here now)) [
        | inl e ↦
            let found : some now ≡ some last = rw (e, wait_present) at h in
            let same : now ≡ last = cc in
            subst (PresentRun uids (done ++ ((nodes, now) ∷ rest))) same (rw e at follows)
        | inr (t, e) ↦ rw append_assoc at (
            run (done ++ ((nodes, now) ∷ [])) t rest last (rw e at follows)
              (rw (e, wait_present) at h))
      ]

  -- The wait ends at a round only after an unbroken run of rounds that lasted a second, in each of
  -- which every node that runs saw every client online on a desktop device.
  pub wait_present_sound :
      (rounds : List Round) (last : ℕ)
      → wait_present uids none rounds ≡ some last
      → PresentRun uids rounds last
  wait_present_sound rounds last h = run [] none rounds last tt h
