-- ===== src/Cluster/Slots/Agreement.antt =====
-- The nodes' agreement in one round of `stable_slots`.
use wu_kong_easy_sdk_csharp.Common.{
  ℕ, true, Option, none, some, List, [], ◌∷◌, all, ◌≡◌, refl, ◌∙◌, arith, All, and_left, and_right,
  Option-cases, inl, inr, ap,
}
use mathlib.Core.Path.{subst}
use wu_kong_easy_sdk_csharp.Cluster.Slots.{
  Page, Fingerprint, fingerprint_eq, fetched_snapshot, snapshots, agreed, observe,
}
use wu_kong_easy_sdk_csharp.Cluster.Slots.Converged.{
  fingerprint_eq_sound, PageShows, snapshot_sound,
}

module _ (page_of : ℕ → Option Page) (alive : List ℕ) where
  -- The node answered, and its page shows these leaders.
  pub record NodeShows (f : Fingerprint) (node : ℕ) : Type 0 where
    pub page : Page
    pub answered : page_of node ≡ some page
    pub shows : PageShows alive node f page

  node_shows :
      (node : ℕ) (f : Fingerprint) (o : Option Page)
      → page_of node ≡ o
      → fetched_snapshot node alive o ≡ some f
      → NodeShows f node
  node_shows node f none e h = absurd (cc)
  node_shows node f (some page) e h = record {
    page = page;
    answered = e;
    shows = snapshot_sound alive node f page h;
  }

  all_show :
      (nodes : List ℕ) (fs : List Fingerprint) (f : Fingerprint)
      → snapshots page_of alive nodes ≡ some fs
      → all (λ g. fingerprint_eq g f) fs ≡ true
      → All (NodeShows f) nodes
  unfolding snapshots
  all_show [] fs f h e = tt
  all_show (n ∷ ns) fs f h e = elim (Option-cases (fetched_snapshot n alive (page_of n))) [
    | inl x ↦ absurd (ground arith)
    | inr (g, x) ↦ elim (Option-cases (snapshots page_of alive ns)) [
      | inl y ↦ absurd (ground arith)
      | inr (gs, y) ↦
          let split : fs ≡ g ∷ gs = ground (arith, x, y) in
          let e' : all (λ k. fingerprint_eq k f) (g ∷ gs) ≡ true =
            subst (λ t. all (λ k. fingerprint_eq k f) t ≡ true) split e in
          let same : g ≡ f = fingerprint_eq_sound g f (and_left (fingerprint_eq g f) _ e') in
          (
            node_shows n f (page_of n) refl (x ∙ ap some same),
            all_show ns gs f y (and_right (fingerprint_eq g f) _ e'),
          )
    ]
  ]

  agreed-snapshots :
      (s : Option (List Fingerprint)) (f : Fingerprint)
      → agreed page_of alive s ≡ some f
      → (fs : List Fingerprint) × (s ≡ some fs) × (all (λ g. fingerprint_eq g f) fs ≡ true)
  agreed-snapshots none f h = absurd (cc)
  agreed-snapshots (some []) f h = absurd (cc)
  agreed-snapshots (some (g ∷ gs)) f h =
      let same : g ≡ f = ground arith in
      let own : all (λ k. fingerprint_eq k g) (g ∷ gs) ≡ true = ground arith in
      (g ∷ gs, refl, subst (λ x. all (λ k. fingerprint_eq k x) (g ∷ gs) ≡ true) same own)

  -- If a round yields leaders, every surviving node answered with a page that shows exactly these, all
  -- of them alive, with a quorum in each of its ten Slots and every hash slot covered once.
  pub observe_sound : (f : Fingerprint) → observe page_of alive ≡ some f → All (NodeShows f) alive
  unfolding observe
  observe_sound f h =
      let (fs, e, a) = agreed-snapshots (snapshots page_of alive alive) f h in
      all_show alive fs f e a
