-- ===== src/Cluster/Slots/Stable.antt =====
-- The loop of `stable_slots` returns only leaders that stood unchanged for a second.
use wu_kong_easy_sdk_csharp.Common.{
  ℕ, ◌+◌, ◌-◌, ◌≤◌, true, Option, none, some, List, [], ◌∷◌, ◌++◌, leb, ◌≡◌, refl, ◌∙◌, ap, arith,
  All, append_assoc, leb→le, Bool-cases, inl, inr, ◌⊎◌,
}
use wu_kong_easy_sdk_csharp.Cluster.Slots.{
  Fingerprint, fingerprint_eq, second, Outcome, stable, waiting, settle, stable_slots,
}
use wu_kong_easy_sdk_csharp.Cluster.Slots.Converged.{fingerprint_eq_sound}
use mathlib.Core.Path.{subst}

abbrev pub Round : Type 0
Round = Option Fingerprint × ℕ

abbrev pub Saw : Fingerprint → Round → Type 0
Saw f (o, now) = o ≡ some f

-- The rounds hold an unbroken run in which every round saw these leaders, and which lasted a second:
-- `first` is the time of its first round, `last` that of its last.
pub record StableRun (rounds : List Round) (f : Fingerprint) : Type 0 where
  pub before : List Round
  pub first : ℕ
  pub inside : List Round
  pub last : ℕ
  pub after : List Round
  pub spelled : rounds ≡ before ++ ((some f, first) ∷ (inside ++ ((some f, last) ∷ after)))
  pub unchanged : All (Saw f) inside
  pub a_second : first + second ≤ last

-- What `previous` and `since` say of the rounds so far.
abbrev Since : List Round → Option Fingerprint → ℕ → Type 0
Since done none since = Unit
Since done (some f) since =
    (before : List Round) × (inside : List Round) × (done ≡ before ++ ((some f, since) ∷ inside))
    × All (Saw f) inside

module _ (f : Fingerprint) where
  All-snoc : (xs : List Round) (now : ℕ) → All (Saw f) xs → All (Saw f) (xs ++ ((some f, now) ∷ []))
  All-snoc [] now h = (refl, tt)
  All-snoc (x ∷ xs) now h = (h.0, All-snoc xs now h.1)

-- A run that goes on.
more :
    (done : List Round) (f : Fingerprint) (since now : ℕ)
    → Since done (some f) since
    → Since (done ++ ((some f, now) ∷ [])) (some f) since
more done f since now (before, inside, spelled, saw) = (
  before,
  inside ++ ((some f, now) ∷ []),
  ap (λ t. t ++ ((some f, now) ∷ [])) spelled
      ∙ append_assoc before ((some f, since) ∷ inside) ((some f, now) ∷ []),
  All-snoc f inside now saw,
)

-- A run that has lasted long enough.
enough :
    (done : List Round) (f : Fingerprint) (since now : ℕ) (rest : List Round)
    → Since done (some f) since
    → since + second ≤ now
    → StableRun (done ++ ((some f, now) ∷ rest)) f
enough done f since now rest (before, inside, spelled, saw) h = record {
  before = before;
  first = since;
  inside = inside;
  last = now;
  after = rest;
  spelled =
      ap (λ t. t ++ ((some f, now) ∷ rest)) spelled
      ∙ append_assoc before ((some f, since) ∷ inside) ((some f, now) ∷ rest);
  unchanged = saw;
  a_second = h;
}

lasted : (now since : ℕ) → leb second (now - since) ≡ true → since + second ≤ now
lasted now since h = omega (arith, leb→le second (now - since) h)

Outcome-cases :
    (o : Outcome)
    → ((f : Fingerprint) × (o ≡ stable f))
      ⊎ ((p : Option Fingerprint) × (t : ℕ) × (o ≡ waiting p t))
Outcome-cases (stable f) = inl (f, refl)
Outcome-cases (waiting p t) = inr (p, t, refl)

-- Where the outcome of a round leads.
Follows : List Round → Round → List Round → Outcome → Type 0
Follows done r rest (stable f) = StableRun (done ++ (r ∷ rest)) f
Follows done r rest (waiting previous since) = Since (done ++ (r ∷ [])) previous since

settle-Follows :
    (done : List Round) (previous : Option Fingerprint) (since : ℕ) (o : Option Fingerprint)
    (now : ℕ) (rest : List Round)
    → Since done previous since
    → Follows done (o, now) rest (settle previous since o now)
unfolding settle Follows
settle-Follows done previous since none now rest h = tt
settle-Follows done none since (some c) now rest h = (done, [], refl, tt)
settle-Follows done (some g) since (some c) now rest h = elim (Bool-cases (fingerprint_eq g c)) [
  | inl same ↦
      let e : g ≡ c = fingerprint_eq_sound g c same in
      elim (Bool-cases (leb second (now - since))) [
        | inl late ↦
            rw (same, late)
              (enough done c since now rest (subst (λ x. Since done (some x) since) e h)
                (lasted now since late))
        | inr early ↦
            rw (same, early)
              (subst (λ x. Since (done ++ ((some x, now) ∷ [])) (some g) since) e
                (more done g since now h))
      ]
  | inr other ↦ rw other (done, [], refl, tt)
]

run :
    (done : List Round) (previous : Option Fingerprint) (since : ℕ) (rounds : List Round)
    (f : Fingerprint)
    → Since done previous since
    → stable_slots previous since rounds ≡ some f
    → StableRun (done ++ rounds) f
unfolding stable_slots Follows
run done previous since [] f s h = absurd (cc)
run done previous since ((o, now) ∷ rest) f s h =
    let follows = settle-Follows done previous since o now rest s in
    elim (Outcome-cases (settle previous since o now)) [
      | inl (g, e) ↦
          let found : some g ≡ some f = rw (e, stable_slots) at h in
          let same : g ≡ f = cc in
          subst (StableRun (done ++ ((o, now) ∷ rest))) same (rw e at follows)
      | inr (p, t, e) ↦
          rw append_assoc at
            (run (done ++ ((o, now) ∷ [])) p t rest f (rw e at follows) (rw (e, stable_slots) at h))
    ]

-- `stable_slots` returns leaders only at the end of an unbroken run of rounds, each of which found all
-- surviving nodes agreed on exactly these leaders, and which lasted for a second at least.
pub stable_slots_sound :
    (rounds : List Round) (f : Fingerprint)
    → stable_slots none 0 rounds ≡ some f
    → StableRun rounds f
stable_slots_sound rounds f h = run [] none 0 rounds f tt h
