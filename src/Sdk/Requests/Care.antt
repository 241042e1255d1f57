-- ===== src/Sdk/Requests/Care.antt =====
-- The requests that a failed receiver has to settle, and how the other operations treat them.
use mathlib.Core.List.{Memᴰ}
use mathlib.Core.Path.{subst}
use wu_kong_easy_sdk_csharp.Common.{
  ℕ, zero, suc, ◌≤◌, ◌<◌, Bool, true, false, false≢true, none, some, List, [], ◌∷◌, ◌==◌, any, map,
  ◌≡◌, ◌≢◌, refl, sym, ap, ◌∙◌, arith, All, Option-cases, Bool-cases, ◌⊎◌, inl, inr,
}
use wu_kong_easy_sdk_csharp.Sdk.Requests.{
  Method, Reply, Pending, Session, raised, begin, take_out, enter, leave, release, holds, failures,
  or_same,
}

-- A request whose completion is set.
abbrev pub Settled : Pending → Type 0
Settled q = q.completion ≢ none

abbrev pub queued : ℕ → List (ℕ × Reply) → Bool
queued id = any (λ next. next.0 == id)

-- ---------------------------------------------------------------- lists of requests

pub All-weaken :
    {P Q : Pending → Type 0}
    → ((q : Pending) → P q → Q q)
    → (qs : List Pending) → All P qs
    → All Q qs
All-weaken f [] h = tt
All-weaken f (q ∷ qs) (h, t) = (f q h, All-weaken f qs t)

pub All-map :
    (P Q : Pending → Type 0) (g : Pending → Pending)
    → ((q : Pending) → P q → Q (g q))
    → (qs : List Pending) → All P qs
    → All Q (map g qs)
All-map P Q g f [] h = tt
All-map P Q g f (q ∷ qs) (h, t) = (f q h, All-map P Q g f qs t)

pub All-Mem : (P : Pending → Type 0) (q : Pending) (qs : List Pending) → All P qs → Memᴰ q qs → P q
All-Mem P q (p ∷ qs) (h, t) (Memᴰ.head e) = subst P (sym e) h
All-Mem P q (p ∷ qs) (h, t) (Memᴰ.tail m) = All-Mem P q qs t m
All-Mem P q [] h m = elim m [ ]

some_same : (x y : Pending × List Pending) → some x ≡ some y → x ≡ y
some_same x y h = ap (λ o. elim o [ none ↦ x | some z ↦ z ]) h

-- What holds of all holds of the one that is taken out and of the others.
All-take_out :
    (P : Pending → Type 0) (id : ℕ) (qs : List Pending) (found : Pending × List Pending)
    → take_out id qs ≡ some found
    → All P qs
    → P found.0 × All P found.1
unfolding take_out
All-take_out P id (p ∷ qs) found h (hp, t) = elim (Bool-cases (p.id == id)) [
  | inl e ↦ subst (λ z. P z.0 × All P z.1) (some_same (p, qs) found (rw e at h)) (hp, t)
  | inr e ↦ elim (Option-cases (take_out id qs)) [
    | inl n ↦ absurd (ground (arith, e, n))
    | inr (other, f) ↦
        let (hr, hs) = All-take_out P id qs other f t in
        subst (λ z. P z.0 × All P z.1) (some_same (other.0, p ∷ other.1) found (rw (e, f) at h))
          (hr, (hp, hs))
  ]
]
All-take_out P id [] found h t = absurd (cc)

pub self_held : (qs : List Pending) → All (λ q. holds q.id qs ≡ true) qs
self_held [] = tt
self_held (q ∷ qs) = (ground arith, All-weaken (λ p h. ground arith) qs (self_held qs))

pub self_queued : (qs : List Pending) → All (λ q. queued q.id (failures qs) ≡ true) qs
self_queued [] = tt
self_queued (q ∷ qs) = (ground arith, All-weaken (λ p h. ground arith) qs (self_queued qs))

pub zero_or : (n : ℕ) → (n ≡ 0) ⊎ ((m : ℕ) × (n ≡ suc m))
zero_or zero = inl refl
zero_or (suc n) = inr (n, refl)

-- ---------------------------------------------------------------- after the failure

-- A request of those before the n-th, and not of the late ones, is settled or is going to be.
unfoldable pub Cared : (n : ℕ) (late : List Pending) (todo : List (ℕ × Reply)) → Pending → Type 0
Cared n late todo q = q.id < n → holds q.id late ≡ false → Settled q ⊎ (queued q.id todo ≡ true)

unfoldable pub Late : (n : ℕ) (late : List Pending) → Pending → Type 0
Late n late q = q.id < n → holds q.id late ≡ true

pub record Failing (n : ℕ) (late : List Pending) (s : Session) : Type 0 where
  pub receiver_is : s.receiver ≡ raised
  pub issued : n ≤ s.issued
  pub in_care : All (Cared n late s.todo) s.pending
  pub are_late : All (Late n late) s.entering

-- What an operation leaves in the care of the receiver.
begin-none : (m : Method) (s : Session) → s.free ≡ 0 → or_same (begin m s) s ≡ s
unfolding begin
begin-none m s e = rw (begin, e) refl

begin-some :
    (m : Method) (s : Session) (rest : ℕ)
    → s.free ≡ suc rest
    → or_same (begin m s) s ≡ record s {
      free = rest;
      issued = suc s.issued;
      entering = record { id = s.issued; method = m; completion = none } ∷ s.entering;
    }
unfolding begin
begin-some m s rest e = rw (begin, e) refl

enter-none : (id : ℕ) (s : Session) → take_out id s.entering ≡ none → enter id s ≡ s
unfolding enter
enter-none id s e = rw (enter, e) refl

enter-some :
    (id : ℕ) (s : Session) (found : Pending × List Pending)
    → take_out id s.entering ≡ some found
    → enter id s ≡ record s { entering = found.1; pending = found.0 ∷ s.pending }
unfolding enter
enter-some id s found e = rw (enter, e) refl

leave-none : (id : ℕ) (s : Session) → take_out id s.pending ≡ none → leave id s ≡ s
unfolding leave
leave-none id s e = rw (leave, e) refl

leave-some :
    (id : ℕ) (s : Session) (found : Pending × List Pending)
    → take_out id s.pending ≡ some found
    → leave id s ≡ record s { pending = found.1; leaving = suc s.leaving }
unfolding leave
leave-some id s found e = rw (leave, e) refl

release-none : (s : Session) → s.leaving ≡ 0 → release s ≡ s
unfolding release
release-none s e = ground (arith, e)

release-some :
    (s : Session) (rest : ℕ)
    → s.leaving ≡ suc rest
    → release s ≡ record s { free = suc s.free; leaving = rest }
unfolding release
release-some s rest e = rw (release, e) refl

module _ (n : ℕ) (late : List Pending) (s : Session) (k : Failing n late s) where
  pub by_eq : {t u : Session} → t ≡ u → Failing n late u → Failing n late t
  by_eq e f = subst (Failing n late) (sym e) f

  pub begin-Failing : (m : Method) → Failing n late (or_same (begin m s) s)
  unfolding Late
  begin-Failing m = elim (zero_or s.free) [
    | inl e ↦ by_eq (begin-none m s e) k
    | inr (rest, e) ↦ by_eq (begin-some m s rest e) (record {
      receiver_is = k.receiver_is;
      issued = omega (arith, k.issued);
      in_care = k.in_care;
      are_late = (λ h. absurd (omega (arith, h, k.issued)), k.are_late);
    })
  ]

  pub enter-Failing : (id : ℕ) → Failing n late (enter id s)
  unfolding Late Cared
  enter-Failing id = elim (Option-cases (take_out id s.entering)) [
    | inl e ↦ by_eq (enter-none id s e) k
    | inr (found, e) ↦
        let (h, t) = All-take_out (Late n late) id s.entering found e k.are_late in
        by_eq (enter-some id s found e) (record {
          receiver_is = k.receiver_is;
          issued = k.issued;
          in_care = (λ b f. absurd (false≢true (sym f ∙ h b)), k.in_care);
          are_late = t;
        })
  ]

  pub leave-Failing : (id : ℕ) → Failing n late (leave id s)
  leave-Failing id = elim (Option-cases (take_out id s.pending)) [
    | inl e ↦ by_eq (leave-none id s e) k
    | inr (found, e) ↦ by_eq (leave-some id s found e) (record {
      receiver_is = k.receiver_is;
      issued = k.issued;
      in_care = (All-take_out (Cared n late s.todo) id s.pending found e k.in_care).1;
      are_late = k.are_late;
    })
  ]

  pub release-Failing : Failing n late (release s)
  release-Failing = elim (zero_or s.leaving) [
    | inl e ↦ by_eq (release-none s e) k
    | inr (rest, e) ↦ by_eq (release-some s rest e) (record {
      receiver_is = k.receiver_is;
      issued = k.issued;
      in_care = k.in_care;
      are_late = k.are_late;
    })
  ]
