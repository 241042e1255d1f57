-- ===== src/Sdk/Requests/Capacity.antt =====
-- How many requests of a session have a place.
use wu_kong_easy_sdk_csharp.Common.{
  ℕ, suc, ◌+◌, ◌≤◌, none, some, List, [], ◌∷◌, map, length, ◌≡◌, refl, ◌↔◌, arith, Option-cases,
  ◌⊎◌, inl, inr,
}
use wu_kong_easy_sdk_csharp.Sdk.Requests.{
  Method, Pending, Session, opened, begin, take_out, enter, leave, release, complete, complete_next,
  Step, begun, entered, replied, ponged, completed, receiver_raised, receiver_returned, stopped,
  left, released, or_same, step, run,
}

-- The requests that have a place: on their way into the dictionary, in it, or on their way out.
abbrev pub in_flight : Session → ℕ
in_flight s = length s.entering + length s.pending + s.leaving

-- Every place of the capacity is free or taken by a request.
abbrev pub Balanced : ℕ → Session → Type 0
Balanced max_pending s = s.free + in_flight s ≡ max_pending

length-map {ℓ} : {A : Type ℓ} (f : A → A) (xs : List A) → length (map f xs) ≡ length xs
length-map f [] = refl
length-map f (x ∷ xs) = omega (arith, length-map f xs)

pub List-cases {ℓ} :
    {A : Type ℓ} (xs : List A) → (xs ≡ []) ⊎ ((x : A) × (ys : List A) × (xs ≡ x ∷ ys))
List-cases [] = inl refl
List-cases (x ∷ xs) = inr (x, xs, refl)

length-take_out :
    (id : ℕ) (qs rest : List Pending) (q : Pending)
    → take_out id qs ≡ some (q, rest)
    → length qs ≡ suc (length rest)
unfolding take_out
length-take_out id [] rest q h = absurd (cc)
length-take_out id (p ∷ qs) rest q h = elim (Option-cases (take_out id qs)) [
  | inl e ↦ ground (arith, e)
  | inr ((r, more), e) ↦ ground (arith, e, length-take_out id qs more r e)
]

begin-Balanced :
    (max : ℕ) (m : Method) (s : Session) → Balanced max s → Balanced max (or_same (begin m s) s)
unfolding begin
begin-Balanced max m s h = ground arith

enter-Balanced : (max id : ℕ) (s : Session) → Balanced max s → Balanced max (enter id s)
unfolding enter
enter-Balanced max id s h = elim (Option-cases (take_out id s.entering)) [
  | inl e ↦ ground (arith, e)
  | inr ((q, rest), e) ↦ ground (arith, e, length-take_out id s.entering rest q e)
]

leave-Balanced : (max id : ℕ) (s : Session) → Balanced max s → Balanced max (leave id s)
unfolding leave
leave-Balanced max id s h = elim (Option-cases (take_out id s.pending)) [
  | inl e ↦ ground (arith, e)
  | inr ((q, rest), e) ↦ ground (arith, e, length-take_out id s.pending rest q e)
]

release-Balanced : (max : ℕ) (s : Session) → Balanced max s → Balanced max (release s)
unfolding release
release-Balanced max s h = ground arith

complete_next-Balanced : (max : ℕ) (s : Session) → Balanced max s → Balanced max (complete_next s)
unfolding complete_next
complete_next-Balanced max s h = elim (List-cases s.todo) [
  | inl e ↦ rw e h
  | inr (next, todo, e) ↦ rw e (omega (arith, h, length-map (complete next.0 next.1) s.pending))
]

step-Balanced : (max : ℕ) (x : Step) (s : Session) → Balanced max s → Balanced max (step x s)
unfolding step
step-Balanced max (begun m) s h = begin-Balanced max m s h
step-Balanced max (entered id) s h = enter-Balanced max id s h
step-Balanced max (replied id r) s h = ground arith
step-Balanced max ponged s h = ground arith
step-Balanced max completed s h = complete_next-Balanced max s h
step-Balanced max receiver_raised s h = ground arith
step-Balanced max receiver_returned s h = ground arith
step-Balanced max stopped s h = h
step-Balanced max (left id) s h = leave-Balanced max id s h
step-Balanced max released s h = release-Balanced max s h

run-Balanced : (max : ℕ) (xs : List Step) (s : Session) → Balanced max s → Balanced max (run xs s)
unfolding run
run-Balanced max [] s h = h
run-Balanced max (x ∷ xs) s h = run-Balanced max xs (step x s) (step-Balanced max x s h)

opened-Balanced : (max : ℕ) → Balanced max (opened max)
unfolding opened
opened-Balanced max = omega arith

begin-none :
    (max : ℕ) (m : Method) (s : Session) → Balanced max s → (begin m s ≡ none) ↔ (in_flight s ≡ max)
unfolding begin
begin-none max m s h = (λ e. ground arith, λ e. ground arith)

-- Whatever happens in a session, at most MaxPendingRequests requests have a place, on their way into
-- the dictionary of pending requests, in it or on their way out, and a further one is refused exactly
-- when so many have.
pub capacity_kept :
    (max : ℕ) (xs : List Step) (m : Method)
    → let s = run xs (opened max) in
      (in_flight s ≤ max) × ((begin m s ≡ none) ↔ (in_flight s ≡ max))
capacity_kept max xs m =
    let b = run-Balanced max xs (opened max) (opened-Balanced max) in
    (omega (arith, b), begin-none max m (run xs (opened max)) b)
