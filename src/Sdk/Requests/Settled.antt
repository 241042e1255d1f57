-- ===== src/Sdk/Requests/Settled.antt =====
-- What becomes of the requests of a session whose receiver has failed.
use mathlib.Core.List.{Memᴰ}
use mathlib.Core.Path.{subst}
use wu_kong_easy_sdk_csharp.Common.{
  ℕ, ◌<◌, true, false, false≢true, List, [], ◌∷◌, ◌==◌, map, ◌≡◌, refl, sym, ap, ◌∙◌, if◌then◌else◌,
  arith, All, Option-cases, Bool-cases, inl, inr,
}
use wu_kong_easy_sdk_csharp.Sdk.Requests.{
  Reply, Pending, Session, Receiver, raised, opened, holds, complete, complete_next, idle, Step,
  begun, entered, replied, ponged, completed, receiver_raised, receiver_returned, stopped, left,
  released, receive, step, run,
}
use wu_kong_easy_sdk_csharp.Sdk.Requests.Capacity.{List-cases}
use wu_kong_easy_sdk_csharp.Sdk.Requests.Care.{
  Settled, queued, All-weaken, All-map, All-Mem, self_held, self_queued, Cared, Late, Failing,
  by_eq, begin-Failing, enter-Failing, leave-Failing, release-Failing,
}

-- A completion that is set stays set, and the one that is next is set.
complete-Settled : (id : ℕ) (r : Reply) (q : Pending) → Settled q → Settled (complete id r q)
complete-Settled id r q h = elim (Option-cases q.completion) [
  | inl e ↦ absurd (h e)
  | inr (old, e) ↦ λ f. absurd (ground (arith, e))
]

complete-same : (id : ℕ) (r : Reply) (q : Pending) → (q.id == id) ≡ true → Settled (complete id r q)
complete-same id r q same f = elim (Option-cases q.completion) [
  | inl e ↦ absurd (ground (arith, e))
  | inr (old, e) ↦ absurd (ground (arith, e))
]

complete-id : (id : ℕ) (r : Reply) (q : Pending) → (complete id r q).id ≡ q.id
complete-id id r q = elim (Option-cases q.completion) [
  | inl e ↦ ground (arith, e)
  | inr (old, e) ↦ ground (arith, e)
]

-- Setting the next completion takes the one request that waited for it out of care.
complete-Cared :
    (n : ℕ) (late : List Pending) (id : ℕ) (r : Reply) (todo : List (ℕ × Reply)) (q : Pending)
    → Cared n late ((id, r) ∷ todo) q
    → Cared n late todo (complete id r q)
unfolding Cared
complete-Cared n late id r todo q c b f =
    let same = complete-id id r q in
    elim (c (subst (λ i. i < n) same b) (subst (λ i. holds i late ≡ false) same f)) [
      | inl settled ↦ inl (complete-Settled id r q settled)
      | inr waits ↦ elim (Bool-cases (q.id == id)) [
        | inl e ↦ inl (complete-same id r q e)
        | inr e ↦ inr (subst (λ i. queued i todo ≡ true) (sym same) (ground arith))
      ]
    ]

complete_next-none : (s : Session) → s.todo ≡ [] → complete_next s ≡ s
unfolding complete_next
complete_next-none s e = ground (arith, e)

complete_next-some :
    (s : Session) (next : ℕ × Reply) (todo : List (ℕ × Reply))
    → s.todo ≡ next ∷ todo
    → complete_next s ≡ record s { pending = map (complete next.0 next.1) s.pending; todo = todo }
unfolding complete_next
complete_next-some s next todo e = rw (complete_next, e) refl

complete_next-Failing :
    (n : ℕ) (late : List Pending) (s : Session)
    → Failing n late s
    → Failing n late (complete_next s)
complete_next-Failing n late s k = elim (List-cases s.todo) [
  | inl e ↦ by_eq n late s k (complete_next-none s e) k
  | inr (next, todo, e) ↦ by_eq n late s k (complete_next-some s next todo e) (record {
    receiver_is = k.receiver_is;
    issued = k.issued;
    in_care =
        All-map (Cared n late (next ∷ todo)) (Cared n late todo) (complete next.0 next.1)
          (complete-Cared n late next.0 next.1 todo) s.pending
          (subst (λ l. All (Cared n late l) s.pending) e k.in_care);
    are_late = k.are_late;
  })
]

nothing_queued : (id : ℕ) (todo : List (ℕ × Reply)) → todo ≡ [] → ¬ (queued id todo ≡ true)
nothing_queued id todo e h = false≢true (sym (ap (queued id) e) ∙ h)

not_idle : (r : Receiver) (todo : List (ℕ × Reply)) → r ≡ raised → idle r todo ≡ false
not_idle r todo e = ap (λ r. idle r todo) e

receive-idle : (next s : Session) → idle s.receiver s.todo ≡ true → receive next s ≡ next
receive-idle next s e = subst (λ b. (if b then next else s) ≡ next) (sym e) refl

-- A receiver that has raised does nothing more than that.
receive_raised : (next s : Session) → s.receiver ≡ raised → receive next s ≡ s
receive_raised next s e =
    subst (λ b. (if b then next else s) ≡ s) (sym (not_idle s.receiver s.todo e)) refl

step-Failing :
    (n : ℕ) (late : List Pending) (x : Step) (s : Session)
    → Failing n late s
    → Failing n late (step x s)
unfolding step
step-Failing n late (begun m) s k = begin-Failing n late s k m
step-Failing n late (entered id) s k = enter-Failing n late s k id
step-Failing n late (replied id r) s k = by_eq n late s k (receive_raised _ s k.receiver_is) k
step-Failing n late ponged s k = by_eq n late s k (receive_raised _ s k.receiver_is) k
step-Failing n late completed s k = complete_next-Failing n late s k
step-Failing n late receiver_raised s k = by_eq n late s k (receive_raised _ s k.receiver_is) k
step-Failing n late receiver_returned s k = by_eq n late s k (receive_raised _ s k.receiver_is) k
step-Failing n late stopped s k = record {
  receiver_is = k.receiver_is;
  issued = k.issued;
  in_care = k.in_care;
  are_late = k.are_late;
}
step-Failing n late (left id) s k = leave-Failing n late s k id
step-Failing n late released s k = release-Failing n late s k

run-Failing :
    (n : ℕ) (late : List Pending) (xs : List Step) (s : Session)
    → Failing n late s
    → Failing n late (run xs s)
unfolding run
run-Failing n late [] s k = k
run-Failing n late (x ∷ xs) s k = run-Failing n late xs (step x s) (step-Failing n late x s k)

raised-Failing :
    (s : Session)
    → idle s.receiver s.todo ≡ true
    → Failing s.issued s.entering (step receiver_raised s)
unfolding step Cared Late
raised-Failing s e = subst (Failing s.issued s.entering) (sym (receive-idle _ s e)) (record {
  receiver_is = refl;
  issued = omega arith;
  in_care = All-weaken (λ q h b f. inr h) s.pending (self_queued s.pending);
  are_late = All-weaken (λ q h b. h) s.entering (self_held s.entering);
})

-- A session up to the failure of its receiver, and after it.
abbrev pub before_raise : ℕ → List Step → Session
before_raise max xs = run xs (opened max)

abbrev pub after_raise : ℕ → (xs ys : List Step) → Session
after_raise max xs ys = run ys (step receiver_raised (before_raise max xs))

-- If the receiver of a session raises, then whatever happens next, once it has set what it had to set
-- every request that is still in the dictionary, and that was issued and in it when the receiver
-- raised, has its completion.
pub receiver_settles :
    (max : ℕ) (xs ys : List Step) (q : Pending)
    → idle (before_raise max xs).receiver (before_raise max xs).todo ≡ true
    → (after_raise max xs ys).todo ≡ []
    → Memᴰ q (after_raise max xs ys).pending
    → q.id < (before_raise max xs).issued
    → holds q.id (before_raise max xs).entering ≡ false
    → Settled q
unfolding Cared
receiver_settles max xs ys q i d m b f =
    let s = before_raise max xs in
    let k = run-Failing s.issued s.entering ys (step receiver_raised s) (raised-Failing s i) in
    elim (All-Mem (Cared s.issued s.entering _) q _ k.in_care m b f) [
      | inl settled ↦ settled
      | inr waits ↦ absurd (nothing_queued q.id _ d waits)
    ]
