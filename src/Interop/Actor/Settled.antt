-- ===== src/Interop/Actor/Settled.antt =====
-- Each command has one outcome, and none waits on a reader that is gone.
use mathlib.Core.Path.{subst}
use wu_kong_easy_sdk_csharp.Common.{
  ℕ, ◌≤◌, ◌<◌, String, true, false, not, Option, none, some, List, [], ◌∷◌, ◌==◌, leb, length,
  keep_if, ◌≡◌, ◌≢◌, refl, arith, Bool-cases, if_cases, inl, inr, ==_iff, length-append,
}
use wu_kong_easy_sdk_csharp.Python.Json.{Fields}
use wu_kong_easy_sdk_csharp.Interop.Actor.{
  Future, waiting, done, broken, cancelled, Line, result, event, malformed, Actor, max_events,
  fresh, is_pending, settle, update, stop, read_line, start_command, Step, command, line, exited,
  timed_out, step, run,
}

pub record Inv (a : Actor) : Type 0 where
  pub bounded : length a.events ≤ max_events
  -- a future that waits is pending, so the reader can settle it
  pub reachable : (n : ℕ) → a.futures n ≡ some waiting → is_pending n a.pending ≡ true
  -- numbers that are not issued have no future
  pub issued : (n : ℕ) → a.serial < n → a.futures n ≡ none

fresh-Inv : Inv fresh
unfolding fresh
fresh-Inv = record { bounded = omega arith; reachable = λ n h. absurd (cc); issued = λ n h. refl }

not_waiting : (f : Option Future) (v : Future) → v ≢ waiting → settle f v ≢ some waiting
not_waiting none v h e = absurd (cc)
not_waiting (some waiting) v h e = h (ground arith)
not_waiting (some (done x)) v h e = absurd (cc)
not_waiting (some (broken x)) v h e = absurd (cc)
not_waiting (some cancelled) v h e = absurd (cc)

settle-none : (f : Option Future) (v : Future) → f ≡ none → settle f v ≡ none
settle-none f v h = ground arith

stop-Inv : (failure : String) (a : Actor) → Inv a → Inv (stop failure a)
unfolding stop
stop-Inv failure a i = record {
  bounded = i.bounded;
  reachable = λ n h. ground (arith, i.reachable n);
  issued = λ n h. ground (arith, i.issued n);
}

-- Once the reader has ended, no command waits.
stop_settles :
    (failure : String) (a : Actor) → Inv a → (n : ℕ) → (stop failure a).futures n ≢ some waiting
unfolding stop
stop_settles failure a i n h = ground (arith, i.reachable n)

pending_others :
    (n id : ℕ) (ids : List ℕ)
    → (n == id) ≡ false
    → is_pending n ids ≡ true
    → is_pending n (keep_if (λ m. not (m == id)) ids) ≡ true
pending_others n id [] e h = absurd (cc)
pending_others n id (x ∷ xs) e h = ground (arith, pending_others n id xs e)

done_settles : (f : Option Future) (fields : Fields) → settle f (done fields) ≢ some waiting
done_settles f fields = not_waiting f (done fields) (λ e. cc)

still_reachable :
    (id : ℕ) (fields : Fields) (a : Actor)
    → Inv a
    → (n : ℕ) → update a.futures id (settle (a.futures id) (done fields)) n ≡ some waiting
    → is_pending n (keep_if (λ m. not (m == id)) a.pending) ≡ true
still_reachable id fields a i n h = elim (Bool-cases (n == id)) [
  | inl e ↦ absurd (done_settles (a.futures id) fields (ground (arith, e, h)))
  | inr e ↦ pending_others n id a.pending e (i.reachable n (ground (arith, e, h)))
]

result-Inv :
    (id : ℕ) (fields : Fields) (a : Actor)
    → is_pending id a.pending ≡ true
    → Inv a
    → Inv (read_line (result id fields) a)
unfolding read_line
result-Inv id fields a p i = rw p (record {
  bounded = i.bounded;
  reachable = λ n h. still_reachable id fields a i n h;
  issued = λ n h. ground (arith, i.issued n, i.issued id);
})

below_max : (n : ℕ) → leb max_events n ≡ false → n < max_events
below_max n h = ground arith

read_line-Inv : (l : Line) (a : Actor) → Inv a → Inv (read_line l a)
unfolding read_line
read_line-Inv (result id fields) a i = elim (Bool-cases (is_pending id a.pending)) [
  | inl p ↦ result-Inv id fields a p i
  | inr p ↦ rw (p) (stop-Inv "KeyError" a i)
]
read_line-Inv (event kind fields) a i = elim (Bool-cases (leb max_events (length a.events))) [
  | inl full ↦ rw full (stop-Inv "AssertionError" a i)
  | inr room ↦ rw room (record {
    bounded = omega (arith, length-append a.events ((kind, fields) ∷ []), below_max _ room);
    reachable = i.reachable;
    issued = i.issued;
  })
]
read_line-Inv (malformed exception) a i = stop-Inv exception a i

start_command-Inv : (a : Actor) → Inv a → Inv (start_command a)
unfolding start_command
start_command-Inv a i = record {
  bounded = i.bounded;
  reachable = λ n h. ground (arith, i.reachable n);
  issued = λ n h. ground (arith, i.issued n);
}

time_out-Inv : (n : ℕ) (a : Actor) → Inv a → Inv (step (timed_out n) a)
unfolding step
time_out-Inv n a i = record {
  bounded = i.bounded;
  reachable = λ m h. ground (arith, i.reachable m);
  issued = λ m h. ground (arith, i.issued m, i.issued n);
}

pub step-Inv : (s : Step) (a : Actor) → Inv a → Inv (step s a)
unfolding step
step-Inv command a i = start_command-Inv a i
step-Inv (line l) a i = if_cases Inv a.reading _ _ (λ r. read_line-Inv l a i) (λ r. i)
step-Inv exited a i = if_cases Inv a.reading _ _ (λ r. stop-Inv "Actor exited" a i) (λ r. i)
step-Inv (timed_out n) a i = time_out-Inv n a i

run-Inv : (ss : List Step) (a : Actor) → Inv a → Inv (run ss a)
unfolding run
run-Inv [] a i = i
run-Inv (s ∷ ss) a i = run-Inv ss (step s a) (step-Inv s a i)

-- After any steps, the history holds at most 512 events, every future that waits is pending, and no
-- future has a number that was not issued.
pub actor_invariant : (ss : List Step) → Inv (run ss fresh)
actor_invariant ss = run-Inv ss fresh fresh-Inv

-- When the process exits while it is read, every command that waits is settled: after any steps before
-- it, no future waits any more.
pub exit_settles :
    (ss : List Step)
    → (run ss fresh).reading ≡ true
    → (n : ℕ) → (step exited (run ss fresh)).futures n ≢ some waiting
unfolding step
exit_settles ss r n = simp r (stop_settles "Actor exited" (run ss fresh) (actor_invariant ss) n)

-- ---------------------------------------------------------------- one outcome

settled_kept : (f : Option Future) (v w : Future) → w ≢ waiting → f ≡ some w → settle f v ≡ some w
settled_kept none v w h e = absurd (cc)
settled_kept (some waiting) v w h e = absurd (h (ground arith))
settled_kept (some (done x)) v w h e = e
settled_kept (some (broken x)) v w h e = e
settled_kept (some cancelled) v w h e = e

module _ (n : ℕ) (w : Future) (h : w ≢ waiting) where
  stop_keeps :
      (failure : String) (a : Actor) → a.futures n ≡ some w → (stop failure a).futures n ≡ some w
  unfolding stop
  stop_keeps failure a e = ground (arith, settled_kept (a.futures n) (broken failure) w h)

  update_keeps :
      (fs : ℕ → Option Future) (m : ℕ) (v : Future)
      → fs n ≡ some w
      → update fs m (settle (fs m) v) n ≡ some w
  update_keeps fs m v e = elim (Bool-cases (n == m)) [
    | inl s ↦
        let same : n ≡ m = (==_iff n m).0 s in
        rw s (settled_kept (fs m) v w h (subst (λ k. fs k ≡ some w) same e))
    | inr s ↦ rw s e
  ]

  read_line_keeps :
      (l : Line) (a : Actor) → a.futures n ≡ some w → (read_line l a).futures n ≡ some w
  unfolding read_line
  read_line_keeps (result id fields) a e = elim (Bool-cases (is_pending id a.pending)) [
    | inl p ↦ rw p (update_keeps a.futures id (done fields) e)
    | inr p ↦ rw p (stop_keeps "KeyError" a e)
  ]
  read_line_keeps (event kind fields) a e = elim (Bool-cases (leb max_events (length a.events))) [
    | inl full ↦ rw full (stop_keeps "AssertionError" a e)
    | inr room ↦ rw room e
  ]
  read_line_keeps (malformed exception) a e = stop_keeps exception a e

  step_keeps : (s : Step) (a : Actor) → Inv a → a.futures n ≡ some w → (step s a).futures n ≡ some w
  unfolding step start_command
  step_keeps command a i e = ground (arith, i.issued n)
  step_keeps (line l) a i e =
      if_cases (λ (b : Actor). b.futures n ≡ some w) a.reading _ _ (λ r. read_line_keeps l a e)
        (λ r. e)
  step_keeps exited a i e =
      if_cases (λ (b : Actor). b.futures n ≡ some w) a.reading _ _
        (λ r. stop_keeps "Actor exited" a e) (λ r. e)
  step_keeps (timed_out m) a i e = update_keeps a.futures m cancelled e

  run_keeps :
      (ss : List Step) (a : Actor) → Inv a → a.futures n ≡ some w → (run ss a).futures n ≡ some w
  unfolding run
  run_keeps [] a i e = e
  run_keeps (s ∷ ss) a i e = run_keeps ss (step s a) (step-Inv s a i) (step_keeps s a i e)

  -- A command has one outcome: a future that is done, failed or cancelled after some steps is the same
  -- after any further steps, whatever the process writes.
  pub outcome_stays :
      (before after : List Step)
      → (run before fresh).futures n ≡ some w
      → (run after (run before fresh)).futures n ≡ some w
  outcome_stays before after e = run_keeps after (run before fresh) (actor_invariant before) e
