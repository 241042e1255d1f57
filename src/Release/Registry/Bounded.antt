-- ===== src/Release/Registry/Bounded.antt =====
-- The wait is bounded: the loop ends within the seconds given, and gives up only when they are over.
use wu_kong_easy_sdk_csharp.Common.{
  ℕ, zero, suc, ◌+◌, ◌-◌, ◌*◌, ◌/◌, ◌≤◌, ◌<◌, min, some, List, leb, ◌≡◌, refl, arith, ◌⊎◌, inl, inr,
  Bool-cases, sym, ◌∙◌,
}
use wu_kong_easy_sdk_csharp.Python.Result.{timeout_error, Result, ok, err}
use wu_kong_easy_sdk_csharp.Release.Registry.{
  Attempt, body, status, unreachable, other, second, transient, World, Next, done, again, pause,
  handle, round, poll, public_package,
}
use native.Mathlib.Numerals.{add-two}

module _ (w : World) where
  open w use {State, fetch, monotonic, sleep, now, fetch_now, reads_now, monotonic_now, sleep_now}

  -- A round that goes on has slept 20 seconds, or up to the deadline.
  abbrev Slept : ℕ → ℕ → State → Type 0
  Slept deadline start s = (start < deadline) × ((start + 20 * second ≤ now s) ⊎ (deadline ≤ now s))

  -- What the loop may end with: after the deadline a TimeoutError; before it, never that of the loop.
  abbrev pub Ended : ℕ → Result (List ℕ) → State → Type 0
  Ended deadline (ok b) s = Unit
  Ended deadline (err timeout_error) s = deadline ≤ now s
  Ended deadline (err e) s = Unit

  slept :
      (deadline : ℕ) (s : State) (start : ℕ)
      → start < deadline
      → start ≤ now s
      → Slept deadline start
          (sleep (min (20 * second) (deadline - (monotonic s).0)) (monotonic s).1)
  slept deadline s start d h = (
    d,
    omega (
      arith,
      reads_now s,
      monotonic_now s,
      sleep_now (min (20 * second) (deadline - (monotonic s).0)) (monotonic s).1,
    ),
  )

  again_injective : {s t : State} → ◌≡◌ {A = Next w} (again s) (again t) → s ≡ t
  again_injective h = cc

  pause-again :
      (deadline : ℕ) (s : State) (start : ℕ) (s' : State)
      → start ≤ now s
      → pause w deadline s ≡ again s'
      → Slept deadline start s'
  unfolding pause
  pause-again deadline s start s' h e = elim (Bool-cases (leb deadline (monotonic s).0)) [
    | inl late ↦ absurd (ground arith)
    | inr early ↦ rw (sym (again_injective (rw (early, pause) at e))) (
        slept deadline (monotonic s).1 start (ground (arith, early, reads_now s))
          (omega (arith, reads_now s, monotonic_now s)))
  ]

  handle-again :
      (deadline : ℕ) (a : Attempt) (s : State) (start : ℕ) (s' : State)
      → start ≤ now s
      → handle w deadline a s ≡ again s'
      → Slept deadline start s'
  unfolding handle
  handle-again deadline (body b) s start s' h e = absurd (cc)
  handle-again deadline (status code) s start s' h e = elim (Bool-cases (transient code)) [
    | inl y ↦ pause-again deadline s start s' h (rw (y, handle) at e)
    | inr n ↦ absurd (ground arith)
  ]
  handle-again deadline unreachable s start s' h e = pause-again deadline s start s' h e
  handle-again deadline (other x) s start s' h e = absurd (cc)

  round-again :
      (deadline : ℕ) (s s' : State) → round w deadline s ≡ again s' → Slept deadline (now s) s'
  unfolding round
  round-again deadline s s' e =
      handle-again deadline (fetch s).0 (fetch s).1 (now s) s' (fetch_now s) e

  pause-done :
      (deadline : ℕ) (s : State) (r : Result (List ℕ)) (s' : State)
      → pause w deadline s ≡ done r s'
      → Ended deadline r s'
  unfolding pause
  pause-done deadline s (ok b) s' e = absurd (ground arith)
  pause-done deadline s (err timeout_error) s' e = ground (arith, monotonic_now s)
  pause-done deadline s _ s' e = tt

  handle-done :
      (deadline : ℕ) (a : Attempt) (s : State) (r : Result (List ℕ)) (s' : State)
      → handle w deadline a s ≡ done r s'
      → Ended deadline r s'
  unfolding handle
  handle-done deadline a s (ok b) s' e = tt
  handle-done deadline (status code) s (err timeout_error) s' e =
      elim (Bool-cases (transient code)) [
        | inl y ↦ pause-done deadline s (err timeout_error) s' (rw (y, handle) at e)
        | inr n ↦ absurd (ground arith)
      ]
  handle-done deadline unreachable s (err timeout_error) s' e =
      pause-done deadline s (err timeout_error) s' e
  handle-done deadline (body b) s (err timeout_error) s' e = absurd (cc)
  handle-done deadline (other n) s (err timeout_error) s' e = absurd (cc)
  handle-done deadline a s (err x) s' e = tt

  Next-cases :
      (n : Next w)
      → ((r : Result (List ℕ)) × (s : State) × (n ≡ done r s)) ⊎ ((s : State) × (n ≡ again s))
  Next-cases (done r s) = inl (r, s, refl)
  Next-cases (again s) = inr (s, refl)

  round-done :
      (deadline : ℕ) (s : State) (r : Result (List ℕ)) (s' : State)
      → round w deadline s ≡ done r s'
      → Ended deadline r s'
  unfolding round
  round-done deadline s r s' e = handle-done deadline (fetch s).0 (fetch s).1 r s' e

  poll-done :
      (k deadline : ℕ) (s : State) (r : Result (List ℕ)) (s' : State)
      → round w deadline s ≡ done r s'
      → poll w (suc k) deadline s ≡ some (r, s')
  unfolding poll
  poll-done k deadline s r s' e = rw (e, poll)

  poll-again :
      (k deadline : ℕ) (s s' : State)
      → round w deadline s ≡ again s'
      → poll w (suc k) deadline s ≡ poll w k deadline s'
  unfolding poll
  poll-again k deadline s s' e = rw (e, poll)

  poll_ends :
      (k deadline : ℕ) (s : State)
      → deadline ≤ now s + k * (20 * second)
      → (r : Result (List ℕ)) × (s' : State) × (poll w (suc k) deadline s ≡ some (r, s'))
        × Ended deadline r s'
  poll_ends zero deadline s h = elim (Next-cases (round w deadline s)) [
    | inl (r, s', e) ↦ (r, s', poll-done zero deadline s r s' e, round-done deadline s r s' e)
    | inr (s', e) ↦ absurd (omega (arith, round-again deadline s s' e))
  ]
  poll_ends (suc k) deadline s h = elim (Next-cases (round w deadline s)) [
    | inl (r, s', e) ↦ (r, s', poll-done (suc k) deadline s r s' e, round-done deadline s r s' e)
    | inr (s', e) ↦
        let (r, t, p, x) = poll_ends k deadline s' (omega (arith, round-again deadline s s' e)) in
        (r, t, poll-again (suc k) deadline s s' e ∙ p, x)
  ]

  -- Whatever the network answers, `public_package` ends after at most `seconds / 20 + 2` requests: it
  -- returns or raises, and raises the TimeoutError of its own only when the seconds given have passed
  -- since it first read the clock.
  pub public_package_ends :
      (seconds : ℕ) (s : State)
      → (r : Result (List ℕ)) × (s' : State) × (public_package w seconds s ≡ some (r, s'))
        × Ended ((monotonic s).0 + seconds * second) r s'
  unfolding public_package
  public_package_ends seconds s = rw add-two (
      poll_ends (suc (seconds / 20)) ((monotonic s).0 + seconds * second) (monotonic s).1
        (omega (arith, monotonic_now s)))
