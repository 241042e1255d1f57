-- ===== src/Sdk/Supervisor/Retries.antt =====
-- How often and after what delays the supervisor reconnects.
use wu_kong_easy_sdk_csharp.Common.{
  ℕ, suc, ◌≤◌, Bool, true, false, ◌||◌, List, [], ◌∷◌, ◌++◌, ◌≡◌, refl, arith, ap,
}
use wu_kong_easy_sdk_csharp.Sdk.Options.{Policy, delay}
use wu_kong_easy_sdk_csharp.Sdk.Supervisor.{
  Ending, rejected, rpc_error, failed, lost, kicked, Pass, permanent, Event, connected,
  disconnected, error, reconnecting, Finish, running, before, announced, ever_after, attempt_after,
  gives_up, supervise, run, after_cleanup,
}

module _ (p : Policy) where
  -- After `n` retries since the last connection: the next is number n + 1, within the budget, after the
  -- delay of the backoff; a connection starts again at 0. A retry needs a connection before it.
  abbrev pub InOrder : Bool → ℕ → List Event → Type 0
  InOrder ever n [] = Unit
  InOrder ever n (connected ∷ es) = InOrder true 0 es
  InOrder ever n (disconnected m ∷ es) = InOrder ever n es
  InOrder ever n (error ∷ es) = InOrder ever n es
  InOrder ever n (reconnecting k d ∷ es) =
      (ever ≡ true)
      × (k ≡ suc n)
      × (d ≡ delay p n)
      × (suc n ≤ p.max_attempts)
      × InOrder ever (suc n) es

  announce_order :
      (ever : Bool) (n : ℕ) (e : Ending) (es : List Event)
      → InOrder (ever_after ever e) (attempt_after n e) es
      → InOrder ever n (announced e ++ es)
  announce_order ever n rejected es h = h
  announce_order ever n rpc_error es h = h
  announce_order ever n failed es h = h
  announce_order ever n lost es h = h
  announce_order ever n (kicked true) es h = h
  announce_order ever n (kicked false) es h = h

  retry_allowed :
      (ever : Bool) (n : ℕ) (e : Ending)
      → gives_up p ever n e ≡ false
      → (ever ≡ true) × (suc n ≤ p.max_attempts)
  retry_allowed ever n e h = (ground arith, ground arith)

  -- The part of a pass behind the clean-up of its session.
  after_order :
      (stopped stopped_in_delay give_up ever : Bool) (n : ℕ) (rest : List Event × Finish)
      → (give_up ≡ false → (ever ≡ true) × (suc n ≤ p.max_attempts))
      → InOrder ever (suc n) rest.0
      → InOrder ever n (after_cleanup p n stopped stopped_in_delay give_up rest).0
  after_order true d g ever n rest f h = tt
  after_order false d true ever n rest f h = tt
  after_order false true false ever n rest f h = let (c, b) = f refl in (c, refl, refl, b, tt)
  after_order false false false ever n rest f h = let (c, b) = f refl in (c, refl, refl, b, h)

  supervise_order :
      (ever : Bool) (n : ℕ) (passes : List Pass) → InOrder ever n (supervise p ever n passes).0
  unfolding supervise
  supervise_order ever n [] = tt
  supervise_order ever n (s ∷ passes) =
      let ever' = ever_after ever s.ending in
      let n' = attempt_after n s.ending in
      announce_order ever n s.ending _ (
        after_order s.stopped s.stopped_in_delay (gives_up p ever' n' s.ending) ever' n'
          (supervise p ever' (suc n') passes) (retry_allowed ever' n' s.ending)
          (supervise_order ever' (suc n') passes))

  -- Whatever the sessions meet, the supervisor reconnects only after a first connection, at most
  -- MaxReconnectAttempts times between two connections, numbers these retries from 1 on, and delays
  -- each by the backoff of its number.
  pub run_order : (stopped : Bool) (passes : List Pass) → InOrder false 0 (run p stopped passes).0
  unfolding run
  run_order true passes = tt
  run_order false passes = supervise_order false 0 passes

-- No retry is announced.
abbrev pub silent : List Event → Bool
silent [] = true
silent (reconnecting k d ∷ es) = false
silent (_ ∷ es) = silent es

announced-silent :
    (e : Ending) (es : List Event) → silent es ≡ true → silent (announced e ++ es) ≡ true
announced-silent rejected es h = h
announced-silent rpc_error es h = h
announced-silent failed es h = h
announced-silent lost es h = h
announced-silent (kicked true) es h = h
announced-silent (kicked false) es h = h

cleanup_stops :
    (p : Policy) (n : ℕ) (stopped d give_up : Bool) (rest : List Event × Finish)
    → (give_up || stopped) ≡ true
    → (after_cleanup p n stopped d give_up rest ≡ after_cleanup p n stopped d give_up ([], running))
      × (silent (after_cleanup p n stopped d give_up rest).0 ≡ true)
cleanup_stops p n true d g rest h = (refl, refl)
cleanup_stops p n false d true rest h = (refl, refl)
cleanup_stops p n false d false rest h = absurd (cc)

permanent-gives_up :
    (p : Policy) (ever : Bool) (n : ℕ) (e : Ending) (stopped : Bool)
    → (permanent e || stopped) ≡ true
    → (gives_up p ever n e || stopped) ≡ true
permanent-gives_up p ever n e stopped h = ground arith

-- A session that the server rejects or ends, or that the application stops, is the last: no other
-- session follows it, and no retry is announced after it.
pub supervise_stops :
    (p : Policy) (ever : Bool) (n : ℕ) (s : Pass) (passes : List Pass)
    → (permanent s.ending || s.stopped) ≡ true
    → (supervise p ever n (s ∷ passes) ≡ supervise p ever n (s ∷ []))
      × (silent (supervise p ever n (s ∷ passes)).0 ≡ true)
unfolding supervise
supervise_stops p ever n s passes h =
    let ever' = ever_after ever s.ending in
    let n' = attempt_after n s.ending in
    let rest = supervise p ever' (suc n') passes in
    let (same, quiet) =
      cleanup_stops p n' s.stopped s.stopped_in_delay (gives_up p ever' n' s.ending) rest
        (permanent-gives_up p ever' n' s.ending s.stopped h) in
    (ap (before (announced s.ending)) same, announced-silent s.ending _ quiet)
