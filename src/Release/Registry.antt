-- ===== src/Release/Registry.antt =====
-- `public_package` of scripts/release.py: the bounded wait for a package in the registry.
pub mod Bounded
use wu_kong_easy_sdk_csharp.Common.{
  String, ℕ, zero, suc, ◌+◌, ◌-◌, ◌*◌, ◌/◌, ◌≤◌, min, Bool, true, false, Option, none, some, List,
  [], ◌∷◌, any, ◌==◌, leb,
}
use wu_kong_easy_sdk_csharp.Python.Result.{Exc, http_error, timeout_error, raised, Result, ok, err}

-- How one `urlopen` ends: with the body, a status that `HTTPError` carries, a `URLError` or
-- `TimeoutError`, or another exception, by its class.
pub data Attempt : Type 0 where
  body : List ℕ → Attempt
  status : ℕ → Attempt
  unreachable : Attempt
  other : String → Attempt

-- The clock counts nanoseconds.
abbrev pub second : ℕ
second = 1000000000

abbrev pub transient : ℕ → Bool
transient code = any (λ c. code == c) (404 ∷ 408 ∷ 429 ∷ 500 ∷ 502 ∷ 503 ∷ 504 ∷ [])

-- The network, the monotonic clock and `time.sleep`. `now` is a bound that each of them respects: the
-- clock never runs backwards, and a sleep takes at least its time.
pub record World : Type 1 where
  pub State : Type 0
  pub fetch : State → Attempt × State
  pub monotonic : State → ℕ × State
  pub sleep : ℕ → State → State
  pub now : State → ℕ
  pub fetch_now : (s : State) → now s ≤ now (fetch s).1
  pub reads_now : (s : State) → now s ≤ (monotonic s).0
  pub monotonic_now : (s : State) → (monotonic s).0 ≤ now (monotonic s).1
  pub sleep_now : (n : ℕ) (s : State) → now s + n ≤ now (sleep n s)

module _ (w : World) where
  open w use {State, fetch, monotonic, sleep}

  -- What follows an attempt: return, raise, or wait and try again.
  pub data Next : Type 0 where
    done : Result (List ℕ) → State → Next
    again : State → Next

  -- The two reads of the clock and the sleep: `min(20, max(0, deadline - monotonic()))`.
  unfoldable pub pause : ℕ → State → Next
  pause deadline s =
      let (t, s1) = monotonic s in
      elim (leb deadline t) [
        | true ↦ done (err timeout_error) s1
        | false ↦
            again (let (t', s2) = monotonic s1 in sleep (min (20 * second) (deadline - t')) s2)
      ]

  unfoldable pub handle : ℕ → Attempt → State → Next
  handle deadline (body b) s = done (ok b) s
  handle deadline (status code) s = elim (transient code) [
    | true ↦ pause deadline s
    | false ↦ done (err (http_error code)) s
  ]
  handle deadline unreachable s = pause deadline s
  handle deadline (other name) s = done (err (raised name)) s

  -- One round of the loop.
  unfoldable pub round : ℕ → State → Next
  round deadline s = let (a, s1) = fetch s in handle deadline a s1

  -- `while True`, where `none` is that the fuel ran out.
  unfoldable pub poll : ℕ → ℕ → State → Option (Result (List ℕ) × State)
  poll zero deadline s = none
  poll (suc fuel) deadline s = elim (round deadline s) [
    | done r s' ↦ some (r, s')
    | again s' ↦ poll fuel deadline s'
  ]

  -- Enough rounds for a wait of so many seconds: each but the last takes 20 of them.
  unfoldable pub public_package : ℕ → State → Option (Result (List ℕ) × State)
  public_package seconds s =
      let (t, s1) = monotonic s in poll (seconds / 20 + 2) (t + seconds * second) s1
