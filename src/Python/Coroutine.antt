-- ===== src/Python/Coroutine.antt =====
-- asyncio's coroutines as trees of what they ask of the world: a call, whose answer the rest gets, or
-- the event loop's choice between two tasks.
pub mod Script
pub mod Ensures
pub mod Leads
pub mod Gives
pub mod Safe
pub mod Asks
use wu_kong_easy_sdk_csharp.Common.{Bool, true, false, List, [], ◌∷◌, ◌++◌, if◌then◌else◌}
use wu_kong_easy_sdk_csharp.Python.Result.{Exc, Result, ok, err}

-- `Answer c` is what the call c gives: a `Result` where the call may raise.
pub data Coroutine {Call : Type 0} (Answer : Call → Type 0) (A : Type 0) : Type 0 where
  done : A → Coroutine Answer A
  ask : (c : Call) → (Answer c → Coroutine Answer A) → Coroutine Answer A
  choose : (Bool → Coroutine Answer A) → Coroutine Answer A

-- The calls of a run with their answers, the first call first.
abbrev pub History : {Call : Type 0} → (Call → Type 0) → Type 0
History {Call} Answer = List ((c : Call) × Answer c)

-- What answers the calls and chooses the tasks, by what has happened so far.
pub record World {Call : Type 0} (Answer : Call → Type 0) : Type 0 where
  pub answer : History Answer → (c : Call) → Answer c
  pub turn : History Answer → Bool

module _ {Call : Type 0} {Answer : Call → Type 0} where
  unfoldable pub followed_by :
      {A B : Type 0} → Coroutine Answer A → (A → Coroutine Answer B) → Coroutine Answer B
  followed_by (done a) rest = rest a
  followed_by (ask c k) rest = ask c (λ r. followed_by (k r) rest)
  followed_by (choose k) rest = choose (λ b. followed_by (k b) rest)

  -- asyncio.gather of two tasks, each of which runs on when it is its turn: the first exception is
  -- raised at once, and nobody waits for the other task any more.
  unfoldable pub gather :
      Coroutine Answer (Result (Unit {0}))
      → Coroutine Answer (Result (Unit {0}))
      → Coroutine Answer (Result (Unit {0}))
  gather (done (err e)) t = done (err e)
  gather (done (ok u)) t = t
  gather (choose k) t = choose (λ b. gather (k b) t)
  gather (ask c k) (done (err e)) = done (err e)
  gather (ask c k) (done (ok u)) = ask c k
  gather (ask c k) (choose l) = choose (λ b. gather (ask c k) (l b))
  gather (ask c k) (ask d l) =
      choose (λ b.
        if b then ask c (λ r. gather (k r) (ask d l)) else ask d (λ r. gather (ask c k) (l r)))

  unfoldable pub run :
      {A : Type 0} → World Answer → History Answer → Coroutine Answer A → A × History Answer
  run w h (done a) = (a, h)
  run w h (ask c k) = let r = w.answer h c in run w (h ++ ((c, r) ∷ [])) (k r)
  run w h (choose k) = run w h (k (w.turn h))
