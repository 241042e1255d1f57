-- ===== src/Sdk/Supervisor.antt =====
-- `RunAsync` of src/WuKongEasySDK/WKIM.cs, over what its sessions meet.
pub mod Retries
use wu_kong_easy_sdk_csharp.Common.{
  ℕ, zero, suc, Bool, true, false, not, ◌&&◌, ◌||◌, List, [], ◌∷◌, ◌++◌, leb, if◌then◌else◌,
}
use wu_kong_easy_sdk_csharp.Sdk.Options.{Policy, delay}

-- How a session ends, if the application does not stop it: the server rejects the credentials, answers
-- the connect request with an error, or ends the session before or after it was authenticated; or the
-- transport fails, before or after.
pub data Ending : Type 0 where
  rejected rpc_error failed lost : Ending
  kicked : (authenticated : Bool) → Ending

-- One pass of the loop. `stopped` says that the application had stopped the client when the session was
-- cleaned up, `stopped_in_delay` that it did so during the delay after it.
pub record Pass : Type 0 where
  pub ending : Ending
  pub stopped : Bool
  pub stopped_in_delay : Bool

abbrev pub authenticated : Ending → Bool
authenticated lost = true
authenticated (kicked b) = b
authenticated _ = false

abbrev pub permanent : Ending → Bool
permanent rejected = true
permanent rpc_error = true
permanent (kicked b) = true
permanent _ = false

-- The events that are offered to the queue.
pub data Event : Type 0 where
  connected : Event
  disconnected : (manual : Bool) → Event
  error : Event
  reconnecting : (attempt delay : ℕ) → Event

-- How the loop ends: stopped by the application, with the last session's exception, or not yet.
pub data Finish : Type 0 where
  manual given_up running : Finish

abbrev pub before : List Event → List Event × Finish → List Event × Finish
before es (rest, finish) = (es ++ rest, finish)

-- Queue(Connected, …)
abbrev pub announced : Ending → List Event
announced e = if authenticated e then connected ∷ [] else []

-- everConnected and attempt after the session
abbrev pub ever_after : Bool → Ending → Bool
ever_after ever e = authenticated e || ever

abbrev pub attempt_after : ℕ → Ending → ℕ
attempt_after attempt e = if authenticated e then 0 else attempt

-- !everConnected || permanent || !AutoReconnect || attempt >= MaxReconnectAttempts
abbrev pub gives_up : Policy → Bool → ℕ → Ending → Bool
gives_up p ever attempt e =
    not ever || permanent e || not p.auto_reconnect || leb p.max_attempts attempt

-- The part of a pass behind the clean-up of its session; `attempt` is that after the session, and
-- `rest` what the passes after the delay do.
abbrev pub after_cleanup :
    Policy
    → ℕ
    → (stopped stopped_in_delay give_up : Bool) → List Event × Finish
    → List Event × Finish
after_cleanup p attempt true stopped_in_delay give_up rest = (disconnected true ∷ [], manual)
after_cleanup p attempt false stopped_in_delay true rest =
    (disconnected false ∷ error ∷ [], given_up)
after_cleanup p attempt false true false rest =
    (disconnected false ∷ error ∷ reconnecting (suc attempt) (delay p attempt) ∷ [], manual)
after_cleanup p attempt false false false rest =
    before (disconnected false ∷ error ∷ reconnecting (suc attempt) (delay p attempt) ∷ []) rest

-- The loop over the passes that happen; at the end of the list it goes on.
unfoldable pub supervise : Policy → Bool → ℕ → List Pass → List Event × Finish
supervise p ever attempt [] = ([], running)
supervise p ever attempt (s ∷ passes) =
    let ever' = ever_after ever s.ending in
    let n = attempt_after attempt s.ending in
    before (announced s.ending) (
      after_cleanup p n s.stopped s.stopped_in_delay (gives_up p ever' n s.ending)
        (supervise p ever' (suc n) passes))

-- The whole of `RunAsync`: not at all if the client is stopped before it starts.
unfoldable pub run : Policy → (stopped : Bool) → List Pass → List Event × Finish
run p true passes = ([], manual)
run p false passes = supervise p false 0 passes
