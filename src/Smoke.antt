-- ===== src/Smoke.antt =====
-- `main` of scripts/smoke.py: one owned server, its readiness, two accounts, the client's run, and the
-- stop of the server whatever happened.
pub mod Readiness
pub mod Owned
use wu_kong_easy_sdk_csharp.Common.{
  ℕ, zero, suc, ◌+◌, Bool, true, false, not, Option, none, some, List, [], ◌∷◌, ◌==◌, ltb,
  if◌then◌else◌,
}
use wu_kong_easy_sdk_csharp.Python.Result.{
  Exc, runtime_error, timeout_error, raised, Result, ok, err, ◌>>=◌, ◌>>◌, raise_if,
}

-- How `urlopen` of /readyz ends: with a status, with a URLError or TimeoutError, or with another
-- exception.
pub data Ping : Type 0 where
  response : (status : ℕ) → Ping
  unreachable : Ping
  broken : Exc → Ping

-- One round: whether the server has exited, the reply, and the clock after it in milliseconds.
pub record Look : Type 0 where
  pub exited : Bool
  pub ping : Ping
  pub now : ℕ

pub data Next : Type 0 where
  ready : Next
  failed : Exc → Next
  again : Next

abbrev pub not_ready : ℕ → ℕ → Next
not_ready deadline now = if ltb deadline now then failed timeout_error else again

abbrev pub after_ping : ℕ → ℕ → Ping → Next
after_ping deadline now (response status) = if status == 200 then ready else not_ready deadline now
after_ping deadline now unreachable = not_ready deadline now
after_ping deadline now (broken e) = failed e

unfoldable pub look : ℕ → Look → Next
look deadline l =
    if l.exited
    then failed (runtime_error "Owned server exited before readiness")
    else after_ping deadline l.now l.ping

-- `while True`, over the rounds from number `k` on; none is that the fuel ran out.
unfoldable pub wait_ready : ℕ → ℕ → (ℕ → Look) → ℕ → Option (Result (Unit {0}))
wait_ready zero deadline looks k = none
wait_ready (suc fuel) deadline looks k = elim (look deadline (looks k)) [
  | ready ↦ some (ok tt)
  | failed e ↦ some (err e)
  | again ↦ wait_ready fuel deadline looks (suc k)
]

-- What the other parts of `main` meet: the replies to the two token requests, the client's run, and how
-- the server takes its signals. `exits` says that it has exited by itself before the `finally`.
pub record Setting : Type 0 where
  pub started : ℕ
  pub looks : ℕ → Look
  pub alice_token : Result ℕ
  pub bob_token : Result ℕ
  pub client : Result (Unit {0})
  pub exits : Bool
  pub ends_on_term : Bool
  pub ends_on_kill : Bool

-- Preparing a token: any status but 200 raises.
abbrev pub prepared : Result ℕ → Result (Unit {0})
prepared reply = do
  status ← reply
  raise_if (not (status == 200)) (runtime_error "Token preparation failed")
  ok tt

-- 30 seconds, with a sleep of a tenth after each round
abbrev pub rounds : ℕ
rounds = 302

-- the part of the `try` behind the readiness loop
unfoldable pub run_client : Setting → Result (Unit {0})
run_client s = do prepared s.alice_token; prepared s.bob_token; s.client

abbrev pub then_client : Setting → Option (Result (Unit {0})) → Option (Result (Unit {0}))
then_client s none = none
then_client s (some (ok u)) = some (run_client s)
then_client s (some (err e)) = some (err e)

-- The whole `try`.
unfoldable pub attempt : Setting → Option (Result (Unit {0}))
attempt s = then_client s (wait_ready rounds (s.started + 30000) s.looks 0)

-- The `finally`: whether the server has ended, and what is raised instead of the outcome so far.
unfoldable pub finally : Setting → Result (Unit {0}) → Bool × Result (Unit {0})
finally s outcome =
    if s.exits
    then (true, outcome)
    else if s.ends_on_term
    then (true, outcome)
    else if s.ends_on_kill
    then (true, outcome)
    else (false, err (raised "TimeoutExpired"))

abbrev pub then_finally : Setting → Option (Result (Unit {0})) → Option (Bool × Result (Unit {0}))
then_finally s none = none
then_finally s (some outcome) = some (finally s outcome)

unfoldable pub main : Setting → Option (Bool × Result (Unit {0}))
main s = then_finally s (attempt s)
