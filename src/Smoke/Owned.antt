-- ===== src/Smoke/Owned.antt =====
-- The smoke test ends, and what it has done when it succeeds.
use wu_kong_easy_sdk_csharp.Common.{
  ℕ, suc, ◌+◌, ◌≤◌, Bool, true, Option, none, some, ◌≡◌, refl, arith, ◌⊎◌, ap,
}
use wu_kong_easy_sdk_csharp.Python.Result.{Result, ok, err, >>=-eq-ok, raised}
use wu_kong_easy_sdk_csharp.Smoke.{
  Setting, prepared, rounds, run_client, attempt, finally, main, then_client, then_finally,
}
use wu_kong_easy_sdk_csharp.Smoke.Readiness.{ReadyAt, wait_ends, wait_sound}

then_client-eq-ok :
    (s : Setting) (o : Option (Result (Unit {0})))
    → then_client s o ≡ some (ok tt)
    → (o ≡ some (ok tt)) × (run_client s ≡ ok tt)
then_client-eq-ok s none h = absurd (cc)
then_client-eq-ok s (some (ok u)) h = (refl, ground arith)
then_client-eq-ok s (some (err e)) h = absurd (cc)

prepared-eq-ok : (reply : Result ℕ) → prepared reply ≡ ok tt → reply ≡ ok 200
prepared-eq-ok (ok status) h = ground arith
prepared-eq-ok (err e) h = absurd (cc)

-- What has happened when the test succeeds.
pub record Passed (s : Setting) : Type 0 where
  pub became_ready : ReadyAt (s.started + 30000) s.looks 0
  pub alice : s.alice_token ≡ ok 200
  pub bob : s.bob_token ≡ ok 200
  pub client_passed : s.client ≡ ok tt

run_client-eq-ok :
    (s : Setting)
    → run_client s ≡ ok tt
    → (s.alice_token ≡ ok 200) × (s.bob_token ≡ ok 200) × (s.client ≡ ok tt)
unfolding run_client
run_client-eq-ok s h =
    let (a, alice, h1) = >>=-eq-ok (prepared s.alice_token) _ h in
    let (b, bob, h2) = >>=-eq-ok (prepared s.bob_token) _ h1 in
    (prepared-eq-ok s.alice_token alice, prepared-eq-ok s.bob_token bob, h2)

finally-eq-ok :
    (s : Setting) (outcome : Result (Unit {0})) (ended : Bool)
    → finally s outcome ≡ (ended, ok tt)
    → (ended ≡ true) × (outcome ≡ ok tt)
unfolding finally
finally-eq-ok s outcome ended h = ground arith

then_finally-eq-ok :
    (s : Setting) (o : Option (Result (Unit {0}))) (ended : Bool)
    → then_finally s o ≡ some (ended, ok tt)
    → (ended ≡ true) × (o ≡ some (ok tt))
then_finally-eq-ok s none ended h = absurd (cc)
then_finally-eq-ok s (some outcome) ended h =
    let (a, b) = finally-eq-ok s outcome ended (ground arith) in (a, ap some b)

-- If the smoke test succeeds, the server has ended; before that it answered /readyz with status 200
-- while it ran, in that round and all before it, both accounts were created and the client passed.
pub main_passes :
    (s : Setting) (ended : Bool) → main s ≡ some (ended, ok tt) → (ended ≡ true) × Passed s
unfolding main attempt
main_passes s ended h =
    let (e, a) = then_finally-eq-ok s _ ended h in
    let (w, c) = then_client-eq-ok s _ a in
    let (alice, bob, client) = run_client-eq-ok s c in
    (
      e,
      record {
        became_ready = wait_sound (s.started + 30000) s.looks rounds 0 w;
        alice = alice;
        bob = bob;
        client_passed = client;
      },
    )

finally_ends :
    (s : Setting) (outcome : Result (Unit {0}))
    → ((finally s outcome).0 ≡ true) ⊎ ((finally s outcome).1 ≡ err (raised "TimeoutExpired"))
unfolding finally
finally_ends s outcome = ground arith

outcome_of : (s : Setting) → Result (Unit {0}) → Result (Unit {0})
outcome_of s (ok u) = run_client s
outcome_of s (err e) = err e

then_client-some :
    (s : Setting) (r : Result (Unit {0})) → then_client s (some r) ≡ some (outcome_of s r)
unfolding outcome_of
then_client-some s (ok u) = refl
then_client-some s (err e) = refl

-- The smoke test ends, if the clock has not run backwards before the first round and each round takes
-- a tenth of a second at least; unless the test raises TimeoutExpired the server has then ended.
pub main_ends :
    (s : Setting)
    → s.started ≤ (s.looks 0).now
    → ((k : ℕ) → (s.looks k).now + 100 ≤ (s.looks (suc k)).now)
    → (ended : Bool) × (r : Result (Unit {0})) × (main s ≡ some (ended, r))
      × ((ended ≡ true) ⊎ (r ≡ err (raised "TimeoutExpired")))
unfolding main attempt
main_ends s first advance =
    let (r, p) = wait_ends (s.started + 30000) s.looks advance 301 0 (omega arith) in
    let end = finally s (outcome_of s r) in
    (end.0, end.1, rw (p, then_client-some s r), finally_ends s (outcome_of s r))
