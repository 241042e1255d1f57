-- ===== src/Examples/Smoke.antt =====
-- A smoke test whose server is ready in the second round.
use wu_kong_easy_sdk_csharp.Common.{
  ℕ, zero, suc, ◌+◌, ◌*◌, ◌≤◌, Bool, true, false, some, ◌⊎◌, ◌≡◌, refl, arith,
}
use wu_kong_easy_sdk_csharp.Python.Result.{Result, ok, err, raised}
use wu_kong_easy_sdk_csharp.Smoke.{
  Ping, response, unreachable, Look, Setting, main, look, wait_ready, run_client, attempt, finally,
}
use wu_kong_easy_sdk_csharp.Smoke.Owned.{Passed, main_passes, main_ends}

abbrev ping_of : ℕ → Ping
ping_of zero = unreachable
ping_of (suc k) = response 200

abbrev look_at : ℕ → Look
look_at k = record { exited = false; ping = ping_of k; now = 7 + k * 100 }

abbrev setting : Setting
setting = record {
  started = 5;
  looks = look_at;
  alice_token = ok 200;
  bob_token = ok 200;
  client = ok tt;
  exits = false;
  ends_on_term = false;
  ends_on_kill = true;
}

main_passes_example : (true ≡ true) × Passed setting
unfolding main attempt wait_ready look run_client finally
main_passes_example = main_passes setting true refl

advances : (k : ℕ) → (look_at k).now + 100 ≤ (look_at (suc k)).now
advances k = omega arith

main_ends_example :
    (ended : Bool) × (r : Result (Unit {0})) × (main setting ≡ some (ended, r))
    × ((ended ≡ true) ⊎ (r ≡ err (raised "TimeoutExpired")))
main_ends_example = main_ends setting (omega arith) advances
