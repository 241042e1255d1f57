-- ===== src/Interop/Proxy.antt =====
-- `Proxy` of scripts/interop.py: a relay that a fault closes. A handler is a task that waits at its
-- `await`s, so what it does between two of them is one step.
pub mod Faults
use wu_kong_easy_sdk_csharp.Common.{
  ℕ, zero, suc, ◌+◌, Bool, true, false, not, ◌&&◌, ◌||◌, List, [], ◌∷◌, ◌==◌, any, keep_if,
  if◌then◌else◌,
}

-- `connecting` holds the handlers that wait for `open_connection`; `relaying` those whose two writers
-- are in `self.writers` and open; `ending` those whose writers were closed and that have to clean up.
pub record Proxy : Type 0 where
  pub enabled : Bool
  pub attempts : ℕ
  pub client_bytes : ℕ
  pub connecting : List ℕ
  pub relaying : List ℕ
  pub ending : List ℕ

unfoldable pub fresh : Proxy
fresh = record {
  enabled = true;
  attempts = 0;
  client_bytes = 0;
  connecting = [];
  relaying = [];
  ending = [];
}

abbrev pub holds : ℕ → List ℕ → Bool
holds n = any (λ m. m == n)

abbrev pub without : ℕ → List ℕ → List ℕ
without n = keep_if (λ m. not (m == n))

-- A client connects: the handler counts it, and goes on to the upstream connection if enabled.
unfoldable pub accept : ℕ → Proxy → Proxy
accept n p =
    if p.enabled
    then record p { attempts = suc p.attempts; connecting = n ∷ p.connecting }
    else record p { attempts = suc p.attempts }

-- `open_connection` returns: the writers are registered and the pumps start.
unfoldable pub upstream_opened : ℕ → Proxy → Proxy
upstream_opened n p =
    if holds n p.connecting
    then record p { connecting = without n p.connecting; relaying = n ∷ p.relaying }
    else p

-- It raises OSError or TimeoutError: the handler closes its peer.
unfoldable pub upstream_failed : ℕ → Proxy → Proxy
upstream_failed n p = record p { connecting = without n p.connecting }

-- A pump copies a chunk from the client, or to it. What a reader holds can still be read after the
-- writers were closed.
unfoldable pub copied : ℕ → (from_client : Bool) → ℕ → Proxy → Proxy
copied n from_client size p =
    if (holds n p.relaying || holds n p.ending) && from_client
    then record p { client_bytes = p.client_bytes + size }
    else p

-- The first pump ends: the `finally` closes the peers and discards their writers.
unfoldable pub relay_ended : ℕ → Proxy → Proxy
relay_ended n p = record p { relaying = without n p.relaying; ending = without n p.ending }

abbrev pub append_all : List ℕ → List ℕ → List ℕ
append_all [] ys = ys
append_all (x ∷ xs) ys = x ∷ append_all xs ys

-- drop(): disable, and close every registered writer.
unfoldable pub drop : Proxy → Proxy
drop p = record p { enabled = false; relaying = []; ending = append_all p.relaying p.ending }

-- proxy.enabled = True
unfoldable pub enable : Proxy → Proxy
enable p = record p { enabled = true }

pub data Step : Type 0 where
  accepted opened refused ended : ℕ → Step
  copy : ℕ → Bool → ℕ → Step
  dropped enabled_again : Step

unfoldable pub step : Step → Proxy → Proxy
step (accepted n) p = accept n p
step (opened n) p = upstream_opened n p
step (refused n) p = upstream_failed n p
step (ended n) p = relay_ended n p
step (copy n from_client size) p = copied n from_client size p
step dropped p = drop p
step enabled_again p = enable p

unfoldable pub run : List Step → Proxy → Proxy
run [] p = p
run (s ∷ ss) p = run ss (step s p)
