-- ===== src/Interop/Proxy/Faults.antt =====
-- What a dropped proxy carries.
use wu_kong_easy_sdk_csharp.Common.{
  ℕ, ◌+◌, true, false, List, [], ◌∷◌, ◌≡◌, refl, arith, ◌||◌, Bool, ◌≢◌, All,
}
use wu_kong_easy_sdk_csharp.Interop.Proxy.{
  Proxy, holds, without, accept, upstream_opened, upstream_failed, copied, relay_ended, drop, Step,
  accepted, opened, refused, ended, copy, dropped, enabled_again, step, run, append_all,
}

-- A proxy through which nothing can pass, now or later, until it is enabled.
pub record Severed (p : Proxy) : Type 0 where
  pub disabled : p.enabled ≡ false
  pub no_relay : p.relaying ≡ []
  pub no_handler : p.connecting ≡ []

-- A step of the fault: the scenario does not enable the proxy.
abbrev pub OfFault : Step → Type 0
OfFault s = s ≢ enabled_again

step-Severed : (s : Step) (p : Proxy) → OfFault s → Severed p → Severed (step s p)
unfolding step accept upstream_opened upstream_failed copied relay_ended drop
step-Severed (accepted n) p f h = ground arith
step-Severed (opened n) p f h = ground arith
step-Severed (refused n) p f h = ground arith
step-Severed (ended n) p f h = ground arith
step-Severed (copy n c k) p f h = ground arith
step-Severed dropped p f h = ground arith
step-Severed enabled_again p f h = absurd (f refl)

holds-append_all :
    (n : ℕ) (xs ys : List ℕ) → holds n (append_all xs ys) ≡ (holds n xs || holds n ys)
holds-append_all n [] ys = refl
holds-append_all n (x ∷ xs) ys = ground (arith, holds-append_all n xs ys)

-- The handlers that may still count what they have read.
abbrev Quiet : ℕ → Proxy → Type 0
Quiet n p = (holds n p.relaying || holds n p.ending) ≡ false

holds-without : (n m : ℕ) (xs : List ℕ) → holds n xs ≡ false → holds n (without m xs) ≡ false
holds-without n m [] h = refl
holds-without n m (x ∷ xs) h = ground (arith, holds-without n m xs)

step-Quiet : (n : ℕ) (s : Step) (p : Proxy) → OfFault s → Severed p → Quiet n p → Quiet n (step s p)
unfolding step accept upstream_opened upstream_failed copied relay_ended drop
step-Quiet n (accepted m) p f s h = ground arith
step-Quiet n (opened m) p f s h = ground arith
step-Quiet n (refused m) p f s h = ground arith
step-Quiet n (ended m) p f s h =
    ground (arith, holds-without n m p.relaying, holds-without n m p.ending)
step-Quiet n (copy m c k) p f s h = ground arith
step-Quiet n dropped p f s h = ground (arith, holds-append_all n p.relaying p.ending)
step-Quiet n enabled_again p f s h = absurd (f refl)

run-Severed :
    (n : ℕ) (ss : List Step) (q : Proxy)
    → All OfFault ss
    → Severed q
    → Quiet n q
    → Severed (run ss q) × Quiet n (run ss q)
unfolding run
run-Severed n [] q f s e = (s, e)
run-Severed n (x ∷ xs) q (f, fs) s e =
    run-Severed n xs (step x q) fs (step-Severed x q f s) (step-Quiet n x q f s e)

drop-Severed : (p : Proxy) → p.connecting ≡ [] → Severed (drop p)
unfolding drop
drop-Severed p h = record { disabled = refl; no_relay = refl; no_handler = h }

drop-Quiet : (n : ℕ) (p : Proxy) → Quiet n p → Quiet n (drop p)
unfolding drop
drop-Quiet n p h = ground (arith, holds-append_all n p.relaying p.ending)

-- After a drop at which no handler was waiting for its upstream connection, and through any steps
-- by which the scenario does not enable the proxy again, the proxy stays disabled, no handler relays
-- or waits for an upstream connection, whatever connects, and a handler that neither relayed nor was
-- still ending at the drop counts no byte of its client.
pub drop_severs :
    (p : Proxy) (ss : List Step) (n : ℕ) (from_client : Bool) (size : ℕ)
    → All OfFault ss
    → p.connecting ≡ []
    → (holds n p.relaying || holds n p.ending) ≡ false
    → let q = run ss (drop p) in
      Severed q × ((step (copy n from_client size) q).client_bytes ≡ q.client_bytes)
unfolding step copied
drop_severs p ss n from_client size f h e =
    let (s, quiet) = run-Severed n ss (drop p) f (drop-Severed p h) (drop-Quiet n p e) in
    (s, ground (arith, quiet))

-- A handler that waits for its upstream connection escapes a drop: it relays afterwards, though the
-- proxy is disabled, and its client's bytes are copied.
pub drop_misses :
    (p : Proxy) (n size : ℕ)
    → holds n p.connecting ≡ true
    → let q = run (dropped ∷ opened n ∷ copy n true size ∷ []) p in
      (q.enabled ≡ false) × (holds n q.relaying ≡ true) × (q.client_bytes ≡ p.client_bytes + size)
unfolding run step drop upstream_opened copied
drop_misses p n size h = ground arith
