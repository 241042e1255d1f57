-- ===== src/Smoke/Readiness.antt =====
-- The readiness loop of the smoke test ends, and what it has seen when it returns.
use mathlib.Core.Path.{subst}
use wu_kong_easy_sdk_csharp.Common.{
  ℕ, zero, suc, ◌+◌, ◌*◌, ◌≤◌, ◌<◌, false, some, ◌==◌, ◌≡◌, refl, arith, ◌⊎◌, inl, inr, Bool-cases,
  ==_iff, ◌∙◌, sym, ◌≢◌,
}
use wu_kong_easy_sdk_csharp.Python.Result.{Exc, Result, ok, err}
use wu_kong_easy_sdk_csharp.Smoke.{
  Ping, response, unreachable, broken, Look, Next, ready, failed, again, look, wait_ready,
  after_ping,
}

Next-cases : (n : Next) → (n ≡ ready) ⊎ ((n ≡ again) ⊎ ((e : Exc) × (n ≡ failed e)))
Next-cases ready = inl refl
Next-cases again = inr (inl refl)
Next-cases (failed e) = inr (inr (e, refl))

ping_early : (deadline now : ℕ) (p : Ping) → after_ping deadline now p ≡ again → now ≤ deadline
ping_early deadline now (response status) h = ground arith
ping_early deadline now unreachable h = ground arith
ping_early deadline now (broken e) h = absurd (cc)

again_early : (deadline : ℕ) (l : Look) → look deadline l ≡ again → l.now ≤ deadline
unfolding look
again_early deadline l h = elim (Bool-cases l.exited) [
  | inl e ↦ absurd (ground arith)
  | inr e ↦ ping_early deadline l.now l.ping (ground arith)
]

ping_ready : (deadline now : ℕ) (p : Ping) → after_ping deadline now p ≡ ready → p ≡ response 200
ping_ready deadline now (response status) h = ground arith
ping_ready deadline now unreachable h = absurd (ground arith)
ping_ready deadline now (broken e) h = absurd (cc)

-- The server runs and /readyz answers with status 200.
abbrev pub Ready : Look → Type 0
Ready l = (l.exited ≡ false) × (l.ping ≡ response 200)

look-Ready : (deadline : ℕ) (l : Look) → look deadline l ≡ ready → Ready l
unfolding look
look-Ready deadline l h = elim (Bool-cases l.exited) [
  | inl e ↦ absurd (ground arith)
  | inr e ↦ (e, ping_ready deadline l.now l.ping (ground arith))
]

again_runs : (deadline : ℕ) (l : Look) → look deadline l ≡ again → l.exited ≡ false
unfolding look
again_runs deadline l h = ground arith

-- ---------------------------------------------------------------- the loop

module _ (deadline : ℕ) (looks : ℕ → Look) where
  wait_ready-ready :
      (f k : ℕ)
      → look deadline (looks k) ≡ ready
      → wait_ready (suc f) deadline looks k ≡ some (ok tt)
  unfolding wait_ready
  wait_ready-ready f k e = rw (e, wait_ready)

  wait_ready-failed :
      (f k : ℕ) (x : Exc)
      → look deadline (looks k) ≡ failed x
      → wait_ready (suc f) deadline looks k ≡ some (err x)
  unfolding wait_ready
  wait_ready-failed f k x e = rw (e, wait_ready)

  wait_ready-again :
      (f k : ℕ)
      → look deadline (looks k) ≡ again
      → wait_ready (suc f) deadline looks k ≡ wait_ready f deadline looks (suc k)
  unfolding wait_ready
  wait_ready-again f k e = rw (e, wait_ready)

  pub wait_ends :
      (advance : (k : ℕ) → (looks k).now + 100 ≤ (looks (suc k)).now) (f k : ℕ)
      → deadline < (looks k).now + f * 100
      → (r : Result (Unit {0})) × (wait_ready (suc f) deadline looks k ≡ some r)
  wait_ends advance zero k h = elim (Next-cases (look deadline (looks k))) [
    | inl e ↦ (ok tt, wait_ready-ready zero k e)
    | inr (inr (x, e)) ↦ (err x, wait_ready-failed zero k x e)
    | inr (inl e) ↦ absurd (omega (arith, again_early deadline (looks k) e))
  ]
  wait_ends advance (suc f) k h = elim (Next-cases (look deadline (looks k))) [
    | inl e ↦ (ok tt, wait_ready-ready (suc f) k e)
    | inr (inr (x, e)) ↦ (err x, wait_ready-failed (suc f) k x e)
    | inr (inl e) ↦
        let (r, p) = wait_ends advance f (suc k) (omega (arith, advance k)) in
        (r, wait_ready-again (suc f) k e ∙ p)
  ]

  -- The round in which the loop returns, and the rounds before it.
  pub record ReadyAt (start : ℕ) : Type 0 where
    pub round : ℕ
    pub from_start : start ≤ round
    pub is_ready : Ready (looks round)
    pub ran_before : (j : ℕ) → start ≤ j → j < round → (looks j).exited ≡ false

  no_fuel : (k : ℕ) → wait_ready 0 deadline looks k ≢ some (ok tt)
  unfolding wait_ready
  no_fuel k h = absurd (cc)

  pub wait_sound : (f k : ℕ) → wait_ready f deadline looks k ≡ some (ok tt) → ReadyAt k
  wait_sound zero k h = absurd (no_fuel k h)
  wait_sound (suc f) k h = elim (Next-cases (look deadline (looks k))) [
    | inl e ↦ record {
      round = k;
      from_start = omega arith;
      is_ready = look-Ready deadline (looks k) e;
      ran_before = λ j a b. absurd (omega arith);
    }
    | inr (inr (x, e)) ↦ absurd (ground (arith, h, wait_ready-failed f k x e))
    | inr (inl e) ↦
        let next = wait_sound f (suc k) (sym (wait_ready-again f k e) ∙ h) in
        record {
          round = next.round;
          from_start = omega (arith, next.from_start);
          is_ready = next.is_ready;
          ran_before = λ j a b. elim (Bool-cases (j == k)) [
            | inl same ↦
                subst (λ i. (looks i).exited ≡ false) (sym ((==_iff j k).0 same))
                  (again_runs deadline (looks k) e)
            | inr other ↦ next.ran_before j (ground arith) b
          ];
        }
  ]
