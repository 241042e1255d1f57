-- ===== src/Python/Coroutine/Gives.antt =====
-- What a script has found out where it returns: the value is part of what holds, and a call leaves its
-- answer in the history.
use wu_kong_easy_sdk_csharp.Common.{Bool, true, false, [], ◌∷◌, ◌++◌, ◌≡◌, refl}
use wu_kong_easy_sdk_csharp.Python.Result.{Exc, Result, ok, err}
use wu_kong_easy_sdk_csharp.Python.Coroutine.{Coroutine, done, ask, choose, History, World, run}
use wu_kong_easy_sdk_csharp.Python.Coroutine.Script.{
  Script, give, raise, resume, ◌>>=◌, raise_when, from_result,
}
use wu_kong_easy_sdk_csharp.Python.Coroutine.Ensures.{
  Ensures, Ensures-followed_by, Ensures-weaken, run-Ensures,
}
use wu_kong_easy_sdk_csharp.Python.Coroutine.Leads.{Assertion}

module _ {Call : Type 0} {Answer : Call → Type 0} {S : Type 0} where
  abbrev pub Found :
      {A : Type 0} → (A → Assertion Answer S) → History Answer → Result A × S → Type 0
  Found Q h (ok a, s) = Q a h s
  Found Q h (err e, s) = Unit

  -- From P the script m gives a value with Q, if it returns.
  pub record Gives {A : Type 0} (P : Assertion Answer S) (m : Script Answer S A)
      (Q : A → Assertion Answer S) : Type 0 where
    pub at : (h : History Answer) (s : S) → P h s → Ensures (Found Q) h (m s)

  resume_Ensures :
      {A B : Type 0} {Q : A → Assertion Answer S} {R : B → Assertion Answer S}
      (f : A → Script Answer S B)
      → ((a : A) → Gives (Q a) (f a) R)
      → (h : History Answer) (end : Result A × S) → Found Q h end
      → Ensures (Found R) h (resume f end)
  unfolding Ensures
  resume_Ensures f k h (ok a, s) q = (k a).at h s q
  resume_Ensures f k h (err e, s) q = tt

  pub Gives-bind :
      {A B : Type 0} {P : Assertion Answer S} {Q : A → Assertion Answer S}
      {R : B → Assertion Answer S} (m : Script Answer S A) (f : A → Script Answer S B)
      → Gives P m Q
      → ((a : A) → Gives (Q a) (f a) R)
      → Gives P (m >>= f) R
  unfolding ◌>>=◌
  Gives-bind {Q = Q} {R = R} m f km kf = record {
    at = λ h s p.
        Ensures-followed_by (Found Q) (Found R) (resume f) (resume_Ensures f kf) (m s) h
          (km.at h s p);
  }

  any_Ensures :
      {A : Type 0} (t : Coroutine Answer (Result A × S)) (h : History Answer)
      → Ensures (Found (λ a h s. Unit {0})) h t
  unfolding Ensures
  any_Ensures (done (ok a, s)) h = tt
  any_Ensures (done (err e, s)) h = tt
  any_Ensures (ask c k) h = λ r. any_Ensures (k r) (h ++ ((c, r) ∷ []))
  any_Ensures (choose k) h = λ b. any_Ensures (k b) h

  pub Gives-any :
      {A : Type 0} {P : Assertion Answer S} (m : Script Answer S A) → Gives P m (λ a h s. Unit {0})
  Gives-any m = record { at = λ h s p. any_Ensures (m s) h }

  pub Gives-give :
      {A : Type 0} {P : Assertion Answer S} (a : A) → Gives P (give a) (λ b h s. P h s × (b ≡ a))
  unfolding give Ensures
  Gives-give a = record { at = λ h s p. (p, refl) }

  pub Gives-from_result :
      {A : Type 0} {P : Assertion Answer S} (r : Result A)
      → Gives P (from_result r) (λ a h s. P h s × (r ≡ ok a))
  unfolding from_result give raise Ensures
  Gives-from_result (ok a) = record { at = λ h s p. (p, refl) }
  Gives-from_result (err e) = record { at = λ h s p. tt }

  pub Gives-raise_when :
      {P : Assertion Answer S} (b : Bool) (e : Exc)
      → Gives P (raise_when b e) (λ u h s. P h s × (b ≡ false))
  unfolding raise_when give raise Ensures
  Gives-raise_when true e = record { at = λ h s p. tt }
  Gives-raise_when false e = record { at = λ h s p. (p, refl) }

  -- The history ends with a call and its answer, before which P held.
  pub record Asked (P : Assertion Answer S) (c : Call) (r : Answer c) (h : History Answer) (s : S)
      : Type 0 where
    pub before : History Answer
    pub held : P before s
    pub history : h ≡ before ++ ((c, r) ∷ [])

  Found-weaken :
      {A : Type 0} {Q R : A → Assertion Answer S}
      → ((a : A) (h : History Answer) (s : S) → Q a h s → R a h s)
      → (h : History Answer) (end : Result A × S) → Found Q h end
      → Found R h end
  Found-weaken f h (ok a, s) q = f a h s q
  Found-weaken f h (err e, s) q = tt

  pub Gives-weaken :
      {A : Type 0} {P : Assertion Answer S} {Q R : A → Assertion Answer S} (m : Script Answer S A)
      → ((a : A) (h : History Answer) (s : S) → Q a h s → R a h s)
      → Gives P m Q
      → Gives P m R
  Gives-weaken m f g = record {
    at = λ h s p. Ensures-weaken _ _ (Found-weaken f) (m s) h (g.at h s p);
  }

  pub run-Gives :
      {A : Type 0} {P : Assertion Answer S} {Q : A → Assertion Answer S} (m : Script Answer S A)
      → Gives P m Q
      → (w : World Answer) (h : History Answer) (s : S) → P h s
      → Found Q (run w h (m s)).1 (run w h (m s)).0
  run-Gives {Q = Q} m g w h s p = run-Ensures (Found Q) w (m s) h (g.at h s p)
