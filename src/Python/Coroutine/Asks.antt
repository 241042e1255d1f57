-- ===== src/Python/Coroutine/Asks.antt =====
-- What the calls of a coroutine make, and coroutines all of whose calls have a property.
use wu_kong_easy_sdk_csharp.Common.{
  ℕ, Bool, true, false, false≢true, List, [], ◌∷◌, ◌++◌, ◌≡◌, ap, ◌∙◌, append-nil, append_assoc,
  if_cases,
}
use wu_kong_easy_sdk_csharp.Python.Result.{Result, ok, err}
use wu_kong_easy_sdk_csharp.Python.Coroutine.{
  Coroutine, done, ask, choose, History, followed_by, gather,
}
use wu_kong_easy_sdk_csharp.Python.Coroutine.Script.{call, attempt}
use wu_kong_easy_sdk_csharp.Python.Coroutine.Ensures.{Ensures}
use wu_kong_easy_sdk_csharp.Python.Coroutine.Leads.{Assertion, After, Leads, Keeps}

module _ {Call : Type 0} {Answer : Call → Type 0} where
  -- The numbers of what the calls of a history have made, where `new` says what one call makes.
  unfoldable pub made : ((c : Call) → Answer c → List ℕ) → History Answer → List ℕ
  made new [] = []
  made new ((c, r) ∷ h) = new c r ++ made new h

  pub made-append :
      (new : (c : Call) → Answer c → List ℕ) (h : History Answer) (c : Call) (r : Answer c)
      → made new (h ++ ((c, r) ∷ [])) ≡ made new h ++ new c r
  unfolding made
  made-append new [] c r = append-nil (new c r)
  made-append new ((d, q) ∷ h) c r = simp (made-append new h c r, append_assoc)

  pub made_same :
      (new : (c : Call) → Answer c → List ℕ) (h : History Answer) (c : Call) (r : Answer c)
      → new c r ≡ []
      → made new (h ++ ((c, r) ∷ [])) ≡ made new h
  made_same new h c r e =
      made-append new h c r ∙ ap (λ xs. made new h ++ xs) e ∙ append-nil (made new h)

module _ {Call : Type 0} {Answer : Call → Type 0} (P : (c : Call) → Answer c → Type 0) where
  -- Every call, with whatever answer, has the property.
  unfoldable pub Asks : {A : Type 0} → Coroutine Answer A → Type 0
  Asks (done a) = Unit
  Asks (ask c k) = (r : Answer c) → P c r × Asks (k r)
  Asks (choose k) = (b : Bool) → Asks (k b)

  pub Asks-gather :
      (s t : Coroutine Answer (Result (Unit {0}))) → Asks s → Asks t → Asks (gather s t)
  unfolding Asks gather
  Asks-gather (done (err e)) t qs qt = tt
  Asks-gather (done (ok v)) t qs qt = qt
  Asks-gather (choose k) t qs qt = λ b. Asks-gather (k b) t (qs b) qt
  Asks-gather (ask c k) (done (err e)) qs qt = tt
  Asks-gather (ask c k) (done (ok v)) qs qt = qs
  Asks-gather (ask c k) (choose l) qs qt = λ b. Asks-gather (ask c k) (l b) qs (qt b)
  Asks-gather (ask c k) (ask d l) qs qt = λ b.
      if_cases Asks b _ _ (λ mine. λ r. ((qs r).0, Asks-gather (k r) (ask d l) (qs r).1 qt))
        (λ other. λ r. ((qt r).0, Asks-gather (ask c k) (l r) qs (qt r).1))

  pub Asks-followed_by :
      {A B : Type 0} (t : Coroutine Answer A) (rest : A → Coroutine Answer B)
      → Asks t
      → ((a : A) → Asks (rest a))
      → Asks (followed_by t rest)
  unfolding Asks followed_by
  Asks-followed_by (done a) rest qt qr = qr a
  Asks-followed_by (ask c k) rest qt qr = λ r. ((qt r).0, Asks-followed_by (k r) rest (qt r).1 qr)
  Asks-followed_by (choose k) rest qt qr = λ b. Asks-followed_by (k b) rest (qt b) qr

  -- An assertion that no such call changes.
  abbrev pub Steady : {S : Type 0} → Assertion Answer S → Type 0
  Steady {S} I =
      (h : History Answer) (s : S) (c : Call) (r : Answer c)
      → P c r
      → I h s
      → I (h ++ ((c, r) ∷ [])) s

  call_Ensures :
      {A S : Type 0} (I : Assertion Answer S)
      → Steady I
      → (t : Coroutine Answer (Result A)) (h : History Answer) (s : S) → Asks t
      → I h s
      → Ensures (After I I) h (call t s)
  unfolding Asks call followed_by Ensures
  call_Ensures I steady (done (ok a)) h s q p = p
  call_Ensures I steady (done (err e)) h s q p = p
  call_Ensures I steady (ask c k) h s q p =
      λ r. call_Ensures I steady (k r) (h ++ ((c, r) ∷ [])) s (q r).1 (steady h s c r (q r).0 p)
  call_Ensures I steady (choose k) h s q p = λ b. call_Ensures I steady (k b) h s (q b) p

  pub Keeps-call_if :
      {A S : Type 0} (I : Assertion Answer S)
      → Steady I
      → (t : Coroutine Answer (Result A)) → Asks t
      → Keeps I (call t)
  Keeps-call_if I steady t q = record { at = λ h s p. call_Ensures I steady t h s q p }

  attempt_Ensures :
      {A S : Type 0} (I E : Assertion Answer S)
      → Steady I
      → (t : Coroutine Answer (Result A)) (h : History Answer) (s : S) → Asks t
      → I h s
      → Ensures (After I E) h (attempt t s)
  unfolding Asks attempt followed_by Ensures
  attempt_Ensures I E steady (done r) h s q p = p
  attempt_Ensures I E steady (ask c k) h s q p = λ r.
      attempt_Ensures I E steady (k r) (h ++ ((c, r) ∷ [])) s (q r).1 (steady h s c r (q r).0 p)
  attempt_Ensures I E steady (choose k) h s q p = λ b. attempt_Ensures I E steady (k b) h s (q b) p

  -- A task whose exception is a value does not raise.
  pub Leads-attempt :
      {A S : Type 0} (I E : Assertion Answer S)
      → Steady I
      → (t : Coroutine Answer (Result A)) → Asks t
      → Leads I (attempt t) I E
  Leads-attempt I E steady t q = record { at = λ h s p. attempt_Ensures I E steady t h s q p }

-- A coroutine that does not raise.
unfoldable pub Returns :
    {Call : Type 0} {Answer : Call → Type 0} {A : Type 0} → Coroutine Answer (Result A) → Type 0
Returns (done (ok a)) = Unit
Returns (done (err e)) = false ≡ true
Returns (ask c k) = (r : _) → Returns (k r)
Returns (choose k) = (b : Bool) → Returns (k b)

module _ {Call : Type 0} {Answer : Call → Type 0} (P : (c : Call) → Answer c → Type 0) where
  return_Ensures :
      {A S : Type 0} (I E : Assertion Answer S)
      → Steady P I
      → (t : Coroutine Answer (Result A)) (h : History Answer) (s : S) → Asks P t
      → Returns t
      → I h s
      → Ensures (After I E) h (call t s)
  unfolding Asks Returns call followed_by Ensures
  return_Ensures I E steady (done (ok a)) h s q n p = p
  return_Ensures I E steady (done (err e)) h s q n p = absurd (false≢true n)
  return_Ensures I E steady (ask c k) h s q n p = λ r.
      return_Ensures I E steady (k r) (h ++ ((c, r) ∷ [])) s (q r).1 (n r)
        (steady h s c r (q r).0 p)
  return_Ensures I E steady (choose k) h s q n p =
      λ b. return_Ensures I E steady (k b) h s (q b) (n b) p

  pub Leads-call_returns :
      {A S : Type 0} (I E : Assertion Answer S)
      → Steady P I
      → (t : Coroutine Answer (Result A)) → Asks P t
      → Returns t
      → Leads I (call t) I E
  Leads-call_returns I E steady t q n = record {
    at = λ h s p. return_Ensures I E steady t h s q n p;
  }
