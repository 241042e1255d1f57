-- ===== src/Python/Coroutine/Leads.antt =====
-- From what holds before a script to what holds after it, with one rule for each way to build a script.
use wu_kong_easy_sdk_csharp.Common.{Bool, true, false, List, [], ◌∷◌, if◌then◌else◌}
use wu_kong_easy_sdk_csharp.Python.Result.{Exc, Result, ok, err}
use wu_kong_easy_sdk_csharp.Python.Coroutine.{History}
use wu_kong_easy_sdk_csharp.Python.Coroutine.Script.{
  Script, give, raise, resume, ◌>>=◌, look_up, raise_when, from_result, each, try_except, recovered,
  try_finally, finished,
}
use wu_kong_easy_sdk_csharp.Python.Coroutine.Ensures.{
  Ensures, Ensures-weaken, Ensures-both, Ensures-followed_by,
}

-- What the history and the variables satisfy.
abbrev pub Assertion : {Call : Type 0} → (Call → Type 0) → Type 0 → Type 1
Assertion Answer S = History Answer → S → Type 0

module _ {Call : Type 0} {Answer : Call → Type 0} {S : Type 0} where
  abbrev pub After :
      {A : Type 0}
      → Assertion Answer S
      → Assertion Answer S
      → History Answer
      → Result A × S
      → Type 0
  After Q E h (ok a, s) = Q h s
  After Q E h (err e, s) = E h s

  -- From P the script m leads to Q if it returns and to E if it raises, whatever the world answers.
  pub record Leads {A : Type 0} (P : Assertion Answer S) (m : Script Answer S A)
      (Q E : Assertion Answer S) : Type 0 where
    pub at : (h : History Answer) (s : S) → P h s → Ensures (After Q E) h (m s)

  resume-Ensures :
      {A B : Type 0} {Q R E : Assertion Answer S} (f : A → Script Answer S B)
      → ((a : A) → Leads Q (f a) R E)
      → (h : History Answer) (end : Result A × S) → After Q E h end
      → Ensures (After R E) h (resume f end)
  unfolding Ensures
  resume-Ensures f kf h (ok a, s) q = (kf a).at h s q
  resume-Ensures f kf h (err e, s) q = q

  pub Leads-bind :
      {A B : Type 0} {P Q R E : Assertion Answer S} (m : Script Answer S A)
      (f : A → Script Answer S B)
      → Leads P m Q E
      → ((a : A) → Leads Q (f a) R E)
      → Leads P (m >>= f) R E
  unfolding ◌>>=◌
  Leads-bind {Q = Q} {R = R} {E = E} m f km kf = record {
    at = λ h s p.
        Ensures-followed_by (After Q E) (After R E) (resume f) (resume-Ensures f kf) (m s) h
          (km.at h s p);
  }

  After-weaken :
      {A : Type 0} {Q R D E : Assertion Answer S}
      → ((h : History Answer) (s : S) → Q h s → R h s)
      → ((h : History Answer) (s : S) → D h s → E h s)
      → (h : History Answer) (end : Result A × S) → After Q D h end
      → After R E h end
  After-weaken f g h (ok a, s) = f h s
  After-weaken f g h (err e, s) = g h s

  pub Leads-weaken :
      {A : Type 0} {P Q R D E : Assertion Answer S} (m : Script Answer S A)
      → ((h : History Answer) (s : S) → Q h s → R h s)
      → ((h : History Answer) (s : S) → D h s → E h s)
      → Leads P m Q D
      → Leads P m R E
  Leads-weaken m f g l = record {
    at = λ h s p. Ensures-weaken _ _ (After-weaken f g) (m s) h (l.at h s p);
  }

  -- What holds before and after, however the script ends.
  abbrev pub Keeps : {A : Type 0} (I : Assertion Answer S) (m : Script Answer S A) → Type 0
  Keeps I m = Leads I m I I

  pub Keeps-bind :
      {A B : Type 0} {I : Assertion Answer S} (m : Script Answer S A) (f : A → Script Answer S B)
      → Keeps I m
      → ((a : A) → Keeps I (f a))
      → Keeps I (m >>= f)
  Keeps-bind m f km kf = Leads-bind m f km kf

  pub Keeps-give : {A : Type 0} {I : Assertion Answer S} (a : A) → Keeps I (give a)
  unfolding give Ensures
  Keeps-give a = record { at = λ h s p. p }

  pub Keeps-raise : {A : Type 0} {I : Assertion Answer S} (e : Exc) → Keeps I (raise {A = A} e)
  unfolding raise Ensures
  Keeps-raise e = record { at = λ h s p. p }

  pub Keeps-from_result :
      {A : Type 0} {I : Assertion Answer S} (r : Result A) → Keeps I (from_result r)
  unfolding from_result
  Keeps-from_result (ok a) = Keeps-give a
  Keeps-from_result (err e) = Keeps-raise e

  pub Keeps-raise_when : {I : Assertion Answer S} (b : Bool) (e : Exc) → Keeps I (raise_when b e)
  unfolding raise_when
  Keeps-raise_when true e = Keeps-raise e
  Keeps-raise_when false e = Keeps-give tt

  pub Keeps-look_up : {A : Type 0} {I : Assertion Answer S} (f : S → A) → Keeps I (look_up f)
  unfolding look_up Ensures
  Keeps-look_up f = record { at = λ h s p. p }

  pub Keeps-if :
      {A : Type 0} {I : Assertion Answer S} (b : Bool) (m n : Script Answer S A)
      → Keeps I m
      → Keeps I n
      → Keeps I (if b then m else n)
  Keeps-if true m n km kn = km
  Keeps-if false m n km kn = kn

  pub Keeps-each :
      {A : Type 0} {I : Assertion Answer S} (f : A → Script Answer S (Unit {0})) (xs : List A)
      → ((a : A) → Keeps I (f a))
      → Keeps I (each f xs)
  unfolding each
  Keeps-each f [] k = Keeps-give tt
  Keeps-each f (x ∷ xs) k = Leads-bind (f x) _ (k x) (λ u. Keeps-each f xs k)

  After-both :
      {A : Type 0} (Q E T F : Assertion Answer S) (h : History Answer) (end : Result A × S)
      → After Q E h end × After T F h end
      → After (λ h s. Q h s × T h s) (λ h s. E h s × F h s) h end
  After-both Q E T F h (ok a, s) q = q
  After-both Q E T F h (err e, s) q = q

  ended :
      {A : Type 0} (R F : Assertion Answer S) (a : A) (h : History Answer)
      (end : Result (Unit {0}) × S)
      → After R F h end
      → After R F h (elim end.0 [ ok u ↦ ok a | err e ↦ err e ], end.1)
  ended R F a h (ok u, s) q = q
  ended R F a h (err e, s) q = q

  failed :
      (A : Type 0) (R F : Assertion Answer S) (x : Exc) (h : History Answer)
      (end : Result (Unit {0}) × S)
      → After F F h end
      → After {A = A} R F h (elim end.0 [ ok u ↦ err x | err e ↦ err e ], end.1)
  failed A R F x h (ok u, s) q = q
  failed A R F x h (err e, s) q = q

  finish_Ensures :
      {A : Type 0} {Q E R F : Assertion Answer S} (last : Script Answer S (Unit {0}))
      → Leads Q last R F
      → Leads E last F F
      → (h : History Answer) (end : Result A × S) → After Q E h end
      → Ensures (After R F) h (finished end last)
  unfolding Ensures
  finish_Ensures {R = R} {F = F} last k l h (ok a, s) q =
      Ensures-followed_by (After R F) (After R F) _ (ended R F a) (last s) h (k.at h s q)
  finish_Ensures {R = R} {F = F} last k l h (err e, s) q =
      Ensures-followed_by (After F F) (After R F) _ (failed _ R F e) (last s) h (l.at h s q)

  pub Leads-both :
      {A : Type 0} {P Q E R T F : Assertion Answer S} (m : Script Answer S A)
      → Leads P m Q E
      → Leads R m T F
      → Leads (λ h s. P h s × R h s) m (λ h s. Q h s × T h s) (λ h s. E h s × F h s)
  Leads-both {Q = Q} {E = E} {T = T} {F = F} m l k = record {
    at = λ h s p.
        Ensures-weaken _ _ (After-both Q E T F) (m s) h
          (Ensures-both _ _ (m s) h (l.at h s p.0) (k.at h s p.1));
  }

  -- A `finally` that leads from either end of the body to what is wanted.
  pub Leads-try_finally :
      {A : Type 0} {P Q E R F : Assertion Answer S} (body : Script Answer S A)
      (last : Script Answer S (Unit {0}))
      → Leads P body Q E
      → Leads Q last R F
      → Leads E last F F
      → Leads P (try_finally body last) R F
  unfolding try_finally
  Leads-try_finally {Q = Q} {E = E} {R = R} {F = F} body last b k l = record {
    at = λ h s p.
        Ensures-followed_by (After Q E) (After R F) _ (finish_Ensures last k l) (body s) h
          (b.at h s p);
  }

module _ {Call : Type 0} {Answer : Call → Type 0} {S : Type 0} where
  handle_Ensures :
      {A : Type 0} {Q E R F : Assertion Answer S} (handler : Exc → Script Answer S A)
      → ((h : History Answer) (s : S) → Q h s → R h s)
      → ((e : Exc) → Leads E (handler e) R F)
      → (h : History Answer) (end : Result A × S) → After Q E h end
      → Ensures (After R F) h (recovered handler end)
  unfolding Ensures
  handle_Ensures handler f l h (ok a, s) q = f h s q
  handle_Ensures handler f l h (err e, s) q = (l e).at h s q

  pub Leads-try_except :
      {A : Type 0} {P Q E F : Assertion Answer S} (body : Script Answer S A)
      (handler : Exc → Script Answer S A)
      → Leads P body Q E
      → ((e : Exc) → Leads E (handler e) Q F)
      → Leads P (try_except body handler) Q F
  unfolding try_except
  Leads-try_except {Q = Q} {E = E} {F = F} body handler b l = record {
    at = λ h s p.
        Ensures-followed_by (After Q E) (After Q F) _ (handle_Ensures handler (λ h s q. q) l)
          (body s) h (b.at h s p);
  }

pub ruleset script_rules = (
  Keeps-bind, Keeps-give, Keeps-raise, Keeps-from_result, Keeps-raise_when, Keeps-look_up, Keeps-if,
  Keeps-each,
)
