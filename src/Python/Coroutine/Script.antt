-- ===== src/Python/Coroutine/Script.antt =====
-- A coroutine over the variables of the function around it: what has been assigned when an exception is
-- raised stays assigned.
use wu_kong_easy_sdk_csharp.Common.{Bool, true, false, List, [], ◌∷◌}
use wu_kong_easy_sdk_csharp.Python.Result.{Exc, Result, ok, err}
use wu_kong_easy_sdk_csharp.Python.Coroutine.{Coroutine, done, followed_by}

abbrev pub Script : {Call : Type 0} → (Call → Type 0) → Type 0 → Type 0 → Type 0
Script Answer S A = S → Coroutine Answer (Result A × S)

module _ {Call : Type 0} {Answer : Call → Type 0} {S : Type 0} where
  unfoldable pub give : {A : Type 0} → A → Script Answer S A
  give a s = done (ok a, s)

  unfoldable pub raise : {A : Type 0} → Exc → Script Answer S A
  raise e s = done (err e, s)

  abbrev pub resume :
      {A B : Type 0} → (A → Script Answer S B) → Result A × S → Coroutine Answer (Result B × S)
  resume rest (ok a, s) = rest a s
  resume rest (err e, s) = done (err e, s)

  infixl 5 ◌>>=◌
  unfoldable pub ◌>>=◌ :
      {A B : Type 0} → Script Answer S A → (A → Script Answer S B) → Script Answer S B
  (m >>= rest) s = followed_by (m s) (resume rest)

  infixl 5 ◌>>◌
  abbrev pub ◌>>◌ :
      {B : Type 0} → Script Answer S (Unit {0}) → Script Answer S B → Script Answer S B
  m >> rest = m >>= (λ nothing. rest)

  -- An assignment.
  unfoldable pub assign : (S → S) → Script Answer S (Unit {0})
  assign f s = done (ok tt, f s)

  unfoldable pub look_up : {A : Type 0} → (S → A) → Script Answer S A
  look_up f s = done (ok (f s), s)

  -- `if test: raise e`
  unfoldable pub raise_when : Bool → Exc → Script Answer S (Unit {0})
  raise_when true e = raise e
  raise_when false e = give tt

  -- What was computed without a call.
  unfoldable pub from_result : {A : Type 0} → Result A → Script Answer S A
  from_result (ok a) = give a
  from_result (err e) = raise e

  unfoldable pub each :
      {A : Type 0} → (A → Script Answer S (Unit {0})) → List A → Script Answer S (Unit {0})
  each f [] = give tt
  each f (x ∷ xs) = f x >> each f xs

  -- A call, or an awaited coroutine, that does not touch the variables.
  unfoldable pub call : {A : Type 0} → Coroutine Answer (Result A) → Script Answer S A
  call t s = followed_by t (λ r. done (r, s))

  abbrev pub finished :
      {A : Type 0} → (Result A × S) → Script Answer S (Unit {0}) → Coroutine Answer (Result A × S)
  finished (r, s) m =
      followed_by (m s) (λ end. done (elim end.0 [ ok u ↦ r | err e ↦ err e ], end.1))

  -- `try: body finally: last`: an exception of `last` replaces the outcome of the body.
  unfoldable pub try_finally :
      {A : Type 0} → Script Answer S A → Script Answer S (Unit {0}) → Script Answer S A
  try_finally body last s = followed_by (body s) (λ end. finished end last)

  -- A task whose exception is a value, as asyncio.gather gives it with return_exceptions.
  unfoldable pub attempt : {A : Type 0} → Coroutine Answer (Result A) → Script Answer S (Result A)
  attempt t s = followed_by t (λ r. done (ok r, s))

  -- asyncio.gather(*tasks, return_exceptions=True) for tasks that are one call each: they start in order.
  unfoldable pub settled :
      {A : Type 0} → List (Coroutine Answer (Result A)) → Script Answer S (List (Result A))
  settled [] = give []
  settled (t ∷ ts) = attempt t >>= (λ r. settled ts >>= (λ rs. give (r ∷ rs)))

  -- [f(a) for a in items]
  unfoldable pub gathered :
      {A B : Type 0} → (A → Script Answer S B) → List A → Script Answer S (List B)
  gathered f [] = give []
  gathered f (a ∷ rest) = f a >>= (λ b. gathered f rest >>= (λ bs. give (b ∷ bs)))

  abbrev pub recovered :
      {A : Type 0} → (Exc → Script Answer S A) → Result A × S → Coroutine Answer (Result A × S)
  recovered handler (ok a, s) = done (ok a, s)
  recovered handler (err e, s) = handler e s

  -- `try: body except: handler`
  unfoldable pub try_except :
      {A : Type 0} → Script Answer S A → (Exc → Script Answer S A) → Script Answer S A
  try_except body handler s = followed_by (body s) (recovered handler)
