-- ===== src/Python/Coroutine/Ensures.antt =====
-- What holds at the end of a coroutine whatever the world answers.
use wu_kong_easy_sdk_csharp.Common.{Bool, [], ◌∷◌, ◌++◌}
use wu_kong_easy_sdk_csharp.Python.Coroutine.{
  Coroutine, done, ask, choose, History, World, followed_by, run,
}

module _ {Call : Type 0} {Answer : Call → Type 0} where
  -- Whatever the answers, the coroutine that is started after h ends with a history and a value of P.
  unfoldable pub Ensures :
      {A : Type 0} (P : History Answer → A → Type 0) → History Answer → Coroutine Answer A → Type 0
  Ensures P h (done a) = P h a
  Ensures {A} P h (ask c k) = (r : Answer c) → Ensures P (h ++ ((c, r) ∷ [])) (k r)
  Ensures {A} P h (choose k) = (b : Bool) → Ensures P h (k b)

  pub run-Ensures :
      {A : Type 0} (P : History Answer → A → Type 0) (w : World Answer) (t : Coroutine Answer A)
      (h : History Answer)
      → Ensures P h t
      → P (run w h t).1 (run w h t).0
  unfolding Ensures run
  run-Ensures P w (done a) h e = e
  run-Ensures P w (ask c k) h e =
      run-Ensures P w (k (w.answer h c)) (h ++ ((c, w.answer h c) ∷ [])) (e (w.answer h c))
  run-Ensures P w (choose k) h e = run-Ensures P w (k (w.turn h)) h (e (w.turn h))

  pub Ensures-followed_by :
      {A B : Type 0} (P : History Answer → A → Type 0) (Q : History Answer → B → Type 0)
      (rest : A → Coroutine Answer B)
      → ((h : History Answer) (a : A) → P h a → Ensures Q h (rest a))
      → (t : Coroutine Answer A) (h : History Answer) → Ensures P h t
      → Ensures Q h (followed_by t rest)
  unfolding Ensures followed_by
  Ensures-followed_by P Q rest f (done a) h e = f h a e
  Ensures-followed_by P Q rest f (ask c k) h e =
      λ r. Ensures-followed_by P Q rest f (k r) (h ++ ((c, r) ∷ [])) (e r)
  Ensures-followed_by P Q rest f (choose k) h e = λ b. Ensures-followed_by P Q rest f (k b) h (e b)

  pub Ensures-weaken :
      {A : Type 0} (P Q : History Answer → A → Type 0)
      → ((h : History Answer) (a : A) → P h a → Q h a)
      → (t : Coroutine Answer A) (h : History Answer) → Ensures P h t
      → Ensures Q h t
  unfolding Ensures
  Ensures-weaken P Q f (done a) h e = f h a e
  Ensures-weaken P Q f (ask c k) h e = λ r. Ensures-weaken P Q f (k r) (h ++ ((c, r) ∷ [])) (e r)
  Ensures-weaken P Q f (choose k) h e = λ b. Ensures-weaken P Q f (k b) h (e b)

  pub Ensures-both :
      {A : Type 0} (P Q : History Answer → A → Type 0) (t : Coroutine Answer A) (h : History Answer)
      → Ensures P h t
      → Ensures Q h t
      → Ensures (λ h a. P h a × Q h a) h t
  unfolding Ensures
  Ensures-both P Q (done a) h e f = (e, f)
  Ensures-both P Q (ask c k) h e f = λ r. Ensures-both P Q (k r) (h ++ ((c, r) ∷ [])) (e r) (f r)
  Ensures-both P Q (choose k) h e f = λ b. Ensures-both P Q (k b) h (e b) (f b)
