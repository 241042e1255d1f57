-- ===== src/Interop/Server/Lifecycle.antt =====
-- What `start` has seen when it returns.
use wu_kong_easy_sdk_csharp.Common.{
  ℕ, Option, none, List, [], ◌∷◌, ◌≡◌, refl, arith, ◌⊎◌, inl, inr, Option-cases, ◌++◌, ap, All,
}
use wu_kong_easy_sdk_csharp.Python.Result.{
  Exc, url_error, timeout_error, Result, ok, err, Result-cases,
}
use wu_kong_easy_sdk_csharp.Interop.Server.{
  Reply, response, url_failure, timeout, broken, request, Look, Next, started, failed, again,
  after_request, look, start,
}

module _ {J : Type 0} (loads : List ℕ → Result J) where
  -- The server ran and answered /readyz with status 200.
  pub record Ready (l : Look loads) : Type 0 where
    pub alive : l.returncode ≡ none
    pub body : List ℕ
    pub answered : l.reply ≡ response 200 body

  -- The process ran.
  abbrev pub Alive : Look loads → Type 0
  Alive l = l.returncode ≡ none

  pub record Started (looks : List (Look loads)) : Type 0 where
    pub before : List (Look loads)
    pub ready : Look loads
    pub after : List (Look loads)
    pub spelled : looks ≡ before ++ (ready ∷ after)
    pub ran : All Alive before
    pub is_ready : Ready ready

  request_ok :
      (r : Reply) (v : Option J)
      → request loads r ≡ ok v
      → (body : List ℕ) × (r ≡ response 200 body)
  unfolding request
  request_ok (response status body) v h = (body, ground arith)
  request_ok url_failure v h = absurd (cc)
  request_ok timeout v h = absurd (cc)
  request_ok (broken e) v h = absurd (cc)

  look_started : (l : Look loads) → look loads l ≡ started → Ready l
  unfolding look
  look_started l h = elim (Option-cases l.returncode) [
    | inl e ↦ elim (Result-cases (request loads l.reply)) [
      | inl (x, f) ↦ absurd (not_started x (ground arith))
      | inr (v, f) ↦
          let (body, a) = request_ok l.reply v f in record { alive = e; body = body; answered = a }
    ]
    | inr (c, e) ↦ absurd (ground arith)
  ]
    where
      not_started : (x : Exc) → after_request loads (err x) ≡ started → ⊥
      not_started url_error h = cc
      not_started timeout_error h = cc
      not_started _ h = cc

  look_again : (l : Look loads) → look loads l ≡ again → l.returncode ≡ none
  unfolding look
  look_again l h = elim (Option-cases l.returncode) [
    | inl e ↦ e
    | inr (c, e) ↦ absurd (ground arith)
  ]

  Next-cases : (n : Next loads) → (n ≡ started) ⊎ ((n ≡ again) ⊎ ((e : Exc) × (n ≡ failed e)))
  Next-cases started = inl refl
  Next-cases again = inr (inl refl)
  Next-cases (failed e) = inr (inr (e, refl))

  -- `start` returns only after a round in which the process ran and /readyz answered with status 200,
  -- and before which the process ran in every round.
  pub start_sound : (looks : List (Look loads)) → start loads looks ≡ ok tt → Started looks
  unfolding start
  start_sound [] h = absurd (cc)
  start_sound (l ∷ ls) h = elim (Next-cases (look loads l)) [
    | inl e ↦ record {
      before = [];
      ready = l;
      after = ls;
      spelled = refl;
      ran = tt;
      is_ready = look_started l e;
    }
    | inr (inl e) ↦
        let s = start_sound ls (rw (e, start) at h) in
        record {
          before = l ∷ s.before;
          ready = s.ready;
          after = s.after;
          spelled = ap (λ t. l ∷ t) s.spelled;
          ran = (look_again l e, s.ran);
          is_ready = s.is_ready;
        }
    | inr (inr (x, e)) ↦ absurd (ground arith)
  ]
