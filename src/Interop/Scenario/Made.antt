-- ===== src/Interop/Scenario/Made.antt =====
-- What `actor` of `scenarios` has made when it returns: a proxy and a client that goes through it.
use wu_kong_easy_sdk_csharp.Common.{
  ℕ, String, Option, some, none, [], ◌∷◌, ◌++◌, append_assoc, ◌≡◌, refl, ap, ◌∙◌, if◌then◌else◌,
}
use wu_kong_easy_sdk_csharp.Python.Result.{Result, ok, err}
use wu_kong_easy_sdk_csharp.Python.Coroutine.{Coroutine, done, ask, choose, History, followed_by}
use wu_kong_easy_sdk_csharp.Python.Coroutine.Script.{Script, give, assign, call}
use wu_kong_easy_sdk_csharp.Python.Coroutine.Ensures.{Ensures}
use wu_kong_easy_sdk_csharp.Python.Coroutine.Leads.{Assertion}
use wu_kong_easy_sdk_csharp.Python.Coroutine.Gives.{Found, Gives, Gives-bind}
use wu_kong_easy_sdk_csharp.Interop.Scenario.{Call, Answer, Client, Local}
use wu_kong_easy_sdk_csharp.Interop.Scenario.Calls.{start_proxy, spawn}
use wu_kong_easy_sdk_csharp.Interop.Scenario.Clients.{
  Fixture, open_proxy, open_client, client_of, actor,
}

-- A proxy with this certificate has been started last.
pub record Proxied (certificate : Option String) (proxy : ℕ) (h : History Answer) : Type 0 where
  pub before : History Answer
  pub history : h ≡ before ++ ((Call.start_proxy certificate, ok proxy) ∷ [])

-- After a proxy a client of this language, user and token was started, and told to connect to that proxy.
pub record Made (certificate : Option String) (language uid token : String) (client : Client)
    (proxy : ℕ) (h : History Answer) : Type 0 where
  pub before : History Answer
  pub later : History Answer
  pub history :
      h
      ≡ before
        ++ ((Call.start_proxy certificate, ok proxy)
            ∷ (Call.spawn language uid token proxy, ok client.handle)
            ∷ later)

abbrev pub Anything : Assertion Answer Local
Anything h s = Unit

Made-later :
    {certificate : Option String} {language uid token : String} {client : Client} {proxy : ℕ}
    (h more : History Answer)
    → Made certificate language uid token client proxy h
    → Made certificate language uid token client proxy (h ++ more)
Made-later h more m = record {
  before = m.before;
  later = m.later ++ more;
  history = ap (λ k. k ++ more) m.history ∙ append_assoc m.before _ more;
}

-- A script only adds to the history.
module _ (P : History Answer → Type 0)
    (grows : (h more : History Answer) → P h → P (h ++ more)) where
  added :
      {A : Type 0} (t : Coroutine Answer (Result A × Local)) (h : History Answer)
      → P h
      → Ensures (Found (λ a h s. P h)) h t
  unfolding Ensures
  added (done (ok a, s)) h p = p
  added (done (err e, s)) h p = tt
  added (ask c k) h p = λ r. added (k r) (h ++ ((c, r) ∷ [])) (grows h ((c, r) ∷ []) p)
  added (choose k) h p = λ b. added (k b) h p

  Gives-added : {A : Type 0} (m : Script Answer Local A) → Gives (λ h s. P h) m (λ a h s. P h)
  Gives-added m = record { at = λ h s p. added (m s) h p }

Gives-assign :
    (P : History Answer → Type 0) (f : Local → Local) → Gives (λ h s. P h) (assign f) (λ u h s. P h)
unfolding assign Ensures
Gives-assign P f = record { at = λ h s p. p }

Gives-start_proxy :
    (certificate : Option String)
    → Gives Anything (call (start_proxy certificate)) (λ proxy h s. Proxied certificate proxy h)
unfolding start_proxy call followed_by Ensures
Gives-start_proxy certificate = record {
  at = λ h s p r.
      elim r
        as (λ r.
          Found {Call = Call} {Answer = Answer} {S = Local}
            (λ proxy h' s'. Proxied certificate proxy h')
            (h ++ ((Call.start_proxy certificate, r) ∷ [])) (r, s)) [
              | ok v ↦ record { before = h; history = refl }
              | err e ↦ tt
            ];
}

Gives-spawn :
    (certificate : Option String) (name language uid token : String) (proxy : ℕ)
    → Gives
        (λ h s. Proxied certificate proxy h)
        (call {S = Local} (spawn language uid token proxy))
        (λ handle h s. Made certificate language uid token (client_of name uid handle) proxy h)
unfolding spawn call followed_by Ensures
Gives-spawn certificate name language uid token proxy = record {
  at = λ h s p r.
      elim r
        as (λ r.
          Found {Call = Call} {Answer = Answer} {S = Local}
            (λ handle h' s'.
              Made certificate language uid token (client_of name uid handle) proxy h')
            (h ++ ((Call.spawn language uid token proxy, r) ∷ [])) (r, s)) [
              | ok v ↦ record {
                before = p.before;
                later = [];
                history =
                    ap (λ k. k ++ ((Call.spawn language uid token proxy, ok v) ∷ [])) p.history
                    ∙ append_assoc p.before _ _;
              }
              | err e ↦ tt
            ];
}

Gives-same :
    {A : Type 0} (P : A → History Answer → Type 0) (a : A)
    → Gives {S = Local} (λ h s. P a h) (give a) (λ b h s. P b h)
unfolding give Ensures
Gives-same P a = record { at = λ h s p. p }

Gives-open_proxy :
    (certificate : Option String)
    → Gives Anything (open_proxy certificate) (λ proxy h s. Proxied certificate proxy h)
unfolding open_proxy
Gives-open_proxy certificate = Gives-bind _ _ (Gives-start_proxy certificate) (λ proxy.
    Gives-bind _ _ (Gives-assign (Proxied certificate proxy) _)
      (λ u. Gives-same (Proxied certificate) proxy))

Gives-open_client :
    (certificate : Option String) (name language uid token : String) (proxy : ℕ)
    → Gives
        (λ h s. Proxied certificate proxy h)
        (open_client name language uid token proxy)
        (λ client h s. Made certificate language uid token client proxy h)
unfolding open_client
Gives-open_client certificate name language uid token proxy =
    Gives-bind _ _ (Gives-spawn certificate name language uid token proxy) (λ handle.
      Gives-bind _ _
        (Gives-assign (Made certificate language uid token (client_of name uid handle) proxy) _)
        (λ u.
          Gives-same (λ client. Made certificate language uid token client proxy)
            (client_of name uid handle)))

abbrev pub certificate_of : Fixture → String → Option String
certificate_of x certificate = if x.trust then some certificate else none

pub Gives-actor :
    (x : Fixture) (name language uid token certificate : String)
    → Gives Anything
        (actor x name language uid token certificate)
        (λ made h s. Made (certificate_of x certificate) language uid token made.0 made.1 h)
unfolding actor
Gives-actor x name language uid token certificate =
    let c = certificate_of x certificate in
    Gives-bind _ _ (Gives-open_proxy c) (λ proxy.
      Gives-bind _ _ (Gives-open_client c name language uid token proxy) (λ client.
        Gives-bind _ _ (Gives-added (Made c language uid token client proxy) Made-later _)
          (λ u. Gives-same (λ made. Made c language uid token made.0 made.1) (client, proxy))))
