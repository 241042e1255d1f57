-- ===== src/Interop/Scenario/Kept/Opened.antt =====
-- What `actor`, `exchange` and `pair` keep.
use wu_kong_easy_sdk_csharp.Common.{
  ℕ, String, Option, List, [], ◌∷◌, ◌++◌, map-append, refl, sym, ap, ◌∙◌,
}
use wu_kong_easy_sdk_csharp.Python.Result.{Result, ok, err}
use wu_kong_easy_sdk_csharp.Python.Json.{Json}
use wu_kong_easy_sdk_csharp.Python.Text.{Unicode}
use wu_kong_easy_sdk_csharp.Python.Coroutine.{Coroutine, History, followed_by}
use wu_kong_easy_sdk_csharp.Python.Coroutine.Script.{
  Script, give, raise, resume, from_result, ◌>>=◌, ◌>>◌, call, assign,
}
use wu_kong_easy_sdk_csharp.Python.Coroutine.Ensures.{Ensures}
use wu_kong_easy_sdk_csharp.Python.Coroutine.Leads.{After, Keeps}
use wu_kong_easy_sdk_csharp.Interop.Scenario.{Call, Answer, Client, Local}
use wu_kong_easy_sdk_csharp.Interop.Scenario.Clients.{
  Fixture, open_proxy, open_client, client_of, actor, exchange, exchanging, pair,
}
use wu_kong_easy_sdk_csharp.Python.Coroutine.Asks.{
  made-append, made_same, Asks-gather, Asks-followed_by, Asks,
}
use wu_kong_easy_sdk_csharp.Interop.Scenario.Tracked.{
  Neither, new_clients, new_proxies, Quiet, Tracked, Tracked-quiet,
}
use wu_kong_easy_sdk_csharp.Interop.Scenario.Calls.{start_proxy, spawn}
use wu_kong_easy_sdk_csharp.Interop.Scenario.Kept.{keeps_rules, Keeps-check_page}
use wu_kong_easy_sdk_csharp.Interop.Scenario.Quiet.{quiet_calls}

module _ {cases : List String} {n : ℕ} where
  -- A proxy that was made is in the list.
  Tracked-proxy :
      (h : History Answer) (s : Local) (certificate : Option String) (proxy : ℕ)
      → Tracked cases n h s
      → Tracked cases n
          (h ++ ((Call.start_proxy certificate, ok proxy) ∷ []))
          (record s { proxies = s.proxies ++ (proxy ∷ []) })
  Tracked-proxy h s certificate proxy t = record {
    clients = t.clients ∙ sym (made_same new_clients h _ (ok proxy) refl);
    proxies =
        ap (λ ps. ps ++ (proxy ∷ [])) t.proxies ∙ sym (made-append new_proxies h _ (ok proxy));
    reported = t.reported;
  }

  started :
      (certificate : Option String) (h : History Answer) (s : Local)
      → Tracked cases n h s
      → (r : Result ℕ)
      → Ensures
          (After (Tracked cases n) (Tracked cases n))
          (h ++ ((Call.start_proxy certificate, r) ∷ []))
          (resume
            (λ proxy. assign (λ s. record s { proxies = s.proxies ++ (proxy ∷ []) }) >> give proxy)
            (r, s))
  unfolding ◌>>=◌ assign give followed_by Ensures
  started certificate h s t (ok proxy) = Tracked-proxy h s certificate proxy t
  started certificate h s t (err e) = Tracked-quiet h s _ (err e) refl refl t

  pub Keeps-open_proxy :
      (certificate : Option String) → Keeps (Tracked cases n) (open_proxy certificate)
  unfolding open_proxy start_proxy ◌>>=◌ call followed_by Ensures
  Keeps-open_proxy certificate = record { at = λ h s t r. started certificate h s t r }

  -- A client that was made is in the list.
  Tracked-client :
      (h : History Answer) (s : Local) (language uid token : String) (proxy : ℕ) (c : Client)
      → Tracked cases n h s
      → Tracked cases n
          (h ++ ((Call.spawn language uid token proxy, ok c.handle) ∷ []))
          (record s { actors = s.actors ++ (c ∷ []) })
  Tracked-client h s language uid token proxy c t = record {
    clients = simp (
      t.clients,
      made-append new_clients h (Call.spawn language uid token proxy) (ok c.handle),
      map-append,
    );
    proxies = t.proxies ∙ sym (made_same new_proxies h _ (ok c.handle) refl);
    reported = t.reported;
  }

  spawned :
      (name language uid token : String) (proxy : ℕ) (h : History Answer) (s : Local)
      → Tracked cases n h s
      → (r : Result ℕ)
      → Ensures
          (After (Tracked cases n) (Tracked cases n))
          (h ++ ((Call.spawn language uid token proxy, r) ∷ []))
          (resume
            (λ handle.
              assign (λ s. record s { actors = s.actors ++ (client_of name uid handle ∷ []) })
              >> give (client_of name uid handle))
            (r, s))
  unfolding ◌>>=◌ assign give followed_by Ensures
  spawned name language uid token proxy h s t (ok handle) =
      Tracked-client h s language uid token proxy _ t
  spawned name language uid token proxy h s t (err e) = Tracked-quiet h s _ (err e) refl refl t

  pub Keeps-open_client :
      (name language uid token : String) (proxy : ℕ)
      → Keeps (Tracked cases n) (open_client name language uid token proxy)
  unfolding open_client spawn ◌>>=◌ call followed_by Ensures
  Keeps-open_client name language uid token proxy = record {
    at = λ h s t r. spawned name language uid token proxy h s t r;
  }

  pub Keeps-actor :
      (x : Fixture) (name language uid token certificate : String)
      → Keeps (Tracked cases n) (actor x name language uid token certificate)
  unfolding actor
  Keeps-actor x name language uid token certificate =
      search (keeps_rules, Keeps-open_proxy, Keeps-open_client, Keeps-check_page)

-- A script over no variables that makes neither clients nor proxies.
record Silent {A : Type 0} (m : Script Answer (Unit {0}) A) : Type 0 where
  at : Quiet (m tt)

Silent-call : {A : Type 0} (t : Coroutine Answer (Result A)) → Quiet t → Silent (call t)
unfolding call Asks
Silent-call t q = record { at = Asks-followed_by Neither t _ q (λ r. tt) }

Silent-from_result : {A : Type 0} (r : Result A) → Silent (from_result r)
unfolding from_result give raise Asks
Silent-from_result (ok a) = record { at = tt }
Silent-from_result (err e) = record { at = tt }

resume-Quiet :
    {A B : Type 0} (f : A → Script Answer (Unit {0}) B)
    → ((a : A) → Silent (f a))
    → (last : Result A × Unit {0}) → Quiet (resume f last)
unfolding Asks
resume-Quiet f qf (ok a, s) = (qf a).at
resume-Quiet f qf (err e, s) = tt

Silent-bind :
    {A B : Type 0} (m : Script Answer (Unit {0}) A) (f : A → Script Answer (Unit {0}) B)
    → Silent m
    → ((a : A) → Silent (f a))
    → Silent (m >>= f)
unfolding ◌>>=◌
Silent-bind m f qm qf = record {
  at = Asks-followed_by Neither (m tt) (resume f) qm.at (resume-Quiet f qf);
}

exchange-Silent :
    (u : Unicode) (sender receiver : Client) (payload : Json)
    → Silent (exchange u sender receiver payload)
unfolding exchange
exchange-Silent u sender receiver payload =
    search (Silent-bind, Silent-call, Silent-from_result, quiet_calls)

pub Quiet-exchanging :
    (u : Unicode) (sender receiver : Client) (payload : Json)
    → Quiet (exchanging u sender receiver payload)
unfolding exchanging Asks
Quiet-exchanging u sender receiver payload =
    Asks-followed_by Neither _ _ (exchange-Silent u sender receiver payload).at (λ last. tt)

module _ {cases : List String} {n : ℕ} where
  pub Keeps-pair :
      (u : Unicode) (csharp js : Client) (label : String)
      → Keeps (Tracked cases n) (pair u csharp js label)
  unfolding pair
  Keeps-pair u csharp js label = search (keeps_rules, Asks-gather, Quiet-exchanging)
