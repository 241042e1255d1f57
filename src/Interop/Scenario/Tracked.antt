-- ===== src/Interop/Scenario/Tracked.antt =====
-- The clients and proxies that the history shows to have been made, against the lists that `scenarios`
-- keeps of them, and the cases that it has reported.
use wu_kong_easy_sdk_csharp.Common.{ℕ, String, List, [], ◌∷◌, ◌++◌, map, take, ◌≡◌, sym, ap, ◌∙◌}
use wu_kong_easy_sdk_csharp.Python.Result.{Result, ok}
use wu_kong_easy_sdk_csharp.Python.Coroutine.{Coroutine, History}
use wu_kong_easy_sdk_csharp.Python.Coroutine.Script.{call, assign}
use wu_kong_easy_sdk_csharp.Python.Coroutine.Ensures.{Ensures}
use wu_kong_easy_sdk_csharp.Python.Coroutine.Leads.{Keeps}
use wu_kong_easy_sdk_csharp.Python.Coroutine.Asks.{made, made_same, Asks, Keeps-call_if}
use wu_kong_easy_sdk_csharp.Interop.Scenario.{Call, Answer, Local, spawn, start_proxy}

-- The clients and the proxies that a call with its answer has made.
abbrev pub new_clients : (c : Call) → Answer c → List ℕ
new_clients (spawn language uid token proxy) (ok handle) = handle ∷ []
new_clients c r = []

abbrev pub new_proxies : (c : Call) → Answer c → List ℕ
new_proxies (start_proxy certificate) (ok proxy) = proxy ∷ []
new_proxies c r = []

-- A call that makes neither.
abbrev pub Neither : (c : Call) → Answer c → Type 0
Neither c r = (new_clients c r ≡ []) × (new_proxies c r ≡ [])

-- A coroutine that makes neither clients nor proxies.
abbrev pub Quiet : {A : Type 0} → Coroutine Answer A → Type 0
Quiet t = Asks Neither t

-- The lists are those of the clients and proxies that were made, in order, and the first n cases are
-- reported.
pub record Tracked (cases : List String) (n : ℕ) (h : History Answer) (s : Local) : Type 0 where
  pub clients : map (λ c. c.handle) s.actors ≡ made new_clients h
  pub proxies : s.proxies ≡ made new_proxies h
  pub reported : s.report.cases ≡ take n cases

module _ {cases : List String} {n : ℕ} where
  pub Tracked-quiet :
      (h : History Answer) (s : Local) (c : Call) (r : Answer c)
      → new_clients c r ≡ []
      → new_proxies c r ≡ []
      → Tracked cases n h s
      → Tracked cases n (h ++ ((c, r) ∷ [])) s
  Tracked-quiet h s c r e f t = record {
    clients = t.clients ∙ sym (made_same new_clients h c r e);
    proxies = t.proxies ∙ sym (made_same new_proxies h c r f);
    reported = t.reported;
  }

  pub Keeps-call :
      {A : Type 0} (t : Coroutine Answer (Result A)) → Quiet t → Keeps (Tracked cases n) (call t)
  Keeps-call t q =
      Keeps-call_if Neither (Tracked cases n) (λ h s c r e t. Tracked-quiet h s c r e.0 e.1 t) t q

  -- An assignment to neither of the three.
  pub Keeps-assign :
      (f : Local → Local)
      → ((s : Local)
          → ((f s).actors ≡ s.actors)
            × ((f s).proxies ≡ s.proxies)
            × ((f s).report.cases ≡ s.report.cases))
      → Keeps (Tracked cases n) (assign f)
  unfolding assign Ensures
  Keeps-assign f same = record {
    at = λ h s t. record {
      clients = ap (map (λ c. c.handle)) (same s).0 ∙ t.clients;
      proxies = (same s).1 ∙ t.proxies;
      reported = (same s).2 ∙ t.reported;
    };
  }
