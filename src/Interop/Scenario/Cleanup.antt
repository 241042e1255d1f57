-- ===== src/Interop/Scenario/Cleanup.antt =====
-- What `clean_up` asks for: every client and every proxy is closed, then the server is stopped.
pub mod Sure
pub mod Outcome
use wu_kong_easy_sdk_csharp.Common.{
  ℕ, String, Bool, true, false, List, [], ◌∷◌, ◌++◌, map, map-append, append_assoc, append-nil, ◌≡◌,
  refl, sym, ap, ◌∙◌,
}
use wu_kong_easy_sdk_csharp.Python.Result.{Exc, Result, ok, err}
use wu_kong_easy_sdk_csharp.Python.Coroutine.{History, followed_by}
use wu_kong_easy_sdk_csharp.Python.Coroutine.Script.{Script, give, look_up, call, each, ◌>>=◌, ◌>>◌}
use wu_kong_easy_sdk_csharp.Python.Coroutine.Ensures.{Ensures}
use wu_kong_easy_sdk_csharp.Python.Coroutine.Leads.{
  Assertion, After, Leads, Leads-bind, Leads-weaken, Keeps-give,
}
use wu_kong_easy_sdk_csharp.Interop.Scenario.{Call, Answer, Client, Local}
use wu_kong_easy_sdk_csharp.Interop.Scenario.Calls.{
  close_client, close_proxy, stop_server, close_log,
}
use wu_kong_easy_sdk_csharp.Interop.Scenario.Scenarios.{clean_up}
use wu_kong_easy_sdk_csharp.Python.Coroutine.Asks.{made, made_same, Asks}
use wu_kong_easy_sdk_csharp.Interop.Scenario.Tracked.{new_clients, new_proxies}
use mathlib.Core.Path.{subst}

abbrev pub asked : History Answer → List Call
asked h = map (λ e. e.0) h

-- A call of `clean_up` that raises.
abbrev pub raises : (c : Call) → Answer c → Bool
raises (Call.close_client client) (err e) = true
raises (Call.close_proxy proxy) (err e) = true
raises (Call.stop_server crash) (err e) = true
raises c r = false

-- The history ends with such a call.
pub record Interrupted (h : History Answer) : Type 0 where
  pub before : History Answer
  pub last : Call
  pub answer : Answer last
  pub raised : raises last answer ≡ true
  pub history : h ≡ before ++ ((last, answer) ∷ [])

-- `clean_up` has begun after h0 with the variables s0, and has asked for the calls of `closing`.
pub record Closing (h0 : History Answer) (s0 : Local) (closing : List Call) (h : History Answer)
    (s : Local) : Type 0 where
  pub same : s ≡ s0
  pub calls : asked h ≡ asked h0 ++ closing
  pub clients : made new_clients h ≡ made new_clients h0
  pub proxies : made new_proxies h ≡ made new_proxies h0

pub record Broken (s0 : Local) (h : History Answer) (s : Local) : Type 0 where
  pub same : s ≡ s0
  pub interrupted : Interrupted h

module _ {h0 : History Answer} {s0 : Local} where
  Closing-call :
      (closing : List Call) (h : History Answer) (s : Local) (c : Call) (r : Answer c)
      → new_clients c r ≡ []
      → new_proxies c r ≡ []
      → Closing h0 s0 closing h s
      → Closing h0 s0 (closing ++ (c ∷ [])) (h ++ ((c, r) ∷ [])) s
  Closing-call closing h s c r nc np k = record {
    same = k.same;
    calls =
        map-append (λ e. e.0) h ((c, r) ∷ [])
        ∙ ap (λ cs. cs ++ (c ∷ [])) k.calls
        ∙ append_assoc (asked h0) closing (c ∷ []);
    clients = made_same new_clients h c r nc ∙ k.clients;
    proxies = made_same new_proxies h c r np ∙ k.proxies;
  }

  closed :
      (closing : List Call) (h : History Answer) (s : Local) (c : Call) (r : Answer c)
      → new_clients c r ≡ []
      → new_proxies c r ≡ []
      → Closing h0 s0 closing h s
      → (end : Result (Unit {0})) → ((e : Exc) → end ≡ err e → raises c r ≡ true)
      → After (Closing h0 s0 (closing ++ (c ∷ []))) (Broken s0) (h ++ ((c, r) ∷ [])) (end, s)
  closed closing h s c r nc np k (ok u) f = Closing-call closing h s c r nc np k
  closed closing h s c r nc np k (err e) f = record {
    same = k.same;
    interrupted = record { before = h; last = c; answer = r; raised = f e refl; history = refl };
  }

-- A call that closes: it is the next of the list, or raises.
abbrev Closes : History Answer → Local → Call → Script Answer Local (Unit {0}) → Type 0
Closes h0 s0 c m =
    (closing : List Call)
    → Leads (Closing h0 s0 closing) m (Closing h0 s0 (closing ++ (c ∷ []))) (Broken s0)

module _ (h0 : History Answer) (s0 : Local) where
  close_client-Closes :
      (client : ℕ) → Closes h0 s0 (Call.close_client client) (call (close_client client))
  unfolding close_client call followed_by Ensures
  close_client-Closes client closing = record {
    at = λ h s k r.
        closed closing h s (Call.close_client client) r refl refl k r
          (λ e p. ap (raises (Call.close_client client)) p);
  }

  close_proxy-Closes :
      (proxy : ℕ) → Closes h0 s0 (Call.close_proxy proxy) (call (close_proxy proxy))
  unfolding close_proxy call followed_by Ensures
  close_proxy-Closes proxy closing = record {
    at = λ h s k r.
        closed closing h s (Call.close_proxy proxy) r refl refl k r
          (λ e p. ap (raises (Call.close_proxy proxy)) p);
  }

  stop_server-Closes :
      (crash : Bool) → Closes h0 s0 (Call.stop_server crash) (call (stop_server crash))
  unfolding stop_server call followed_by Ensures
  stop_server-Closes crash closing = record {
    at = λ h s k r.
        closed closing h s (Call.stop_server crash) r refl refl k r
          (λ e p. ap (raises (Call.stop_server crash)) p);
  }

  close_log-Closes : Closes h0 s0 Call.close_log (call close_log)
  unfolding close_log call followed_by Ensures
  close_log-Closes closing = record {
    at = λ h s k r. Closing-call closing h s Call.close_log r refl refl k;
  }

  Closing-eq :
      {xs ys : List Call}
      → xs ≡ ys
      → (h : History Answer) (s : Local) → Closing h0 s0 xs h s
      → Closing h0 s0 ys h s
  Closing-eq e h s k = record {
    same = k.same;
    calls = k.calls ∙ ap (λ cs. asked h0 ++ cs) e;
    clients = k.clients;
    proxies = k.proxies;
  }

  each-Closes :
      {A : Type 0} (f : A → Script Answer Local (Unit {0})) (c : A → Call)
      → ((a : A) → Closes h0 s0 (c a) (f a))
      → (xs : List A) (closing : List Call)
      → Leads (Closing h0 s0 closing) (each f xs) (Closing h0 s0 (closing ++ map c xs)) (Broken s0)
  unfolding each give Ensures
  each-Closes f c k [] closing = record {
    at = λ h s t. Closing-eq (sym (append-nil closing)) h s t;
  }
  each-Closes f c k (x ∷ xs) closing = Leads-bind (f x) _ (k x closing) (λ u.
      Leads-weaken (each f xs) (Closing-eq (append_assoc closing (c x ∷ []) (map c xs)))
        (λ h s t. t) (each-Closes f c k xs (closing ++ (c x ∷ []))))

  -- What is read while the variables are those at the beginning.
  look_up-Closing :
      {A B : Type 0} {R E : Assertion Answer Local} (closing : List Call) (f : Local → A)
      (rest : A → Script Answer Local B)
      → Leads (Closing h0 s0 closing) (rest (f s0)) R E
      → Leads (Closing h0 s0 closing) (look_up f >>= rest) R E
  unfolding look_up ◌>>=◌ followed_by
  look_up-Closing {R = R} {E = E} closing f rest l = record {
    at = λ h s k. subst (λ v. Ensures (After R E) h (rest (f v) s)) (sym k.same) (l.at h s k);
  }

-- What `clean_up` asks for when nothing raises.
abbrev pub closing_calls : (clients proxies : List ℕ) → List Call
closing_calls clients proxies =
    map Call.close_client clients
    ++ (map Call.close_proxy proxies ++ (Call.stop_server false ∷ Call.close_log ∷ []))

of_handles :
    (cs : List Client)
    → map (λ c. Call.close_client c.handle) cs ≡ map Call.close_client (map (λ c. c.handle) cs)
of_handles [] = refl
of_handles (c ∷ cs) = ap (λ xs. Call.close_client c.handle ∷ xs) (of_handles cs)

pub clean_up-Closing :
    (h0 : History Answer) (s0 : Local)
    → Leads
        (Closing h0 s0 [])
        clean_up
        (Closing h0 s0 (closing_calls (map (λ c. c.handle) s0.actors) s0.proxies))
        (Broken s0)
unfolding clean_up
clean_up-Closing h0 s0 =
    look_up-Closing h0 s0 [] (λ s. s.actors) _
      (Leads-bind _ _
        (each-Closes h0 s0 _ (λ c. Call.close_client c.handle)
          (λ c. close_client-Closes h0 s0 c.handle) s0.actors [])
        (λ a.
          look_up-Closing h0 s0 _ (λ s. s.proxies) _
            (Leads-bind _ _
              (each-Closes h0 s0 _ Call.close_proxy (close_proxy-Closes h0 s0) s0.proxies _)
              (λ b. Leads-bind _ _ (stop_server-Closes h0 s0 false _) (λ c.
                Leads-weaken _ (Closing-eq h0 s0 (simp (append_assoc, of_handles s0.actors)))
                  (λ h s t. t) (close_log-Closes h0 s0 _))))))
