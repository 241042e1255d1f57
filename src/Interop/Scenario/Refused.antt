-- ===== src/Interop/Scenario/Refused.antt =====
-- What a passed stage of `scenarios` with an invalid token has seen.
use wu_kong_easy_sdk_csharp.Common.{
  ℕ, String, Bool, true, false, not, ◌==◌, ◌≡◌, refl, sym, ◌∙◌, false≢true, ◌⊎◌, inl, inr,
}
use mathlib.Core.Path.{subst}
use wu_kong_easy_sdk_csharp.Python.Result.{assertion_error, ok}
use wu_kong_easy_sdk_csharp.Python.Json.{Json, Fields}
use wu_kong_easy_sdk_csharp.Python.Coroutine.{History, World, run}
use wu_kong_easy_sdk_csharp.Python.Coroutine.Script.{
  Script, ◌>>=◌, ◌>>◌, call, from_result, raise_when,
}
use wu_kong_easy_sdk_csharp.Python.Coroutine.Leads.{Assertion}
use wu_kong_easy_sdk_csharp.Python.Coroutine.Gives.{
  Found, Gives, Gives-weaken, Gives-bind, Gives-any, Gives-from_result, Gives-raise_when, Asked,
  run-Gives,
}
use wu_kong_easy_sdk_csharp.Interop.Actor.{rejected}
use wu_kong_easy_sdk_csharp.Interop.Scenario.{Call, Answer, Client, Local, connect, as_dict}
use wu_kong_easy_sdk_csharp.Interop.Scenario.Calls.{command, close_client, sleep}
use wu_kong_easy_sdk_csharp.Interop.Scenario.Readings.{
  State, Gives-command, Gives-sleep, Gives-close_client, Gives-is_connected, Gives-has_counted,
  Gives-has_attempted, Gives-or_else, same_count,
}
use wu_kong_easy_sdk_csharp.Interop.Scenario.Clients.{Fixture}
use wu_kong_easy_sdk_csharp.Interop.Scenario.Made.{Made, certificate_of, Gives-actor}
use wu_kong_easy_sdk_csharp.Interop.Scenario.Stages.{
  is_connected, or_else, has_counted, has_attempted, check_rejection, reject_token,
}

abbrev pub Any : Assertion Answer Local
Any h s = Unit

-- The client of this language and user has been started with the invalid token and goes through the
-- proxy, which was started just before it.
abbrev pub Opened : Fixture → String → String → Client → ℕ → Assertion Answer Local
Opened x language uid client proxy h s =
    Made (certificate_of x "server") language uid "fixture-invalid-token" client proxy h

-- Such a client whose `connect` was rejected as its language has it, and that was then left alone.
pub record Waited (x : Fixture) (language uid : String) (client : Client) (proxy : ℕ)
    (h : History Answer) (s : Local) : Type 0 where
  pub reply : Json
  pub rejection : Fields
  pub is_dict : as_dict reply ≡ ok rejection
  pub is_rejection : check_rejection language rejection ≡ ok tt
  pub asked :
      Asked
        (Asked
          (Opened x language uid client proxy)
          (Call.command client.handle connect rejected)
          (ok reply))
        (Call.sleep 1300)
        (ok tt)
        h
        s

-- After that it is not connected, it has not begun to reconnect, and its proxy has seen one attempt.
abbrev pub Silent : Fixture → String → String → Client → ℕ → Assertion Answer Local
Silent x language uid client proxy =
    Asked
      (Asked (State (Waited x language uid client proxy) client false)
        (Call.count client.handle "reconnecting") 0)
      (Call.attempts proxy) 1

pub record Refused (x : Fixture) (language uid : String) (h : History Answer) (s : Local)
    : Type 0 where
  pub client : Client
  pub proxy : ℕ
  pub asked :
      Asked (Silent x language uid client proxy) (Call.close_client client.handle) (ok tt) h s

Gives-Waited :
    {A : Type 0} {R : A → Assertion Answer Local} (x : Fixture) (language uid : String)
    (client : Client) (proxy : ℕ) (m : Script Answer Local A)
    → Gives (Waited x language uid client proxy) m R
    → Gives
        (Opened x language uid client proxy)
        (call (command client.handle connect rejected) >>= (λ v.
          from_result (as_dict v) >>= (λ rejection.
            from_result (check_rejection language rejection) >> (call (sleep 1300) >> m))))
        R
Gives-Waited x language uid client proxy m k =
    Gives-bind _ _ (Gives-command client.handle connect rejected) (λ v.
      Gives-bind _ _ (Gives-from_result (as_dict v)) (λ rejection.
        Gives-bind _ _ (Gives-from_result (check_rejection language rejection)) (λ u.
          Gives-bind _ _ (Gives-sleep 1300) (λ n. record {
            at = λ h s a. k.at h s (record {
              reply = v;
              rejection = rejection;
              is_dict = a.held.0.1;
              is_rejection = a.held.1;
              asked = record { before = a.before; held = a.held.0.0; history = a.history };
            });
          }))))

-- What the last reading has found, when none of the three was bad.
settle_Silent :
    (x : Fixture) (language uid : String) (client : Client) (proxy : ℕ) (bad : Bool)
    (h : History Answer) (s : Local)
    → bad ≡ false
    → (bad ≡ true)
      ⊎ ((bad ≡ true)
          ⊎ ((n : ℕ) × Asked
                (λ h s.
                  (m : ℕ) × Asked
                    (State (Waited x language uid client proxy) client false)
                    (Call.count client.handle "reconnecting")
                    m
                    h
                    s
                  × (false ≡ not (m == 0)))
                (Call.attempts proxy)
                n
                h
                s
              × (bad ≡ not (n == 1))))
    → Silent x language uid client proxy h s
settle_Silent x language uid client proxy bad h s f (inl e) = absurd (false≢true (sym f ∙ e))
settle_Silent x language uid client proxy bad h s f (inr (inl e)) = absurd (false≢true (sym f ∙ e))
settle_Silent x language uid client proxy bad h s f (inr (inr (n, a, e))) =
    let (m, b, d) = a.held in
    subst
      (λ k.
        Asked
          (Asked (State (Waited x language uid client proxy) client false)
            (Call.count client.handle "reconnecting") 0)
          (Call.attempts proxy) k h s)
      (same_count n 1 bad f e)
      (record {
        before = a.before;
        held =
            subst
              (λ k.
                Asked (State (Waited x language uid client proxy) client false)
                  (Call.count client.handle "reconnecting") k a.before s)
              (same_count m 0 false refl d) b;
        history = a.history;
      })

-- The three readings, of which the first that is not as expected ends the stage.
Gives-Silent :
    (x : Fixture) (language uid : String) (client : Client) (proxy : ℕ)
    → Gives
        (Waited x language uid client proxy)
        (or_else
            (is_connected client)
            (or_else (has_counted client "reconnecting" 0) (has_attempted proxy 1))
          >>= (λ bad.
              raise_when bad (assertion_error "Invalid-token client connected or retried")
              >> call (close_client client.handle)))
        (λ u h s. Refused x language uid h s)
Gives-Silent x language uid client proxy =
    Gives-bind _ _
      (Gives-or_else _ _ (Gives-is_connected (Waited x language uid client proxy) client) (
        Gives-or_else _ _
          (Gives-has_counted (State (Waited x language uid client proxy) client false) client
            "reconnecting" 0)
          (Gives-has_attempted _ proxy 1)))
      (λ bad. Gives-bind _ _ (Gives-raise_when bad _) (λ u.
        Gives-weaken _
          (λ v h s a. record {
            client = client;
            proxy = proxy;
            asked = record {
              before = a.before;
              held = settle_Silent x language uid client proxy bad a.before s a.held.1 a.held.0;
              history = a.history;
            };
          })
          (Gives-close_client client.handle)))

reject_token-Refused :
    (x : Fixture) (language uid : String)
    → Gives Any (reject_token x (language, uid)) (λ u. Refused x language uid)
unfolding reject_token
reject_token-Refused x language uid = Gives-bind _ _ (Gives-any _) (λ a.
    Gives-bind _ _ (Gives-actor x _ language uid "fixture-invalid-token" "server") (λ made.
      Gives-Waited x language uid made.0 made.1 _ (Gives-Silent x language uid made.0 made.1)))

-- If the stage with the invalid token returns, it has started a proxy and through it a client of the
-- language and user with that token; its last calls were these: the client's command to connect was
-- rejected in the way of its language, 1.3 seconds later the client was not connected, it had not
-- begun to reconnect and that proxy had seen one attempt, and the client was closed.
pub reject_token_sound :
    (x : Fixture) (language uid : String) (w : World Answer) (h h' : History Answer) (s s' : Local)
    → run w h (reject_token x (language, uid) s) ≡ ((ok tt, s'), h')
    → Refused x language uid h' s'
reject_token_sound x language uid w h h' s s' e =
    subst (λ end. Found (λ u. Refused x language uid) end.1 end.0) e
      (run-Gives (reject_token x (language, uid)) (reject_token-Refused x language uid) w h s tt)
