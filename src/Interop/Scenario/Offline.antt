-- ===== src/Interop/Scenario/Offline.antt =====
-- What the passed check of a manual disconnect in `scenarios` has seen.
use wu_kong_easy_sdk_csharp.Common.{
  ℕ, String, Bool, true, false, not, ◌==◌, ◌≡◌, refl, sym, ◌∙◌, false≢true, ◌⊎◌, inl, inr,
}
use mathlib.Core.Path.{subst}
use wu_kong_easy_sdk_csharp.Python.Result.{ok}
use wu_kong_easy_sdk_csharp.Python.Json.{Json}
use wu_kong_easy_sdk_csharp.Python.Coroutine.{History, World, run, followed_by}
use wu_kong_easy_sdk_csharp.Python.Coroutine.Script.{call}
use wu_kong_easy_sdk_csharp.Python.Coroutine.Ensures.{Ensures}
use wu_kong_easy_sdk_csharp.Python.Coroutine.Leads.{Assertion}
use wu_kong_easy_sdk_csharp.Python.Coroutine.Gives.{
  Found, Gives, Gives-weaken, Gives-bind, Gives-give, Gives-raise_when, Asked, run-Gives,
}
use wu_kong_easy_sdk_csharp.Interop.Actor.{rejected}
use wu_kong_easy_sdk_csharp.Interop.Scenario.{Call, Answer, Client, Local}
use wu_kong_easy_sdk_csharp.Interop.Scenario.Readings.{
  State, Gives-command, Gives-is_connected, Gives-has_counted, Gives-has_attempted, Gives-or_else,
  same_count,
}
use wu_kong_easy_sdk_csharp.Interop.Scenario.Faults.{check_offline}
use wu_kong_easy_sdk_csharp.Interop.Scenario.Refused.{Any}
use wu_kong_easy_sdk_csharp.Python.Json.{int, field, end, obj}
use wu_kong_easy_sdk_csharp.Python.Int.{pos}
use wu_kong_easy_sdk_csharp.Interop.Scenario.{send}
use wu_kong_easy_sdk_csharp.Interop.Scenario.Calls.{uuid}

-- The readings of a client that is not connected, has tried no more and retried no more than before.
abbrev pub Still : Client → (proxy previous retries : ℕ) → Assertion Answer Local
Still client proxy previous retries =
    Asked (Asked (State Any client false) (Call.attempts proxy) previous)
      (Call.count client.handle "reconnecting") retries

-- After them a message was refused.
pub record StaysOffline (client : Client) (proxy previous retries : ℕ) (h : History Answer)
    (s : Local) : Type 0 where
  pub number : String
  pub rejection : Json
  pub asked :
      Asked
        (Asked (Still client proxy previous retries) Call.uuid number)
        (Call.command client.handle
          (send "offline-target" (obj (field "type" (int (pos 1)) end)) number)
          rejected)
        (ok rejection)
        h
        s

settle_Still :
    (client : Client) (proxy previous retries : ℕ) (bad : Bool) (h : History Answer) (s : Local)
    → bad ≡ false
    → (bad ≡ true)
      ⊎ ((bad ≡ true)
          ⊎ ((n : ℕ) × Asked
                (λ h s.
                  (m : ℕ) × Asked (State Any client false) (Call.attempts proxy) m h s
                  × (false ≡ not (m == previous)))
                (Call.count client.handle "reconnecting")
                n
                h
                s
              × (bad ≡ not (n == retries))))
    → Still client proxy previous retries h s
settle_Still client proxy previous retries bad h s f (inl e) = absurd (false≢true (sym f ∙ e))
settle_Still client proxy previous retries bad h s f (inr (inl e)) = absurd (false≢true (sym f ∙ e))
settle_Still client proxy previous retries bad h s f (inr (inr (n, a, e))) =
    let (m, b, d) = a.held in
    subst
      (λ k.
        Asked (Asked (State Any client false) (Call.attempts proxy) previous)
          (Call.count client.handle "reconnecting") k h s)
      (same_count n retries bad f e)
      (record {
        before = a.before;
        held =
            subst (λ k. Asked (State Any client false) (Call.attempts proxy) k a.before s)
              (same_count m previous false refl d) b;
        history = a.history;
      })

Gives-uuid : {P : Assertion Answer Local} → Gives P (call uuid) (λ n h s. Asked P Call.uuid n h s)
unfolding uuid call followed_by Ensures
Gives-uuid = record { at = λ h s p r. record { before = h; held = p; history = refl } }

check_offline-StaysOffline :
    (client : Client) (proxy previous retries : ℕ)
    → Gives Any
        (check_offline (client, proxy, previous, retries))
        (λ u. StaysOffline client proxy previous retries)
unfolding check_offline
check_offline-StaysOffline client proxy previous retries =
    Gives-bind _ _
      (Gives-or_else _ _ (Gives-is_connected Any client) (
        Gives-or_else _ _ (Gives-has_attempted (State Any client false) proxy previous)
          (Gives-has_counted _ client "reconnecting" retries)))
      (λ bad. Gives-bind _ _ (Gives-raise_when bad _) (λ u. Gives-bind _ _ Gives-uuid (λ number.
        Gives-bind _ _ (Gives-command client.handle _ rejected) (λ rejection.
          Gives-weaken _
            (λ v h s (a, e). record {
              number = number;
              rejection = rejection;
              asked = record {
                before = a.before;
                held = record {
                  before = a.held.before;
                  held =
                      settle_Still client proxy previous retries bad a.held.before s a.held.held.1
                        a.held.held.0;
                  history = a.held.history;
                };
                history = a.history;
              };
            })
            (Gives-give tt)))))

-- If the check of a client that was disconnected by hand returns, its last calls were these: the client
-- was not connected, its proxy had seen the attempts from before the wait and no more, it had begun to
-- reconnect as often as before and no more, and a message that it was to send was refused.
pub check_offline_sound :
    (client : Client) (proxy previous retries : ℕ) (w : World Answer) (h h' : History Answer)
    (s s' : Local)
    → run w h (check_offline (client, proxy, previous, retries) s) ≡ ((ok tt, s'), h')
    → StaysOffline client proxy previous retries h' s'
check_offline_sound client proxy previous retries w h h' s s' e =
    subst (λ end. Found (λ u. StaysOffline client proxy previous retries) end.1 end.0) e
      (run-Gives (check_offline (client, proxy, previous, retries))
        (check_offline-StaysOffline client proxy previous retries) w h s tt)
