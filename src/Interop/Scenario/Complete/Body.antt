-- ===== src/Interop/Scenario/Complete/Body.antt =====
-- The `try` of `scenarios` reports the cases in order, and all of them if it comes through.
use wu_kong_easy_sdk_csharp.Common.{
  ℕ, String, Bool, true, false, List, [], ◌∷◌, refl, ◌+◌, if◌then◌else◌,
}
use wu_kong_easy_sdk_csharp.Python.Text.{Unicode}
use wu_kong_easy_sdk_csharp.Python.Coroutine.Script.{◌>>=◌, ◌>>◌, give}
use wu_kong_easy_sdk_csharp.Python.Coroutine.Leads.{Leads, Leads-bind, Leads-weaken, Keeps-give}
use wu_kong_easy_sdk_csharp.Interop.Scenario.Clients.{Fixture}
use wu_kong_easy_sdk_csharp.Interop.Scenario.Stages.{Peers, Stage, initial, invalid_tokens}
use wu_kong_easy_sdk_csharp.Interop.Scenario.Certificates.{reject_certificates}
use wu_kong_easy_sdk_csharp.Interop.Scenario.Faults.{
  recover_network, restart_server, disconnect_manually,
}
use wu_kong_easy_sdk_csharp.Interop.Scenario.Scenarios.{open_peers, body}
use wu_kong_easy_sdk_csharp.Interop.Scenario.Tracked.{Tracked, Keeps-assign}
use wu_kong_easy_sdk_csharp.Interop.Scenario.Kept.{keeps_rules}
use wu_kong_easy_sdk_csharp.Interop.Scenario.Kept.Stages.{Keeps-open_peers}
use wu_kong_easy_sdk_csharp.Interop.Scenario.Complete.{
  Ended, Completed, Stage-step, initial-Through, invalid_tokens-Through, recover_network-Through,
  restart_server-Through, reject_certificates-Through, disconnect_manually-Completed,
}

-- The cases of a run with every client, in the order of the stages.
abbrev pub messaging_cases : List String
messaging_cases =
    "bidirectional Unicode/custom payload and exact SENDACK/RECV correlation"
    ∷ "both SDKs reject invalid Token without reconnect"
    ∷ "automatic reconnect after interrupted network and one failed retry"
    ∷ "automatic reconnect and bidirectional messages after real server crash/restart"
    ∷ "manual disconnect stops reconnect, rejects offline SEND, and allows explicit reconnect" ∷ []

abbrev pub all_cases : (trust : Bool) → List String
all_cases true =
    "C# and Chromium reject untrusted CA and mismatched host certificates" ∷ messaging_cases
all_cases false = messaging_cases

-- The cases before those of messaging.
abbrev pub first_case : (trust : Bool) → ℕ
first_case true = 1
first_case false = 0

certificates :
    (trust : Bool) (x : Fixture) (c j : String)
    → Leads
        (Tracked (all_cases trust) 0)
        (if trust then reject_certificates x c j else give tt)
        (Tracked (all_cases trust) (first_case trust))
        (Ended (all_cases trust))
certificates true x c j = reject_certificates-Through x c j refl
certificates false x c j =
    Leads-weaken _ (λ h s t. t) (λ h s t. record { number = 0; tracked = t }) (Keeps-give tt)

-- The stages of messaging, from the opening of the clients on.
abbrev stages : Unicode → Fixture → Peers → Stage
stages u x p =
    initial u p
    >> (invalid_tokens x
        >> (recover_network u p >> (restart_server u p >> disconnect_manually u p)))

stages-Completed :
    (trust : Bool) (u : Unicode) (x : Fixture) (p : Peers)
    → Leads
        (Tracked (all_cases trust) (first_case trust))
        (stages u x p)
        (Completed (all_cases trust) (5 + first_case trust))
        (Ended (all_cases trust))
stages-Completed true u x p = Leads-bind _ _ (initial-Through u p refl) (λ a.
    Leads-bind _ _ (invalid_tokens-Through x refl) (λ b.
      Leads-bind _ _ (recover_network-Through u p refl) (λ c.
        Leads-bind _ _ (restart_server-Through u p refl)
          (λ d. disconnect_manually-Completed u p refl))))
stages-Completed false u x p = Leads-bind _ _ (initial-Through u p refl) (λ a.
    Leads-bind _ _ (invalid_tokens-Through x refl) (λ b.
      Leads-bind _ _ (recover_network-Through u p refl) (λ c.
        Leads-bind _ _ (restart_server-Through u p refl)
          (λ d. disconnect_manually-Completed u p refl))))

after_tokens :
    (trust : Bool) (u : Unicode) (x : Fixture) (c j : String)
    → Leads
        (Tracked (all_cases trust) 0)
        ((if trust then reject_certificates x c j else give tt)
          >> (open_peers x c j >>= stages u x))
        (Completed (all_cases trust) (5 + first_case trust))
        (Ended (all_cases trust))
after_tokens trust u x c j =
    Leads-bind _ _ (certificates trust x c j)
      (λ nothing. Stage-step _ _ (Keeps-open_peers x c j) (stages-Completed trust u x))

pub body-Completed :
    (u : Unicode) (x : Fixture)
    → Leads
        (Tracked (all_cases x.trust) 0)
        (body u x)
        (Completed (all_cases x.trust) (5 + first_case x.trust))
        (Ended (all_cases x.trust))
unfolding body
body-Completed u x = Stage-step _ _ (search (keeps_rules, Keeps-assign)) (λ a.
    Stage-step _ _ (search keeps_rules) (λ b. Stage-step _ _ (search keeps_rules) (λ c.
      Stage-step _ _ (search keeps_rules) (λ j.
        Stage-step _ _ (search keeps_rules)
          (λ d. Stage-step _ _ (search keeps_rules) (λ e. after_tokens x.trust u x c j))))))
