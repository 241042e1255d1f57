-- ===== src/Interop/Scenario/Certificates.antt =====
-- The stage of `scenarios` that only a fixture with a trust store has: certificates that no client may
-- accept.
use wu_kong_easy_sdk_csharp.Common.{ℕ, String, Bool, true, not, List, [], ◌∷◌, ◌++◌, ◌==◌}
use wu_kong_easy_sdk_csharp.Python.Result.{assertion_error}
use wu_kong_easy_sdk_csharp.Python.Json.{Json}
use wu_kong_easy_sdk_csharp.Python.Coroutine.Script.{
  Script, give, ◌>>=◌, ◌>>◌, assign, raise_when, from_result, each, call,
}
use wu_kong_easy_sdk_csharp.Interop.Actor.{rejected}
use wu_kong_easy_sdk_csharp.Interop.Scenario.{
  Answer, Local, subscript, set_stage, add_case, connect,
}
use wu_kong_easy_sdk_csharp.Interop.Scenario.Calls.{command, client_bytes, close_client}
use wu_kong_easy_sdk_csharp.Interop.Scenario.Clients.{Fixture, actor}
use wu_kong_easy_sdk_csharp.Interop.Scenario.Stages.{Stage, is_connected, or_else, has_counted}
use Prim.Native.String.{◌++◌ as join}

-- One round of the loop over the certificates and the languages.
pub record Trial : Type 0 where
  pub certificate : String
  pub language : String
  pub uid : String
  pub token : String

unfoldable pub has_sent : ℕ → Script Answer Local Bool
has_sent proxy = do n ← call (client_bytes proxy); give (not (n == 0))

abbrev pub add_rejection : String × String × Json → Local → Local
add_rejection r s = record s {
  report = record s.report { certificate_rejections = s.report.certificate_rejections ++ (r ∷ []) };
}

module _ (x : Fixture) where
  unfoldable pub reject_certificate : Trial → Stage
  reject_certificate a = do
    (client, proxy) ←
        actor x (join a.language (join "-" a.certificate)) a.language a.uid a.token a.certificate
    rejection ← call (command client.handle connect rejected)
    category ← from_result (subscript rejection "category")
    assign (add_rejection (a.language, a.certificate, category))
    bad ←
        or_else (has_sent proxy) (or_else (has_counted client "connected" 0) (is_connected client))
    raise_when bad (assertion_error "Invalid certificate reached the WebSocket protocol")
    call (close_client client.handle)

  abbrev pub attempt_list : (csharp_token js_token : String) → List Trial
  attempt_list c j =
      record { certificate = "untrusted"; language = "csharp"; uid = "csharp-user"; token = c }
      ∷ record { certificate = "untrusted"; language = "js"; uid = "javascript-user"; token = j }
      ∷ record { certificate = "wrong-host"; language = "csharp"; uid = "csharp-user"; token = c }
      ∷ record { certificate = "wrong-host"; language = "js"; uid = "javascript-user"; token = j }
      ∷ []

  unfoldable pub reject_certificates : (csharp_token js_token : String) → Stage
  reject_certificates c j = do
    assign (set_stage "TLS certificate rejection")
    each reject_certificate (attempt_list c j)
    assign (add_case "C# and Chromium reject untrusted CA and mismatched host certificates")
    assign (λ s. record s { report = record s.report { tls = true } })
