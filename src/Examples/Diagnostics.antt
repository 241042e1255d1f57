-- ===== src/Examples/Diagnostics.antt =====
-- A log line with a token in it, and a value that is cut inside a token.
use wu_kong_easy_sdk_csharp.Common.{
  ℕ, zero, suc, ◌≤◌, List, [], ◌∷◌, ◌++◌, length, codes, All, ◌≡◌, refl, false,
}
use wu_kong_easy_sdk_csharp.Python.Result.{Result, ok}
use wu_kong_easy_sdk_csharp.Python.Json.{Json, str, obj, end, field}
use wu_kong_easy_sdk_csharp.Python.Text.Search.{Text}
use wu_kong_easy_sdk_csharp.Python.Text.Replace.{occurs}
use wu_kong_easy_sdk_csharp.Cluster.Diagnostics.{redact, plan_failures, send_errors}
use wu_kong_easy_sdk_csharp.Cluster.Diagnostics.Redacted.{IsToken, redact_clears}
use wu_kong_easy_sdk_csharp.Cluster.Diagnostics.Bounded.{SafeItem}
use wu_kong_easy_sdk_csharp.Cluster.Diagnostics.Samples.{plan_failures_safe, send_errors_safe}

abbrev repeat : ℕ → ℕ → Text
repeat zero c = []
repeat (suc n) c = c ∷ repeat n c

abbrev token : Text
token = repeat 48 b'a'

abbrev tokens : List Text
tokens = token ∷ []

tokens_ok : All IsToken tokens
tokens_ok = ((refl, refl), tt)

abbrev value : Text
value = codes "token " ++ (token ++ codes " refused")

redact_clears_example : All (λ t. occurs (redact tokens value) t ≡ false) tokens
redact_clears_example = redact_clears tokens value tokens_ok

abbrev loads : Text → Result Json
loads t = ok (
    obj (field "uid" (str "bob") (field "clientMsgNo" (str "n1") (field "error" (str "late") end))))

abbrev show : Json → Text
show (str s) = value ++ codes s
show _ = []

abbrev log : List Text
log =
    codes "node started"
    ∷ codes "online delivery plan incomplete {}"
    ∷ codes "gateway send failed {}"
    ∷ []

plan_failures_safe_example :
    let items = (plan_failures loads show tokens ("bob" ∷ []) [] log).0 in
    (length items ≤ 8) × All (SafeItem tokens) items
plan_failures_safe_example = plan_failures_safe loads show tokens ("bob" ∷ []) tokens_ok log

send_errors_safe_example :
    let items = (send_errors loads show tokens ("bob" ∷ []) (str "n1") [] log).0 in
    (length items ≤ 4) × All (SafeItem tokens) items
send_errors_safe_example = send_errors_safe loads show tokens ("bob" ∷ []) tokens_ok (str "n1") log

abbrev before : Text
before = repeat 500 b' '
