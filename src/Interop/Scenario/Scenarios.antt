-- ===== src/Interop/Scenario/Scenarios.antt =====
-- `scenarios` as a whole: the stages in order, and the `finally` that ends what they have started.
use wu_kong_easy_sdk_csharp.Common.{ℕ, String, false, List, [], ◌∷◌, ◌++◌, if◌then◌else◌}
use wu_kong_easy_sdk_csharp.Python.Text.{Unicode}
use wu_kong_easy_sdk_csharp.Python.Coroutine.Script.{
  Script, give, ◌>>=◌, ◌>>◌, assign, look_up, each, call, try_finally,
}
use wu_kong_easy_sdk_csharp.Interop.Scenario.{Answer, Client, Local, set_stage}
use wu_kong_easy_sdk_csharp.Interop.Scenario.Calls.{
  start_server, close_log, stop_server, set_token, count, fixture_failures, attempts, close_proxy,
  close_client, random_token,
}
use wu_kong_easy_sdk_csharp.Interop.Scenario.Clients.{Fixture, actor}
use wu_kong_easy_sdk_csharp.Interop.Scenario.Stages.{Stage, Peers, initial, invalid_tokens}
use wu_kong_easy_sdk_csharp.Interop.Scenario.Certificates.{reject_certificates}
use wu_kong_easy_sdk_csharp.Interop.Scenario.Faults.{
  recover_network, restart_server, disconnect_manually,
}

module _ (x : Fixture) where
  unfoldable pub open_peers : (csharp_token js_token : String) → Script Answer Local Peers
  open_peers c j = do
    assign (set_stage "initial messaging")
    (csharp, csharp_proxy) ← actor x "C#" "csharp" "csharp-user" c "server"
    (js, js_proxy) ← actor x "JS" "js" "javascript-user" j "server"
    give (record { csharp = csharp; js = js; csharp_proxy = csharp_proxy; js_proxy = js_proxy })

-- The `try`.
module _ (u : Unicode) (x : Fixture) where
  unfoldable pub body : Stage
  body = do
    assign (set_stage "initial messaging")
    call start_server
    c ← call random_token
    j ← call random_token
    call (set_token "csharp-user" c)
    call (set_token "javascript-user" j)
    if x.trust then reject_certificates x c j else give tt
    p ← open_peers x c j
    initial u p
    invalid_tokens x
    recover_network u p
    restart_server u p
    disconnect_manually u p

-- [f(a) for a in items]
unfoldable pub collect :
    {A B : Type 0} → (A → Script Answer Local B) → List A → Script Answer Local (List B)
collect f [] = give []
collect f (a ∷ rest) = do b ← f a; bs ← collect f rest; give (b ∷ bs)

abbrev pub kinds : List String
kinds = "connected" ∷ "disconnected" ∷ "reconnecting" ∷ "error" ∷ "message" ∷ []

unfoldable pub count_kind : Client → String → Script Answer Local (String × ℕ)
count_kind client kind = do n ← call (count client.handle kind); give (kind, n)

unfoldable pub count_events : Client → Script Answer Local (String × List (String × ℕ))
count_events client = do counts ← collect (count_kind client) kinds; give (client.name, counts)

abbrev pub concat : {A : Type 0} → List (List A) → List A
concat [] = []
concat (xs ∷ xss) = xs ++ concat xss

-- The assignments to `report` in the `finally`.
unfoldable pub summarise : Stage
summarise = do
  clients ← look_up (λ s. s.actors)
  counts ← collect count_events clients
  assign (λ s. record s { report = record s.report { actors = counts } })
  failures ← collect (λ client. call (fixture_failures client.handle)) clients
  assign (λ s. record s { report = record s.report { fixture_failures = concat failures } })
  proxies ← look_up (λ s. s.proxies)
  numbers ← collect (λ proxy. call (attempts proxy)) proxies
  assign (λ s. record s { report = record s.report { proxy_attempts = numbers } })

unfoldable pub clean_up : Stage
clean_up = do
  clients ← look_up (λ s. s.actors)
  each (λ client. call (close_client client.handle)) clients
  proxies ← look_up (λ s. s.proxies)
  each (λ proxy. call (close_proxy proxy)) proxies
  call (stop_server false)
  call close_log

unfoldable pub scenarios : Unicode → Fixture → Stage
scenarios u x = try_finally (body u x) (summarise >> clean_up)
