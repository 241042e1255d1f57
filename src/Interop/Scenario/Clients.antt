-- ===== src/Interop/Scenario/Clients.antt =====
-- The functions `actor`, `exchange` and `pair` of `scenarios`.
use wu_kong_easy_sdk_csharp.Common.{
  ℕ, String, Bool, true, not, ◌&&◌, Option, none, some, [], ◌∷◌, ◌++◌, str_eq, if◌then◌else◌,
}
use wu_kong_easy_sdk_csharp.Python.Result.{assertion_error, Result, ok, err}
use wu_kong_easy_sdk_csharp.Python.Int.{pos}
use wu_kong_easy_sdk_csharp.Python.Text.{Unicode}
use wu_kong_easy_sdk_csharp.Python.Json.{Json, int, str, obj, Fields, end, field}
use wu_kong_easy_sdk_csharp.Python.Coroutine.{Coroutine, followed_by, gather, done}
use wu_kong_easy_sdk_csharp.Python.Coroutine.Script.{
  Script, give, ◌>>=◌, ◌>>◌, assign, raise_when, from_result, call,
}
use wu_kong_easy_sdk_csharp.Interop.Exchange.{index, verify_exchange}
use wu_kong_easy_sdk_csharp.Interop.Actor.{succeeds}
use wu_kong_easy_sdk_csharp.Interop.Scenario.{Answer, Client, Local, truthy, as_dict, send}
use wu_kong_easy_sdk_csharp.Interop.Scenario.Calls.{start_proxy, spawn, command, event, uuid}
use Prim.Native.String.{◌++◌ as join}

-- The fixture's transport is browser-wss, and whether there is a trust store.
pub record Fixture : Type 0 where
  pub browser : Bool
  pub trust : Bool

-- not runtime['secureContext'] or not runtime['certificateValidation']
unfoldable pub invalid_page : Fields → Result Bool
invalid_page runtime = elim (index runtime "secureContext") [
  | err e ↦ err e
  | ok secure ↦
      if truthy secure
      then elim (index runtime "certificateValidation") [
        | err e ↦ err e
        | ok v ↦ ok (not (truthy v))
      ]
      else ok true
]

unfoldable pub open_proxy : Option String → Script Answer Local ℕ
open_proxy certificate = do
  proxy ← call (start_proxy certificate)
  assign (λ s. record s { proxies = s.proxies ++ (proxy ∷ []) })
  give proxy

abbrev pub client_of : (name uid : String) → ℕ → Client
client_of name uid handle = record { handle = handle; name = name; uid = uid }

unfoldable pub open_client :
    (name language uid token : String) (proxy : ℕ) → Script Answer Local Client
open_client name language uid token proxy = do
  handle ← call (spawn language uid token proxy)
  let client = client_of name uid handle
  assign (λ s. record s { actors = s.actors ++ (client ∷ []) })
  give client

unfoldable pub check_page : Client → Script Answer Local (Unit {0})
check_page client = do
  runtime ← call (event client.handle "runtime" 0 none)
  invalid ← from_result (invalid_page runtime)
  raise_when invalid (assertion_error "Browser page did not pass normal HTTPS validation")
  assign (λ s. record s { report = record s.report { browser = some (obj runtime) } })

module _ (x : Fixture) where
  unfoldable pub actor :
      (name language uid token certificate : String) → Script Answer Local (Client × ℕ)
  actor name language uid token certificate = do
    proxy ← open_proxy (if x.trust then some certificate else none)
    client ← open_client name language uid token proxy
    if str_eq language "js" && x.browser then check_page client else give tt
    give (client, proxy)

module _ (u : Unicode) where
  -- `exchange` has no variables that are shared.
  unfoldable pub exchange : (sender receiver : Client) → Json → Script Answer (Unit {0}) (Unit {0})
  exchange sender receiver payload = do
    correlation ← call uuid
    ack ← call (command sender.handle (send receiver.uid payload correlation) succeeds)
    message ← call (event receiver.handle "message" 0 (some correlation))
    fields ← from_result (as_dict ack)
    from_result (verify_exchange u fields message sender.uid payload correlation)

  -- One exchange as a coroutine of its own.
  unfoldable pub exchanging :
      (sender receiver : Client) → Json → Coroutine Answer (Result (Unit {0}))
  exchanging sender receiver payload =
      followed_by (exchange sender receiver payload tt) (λ last. done last.0)

  abbrev pub greeting : (text label : String) → Json
  greeting text label =
      obj (field "type" (int (pos 1)) (field "content" (str (join text label)) end))

  unfoldable pub pair : (csharp js : Client) → String → Script Answer Local (Unit {0})
  pair csharp js label = call (
      gather (exchanging csharp js (greeting "C# → JS 中文 👩🏽\u{200d}💻 " label))
        (exchanging js csharp (greeting "JS → C# 你好 🌍 " label)))
