-- ===== src/Interop/Scenario/Stages.antt =====
-- The stages of `scenarios` after the server is up, but the certificates.
use wu_kong_easy_sdk_csharp.Common.{
  ℕ, String, Bool, true, false, not, ◌&&◌, ◌||◌, [], ◌∷◌, ◌==◌, str_eq, if◌then◌else◌,
}
use wu_kong_easy_sdk_csharp.Python.Result.{assertion_error, Result, ok, err}
use wu_kong_easy_sdk_csharp.Python.Int.{pos}
use wu_kong_easy_sdk_csharp.Python.Text.{Unicode}
use wu_kong_easy_sdk_csharp.Python.Json.{
  Json, null, bool, int, str, arr, obj, nil, cons, Fields, end, field, get, py_eq,
}
use wu_kong_easy_sdk_csharp.Python.Coroutine.{Coroutine, followed_by, gather, done}
use wu_kong_easy_sdk_csharp.Python.Coroutine.Script.{
  Script, give, ◌>>=◌, ◌>>◌, assign, raise_when, from_result, each, call,
}
use wu_kong_easy_sdk_csharp.Interop.Actor.{succeeds, rejected}
use wu_kong_easy_sdk_csharp.Interop.Scenario.{
  Operation, Answer, Client, Local, truthy, as_dict, subscript, set_stage, add_case, connect, state,
}
use wu_kong_easy_sdk_csharp.Interop.Scenario.Calls.{command, count, attempts, close_client, sleep}
use wu_kong_easy_sdk_csharp.Interop.Scenario.Clients.{Fixture, actor, exchanging, pair}
use Prim.Native.String.{◌++◌ as join}

abbrev pub Stage : Type 0
Stage = Script Answer Local (Unit {0})

-- The clients that stay for the whole run, and their proxies.
pub record Peers : Type 0 where
  pub csharp : Client
  pub js : Client
  pub csharp_proxy : ℕ
  pub js_proxy : ℕ

-- A task whose result is not used.
abbrev pub ignore : {A : Type 0} → Result A → Coroutine Answer (Result (Unit {0}))
ignore (ok a) = done (ok tt)
ignore (err e) = done (err e)

unfoldable pub commanding : Operation → Client → Coroutine Answer (Result (Unit {0}))
commanding op client = followed_by (command client.handle op succeeds) ignore

-- asyncio.gather(csharp.command(op), js.command(op))
unfoldable pub both : Operation → Peers → Stage
both op p = call (gather (commanding op p.csharp) (commanding op p.js))

-- (await client.command("state"))["connected"]
unfoldable pub is_connected : Client → Script Answer Local Bool
is_connected client = do
  v ← call (command client.handle state succeeds)
  connected ← from_result (subscript v "connected")
  give (truthy connected)

-- `a or b`, where b is only computed if a is false
unfoldable pub or_else :
    Script Answer Local Bool → Script Answer Local Bool → Script Answer Local Bool
or_else a b = do first ← a; if first then give true else b

unfoldable pub has_counted : Client → String → ℕ → Script Answer Local Bool
has_counted client kind previous = do
  n ← call (count client.handle kind)
  give (not (n == previous))

unfoldable pub has_attempted : ℕ → ℕ → Script Answer Local Bool
has_attempted proxy previous = do n ← call (attempts proxy); give (not (n == previous))

abbrev pub custom : Json
custom = obj (
    field "type" (int (pos 9001)) (
      field "schema" (str "fixture.v1") (
        field "nested"
          (obj (
            field "emoji" (str "🧪") (
              field "enabled" (bool true) (
                field "nullable" null (
                  field "preciseId" (str "9223372036854775807") (
                    field "items"
                      (arr (cons (int (pos 1)) (cons (str "中文") (cons (bool false) nil)))) end))))))
          end)))

module _ (u : Unicode) where
  unfoldable pub initial : Peers → Stage
  initial p = do
    both connect p
    pair u p.csharp p.js "initial"
    call (exchanging u p.csharp p.js custom)
    call (exchanging u p.js p.csharp custom)
    assign (add_case "bidirectional Unicode/custom payload and exact SENDACK/RECV correlation")

-- isinstance(v, int): a bool is an int
abbrev pub is_instance_int : Json → Bool
is_instance_int (int z) = true
is_instance_int (bool b) = true
is_instance_int v = false

-- The two tests of a rejection by its client's language.
unfoldable pub check_rejection : (language : String) → Fields → Result (Unit {0})
check_rejection language rejection =
    if str_eq language "csharp"
    then elim (subscript (obj rejection) "category") [
      | err e ↦ err e
      | ok category ↦
          if py_eq category (str "WKIMAuthenticationException")
            || py_eq category (str "WKIMRpcException")
          then ok tt
          else err (assertion_error "C# invalid Token failed without an authentication rejection")
    ]
    else if str_eq language "js" && not (is_instance_int (get rejection "code"))
    then err (assertion_error "JS invalid Token failed without a server RPC rejection")
    else ok tt

module _ (x : Fixture) where
  unfoldable pub reject_token : String × String → Stage
  reject_token (language, uid) = do
    assign (set_stage (join "invalid Token (" (join language ")")))
    (client, proxy) ←
        actor x (join "invalid-" language) language uid "fixture-invalid-token" "server"
    v ← call (command client.handle connect rejected)
    rejection ← from_result (as_dict v)
    from_result (check_rejection language rejection)
    call (sleep 1300)
    bad ←
        or_else (is_connected client)
          (or_else (has_counted client "reconnecting" 0) (has_attempted proxy 1))
    raise_when bad (assertion_error "Invalid-token client connected or retried")
    call (close_client client.handle)

  unfoldable pub invalid_tokens : Stage
  invalid_tokens = do
    each reject_token (("csharp", "csharp-user") ∷ ("js", "javascript-user") ∷ [])
    assign (add_case "both SDKs reject invalid Token without reconnect")
