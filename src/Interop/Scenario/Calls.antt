-- ===== src/Interop/Scenario/Calls.antt =====
-- The calls of `scenarios` as coroutines of one call.
use wu_kong_easy_sdk_csharp.Common.{ℕ, String, Bool, Option, List}
use wu_kong_easy_sdk_csharp.Python.Result.{Result, ok}
use wu_kong_easy_sdk_csharp.Python.Json.{Json, Fields}
use wu_kong_easy_sdk_csharp.Python.Coroutine.{Coroutine, done, ask}
use wu_kong_easy_sdk_csharp.Interop.Actor.{Reject}
use wu_kong_easy_sdk_csharp.Interop.Scenario.{Operation, Call, Answer}

unfoldable pub start_server : Coroutine Answer (Result (Unit {0}))
start_server = ask Call.start_server done

unfoldable pub close_log : Coroutine Answer (Result (Unit {0}))
close_log = ask Call.close_log (λ a. done (ok a))

unfoldable pub stop_server : (crash : Bool) → Coroutine Answer (Result (Unit {0}))
stop_server crash = ask (Call.stop_server crash) done

unfoldable pub set_token : (uid token : String) → Coroutine Answer (Result (Unit {0}))
set_token uid token = ask (Call.set_token uid token) done

unfoldable pub start_proxy : (certificate : Option String) → Coroutine Answer (Result ℕ)
start_proxy certificate = ask (Call.start_proxy certificate) done

unfoldable pub spawn : (language uid token : String) (proxy : ℕ) → Coroutine Answer (Result ℕ)
spawn language uid token proxy = ask (Call.spawn language uid token proxy) done

unfoldable pub command : (client : ℕ) → Operation → Reject → Coroutine Answer (Result Json)
command client op expect = ask (Call.command client op expect) done

unfoldable pub event :
    (client : ℕ) (kind : String) (after : ℕ) (client_msg_no : Option String)
    → Coroutine Answer (Result Fields)
event client kind after number = ask (Call.event client kind after number) done

unfoldable pub count : (client : ℕ) (kind : String) → Coroutine Answer (Result ℕ)
count client kind = ask (Call.count client kind) (λ a. done (ok a))

unfoldable pub fixture_failures : (client : ℕ) → Coroutine Answer (Result (List Fields))
fixture_failures client = ask (Call.fixture_failures client) (λ a. done (ok a))

unfoldable pub attempts : (proxy : ℕ) → Coroutine Answer (Result ℕ)
attempts proxy = ask (Call.attempts proxy) (λ a. done (ok a))

unfoldable pub client_bytes : (proxy : ℕ) → Coroutine Answer (Result ℕ)
client_bytes proxy = ask (Call.client_bytes proxy) (λ a. done (ok a))

unfoldable pub drop : (proxy : ℕ) → Coroutine Answer (Result (Unit {0}))
drop proxy = ask (Call.drop proxy) (λ a. done (ok a))

unfoldable pub enable : (proxy : ℕ) → Coroutine Answer (Result (Unit {0}))
enable proxy = ask (Call.enable proxy) (λ a. done (ok a))

unfoldable pub close_proxy : (proxy : ℕ) → Coroutine Answer (Result (Unit {0}))
close_proxy proxy = ask (Call.close_proxy proxy) done

unfoldable pub close_client : (client : ℕ) → Coroutine Answer (Result (Unit {0}))
close_client client = ask (Call.close_client client) done

unfoldable pub random_token : Coroutine Answer (Result String)
random_token = ask Call.random_token (λ a. done (ok a))

unfoldable pub uuid : Coroutine Answer (Result String)
uuid = ask Call.uuid (λ a. done (ok a))

unfoldable pub sleep : (milliseconds : ℕ) → Coroutine Answer (Result (Unit {0}))
sleep milliseconds = ask (Call.sleep milliseconds) done
