-- ===== src/Examples/Scenario.antt =====
-- A world in which the scenarios pass: an abstract server that hands each message on at once.
use wu_kong_easy_sdk_csharp.Interop.Scenario.Refused.{Refused, reject_token_sound}
use wu_kong_easy_sdk_csharp.Interop.Scenario.{Client}
use wu_kong_easy_sdk_csharp.Interop.Scenario.Offline.{StaysOffline, check_offline_sound}
use wu_kong_easy_sdk_csharp.Common.{
  ℕ, zero, suc, String, true, false, [], ◌∷◌, ◌≡◌, refl, str_eq, if◌then◌else◌, ◌⊎◌,
}
use wu_kong_easy_sdk_csharp.Python.Result.{ok}
use wu_kong_easy_sdk_csharp.Python.Int.{pos}
use wu_kong_easy_sdk_csharp.Python.Json.{Json, null, bool, int, str, obj, Fields, end, field}
use wu_kong_easy_sdk_csharp.Python.Coroutine.{History, World, run}
use wu_kong_easy_sdk_csharp.Interop.Actor.{Reject, succeeds, rejected}
use wu_kong_easy_sdk_csharp.Interop.Scenario.{
  Operation, connect, state, send, Call, Answer, Local, start_server, close_log, stop_server,
  set_token, start_proxy, spawn, command, event, count, fixture_failures, attempts, client_bytes,
  drop, enable, close_proxy, close_client, random_token, uuid, sleep,
}
use wu_kong_easy_sdk_csharp.Interop.Scenario.Clients.{Fixture}
use wu_kong_easy_sdk_csharp.Interop.Scenario.Scenarios.{scenarios}
use wu_kong_easy_sdk_csharp.Interop.Scenario.Complete.Body.{all_cases}
use wu_kong_easy_sdk_csharp.Interop.Scenario.Cleanup.{Interrupted}
use wu_kong_easy_sdk_csharp.Interop.Scenario.Cleanup.Outcome.{
  CleanedUp, Reported, fresh, scenarios_clean_up, scenarios_pass,
}
use wu_kong_easy_sdk_csharp.Python.Coroutine.{followed_by, gather, run}
use wu_kong_easy_sdk_csharp.Python.Coroutine.Script.{
  give, raise, ◌>>=◌, assign, look_up, raise_when, from_result, each, call, try_finally,
}
use wu_kong_easy_sdk_csharp.Interop.Scenario.{truthy}
use wu_kong_easy_sdk_csharp.Interop.Scenario.Calls
use wu_kong_easy_sdk_csharp.Interop.Scenario.Clients.{
  invalid_page, open_proxy, open_client, check_page, actor, exchange, exchanging, pair,
}
use wu_kong_easy_sdk_csharp.Interop.Scenario.Stages.{
  commanding, both, is_connected, or_else, has_counted, has_attempted, initial, check_rejection,
  reject_token, invalid_tokens,
}
use wu_kong_easy_sdk_csharp.Interop.Scenario.Certificates.{
  has_sent, reject_certificate, reject_certificates,
}
use wu_kong_easy_sdk_csharp.Interop.Scenario.Faults.{
  baseline, await_event, await_loss, check_retry, await_return, check_offline, recover_network,
  restart_server, disconnect_manually,
}
use wu_kong_easy_sdk_csharp.Interop.Scenario.Scenarios.{
  open_peers, body, collect, count_kind, count_events, summarise, clean_up, scenarios,
}
use wu_kong_easy_sdk_csharp.Interop.Exchange.{
  py_int, rounded_id, bad_sequence, bad_correlation, verify_exchange,
}
use wu_kong_easy_sdk_csharp.Python.Json.{lookup, get, size_of, py_eq, items_eq, fields_in}
use wu_kong_easy_sdk_csharp.Python.Text.{is_decimal, lstrip, rstrip, strip, int_of_text}
use wu_kong_easy_sdk_csharp.Python.Json.Dumps.{
  dumps, sort_keys, sort_items, sort_fields, emit, emit_items, emit_more, emit_fields, emit_rest,
}
use wu_kong_easy_sdk_csharp.Python.Json.Tokens.{tokens_eq}
use wu_kong_easy_sdk_csharp.Examples.Ascii.{ascii}

abbrev name_of : ℕ → String
name_of zero = "csharp-user"
name_of (suc n) = "javascript-user"

abbrev handle_of : String → ℕ
handle_of language = if str_eq language "csharp" then 0 else 1

abbrev received : ℕ → Json → String → Fields
received sender payload number = field "messageId" (str "9007199254740993") (
    field "messageSeq" (int (pos 1)) (
      field "clientMsgNo" (str number)
        (field "fromUid" (str (name_of sender)) (field "payload" payload end))))

abbrev acknowledged : Json
acknowledged = obj (
    field "messageId" (str "9007199254740993")
      (field "messageSeq" (int (pos 1)) (field "reasonCode" (int (pos 1)) end)))

-- The message of the last command to send.
abbrev last_message : Fields → History Answer → Fields
last_message m [] = m
last_message m ((command sender (send target payload number) expect, r) ∷ h) =
    last_message (received sender payload number) h
last_message m (e ∷ h) = last_message m h

-- A proxy that was dropped has been tried again.
abbrev attempts_of : ℕ → History Answer → ℕ
attempts_of n [] = n
attempts_of n ((drop proxy, r) ∷ h) = attempts_of 2 h
attempts_of n (e ∷ h) = attempts_of n h

abbrev reply : Operation → Reject → Json
reply state expect = obj (field "connected" (bool false) end)
reply connect rejected =
    obj (field "category" (str "WKIMAuthenticationException") (field "code" (int (pos 2)) end))
reply (send target payload number) succeeds = acknowledged
reply op expect = null

abbrev answer : History Answer → (c : Call) → Answer c
answer h start_server = ok tt
answer h close_log = tt
answer h (stop_server crash) = ok tt
answer h (set_token uid token) = ok tt
answer h (start_proxy certificate) = ok 7
answer h (spawn language uid token proxy) = ok (handle_of language)
answer h (command client op expect) = ok (reply op expect)
answer h (event client kind after number) = ok (last_message end h)
answer h (count client kind) = 0
answer h (fixture_failures client) = []
answer h (attempts proxy) = attempts_of 1 h
answer h (client_bytes proxy) = 0
answer h (drop proxy) = tt
answer h (enable proxy) = tt
answer h (close_proxy proxy) = ok tt
answer h (close_client client) = ok tt
answer h random_token = "token"
answer h uuid = "c1"
answer h (sleep milliseconds) = ok tt

abbrev world : World Answer
world = record { answer = answer; turn = λ h. true }

abbrev fixture : Fixture
fixture = record { browser = false; trust = false }

scenarios_clean_up_example :
    (CleanedUp (run world [] (scenarios ascii fixture fresh)).1
      ⊎ Interrupted (run world [] (scenarios ascii fixture fresh)).1)
    × Reported (all_cases false) (run world [] (scenarios ascii fixture fresh)).0.1
scenarios_clean_up_example = scenarios_clean_up ascii fixture world

abbrev after : Local
after = (run world [] (scenarios ascii fixture fresh)).0.1

scenarios_pass_example :
    (after.report.cases ≡ all_cases false)
    × (after.report.stage ≡ "completed")
    × CleanedUp (run world [] (scenarios ascii fixture fresh)).1
unfolding followed_by gather run give raise ◌>>=◌ assign look_up raise_when from_result each call
    try_finally truthy Calls.start_server Calls.close_log Calls.stop_server Calls.set_token
    Calls.start_proxy Calls.spawn Calls.command Calls.event Calls.count Calls.fixture_failures
    Calls.attempts Calls.client_bytes Calls.drop Calls.enable Calls.close_proxy Calls.close_client
    Calls.random_token Calls.uuid Calls.sleep invalid_page open_proxy open_client check_page actor
    exchange exchanging pair commanding both is_connected or_else has_counted has_attempted initial
    check_rejection reject_token invalid_tokens has_sent reject_certificate reject_certificates
    baseline await_event await_loss check_retry await_return check_offline recover_network
    restart_server disconnect_manually open_peers body collect count_kind count_events summarise
    clean_up scenarios py_int rounded_id bad_sequence bad_correlation verify_exchange lookup get
    size_of py_eq items_eq fields_in is_decimal lstrip rstrip strip int_of_text dumps sort_keys
    sort_items sort_fields emit emit_items emit_more emit_fields emit_rest tokens_eq
scenarios_pass_example =
    scenarios_pass ascii fixture world after (run world [] (scenarios ascii fixture fresh)).1 refl

abbrev after_refusal : History Answer
after_refusal = (run world [] (reject_token fixture ("csharp", "csharp-user") fresh)).1

reject_token_sound_example :
    Refused fixture "csharp" "csharp-user" after_refusal
      (run world [] (reject_token fixture ("csharp", "csharp-user") fresh)).0.1
unfolding followed_by gather run give raise ◌>>=◌ assign look_up raise_when from_result each call
    try_finally truthy Calls.start_server Calls.close_log Calls.stop_server Calls.set_token
    Calls.start_proxy Calls.spawn Calls.command Calls.event Calls.count Calls.fixture_failures
    Calls.attempts Calls.client_bytes Calls.drop Calls.enable Calls.close_proxy Calls.close_client
    Calls.random_token Calls.uuid Calls.sleep invalid_page open_proxy open_client check_page actor
    exchange exchanging pair commanding both is_connected or_else has_counted has_attempted initial
    check_rejection reject_token invalid_tokens has_sent reject_certificate reject_certificates
    baseline await_event await_loss check_retry await_return check_offline recover_network
    restart_server disconnect_manually open_peers body collect count_kind count_events summarise
    clean_up scenarios py_int rounded_id bad_sequence bad_correlation verify_exchange lookup get
    size_of py_eq items_eq fields_in is_decimal lstrip rstrip strip int_of_text dumps sort_keys
    sort_items sort_fields emit emit_items emit_more emit_fields emit_rest tokens_eq
reject_token_sound_example =
    reject_token_sound fixture "csharp" "csharp-user" world [] after_refusal fresh
      (run world [] (reject_token fixture ("csharp", "csharp-user") fresh)).0.1 refl

abbrev disconnected_client : Client
disconnected_client = record { handle = 0; name = "C#"; uid = "csharp-user" }

abbrev after_wait : History Answer
after_wait = (run world [] (check_offline (disconnected_client, 7, 1, 0) fresh)).1

check_offline_sound_example :
    StaysOffline disconnected_client 7 1 0 after_wait
      (run world [] (check_offline (disconnected_client, 7, 1, 0) fresh)).0.1
unfolding followed_by gather run give raise ◌>>=◌ assign look_up raise_when from_result each call
    try_finally truthy Calls.start_server Calls.close_log Calls.stop_server Calls.set_token
    Calls.start_proxy Calls.spawn Calls.command Calls.event Calls.count Calls.fixture_failures
    Calls.attempts Calls.client_bytes Calls.drop Calls.enable Calls.close_proxy Calls.close_client
    Calls.random_token Calls.uuid Calls.sleep invalid_page open_proxy open_client check_page actor
    exchange exchanging pair commanding both is_connected or_else has_counted has_attempted initial
    check_rejection reject_token invalid_tokens has_sent reject_certificate reject_certificates
    baseline await_event await_loss check_retry await_return check_offline recover_network
    restart_server disconnect_manually open_peers body collect count_kind count_events summarise
    clean_up scenarios py_int rounded_id bad_sequence bad_correlation verify_exchange lookup get
    size_of py_eq items_eq fields_in is_decimal lstrip rstrip strip int_of_text dumps sort_keys
    sort_items sort_fields emit emit_items emit_more emit_fields emit_rest tokens_eq
check_offline_sound_example =
    check_offline_sound disconnected_client 7 1 0 world [] after_wait fresh
      (run world [] (check_offline (disconnected_client, 7, 1, 0) fresh)).0.1 refl
