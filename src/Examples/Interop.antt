-- ===== src/Examples/Interop.antt =====
-- An accepted exchange, an actor whose process exits, a proxy and a server start of scripts/interop.py.
use wu_kong_easy_sdk_csharp.Common.{
  All, ℕ, ◌+◌, Bool, true, false, none, some, List, [], ◌∷◌, ◌≡◌, ◌≢◌, refl, ◌↔◌,
}
use wu_kong_easy_sdk_csharp.Python.Result.{Result, ok, err, value_error}
use wu_kong_easy_sdk_csharp.Python.Int.{pos}
use wu_kong_easy_sdk_csharp.Python.Json.{
  Json, null, bool, int, str, arr, obj, nil, cons, Fields, end, field,
}
use wu_kong_easy_sdk_csharp.Interop.Exchange.{verify_exchange}
use wu_kong_easy_sdk_csharp.Interop.Exchange.Accepted.{Accepted, verify_exchange_iff}
use wu_kong_easy_sdk_csharp.Interop.Actor
use wu_kong_easy_sdk_csharp.Interop.Actor.{
  Future, broken, waiting, Step, command, line, exited, timed_out, event, result,
}
use wu_kong_easy_sdk_csharp.Interop.Actor.Settled.{
  Inv, actor_invariant, exit_settles, outcome_stays,
}
use wu_kong_easy_sdk_csharp.Interop.Proxy
use wu_kong_easy_sdk_csharp.Interop.Proxy.{Proxy, holds, dropped, opened, copy, accepted, refused}
use wu_kong_easy_sdk_csharp.Interop.Proxy.Faults.{Severed, OfFault, drop_severs, drop_misses}
use wu_kong_easy_sdk_csharp.Interop.Server.{Look, Reply, response, url_failure}
use wu_kong_easy_sdk_csharp.Interop.Server
use wu_kong_easy_sdk_csharp.Interop.Server.Lifecycle.{Started, start_sound}
use wu_kong_easy_sdk_csharp.Examples.Ascii.{ascii}

abbrev first_order : Json
first_order = obj (field "a" (int (pos 1)) (field "b" (arr (cons null (cons (bool true) nil))) end))

abbrev second_order : Json
second_order =
    obj (field "b" (arr (cons null (cons (bool true) nil))) (field "a" (int (pos 1)) end))

abbrev ack : Fields
ack =
    field "messageId" (str "9007199254740993")
      (field "messageSeq" (int (pos 7)) (field "reasonCode" (int (pos 1)) end))

abbrev message : Fields
message = field "messageId" (str "9007199254740993") (
    field "messageSeq" (int (pos 7)) (
      field "clientMsgNo" (str "c1")
        (field "fromUid" (str "alice") (field "payload" second_order end))))

verify_exchange_iff_example :
    (verify_exchange ascii ack message "alice" first_order "c1" ≡ ok tt)
    ↔ Accepted ascii ack message "alice" first_order "c1"
verify_exchange_iff_example = verify_exchange_iff ascii ack message "alice" first_order "c1"

-- ---------------------------------------------------------------- an actor

abbrev two_commands : List Step
two_commands = command ∷ line (event "message" end) ∷ command ∷ line (result 1 end) ∷ []

actor_invariant_example : Inv (Actor.run two_commands Actor.fresh)
actor_invariant_example = actor_invariant two_commands

exit_settles_example :
    (Actor.step exited (Actor.run two_commands Actor.fresh)).futures 2 ≢ some waiting
unfolding Actor.run Actor.step Actor.fresh Actor.read_line Actor.start_command
exit_settles_example = exit_settles two_commands refl 2

broken_settled : broken "Actor exited" ≢ waiting
broken_settled h = absurd (cc)

outcome_stays_example :
    (Actor.run
        (line (result 1 end) ∷ timed_out 1 ∷ command ∷ [])
        (Actor.run (command ∷ exited ∷ []) Actor.fresh)).futures
      1
    ≡ some (broken "Actor exited")
unfolding Actor.run Actor.step Actor.fresh Actor.stop Actor.start_command
outcome_stays_example =
    outcome_stays 1 (broken "Actor exited") broken_settled (command ∷ exited ∷ [])
      (line (result 1 end) ∷ timed_out 1 ∷ command ∷ []) refl

-- ---------------------------------------------------------------- a proxy

abbrev relaying_one : Proxy
relaying_one = record {
  enabled = true;
  attempts = 1;
  client_bytes = 12;
  connecting = [];
  relaying = 1 ∷ [];
  ending = [];
}

abbrev connecting_one : Proxy
connecting_one = record relaying_one { connecting = 2 ∷ [] }

abbrev after_drop : List Proxy.Step
after_drop = copy 1 true 9 ∷ accepted 5 ∷ opened 5 ∷ []

after_drop_lem : All OfFault after_drop
after_drop_lem = ((λ h. cc), ((λ h. cc), ((λ h. cc), tt)))

drop_severs_example :
    let q = Proxy.run after_drop (Proxy.drop relaying_one) in
    Severed q × ((Proxy.step (copy 5 true 9) q).client_bytes ≡ q.client_bytes)
drop_severs_example = drop_severs relaying_one after_drop 5 true 9 (after_drop_lem) refl refl

drop_misses_example :
    let q = Proxy.run (dropped ∷ opened 2 ∷ copy 2 true 9 ∷ []) connecting_one in
    (q.enabled ≡ false) × (holds 2 q.relaying ≡ true) × (q.client_bytes ≡ 12 + 9)
drop_misses_example = drop_misses connecting_one 2 9 refl

-- ---------------------------------------------------------------- a server

abbrev one_byte : List ℕ → Result Bool
one_byte (b ∷ []) = ok true
one_byte _ = err (value_error "JSON")

abbrev looks : List (Look one_byte)
looks =
    record { returncode = none; reply = url_failure }
    ∷ record { returncode = none; reply = response 200 (7 ∷ []) }
    ∷ []

start_sound_example : Started one_byte looks
unfolding Server.start Server.look Server.request Server.parse_body
start_sound_example = start_sound one_byte looks refl

-- A quotation mark, a letter beyond ASCII and a character beyond 16 bits.
