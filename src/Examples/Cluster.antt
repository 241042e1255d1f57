-- ===== src/Examples/Cluster.antt =====
-- Polls of a three-node cluster (scripts/interop_cluster.py) that converge, and a login that is retried.
use wu_kong_easy_sdk_csharp.Cluster.Channel.Health.{HealthShown, node_health_sound}
use wu_kong_easy_sdk_csharp.Common.{
  ℕ, String, true, false, Option, none, some, List, [], ◌∷◌, ◌≡◌, refl, All, map, ◌==◌, ◌+◌,
  if◌then◌else◌,
}
use wu_kong_easy_sdk_csharp.Python.Int.{pos}
use wu_kong_easy_sdk_csharp.Python.Json.{
  Json, bool, int, str, Fields, end, field, get, lookup, py_eq,
}
use wu_kong_easy_sdk_csharp.Cluster.Verify.{verify_group, retry_activation}
use wu_kong_easy_sdk_csharp.Cluster.Slots.{
  Row, Page, leader, follower, Fingerprint, observe, snapshots, snapshot, sorted_rows, insert_row,
  sorted, insert_number, numbers_eq, row_converged, fingerprint_eq, settle, stable_slots,
  range_from, three,
}
use wu_kong_easy_sdk_csharp.Cluster.Slots.Agreement.{NodeShows, observe_sound}
use wu_kong_easy_sdk_csharp.Cluster.Slots.Stable.{StableRun, Round, stable_slots_sound}
use wu_kong_easy_sdk_csharp.Cluster.Channel.{
  ChannelRow, channel_ready, first_ready, channel_row_ready, common, NodeRow, node_health,
  first_health,
}
use wu_kong_easy_sdk_csharp.Cluster.Channel.Ready.{ChannelReady, Shown, channel_ready_sound}
use wu_kong_easy_sdk_csharp.Cluster.Login.{login, created, closed, connected, check_received}
use wu_kong_easy_sdk_csharp.Cluster.Login.Bounded.{
  LoggedIn, login_sound, ReceiptOf, uid_of, check_received_sound,
}
use wu_kong_easy_sdk_csharp.Cluster.Presence.{
  OnlineRow, NodeView, stopped, running, wait_present, all_present, absent, sees,
}
use wu_kong_easy_sdk_csharp.Cluster.Presence
use wu_kong_easy_sdk_csharp.Cluster.Presence.Stable.{PresentRun, wait_present_sound}
use wu_kong_easy_sdk_csharp.Interop.Exchange.{
  verify_exchange, rounded_id, bad_sequence, bad_correlation,
}
use wu_kong_easy_sdk_csharp.Python.Text.{is_decimal, int_of_text}
use wu_kong_easy_sdk_csharp.Python.Json.Tokens.{tokens_eq}
use wu_kong_easy_sdk_csharp.Python.Json.Dumps.{dumps}
use wu_kong_easy_sdk_csharp.Examples.Ascii.{ascii}

abbrev group_message : Fields
group_message = field "channelId" (str "room") (field "channelType" (int (pos 2)) end)

abbrev activation_failed : Fields
activation_failed =
    field "ok" (bool false) (field "code" (int (pos 15)) (field "category" (str "rpc") end))

abbrev connected_ok : Fields
connected_ok = field "ok" (bool true) end

login_sound_example :
    LoggedIn true 4
      (activation_failed ∷ connected_ok ∷ [])
      5
      (created 4 ∷ closed 4 ∷ created 5 ∷ connected 5 ∷ [])
unfolding login retry_activation lookup get py_eq
login_sound_example =
    login_sound true 4 (activation_failed ∷ connected_ok ∷ []) 5
      (created 4 ∷ closed 4 ∷ created 5 ∷ connected 5 ∷ []) refl

-- ---------------------------------------------------------------- the Slots

-- Node 3 is stopped; node 1 leads each Slot.
abbrev alive : List ℕ
alive = 1 ∷ 2 ∷ []

abbrev hash_slots_of : ℕ → List ℕ
hash_slots_of slot = if slot == 1 then range_from 247 0 else range_from 1 (245 + slot)

abbrev row_of : ℕ → ℕ → Row
row_of node slot = record {
  slot_id = slot;
  has_task = false;
  node_id = node;
  leader_id = 1;
  role = if node == 1 then leader else follower;
  desired_peers = 3 ∷ 1 ∷ 2 ∷ [];
  log_voters = three;
  runtime_voters = three;
  has_quorum = true;
  hash_slots = hash_slots_of slot;
}

abbrev page_of : ℕ → Option Page
page_of node = some (record { total = 10; items = map (row_of node) (range_from 10 1) })

abbrev leaders : Fingerprint
leaders = map (λ n. (n, 1)) (range_from 10 1)

observe_sound_example : All (NodeShows page_of alive leaders) alive
unfolding observe snapshots snapshot sorted_rows insert_row sorted insert_number numbers_eq
    row_converged fingerprint_eq
observe_sound_example = observe_sound page_of alive leaders refl

abbrev polls : List Round
polls = (none, 4) ∷ (some leaders, 5) ∷ (some leaders, 800000005) ∷ (some leaders, 1000000005) ∷ []

stable_slots_sound_example : StableRun polls leaders
unfolding stable_slots settle fingerprint_eq
stable_slots_sound_example = stable_slots_sound polls leaders refl

-- ---------------------------------------------------------------- a channel

abbrev fenced_row : ChannelRow
fenced_row = record {
  channel_id = "room";
  channel_type = 2;
  status = "active";
  min_isr = 2;
  leader = 2;
  fenced = true;
  replicas = 2 ∷ 1 ∷ 3 ∷ [];
  isr = 2 ∷ 1 ∷ [];
}

abbrev ready_row : ChannelRow
ready_row = record fenced_row { fenced = false }

abbrev pages : List (Option (List ChannelRow))
pages = none ∷ some (fenced_row ∷ []) ∷ some (fenced_row ∷ ready_row ∷ []) ∷ []

channel_ready_sound_example :
    Shown "room" 2 alive false pages ready_row × ChannelReady "room" 2 alive false ready_row
unfolding channel_ready first_ready channel_row_ready numbers_eq sorted common
channel_ready_sound_example = channel_ready_sound "room" 2 alive false pages ready_row refl

-- ---------------------------------------------------------------- presence and delivery

abbrev online : String → OnlineRow
online uid = record { uid = uid; online = 1; device_flag = 2 }

abbrev both : List NodeView
both =
    running (online "a" ∷ online "b" ∷ []) ∷ stopped ∷ running (online "b" ∷ online "a" ∷ []) ∷ []

wait_present_sound_example :
    PresentRun
      ("a" ∷ "b" ∷ [])
      ((stopped ∷ running [] ∷ [], 3) ∷ (both, 7) ∷ (both, 1000000007) ∷ [])
      1000000007
unfolding wait_present Presence.settle all_present absent sees
wait_present_sound_example =
    wait_present_sound ("a" ∷ "b" ∷ [])
      ((stopped ∷ running [] ∷ [], 3) ∷ (both, 7) ∷ (both, 1000000007) ∷ []) 1000000007 refl

abbrev payload : Json
payload = str "hi"

abbrev ack : Fields
ack =
    field "messageId" (str "9007199254740993")
      (field "messageSeq" (int (pos 7)) (field "reasonCode" (int (pos 1)) end))

abbrev received : Fields
received = field "messageId" (str "9007199254740993") (
    field "messageSeq" (int (pos 7)) (
      field "clientMsgNo" (str "c1")
        (field "fromUid" (str "alice") (field "payload" payload group_message))))

check_received_sound_example :
    (("bob" ∷ "carol" ∷ []) ≡ map uid_of (("bob", received) ∷ ("carol", received) ∷ []))
    × All
        (ReceiptOf ascii ack "alice" payload "c1" (some "room"))
        (("bob", received) ∷ ("carol", received) ∷ [])
unfolding check_received verify_exchange rounded_id get is_decimal int_of_text py_eq bad_sequence
    bad_correlation tokens_eq dumps verify_group
check_received_sound_example =
    check_received_sound ascii ack "alice" payload "c1" (some "room")
      (("bob", received) ∷ ("carol", received) ∷ []) ("bob" ∷ "carol" ∷ []) refl

-- ---------------------------------------------------------------- node health

abbrev dead_row : NodeRow
dead_row = record { node_id = 3; fresh = true; runtime_ready = true; status = "suspect" }

node_health_sound_example : HealthShown 3 false (none ∷ some (dead_row ∷ []) ∷ []) dead_row
unfolding node_health first_health
node_health_sound_example =
    node_health_sound 3 false (none ∷ some (dead_row ∷ []) ∷ []) dead_row refl
