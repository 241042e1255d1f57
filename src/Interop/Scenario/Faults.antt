-- ===== src/Interop/Scenario/Faults.antt =====
-- The stages of `scenarios` that interrupt the clients: the network, the server, the clients themselves.
use wu_kong_easy_sdk_csharp.Common.{ℕ, String, true, none, [], ◌∷◌, leb}
use wu_kong_easy_sdk_csharp.Python.Result.{assertion_error}
use wu_kong_easy_sdk_csharp.Python.Int.{pos}
use wu_kong_easy_sdk_csharp.Python.Text.{Unicode}
use wu_kong_easy_sdk_csharp.Python.Json.{int, obj, end, field}
use wu_kong_easy_sdk_csharp.Python.Coroutine.Script.{
  Script, give, ◌>>=◌, ◌>>◌, assign, raise_when, each, call,
}
use wu_kong_easy_sdk_csharp.Interop.Actor.{rejected}
use wu_kong_easy_sdk_csharp.Interop.Scenario.{
  Answer, Client, Local, set_stage, add_case, connect, disconnect, send,
}
use wu_kong_easy_sdk_csharp.Interop.Scenario.Calls.{
  start_server, stop_server, command, event, count, attempts, drop, enable, uuid, sleep,
}
use wu_kong_easy_sdk_csharp.Interop.Scenario.Clients.{pair}
use wu_kong_easy_sdk_csharp.Interop.Scenario.Stages.{
  Stage, Peers, both, is_connected, or_else, has_counted, has_attempted,
}

-- What was counted before the network fails.
pub record Baseline : Type 0 where
  pub client : Client
  pub proxy : ℕ
  pub connected : ℕ
  pub disconnected : ℕ
  pub reconnecting : ℕ
  pub attempted : ℕ

unfoldable pub baseline : Client → ℕ → Script Answer Local Baseline
baseline client proxy = do
  connected ← call (count client.handle "connected")
  disconnected ← call (count client.handle "disconnected")
  reconnecting ← call (count client.handle "reconnecting")
  attempted ← call (attempts proxy)
  give (record {
    client = client;
    proxy = proxy;
    connected = connected;
    disconnected = disconnected;
    reconnecting = reconnecting;
    attempted = attempted;
  })

unfoldable pub await_event : String → Client × ℕ → Stage
await_event kind (client, after) = do found ← call (event client.handle kind after none); give tt

unfoldable pub await_loss : Baseline → Stage
await_loss b = do
  await_event "disconnected" (b.client, b.disconnected)
  await_event "reconnecting" (b.client, b.reconnecting)

-- At least one retry has met the closed proxy, which is opened again.
unfoldable pub check_retry : Baseline → Stage
check_retry b = do
  n ← call (attempts b.proxy)
  raise_when (leb n b.attempted) (assertion_error "No connection retry crossed the dropped network")
  call (enable b.proxy)

unfoldable pub await_return : Baseline → Stage
await_return b = await_event "connected" (b.client, b.connected)

-- A client, its proxy, and the attempts and retries before the wait.
unfoldable pub check_offline : Client × ℕ × ℕ × ℕ → Stage
check_offline (client, proxy, previous, retries) = do
  bad ←
      or_else (is_connected client)
        (or_else (has_attempted proxy previous) (has_counted client "reconnecting" retries))
  raise_when bad (assertion_error "Manual disconnect did not stop reconnect")
  number ← call uuid
  rejection ← call (
      command client.handle (send "offline-target" (obj (field "type" (int (pos 1)) end)) number)
        rejected)
  give tt

module _ (u : Unicode) where
  unfoldable pub recover_network : Peers → Stage
  recover_network p = do
    b ← baseline p.csharp p.csharp_proxy
    c ← baseline p.js p.js_proxy
    assign (set_stage "network recovery")
    call (drop p.csharp_proxy)
    call (drop p.js_proxy)
    each await_loss (b ∷ c ∷ [])
    call (sleep 1300)
    each check_retry (b ∷ c ∷ [])
    each await_return (b ∷ c ∷ [])
    pair u p.csharp p.js "after network recovery"
    assign (add_case "automatic reconnect after interrupted network and one failed retry")

  unfoldable pub restart_server : Peers → Stage
  restart_server p = do
    assign (set_stage "server crash/restart")
    c ← call (count p.csharp.handle "connected")
    j ← call (count p.js.handle "connected")
    lost_c ← call (count p.csharp.handle "disconnected")
    lost_j ← call (count p.js.handle "disconnected")
    call (stop_server true)
    each (await_event "disconnected") ((p.csharp, lost_c) ∷ (p.js, lost_j) ∷ [])
    call start_server
    each (await_event "connected") ((p.csharp, c) ∷ (p.js, j) ∷ [])
    pair u p.csharp p.js "after server restart"
    assign
        (add_case "automatic reconnect and bidirectional messages after real server crash/restart")

  unfoldable pub disconnect_manually : Peers → Stage
  disconnect_manually p = do
    assign (set_stage "manual disconnect")
    both disconnect p
    previous_c ← call (attempts p.csharp_proxy)
    previous_j ← call (attempts p.js_proxy)
    retries_c ← call (count p.csharp.handle "reconnecting")
    retries_j ← call (count p.js.handle "reconnecting")
    call (sleep 3200)
    each check_offline (
        (p.csharp, p.csharp_proxy, previous_c, retries_c)
        ∷ (p.js, p.js_proxy, previous_j, retries_j)
        ∷ [])
    both connect p
    pair u p.csharp p.js "after explicit reconnect"
    assign (
        add_case
          "manual disconnect stops reconnect, rejects offline SEND, and allows explicit reconnect")
    assign (set_stage "completed")
