-- ===== src/Lib.antt =====
-- The C# client of WuKongIM (src/WuKongEasySDK) and the scripts that decide whether it may be
-- released: the interoperability fixture with one server (scripts/interop.py) and with three
-- (scripts/interop_cluster.py), the smoke test (scripts/smoke.py) and the release script
-- (scripts/release.py).
--
-- Parts and files:
--   Python     what the scripts use of their language: exceptions as values (Result), integers (Int), the
--              values of json.loads with `==` and `json.dumps(sort_keys=True)` (Json),
--              `isdecimal`, `strip`, `int` and line handling on texts (Text), and
--              asyncio's coroutines (Coroutine). The tables of Unicode are a parameter, of which four
--              published facts are assumed.
--   Interop    scripts/interop.py. Exchange is `verify_exchange`; Actor is `Actor` (read, count, event,
--              command); Proxy is `Proxy` (handle, drop); Server is `Server` (request, start, stop); Scenario
--              is `scenarios` with its functions, its stages and its `finally`; Fixture is `main`.
--   Cluster    scripts/interop_cluster.py. Verify is `verify_group` and `retry_activation`; Slots is
--              `stable_slots`; Channel is `channel_ready` and `node_health`; Login is the login loop of
--              `actor` and the checks of `exchange`; Presence is the wait of `messaging`; Scenario is the
--              rest of `cluster_scenarios`: the bootstrap, the failovers and the `finally`; Diagnostics is
--              the sampling and redaction of the server's log after a failure.
--   Release    scripts/release.py. Version is `release_version`; Package is `package_files`; Registry is
--              `public_package`; Publish is `main`.
--   Smoke      scripts/smoke.py: `main` once the server is started.
--   Sdk        src/WuKongEasySDK. Options is `WKIMOptions.Validate` and the backoff; Supervisor is `RunAsync`
--              over what its sessions meet; Requests is a session's pending requests and capacity
--              (`RequestAsync`, `ReceiveAndFailPendingAsync`, the replies in `HandleAsync`).
--   Examples   the definitions run on concrete inputs.
--   Common     tests on numbers, lists and options that the parts share.
-- A scenario drives an Actor for each client through a Proxy to a Server and gives what the actors
-- report to Exchange; the cluster's scenario waits with Slots, Channel and Presence before it does
-- so. `main` of the release script reads the version with Version and compares two packages with
-- Package, the second fetched by Registry.
--
-- State and steps: an asyncio task runs without interruption between two awaits, so what it does
-- there is one step, and a run is a list of steps in any order. The requests and the receiver of the C#
-- client run in parallel, so there each access to what they share is a step. A loop under
-- `asyncio.timeout` is a recursion on the list of the rounds that the timeout lets happen; at its end
-- stands the TimeoutError. The loop of `public_package` has no such
-- list: it runs on fuel, seconds / 20 + 2 rounds, each of which but the last sleeps 20 seconds or up
-- to the deadline, and the fuel is proved to be enough. The readiness loop of the smoke test runs on
-- fuel too: 302 rounds, each with a sleep of a tenth, for a deadline of 30 seconds. Times are
-- nanoseconds, in Smoke milliseconds.
--
-- The two scenarios are coroutines: trees of the calls that they make (start a server, open a proxy,
-- start a client, send it a command, wait for an event, read a count, close), over the variables that
-- their functions share. A World answers each call by what has happened before, in any way that the
-- call can end, and chooses which task of a `gather` runs on, so a theorem about all worlds holds for
-- all answers and all interleavings. A cancellation by the timeout of `main` is a call that raises;
-- a `gather` with `return_exceptions` has a call for the await itself, at which it raises too. The
-- task of a `gather` that nobody awaits any more, after the other has raised, is not followed. The
-- login loop of the cluster runs on fuel, 56 rounds in recovery and 13 otherwise: each round but the
-- last sleeps two seconds, and the timeouts are 110 and 25 seconds.
--
-- Parameters: the Unicode tables, `json.loads`, `str` of its values, the XML parser, the network,
-- `urllib.parse.urlsplit`, the clock and `time.sleep`, and the `install` step of the release script.
--
-- Not modelled: process and socket control, the text of the configuration files, the certificates of
-- scripts/interop_tls.py, the evidence that the cluster collects after a failure beyond the samples of
-- the log, and of the C# client the sockets, the packets that are no replies, the event queue and the
-- JSON converters.
pub mod Common
pub mod Python
pub mod Interop
pub mod Release
pub mod Cluster
pub mod Smoke
pub mod Sdk
pub mod Examples
