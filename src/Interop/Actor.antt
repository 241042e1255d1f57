-- ===== src/Interop/Actor.antt =====
-- `Actor` of scripts/interop.py: commands to a client process and the history of its events. What the
-- event loop does between two waits is one step.
pub mod Settled
use wu_kong_easy_sdk_csharp.Common.{
  ℕ, zero, suc, ◌+◌, ◌<◌, String, Bool, true, false, not, ◌&&◌, Option, none, some, List, [], ◌∷◌,
  ◌++◌, ◌==◌, leb, ltb, any, length, keep_if, str_eq, last?, if◌then◌else◌,
}
use wu_kong_easy_sdk_csharp.Python.Result.{Exc, runtime_error, assertion_error, Result, ok, err}
use wu_kong_easy_sdk_csharp.Python.Json.{Json, null, bool, str, obj, Fields, lookup, get, py_eq}

-- The states of an asyncio future.
pub data Future : Type 0 where
  waiting : Future
  done : Fields → Future
  broken : String → Future
  cancelled : Future

-- A line that the process writes: an event with "kind", or the result of a command.
pub data Line : Type 0 where
  result : (id : ℕ) → Fields → Line
  event : (kind : String) → Fields → Line
  malformed : (exception : String) → Line

pub record Actor : Type 0 where
  pub events : List (String × Fields)
  pub pending : List ℕ
  pub futures : ℕ → Option Future
  pub serial : ℕ
  pub failure : Option String
  pub reading : Bool

abbrev pub max_events : ℕ
max_events = 512

unfoldable pub fresh : Actor
fresh = record {
  events = [];
  pending = [];
  futures = λ n. none;
  serial = 0;
  failure = none;
  reading = true;
}

abbrev pub is_pending : ℕ → List ℕ → Bool
is_pending n = any (λ m. m == n)

-- `if not future.done():` and the new state
abbrev pub settle : Option Future → Future → Option Future
settle (some waiting) v = some v
settle f v = f

abbrev pub update : (ℕ → Option Future) → ℕ → Option Future → ℕ → Option Future
update fs n v m = if m == n then v else fs m

-- The `finally` of `read`, with what `except` has put into `failure`: every pending future that is not
-- done fails.
unfoldable pub stop : String → Actor → Actor
stop failure a = record a {
  failure = some failure;
  futures =
      λ n. if is_pending n a.pending then settle (a.futures n) (broken failure) else a.futures n;
  reading = false;
}

-- One round of the loop in `read`.
unfoldable pub read_line : Line → Actor → Actor
read_line (result id fields) a =
    if is_pending id a.pending
    then record a {
      pending = keep_if (λ n. not (n == id)) a.pending;
      futures = update a.futures id (settle (a.futures id) (done fields));
    }
    else stop "KeyError" a
read_line (event kind fields) a =
    if leb max_events (length a.events)
    then stop "AssertionError" a
    else record a { events = a.events ++ ((kind, fields) ∷ []) }
read_line (malformed exception) a = stop exception a

-- The first lines of `command`: a new future under a new number.
unfoldable pub start_command : Actor → Actor
start_command a = record a {
  serial = suc a.serial;
  pending = suc a.serial ∷ a.pending;
  futures = update a.futures (suc a.serial) (some waiting);
}

-- What can happen to an actor: a command starts, the process writes a line or ends, or the 20 seconds
-- of `wait_for` are over, which cancels the future and leaves it pending.
pub data Step : Type 0 where
  command : Step
  line : Line → Step
  exited : Step
  timed_out : ℕ → Step

unfoldable pub step : Step → Actor → Actor
step command a = start_command a
step (line l) a = if a.reading then read_line l a else a
step exited a = if a.reading then stop "Actor exited" a else a
step (timed_out n) a = record a { futures = update a.futures n (settle (a.futures n) cancelled) }

unfoldable pub run : List Step → Actor → Actor
run [] a = a
run (s ∷ ss) a = run ss (step s a)

-- sum(event["kind"] == kind for event in self.events)
abbrev pub kind_is : String → String × Fields → Bool
kind_is kind (k, fields) = str_eq k kind

unfoldable pub count : String → Actor → ℕ
count kind a = length (keep_if (kind_is kind) a.events)

-- The test of `event`: the kind, and the client message number if one is asked for.
abbrev pub matches : String → Option String → String × Fields → Bool
matches kind none e = kind_is kind e
matches kind (some n) (k, fields) = str_eq k kind && py_eq (get fields "clientMsgNo") (str n)

abbrev or_failure : Option String → Option (Result (String × Fields))
or_failure none = none
or_failure (some failure) = some (err (runtime_error failure))

-- One look of `event` at the history: return, raise, or wait for the next change (none).
unfoldable pub look : String → ℕ → Option String → Actor → Option (Result (String × Fields))
look kind after client_msg_no a =
    let found = keep_if (matches kind client_msg_no) a.events in
    if ltb after (length found)
    then elim (last? found) [ some e ↦ some (ok e) | none ↦ none ]
    else or_failure a.failure

-- What `command` makes of the result: `reject` is None, False or True.
pub data Reject : Type 0 where
  either succeeds rejected : Reject

-- result["ok"] == reject raises; the result itself is returned, or its "data".
unfoldable pub command_result : Reject → Fields → Result Json
command_result either fields = ok (obj fields)
command_result succeeds fields = elim (lookup fields "ok") [
  | none ↦ err Exc.key_error
  | some v ↦
      if py_eq v (bool false)
      then err (assertion_error "unexpected result")
      else ok (get fields "data")
]
command_result rejected fields = elim (lookup fields "ok") [
  | none ↦ err Exc.key_error
  | some v ↦
      if py_eq v (bool true) then err (assertion_error "unexpected result") else ok (obj fields)
]
