-- ===== src/Sdk/Requests.antt =====
-- `RequestAsync`, `ReceiveAndFailPendingAsync` and the replies in `HandleAsync` of
-- src/WuKongEasySDK/WKIM.cs: the requests of one session and its capacity. Requests run in parallel with
-- each other and with the receiver, so each access to the semaphore, to the dictionary of the pending
-- requests and to a completion is a step; the identifiers, which are GUIDs there, are counted here.
pub mod Capacity
pub mod Care
pub mod Settled
use wu_kong_easy_sdk_csharp.Common.{
  ℕ, zero, suc, Bool, true, false, Option, none, some, List, [], ◌∷◌, ◌==◌, any, map, if◌then◌else◌,
}

pub data Method : Type 0 where
  connect send ping : Method

-- How a request's completion is set: a result, the code of an error, or the failure of the receiver.
pub data Reply : Type 0 where
  result pong : Reply
  rpc_error : (code : ℕ) → Reply
  receiver_failed : Reply

-- A request that has a place.
pub record Pending : Type 0 where
  pub id : ℕ
  pub method : Method
  pub completion : Option Reply

-- `ReceiveAsync` goes on, has returned, or has raised.
pub data Receiver : Type 0 where
  reading returned raised : Receiver

-- `entering` and `pending` are the requests before and after they are put into the dictionary, `leaving`
-- counts those that were taken out and still have their place. `todo` are the completions that the
-- receiver is about to set, and `cancelled` says that the session was stopped.
pub record Session : Type 0 where
  pub free : ℕ
  pub issued : ℕ
  pub entering : List Pending
  pub pending : List Pending
  pub leaving : ℕ
  pub cancelled : Bool
  pub receiver : Receiver
  pub todo : List (ℕ × Reply)

-- Capacity = new(maxPending, maxPending)
unfoldable pub opened : ℕ → Session
opened max_pending = record {
  free = max_pending;
  issued = 0;
  entering = [];
  pending = [];
  leaving = 0;
  cancelled = false;
  receiver = reading;
  todo = [];
}

-- TrySetResult and TrySetException
abbrev pub try_set : Reply → Pending → Pending
try_set r q = elim q.completion [ none ↦ record q { completion = some r } | some old ↦ q ]

-- The first lines of `RequestAsync`: none is the WKIMBackpressureException.
unfoldable pub begin : Method → Session → Option Session
begin method s = elim s.free [
  | zero ↦ none
  | suc rest ↦ some (record s {
    free = rest;
    issued = suc s.issued;
    entering = record { id = s.issued; method = method; completion = none } ∷ s.entering;
  })
]

-- A request with this identifier, and the others.
unfoldable pub take_out : ℕ → List Pending → Option (Pending × List Pending)
take_out id [] = none
take_out id (q ∷ qs) =
    if q.id == id
    then some (q, qs)
    else elim (take_out id qs) [ none ↦ none | some found ↦ some (found.0, q ∷ found.1) ]

-- session.Pending[id] = pending
unfoldable pub enter : ℕ → Session → Session
enter id s = elim (take_out id s.entering) [
  | none ↦ s
  | some found ↦ record s { entering = found.1; pending = found.0 ∷ s.pending }
]

-- session.Pending.TryRemove(id, out _) in the `finally` of `RequestAsync`
unfoldable pub leave : ℕ → Session → Session
leave id s = elim (take_out id s.pending) [
  | none ↦ s
  | some found ↦ record s { pending = found.1; leaving = suc s.leaving }
]

-- session.Capacity.Release()
unfoldable pub release : Session → Session
release s = elim s.leaving [ zero ↦ s | suc rest ↦ record s { free = suc s.free; leaving = rest } ]

abbrev pub holds : ℕ → List Pending → Bool
holds id = any (λ q. q.id == id)

abbrev pub is_ping : Method → Bool
is_ping ping = true
is_ping _ = false

-- A reply with an identifier: the request with it, if there is one, is to be completed.
abbrev pub answers : ℕ → Reply → List Pending → List (ℕ × Reply)
answers id r qs = if holds id qs then (id, r) ∷ [] else []

-- The notification "pong" is to complete every ping of the values that the dictionary has then.
abbrev pub pongs : List Pending → List (ℕ × Reply)
pongs [] = []
pongs (q ∷ qs) = if is_ping q.method then (q.id, pong) ∷ pongs qs else pongs qs

-- The `catch` of `ReceiveAndFailPendingAsync`: all of the values that the dictionary has then.
abbrev pub failures : List Pending → List (ℕ × Reply)
failures = map (λ q. (q.id, receiver_failed))

-- The completion of the request with this identifier is set, if the dictionary still has it.
abbrev pub complete : ℕ → Reply → Pending → Pending
complete id r q = if q.id == id then try_set r q else q

unfoldable pub complete_next : Session → Session
complete_next s = elim s.todo [
  | [] ↦ s
  | next ∷ todo ↦ record s { pending = map (complete next.0 next.1) s.pending; todo = todo }
]

-- The receiver reads on and has nothing left to set.
abbrev pub idle : Receiver → List (ℕ × Reply) → Bool
idle reading [] = true
idle _ _ = false

pub data Step : Type 0 where
  begun : Method → Step
  entered : (id : ℕ) → Step
  replied : (id : ℕ) → Reply → Step
  ponged : Step
  completed : Step
  receiver_raised : Step
  receiver_returned : Step
  stopped : Step
  left : (id : ℕ) → Step
  released : Step

abbrev pub or_same : Option Session → Session → Session
or_same none s = s
or_same (some t) s = t

-- What the receiver does next, if it is free to.
abbrev pub receive : Session → Session → Session
receive next s = if idle s.receiver s.todo then next else s

unfoldable pub step : Step → Session → Session
step (begun method) s = or_same (begin method s) s
step (entered id) s = enter id s
step (replied id r) s = receive (record s { todo = answers id r s.pending }) s
step ponged s = receive (record s { todo = pongs s.pending }) s
step completed s = complete_next s
step receiver_raised s = receive (record s { receiver = raised; todo = failures s.pending }) s
step receiver_returned s = receive (if s.cancelled then record s { receiver = returned } else s) s
step stopped s = record s { cancelled = true }
step (left id) s = leave id s
step released s = release s

unfoldable pub run : List Step → Session → Session
run [] s = s
run (x ∷ xs) s = run xs (step x s)
