-- ===== src/Interop/Server.antt =====
-- `Server.request`, `Server.start` and `Server.stop` of scripts/interop.py.
pub mod Lifecycle
use wu_kong_easy_sdk_csharp.Common.{
  ℕ, zero, suc, ◌+◌, Bool, true, false, not, Option, none, some, List, [], ◌∷◌, ◌==◌, if◌then◌else◌,
}
use wu_kong_easy_sdk_csharp.Python.Result.{
  Exc, runtime_error, timeout_error, url_error, Result, ok, err,
}

-- How `urlopen` ends: a response with its status and body, or an exception. `HTTPError` is a `URLError`.
pub data Reply : Type 0 where
  response : (status : ℕ) (body : List ℕ) → Reply
  url_failure timeout : Reply
  broken : Exc → Reply

-- The parser is `json.loads`; an empty body is None.
module _ {J : Type 0} (loads : List ℕ → Result J) where
  unfoldable pub parse_body : List ℕ → Result (Option J)
  parse_body [] = ok none
  parse_body (b ∷ bs) = elim (loads (b ∷ bs)) [ ok v ↦ ok (some v) | err e ↦ err e ]

  unfoldable pub request : Reply → Result (Option J)
  request (response status body) =
      if not (status == 200) then err (runtime_error "Fixture HTTP failure") else parse_body body
  request url_failure = err url_error
  request timeout = err timeout_error
  request (broken e) = err e

  -- One round of `start`: the process's exit code, and the reply of /readyz.
  pub record Look : Type 0 where
    pub returncode : Option ℕ
    pub reply : Reply

  pub data Next : Type 0 where
    started : Next
    failed : Exc → Next
    again : Next

  abbrev after_request : Result (Option J) → Next
  after_request (ok v) = started
  after_request (err url_error) = again
  after_request (err timeout_error) = again
  after_request (err e) = failed e

  unfoldable pub look : Look → Next
  look l = elim l.returncode [
    | some c ↦ failed (runtime_error "Owned server exited before readiness")
    | none ↦ after_request (request l.reply)
  ]

  -- The rounds that the timeout of 30 seconds lets happen.
  unfoldable pub start : List Look → Result (Unit {0})
  start [] = err timeout_error
  start (l ∷ ls) = elim (look l) [ started ↦ ok tt | failed e ↦ err e | again ↦ start ls ]

-- The owned process as `stop` sees it: none was started, it runs, or it has ended.
pub data Process : Type 0 where
  absent running exited : Process

-- What `stop` does with it.
pub data Signal : Type 0 where
  term kill : Signal

-- `graceful` says that the process ends within the 15 seconds after the signal. A killed process ends:
-- `wait` has no timeout after `kill`.
unfoldable pub stop : (crash graceful : Bool) → Process → Process × List Signal
stop crash graceful running =
    let first = if crash then kill else term in
    (exited, if graceful then first ∷ [] else first ∷ kill ∷ [])
stop crash graceful p = (p, [])
