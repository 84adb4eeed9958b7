-- ===== src/Serving.antt =====
-- internal/runtime/server.go: ServeHTTP, with its recorder of the status, its answers and what it logs,
-- and StatusClass of internal/observ/metrics.go. The loads of the runtime and of the clock, the
-- random request id and the operations on addresses are arguments.
pub mod Recording
pub mod Serve
pub mod Reload
pub mod Answers
pub mod Handling
mod Scenarios
use nina.Prelude.{
  ℕ, zero, suc, ◌+◌, ◌/◌, Bool, true, false, not, ◌&&◌, ◌||◌, Option, none, some, List, [], ◌∷◌,
  ◌++◌, ltb, leb, nat_beq, if◌then◌else◌, all, length, Str, lit, str_eq, ◌==◌, join,
}
use nina.Prelude.Decimal.{decimal}
use nina.Http.{get, set_header}
use nina.Http.Writing.{
  Writer, Action, change, write_header, write, act, act_all, http_error, fresh_writer,
}
use nina.Router.{Param, Router, Result, match}
use nina.RouteTable.Build.{Route}
use nina.Reqctx.{Info, new_info, Request, client_ip}
use nina.Scanguard.Guard.{Ip, Net, Guard, Store, blocked, miss}
use nina.Httperr.{Problem, problem, Rendering, write_problem}

-- statusRecorder
pub record Recorder : Type 0 where
  pub writer : Writer
  pub status : ℕ
  pub bytes : ℕ
  pub wrote : Bool

abbrev pub new_recorder : Writer → Recorder
new_recorder w = record { writer = w; status = 200; bytes = 0; wrote = false }

-- WriteHeader
abbrev pub record_header : ℕ → Recorder → Recorder
record_header code rec =
    if rec.wrote
    then rec
    else record rec { writer = act rec.writer (write_header code); status = code; wrote = true }

-- Write, of bytes that the connection takes whole.
abbrev pub record_write : Str → Recorder → Recorder
record_write b rec =
    let started : Recorder = if not rec.wrote then record_header 200 rec else rec in
    record started { writer = act started.writer (write b); bytes = started.bytes + length b }

abbrev pub record_act : Recorder → Action → Recorder
record_act rec (change f) = record rec { writer = act rec.writer (change f) }
record_act rec (write_header code) = record_header code rec
record_act rec (write b) = record_write b rec

unfoldable pub record_all : Recorder → List Action → Recorder
record_all rec [] = rec
record_all rec (a ∷ rest) = record_all (record_act rec a) rest

-- How a handler ends: `aborted` is a panic with http.ErrAbortHandler.
pub data Outcome : Type 0 where
  returned panicked aborted : Outcome

-- What a handler does to the response, to the request's Info and to the state of the middleware.
pub record Ran (S : Type 0) : Type 0 where
  pub actions : List Action
  pub outcome : Outcome
  pub info : Info
  pub state : S

-- A handler at a time of the clock.
abbrev pub Handler : Type 0 → Type 0
Handler S = ℕ → Request → Info → S → Ran S

pub record BoundRoute (S : Type 0) : Type 0 where
  pub route : Route
  pub handler : Handler S

-- The runtime as ServeHTTP uses it.
pub record Running (S : Type 0) : Type 0 where
  pub router : Router (BoundRoute S)
  pub scan_guard : Option Guard

-- joinComma
unfoldable pub join_comma : List Str → Str
join_comma [] = []
join_comma (s ∷ []) = s
join_comma (s ∷ t ∷ rest) = s ++ lit ", " ++ join_comma (t ∷ rest)

-- isPrintableASCII
abbrev pub is_printable_ascii : Str → Bool
is_printable_ascii s = all (λ c. not (ltb c 32 || ltb 126 c)) s

-- requestID, with the id that is made up where the request brings none.
unfoldable pub request_id : Request → Str → Str
request_id r made =
    let v = get (lit "X-Request-Id") r.header in
    if not (v == []) && leb (length v) 128 && is_printable_ascii v then v else made

-- `int(left.Seconds() + 0.999)` of nanoseconds.
abbrev pub whole_seconds : ℕ → ℕ
whole_seconds left = (left + 999000000) / 1000000000

-- The problem documents that ServeHTTP and recover write.
abbrev pub blocked_problem : Problem
blocked_problem =
    problem 429 (lit "Temporarily blocked")
      (lit "too many requests for routes this gateway does not serve")

abbrev pub method_problem : List Str → Problem
method_problem allow =
    problem 405 (lit "Method not allowed") (lit "this path accepts " ++ join_comma allow)

abbrev pub unknown_problem : Request → Problem
unknown_problem r =
    problem 404 (lit "No such route")
      (lit "the gateway publishes no operation for " ++ r.method ++ lit " " ++ r.path)

abbrev pub panic_problem : Problem
panic_problem = problem 500 (lit "Internal gateway error") []

-- StatusClass
unfoldable pub status_class : ℕ → Str
unfolding decimal
status_class code =
    if ltb code 100 || ltb 599 code then lit "unknown" else decimal (code / 100) ++ lit "xx"

pub data Level : Type 0 where
  debug info_level warn error_level : Level

-- finish: the labels of the counter, and the level of the line in the log.
pub record Line : Type 0 where
  pub route : Str
  pub method : Str
  pub class : Str
  pub level : Level
  pub status : ℕ
  pub bytes : ℕ

unfoldable pub finish : Recorder → Request → Info → Line
finish rec r info = record {
  route =
      if info.blocked
      then lit "blocked"
      else if info.template == []
      then lit "unmatched"
      else info.template;
  method = r.method;
  class = status_class rec.status;
  level =
      if leb 500 rec.status
      then error_level
      else if info.blocked
      then debug
      else if leb 400 rec.status
      then warn
      else info_level;
  status = rec.status;
  bytes = rec.bytes;
}
