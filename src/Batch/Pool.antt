-- ===== src/Batch/Pool.antt =====
-- internal/mcpbatch/execute.go: the calls of a batch run by a bounded pool of workers. The scheduler, the
-- workers and the parent's cancellation are interleaved in any order, one atomic access to a shared value at
-- a time.
pub mod Family
pub mod Owned
pub mod Genuine
pub mod Written
pub mod Settled
pub mod Progress
pub mod Bounded
use jinn.Base.{
  ℕ, suc, ◌+◌, ◌≤◌, ◌<◌, ◌≡◌, Bool, true, false, not, ◌||◌, ◌&&◌, Option, none, some, List, [], ◌∷◌,
  Bytes, codes, length, get_or, ltb, leb, if◌then◌else◌, ℤ, pos, negsuc,
}
use jinn.Batch.{Call, Request}
use jinn.Batch.Pool.Family.{set_at}

-- The status of a result; `unset` is the empty string it starts with.
pub data Status : Type 0 where
  unset canceled ok skipped tool_error transport_error timeout : Status

-- Result; `V` is the type of what the projector gives.
pub record Result (V : Type 0) : Type 0 where
  pub id : Bytes
  pub is_ok : Bool
  pub status : Status
  pub duration_ms : ℕ
  pub result : Option V
  pub error : Bytes

-- What Caller.Call returns: an error, with what errors.Is finds in it and in the context of the call; a nil
-- result; or a result.
pub data Reply (R : Type 0) : Type 0 where
  failed_call : Bytes → Bool → Bool → Bool → Reply R
  no_result : Reply R
  returned_result : R → Reply R

-- What the projector gives.
pub data Projection (V : Type 0) : Type 0 where
  not_projected : Bytes → Projection V
  projected : V → Projection V

-- Where the scheduler is: before its test, at the select, or behind the closed channel of jobs.
pub data Scheduler : Type 0 where
  checking selecting stopped : Scheduler

-- Where a worker is. `winning` has set the failed flag and is to cancel.
pub data Worker (V : Type 0) : Type 0 where
  waiting winning finished : Worker V
  taken stopping starting invoked : ℕ → Worker V
  called : ℕ → Result V → Worker V
  stored : Bool → Worker V

pub record Pool (V : Type 0) : Type 0 where
  pub scheduled : ℕ
  pub scheduler : Scheduler
  pub cancelled : Bool
  pub failed : Bool
  pub worker : ℕ → Worker V
  pub results : ℕ → Result V
  pub calls_made : ℕ → ℕ
  pub returned : Bool

-- How many workers a batch starts.
abbrev pub worker_count : Option ℤ → ℕ
worker_count (some (pos n)) = n
worker_count _ = 0

-- AllOK
unfoldable pub all_ok : {V : Type 0} → List (Result V) → Bool
all_ok [] = true
all_ok (r ∷ rs) = r.is_ok && all_ok rs

abbrev pub outcome : {V : Type 0} → Bytes → ℕ → Status → Bytes → Result V
outcome id ms status error = record {
  id = id;
  is_ok = false;
  status = status;
  duration_ms = ms;
  result = none;
  error = error;
}

abbrev pub with_status : {V : Type 0} → Result V → Status → Result V
with_status r status = record r { status = status }

-- What becomes of an index that is not run.
abbrev pub left_out : Bool → Bool → Status
left_out fail_fast failed = if fail_fast && failed then Status.skipped else Status.canceled

abbrev pub no_call : {A : Type 0} → Call A
no_call = record { id = []; tool = []; arguments = none; select = none; head = none }

module _ {A R V : Type 0} (project : R → Call A → Projection V) (is_error : R → Bool)
    (input : Request A) where
  abbrev pub call_at : ℕ → Call A
  call_at index = get_or input.calls index no_call

  -- Err of the executor's own context, read when the call is back, comes first.
  abbrev pub error_outcome : Bool → Bytes → ℕ → Bytes → Bool → Bool → Bool → Result V
  error_outcome cancelled id ms text call_expired is_deadline is_canceled =
      if cancelled
      then outcome id ms Status.canceled text
      else if call_expired || is_deadline
      then outcome id ms Status.timeout (codes "context deadline exceeded")
      else if is_canceled
      then outcome id ms Status.canceled text
      else outcome id ms Status.transport_error text

  abbrev pub projected_outcome : Bytes → ℕ → Bool → Projection V → Result V
  projected_outcome id ms error (Projection.not_projected text) =
      outcome id ms Status.transport_error text
  projected_outcome id ms error (Projection.projected v) =
      if error
      then record (outcome {V = V} id ms Status.tool_error []) { result = some v }
      else record (outcome {V = V} id ms Status.ok []) { is_ok = true; result = some v }

  -- executeCall, from the reply of the caller on.
  abbrev pub execute_call : Bool → ℕ → ℕ → Reply R → Result V
  execute_call cancelled index ms (Reply.failed_call text expired is_deadline is_canceled) =
      error_outcome cancelled (call_at index).id ms text expired is_deadline is_canceled
  execute_call cancelled index ms Reply.no_result =
      outcome (call_at index).id ms Status.transport_error
        (codes "MCP tools/call returned an empty result")
  execute_call cancelled index ms (Reply.returned_result r) =
      projected_outcome (call_at index).id ms (is_error r) (project r (call_at index))

  -- Execute, before its goroutines start; the parent's context may be done already.
  abbrev pub start : Bool → Pool V
  start cancelled = record {
    scheduled = 0;
    scheduler = Scheduler.checking;
    cancelled = cancelled;
    failed = false;
    worker = λ _. Worker.waiting;
    results = λ index. outcome (call_at index).id 0 Status.unset [];
    calls_made = λ _. 0;
    returned = false;
  }

  -- finalizeUnscheduled
  abbrev pub finalized : Pool V → ℕ → Result V
  finalized s index =
      if leb s.scheduled index && ltb index (length input.calls)
      then with_status (s.results index) (left_out input.fail_fast s.failed)
      else s.results index

  abbrev pub moved : Pool V → ℕ → Worker V → Pool V
  moved s w p = record s { worker = set_at s.worker w p }

  pub data Step (s : Pool V) : Pool V → Type 0 where
    cancel_parent : s.cancelled ≡ false → Step s (record s { cancelled = true })
    all_sent :
        s.scheduler ≡ Scheduler.checking
        → length input.calls ≤ s.scheduled
        → Step s (record s { scheduler = Scheduler.stopped })
    stop_failed :
        s.scheduler ≡ Scheduler.checking
        → s.scheduled < length input.calls
        → (input.fail_fast && s.failed) ≡ true
        → Step s (record s { scheduler = Scheduler.stopped })
    go_on :
        s.scheduler ≡ Scheduler.checking
        → s.scheduled < length input.calls
        → (input.fail_fast && s.failed) ≡ false
        → Step s (record s { scheduler = Scheduler.selecting })
    stop_done :
        s.scheduler ≡ Scheduler.selecting
        → s.cancelled ≡ true
        → Step s (record s { scheduler = Scheduler.stopped })
    send :
        (w : ℕ)
        → w < worker_count input.max_concurrency
        → s.scheduler ≡ Scheduler.selecting
        → s.worker w ≡ Worker.waiting
        → Step s (record s {
          scheduled = suc s.scheduled;
          scheduler = Scheduler.checking;
          worker = set_at s.worker w (Worker.taken s.scheduled);
        })
    see_cancel :
        (w i : ℕ)
        → w < worker_count input.max_concurrency
        → s.worker w ≡ Worker.taken i
        → s.cancelled ≡ true
        → Step s (moved s w (Worker.stopping i))
    see_open :
        (w i : ℕ)
        → w < worker_count input.max_concurrency
        → s.worker w ≡ Worker.taken i
        → s.cancelled ≡ false
        → Step s (moved s w (Worker.starting i))
    leave_out :
        (w i : ℕ)
        → w < worker_count input.max_concurrency
        → s.worker w ≡ Worker.stopping i
        → Step s (record s {
          worker = set_at s.worker w Worker.waiting;
          results =
              set_at s.results i (with_status (s.results i) (left_out input.fail_fast s.failed));
        })
    invoke :
        (w i : ℕ)
        → w < worker_count input.max_concurrency
        → s.worker w ≡ Worker.starting i
        → Step s (record s {
          worker = set_at s.worker w (Worker.invoked i);
          calls_made = set_at s.calls_made i (suc (s.calls_made i));
        })
    return :
        (w i ms : ℕ) (reply : Reply R)
        → w < worker_count input.max_concurrency
        → s.worker w ≡ Worker.invoked i
        → Step s (moved s w (Worker.called i (execute_call s.cancelled i ms reply)))
    store :
        (w i : ℕ) (r : Result V)
        → w < worker_count input.max_concurrency
        → s.worker w ≡ Worker.called i r
        → Step s (record s {
          worker = set_at s.worker w (Worker.stored r.is_ok);
          results = set_at s.results i r;
        })
    pass :
        (w : ℕ) (is_ok : Bool)
        → w < worker_count input.max_concurrency
        → s.worker w ≡ Worker.stored is_ok
        → (not is_ok && input.fail_fast && not s.failed) ≡ false
        → Step s (moved s w Worker.waiting)
    fail :
        (w : ℕ) (is_ok : Bool)
        → w < worker_count input.max_concurrency
        → s.worker w ≡ Worker.stored is_ok
        → (not is_ok && input.fail_fast && not s.failed) ≡ true
        → Step s (record s { failed = true; worker = set_at s.worker w Worker.winning })
    cancel :
        (w : ℕ)
        → w < worker_count input.max_concurrency
        → s.worker w ≡ Worker.winning
        → Step s (record s { cancelled = true; worker = set_at s.worker w Worker.waiting })
    leave :
        (w : ℕ)
        → w < worker_count input.max_concurrency
        → s.scheduler ≡ Scheduler.stopped
        → s.worker w ≡ Worker.waiting
        → Step s (moved s w Worker.finished)
    finish :
        s.returned ≡ false
        → s.scheduler ≡ Scheduler.stopped
        → ((w : ℕ) → w < worker_count input.max_concurrency → s.worker w ≡ Worker.finished)
        → Step s (record s { results = finalized s; returned = true })

  -- What a number of steps reaches.
  pub data Reach : ℕ → Pool V → Type 0 where
    started : (cancelled : Bool) → Reach 0 (start cancelled)
    later : {k : ℕ} {s t : Pool V} → Reach k s → Step s t → Reach (suc k) t
