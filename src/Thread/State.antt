-- ===== src/Thread/State.antt =====
-- The data of a worker thread of StdlibThread.cpp and ThreadMsg.h: its lanes, its statistics, and
-- what its operations report.
use async_http.Prelude.{ℕ, ◌+◌, ◌-◌, max, Bool, Option, List}

pub data Priority : Type 0 where
  normal high : Priority

pub data FullPolicy : Type 0 where
  drop fault timeout : FullPolicy

pub data ExitPolicy : Type 0 where
  drain discard : ExitPolicy

pub record DelegateMsg {ℓ} (M : Type ℓ) : Type ℓ where
  pub priority : Priority
  pub invoker : M

-- The number is the time at which the message was enqueued.
pub data ThreadMsg {ℓ} (M : Type ℓ) : Type ℓ where
  dispatch_msg : DelegateMsg M → ℕ → ThreadMsg M
  exit_msg : ThreadMsg M

pub record Stats : Type 0 where
  pub depth_max_window : ℕ
  pub depth_max_all : ℕ
  pub latency_total : ℕ
  pub latency_count : ℕ
  pub latency_max_window : ℕ
  pub latency_max_all : ℕ
  pub invoke_total : ℕ
  pub invoke_count : ℕ
  pub invoke_max_window : ℕ
  pub invoke_max_all : ℕ
  pub dispatch_count : ℕ

pub record Thread {ℓ} (M : Type ℓ) : Type ℓ where
  pub created : Bool  -- `m_thread` holds a thread
  pub exit : Bool
  pub high_queue : List (ThreadMsg M)
  pub normal_queue : List (ThreadMsg M)
  pub max_queue_size : ℕ
  pub full_policy : FullPolicy
  pub dropped_handler : Bool  -- whether one is set
  pub stats : Stats

abbrev pub desktop_queue_size : ℕ
desktop_queue_size = 1000

-- What `DispatchDelegate` does: `accepted` returns true; `dropped` returns false, after a call of the
-- handler with the depth it holds; `exiting` returns false; `no_thread` throws; `faulted` never returns.
pub data Outcome : Type 0 where
  accepted exiting no_thread faulted : Outcome
  dropped : Option ℕ → Outcome

-- How a delegate's `Invoke` ends: `failed` is a result of false or an exception, `self_exit` a call of
-- `ExitThread` on the thread that runs it.
pub data Invoked : Type 0 where
  completed failed self_exit : Invoked

pub record Run : Type 0 where
  pub result : Invoked
  pub dequeued : ℕ
  pub started : ℕ
  pub ended : ℕ

-- What one round of `Process` does.
pub data Event {ℓ} (M : Type ℓ) : Type ℓ where
  loop_returned idle_waited idle_run : Event M
  invoked : DelegateMsg M → Invoked → Event M

abbrev pub no_stats : Stats
no_stats = record {
  depth_max_window = 0;
  depth_max_all = 0;
  latency_total = 0;
  latency_count = 0;
  latency_max_window = 0;
  latency_max_all = 0;
  invoke_total = 0;
  invoke_count = 0;
  invoke_max_window = 0;
  invoke_max_all = 0;
  dispatch_count = 0;
}

-- Snapshot with the averages left as their total and count; the windowed fields start anew.
pub snapshot_stats : Stats → Stats × Stats
snapshot_stats s = (
  s,
  record s {
    depth_max_window = 0;
    latency_total = 0;
    latency_count = 0;
    latency_max_window = 0;
    invoke_total = 0;
    invoke_count = 0;
    invoke_max_window = 0;
  },
)

abbrev pub note_depth : ℕ → Stats → Stats
note_depth n s = record s {
  depth_max_window = max s.depth_max_window n;
  depth_max_all = max s.depth_max_all n;
}

abbrev pub note_latency : ℕ → Stats → Stats
note_latency d s = record s {
  latency_total = s.latency_total + d;
  latency_count = s.latency_count + 1;
  latency_max_window = max s.latency_max_window d;
  latency_max_all = max s.latency_max_all d;
  dispatch_count = s.dispatch_count + 1;
}

abbrev pub note_invoke : ℕ → Stats → Stats
note_invoke d s = record s {
  invoke_total = s.invoke_total + d;
  invoke_count = s.invoke_count + 1;
  invoke_max_window = max s.invoke_max_window d;
  invoke_max_all = max s.invoke_max_all d;
}

-- The statistics after a delegate has run; a thread that left in the delegate updates no more.
abbrev pub after_run : Run → ℕ → Stats → Stats
after_run r enqueued s =
    let s' = note_latency (r.dequeued - enqueued) s in
    elim r.result [ completed ↦ note_invoke (r.ended - r.started) s' | _ ↦ s' ]
