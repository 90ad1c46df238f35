-- ===== src/Thread.antt =====
-- DelegateMQ/port/os/stdlib/StdlibThread.cpp: a worker thread with two message lanes, with
-- ThreadMsg of port/os/common/ThreadMsg.h and the priorities of delegate/DelegateMsg.h.
-- A delegate is any `M`; what running it does is told by a `Run`. Times are numbers of one unit.
-- `DMQ_DATABUS_TOOLS` is on, as it is by default on a desktop, so the statistics are part of the
-- state. A function is what happens under `m_mutex`; a wait is a second state, the one woken in.
mod State
pub mod Bounds
pub mod Dispatch
pub mod History
pub mod Order
pub mod Exit
pub mod Work
pub use State.*
use async_http.Prelude.{
  ℕ, zero, suc, ◌+◌, ◌-◌, max, Bool, true, false, not, ◌&&◌, ◌||◌, Option, none, some, List, [],
  ◌∷◌, ◌++◌, ltb, leb, ◌==◌, if◌then◌else◌, length,
}

module _ {ℓ} {M : Type ℓ} where
  -- `ThreadMsg::GetPriority`
  abbrev pub get_priority : ThreadMsg M → Priority
  get_priority (dispatch_msg m t) = m.priority
  get_priority exit_msg = normal

  -- The constructor: a size of 0 stands for the default.
  unfoldable pub make : ℕ → FullPolicy → Thread M
  make size policy = record {
    created = false;
    exit = false;
    high_queue = [];
    normal_queue = [];
    max_queue_size = (if size == 0 then desktop_queue_size else size);
    full_policy = policy;
    dropped_handler = false;
    stats = no_stats;
  }

  abbrev pub get_queue_size : Thread M → ℕ
  get_queue_size t = length t.high_queue + length t.normal_queue

  unfoldable pub create_thread : Thread M → Thread M
  create_thread t = if t.created then t else record t { created = true; exit = false }

  -- The lane that a message goes to.
  abbrev pub push_back : ThreadMsg M → Thread M → Thread M
  push_back m t = elim (get_priority m) [
    | high ↦ record t { high_queue = t.high_queue ++ (m ∷ []) }
    | normal ↦ record t { normal_queue = t.normal_queue ++ (m ∷ []) }
  ]

  -- The end of `DispatchDelegate`, once there is space.
  unfoldable pub enqueue : Thread M → DelegateMsg M → ℕ → Outcome × Thread M
  enqueue t msg now =
      let t' = push_back (dispatch_msg msg now) t in
      if t.exit
      then (exiting, t)
      else (accepted, record t' { stats = note_depth (get_queue_size t') t.stats })

  abbrev pub drop_call : Thread M → Outcome
  drop_call t = dropped (if t.dropped_handler then some (get_queue_size t) else none)

  -- The predicate that a producer waits for under `FullPolicy::TIMEOUT`.
  abbrev pub has_space : Thread M → Bool
  has_space t = ltb (get_queue_size t) t.max_queue_size || t.exit

  abbrev pub is_full : Thread M → Bool
  is_full t = ltb 0 t.max_queue_size && leb t.max_queue_size (get_queue_size t)

  -- The end of the wait, in the state that the producer wakes in.
  unfoldable pub wake : Thread M → DelegateMsg M → ℕ → Outcome × Thread M
  unfolding enqueue
  wake woken msg now = if has_space woken then enqueue woken msg now else (drop_call woken, woken)

  -- `DispatchDelegate`; `woken` is read only if the call waits.
  unfoldable pub dispatch_delegate : Thread M → Thread M → DelegateMsg M → ℕ → Outcome × Thread M
  unfolding enqueue wake
  dispatch_delegate t woken msg now =
      if t.exit
      then (exiting, t)
      else if not t.created
      then (no_thread, t)
      else if is_full t
      then elim t.full_policy [
        | drop ↦ (drop_call t, t)
        | fault ↦ (faulted, t)
        | timeout ↦ wake woken msg now
      ]
      else enqueue t msg now

  -- The next message: the high lane goes first.
  abbrev pub pop_front : Thread M → Option (ThreadMsg M × Thread M)
  pop_front t = elim t.high_queue [
    | m ∷ rest ↦ some (m, record t { high_queue = rest })
    | [] ↦ elim t.normal_queue [ m ∷ rest ↦ some (m, record t { normal_queue = rest }) | [] ↦ none ]
  ]

  abbrev handle : (M → Run) → ThreadMsg M → Thread M → Event M × Thread M
  handle run (dispatch_msg m enqueued) t = (
    invoked m (run m.invoker).result,
    record t { stats = after_run (run m.invoker) enqueued t.stats },
  )
  handle run exit_msg t = (loop_returned, t)

  -- One round of the loop of `Process`, after its wait.
  unfoldable pub process_step : (M → Run) → Bool → Thread M → Event M × Thread M
  process_step run idle_due t = elim (pop_front t) [
    | none ↦
        if t.exit then (loop_returned, t) else if idle_due then (idle_run, t) else (idle_waited, t)
    | some (m, t') ↦ handle run m t'
  ]

  -- The delegates among messages; `CancelAll` calls `Cancel` on these.
  abbrev pub delegates : List (ThreadMsg M) → List (DelegateMsg M)
  delegates [] = []
  delegates (dispatch_msg m t ∷ rest) = m ∷ delegates rest
  delegates (exit_msg ∷ rest) = delegates rest

  -- `ExitThread` up to the join, with what it takes off the lanes.
  unfoldable pub exit_begin : ExitPolicy → Thread M → List (DelegateMsg M) × Thread M
  exit_begin drain t = ([], push_back exit_msg (record t { exit = true }))
  exit_begin discard t = (
    delegates t.high_queue ++ delegates t.normal_queue,
    push_back exit_msg (record t { exit = true; high_queue = []; normal_queue = [] }),
  )

  -- `ExitThread` after the join or the detach.
  unfoldable pub exit_end : Thread M → List (DelegateMsg M) × Thread M
  exit_end t = (
    delegates t.high_queue ++ delegates t.normal_queue,
    record t { created = false; high_queue = []; normal_queue = [] },
  )
