-- ===== src/Signals.antt =====
-- DelegateMQ/delegate/Signal.h: a signal, the states that its connections share, and emission.
-- A shared_ptr is the number of what it points to: states and copies are numbered as they are made. A
-- clone of a delegate is the delegate. Each operation holds the locks throughout, so that a history
-- is a list of operations; a connection is named by the number of its copy.
pub mod Promise
pub mod Disconnect
pub mod Emission
use async_http.Prelude.{
  ℕ, zero, suc, ◌+◌, ◌-◌, Bool, true, false, ◌&&◌, Option, none, some, List, [], ◌∷◌, ◌++◌, map,
  leb, ◌==◌, if◌then◌else◌, length,
}
use async_http.Prelude.Maps.{Map, lookup, insert, erase}

pub record SignalState (D : Type 0) : Type 0 where
  pub alive : Bool
  pub delegates : Map D

pub record Connection : Type 0 where
  pub state : ℕ
  pub connected : Bool

pub record Signal (D : Type 0) : Type 0 where
  pub states : ℕ → SignalState D
  pub state : ℕ  -- m_state
  pub next_state : ℕ
  pub connections : Map Connection
  pub next_copy : ℕ

abbrev pub signal_sbo_count : ℕ
signal_sbo_count = 8

module _ {D : Type 0} where
  abbrev pub put_state : ℕ → SignalState D → Signal D → Signal D
  put_state i s w = record w { states = λ j. if j == i then s else w.states j }

  abbrev pub current : Signal D → SignalState D
  current w = w.states w.state

  abbrev pub new_state : SignalState D
  new_state = record { alive = true; delegates = [] }

  -- SignalConnect
  unfoldable pub connect : D → Signal D → Signal D
  unfolding insert
  connect d w =
      let copy = w.next_copy in
      let s = current w in
      let pushed = put_state w.state (record s { delegates = s.delegates ++ ((copy, d) ∷ []) }) w in
      record pushed {
        connections = insert copy (record { state = w.state; connected = true }) w.connections;
        next_copy = copy + 1;
      }

  -- SignalDisconnectImpl
  unfoldable pub disconnect_impl : ℕ → ℕ → Signal D → Signal D
  unfolding erase
  disconnect_impl state copy w =
      let s = w.states state in
      if s.alive then put_state state (record s { delegates = erase copy s.delegates }) w else w

  -- Connection::Disconnect
  unfoldable pub disconnect : ℕ → Signal D → Signal D
  unfolding disconnect_impl lookup insert
  disconnect copy w = elim (lookup copy w.connections) [
    | none ↦ w
    | some c ↦
        if c.connected
        then record (disconnect_impl c.state copy w) {
          connections = insert copy (record c { connected = false }) w.connections;
        }
        else w
  ]

  -- SignalMarkDead, of the destructor.
  unfoldable pub mark_dead : Signal D → Signal D
  mark_dead w = put_state w.state (record { alive = false; delegates = [] }) w

  -- SignalClear: a new state, and the old one is dead.
  unfoldable pub clear : Signal D → Signal D
  unfolding mark_dead
  clear w =
      let old = mark_dead w in
      record (put_state w.next_state new_state old) {
        state = w.next_state;
        next_state = w.next_state + 1;
      }

  -- SignalSize
  unfoldable pub size : Signal D → ℕ
  size w = length (current w).delegates

-- A snapshot: the small buffer has eight places, which hold null pointers at first.
pub record Snapshot (D : Type 0) : Type 0 where
  pub small_buf : List (Option D)
  pub large_buf : List D
  pub count : ℕ

module _ {D : Type 0} where
  -- The first places are written.
  unfoldable pub fill : ℕ → List D → List (Option D)
  fill zero ds = []
  fill (suc n) [] = none ∷ fill n []
  fill (suc n) (d ∷ ds) = some d ∷ fill n ds

  -- SignalGetSnapshot
  unfoldable pub get_snapshot : Signal D → Snapshot D
  unfolding fill
  get_snapshot w =
      let ds = map (λ e. e.1) (current w).delegates in
      if leb (length ds) signal_sbo_count
      then record { small_buf = fill signal_sbo_count ds; large_buf = []; count = length ds }
      else record { small_buf = fill signal_sbo_count []; large_buf = ds; count = length ds }

  -- The delegates that the first places hold, null pointers passed over.
  unfoldable pub small_calls : ℕ → List (Option D) → List D
  small_calls zero buf = []
  small_calls (suc i) [] = []
  small_calls (suc i) (none ∷ buf) = small_calls i buf
  small_calls (suc i) (some d ∷ buf) = d ∷ small_calls i buf

  -- InvokeSnapshot: the calls in their order.
  unfoldable pub invoke_snapshot : Snapshot D → List D
  unfolding small_calls
  invoke_snapshot s =
      if leb s.count signal_sbo_count then small_calls s.count s.small_buf else s.large_buf

  -- operator()
  unfoldable pub emit : Signal D → List D
  unfolding get_snapshot invoke_snapshot
  emit w = invoke_snapshot (get_snapshot w)

pub data Operation (D : Type 0) : Type 0 where
  connected_to : D → Operation D
  disconnected : ℕ → Operation D
  cleared : Operation D

module _ {D : Type 0} where
  unfoldable pub operate : Operation D → Signal D → Signal D
  unfolding connect disconnect clear
  operate (connected_to d) w = connect d w
  operate (disconnected copy) w = disconnect copy w
  operate cleared w = clear w

  unfoldable pub operate_all : List (Operation D) → Signal D → Signal D
  unfolding operate
  operate_all [] w = w
  operate_all (o ∷ os) w = operate_all os (operate o w)

  -- A signal as its constructor leaves it.
  abbrev pub new_signal : Signal D
  new_signal = record {
    states = λ _. new_state;
    state = 0;
    next_state = 1;
    connections = [];
    next_copy = 0;
  }
