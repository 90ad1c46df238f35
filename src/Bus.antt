-- ===== src/Bus.antt =====
-- DelegateMQ/extras/databus/DataBus.h and DataBusQos.h: the data of the bus. A topic is a string, a
-- message type and a callback are numbers, and messages are of one type `V`. A shared_ptr<void> is what it
-- points to, with the type it was made with; a signal is the number of an object, so that connections
-- outlive a reset. Times are counts of microseconds. Each operation holds the locks throughout, and a
-- callback does not call the bus.
pub mod Slots
pub mod Rosters
pub mod Listed
pub mod Limiter
pub mod Registry
pub mod Publish
pub mod Subscribe
pub mod Calls
pub mod Tables
pub mod Typed
pub mod Safe
pub mod Sound
pub mod Cached
pub mod Last
pub mod Late
pub mod Local
pub mod Rates
use async_http.Prelude.{ℕ, Bool, true, false, Option, none, some, List, [], ◌∷◌, ◌++◌}
use async_http.Prelude.Strings.{String, Dict}
use async_http.Prelude.Erased.{Erased, Cast}
use async_http.Signals.{Signal, new_signal}
use async_http.Remote.{DelegateError, Serializer}
use async_http.Peer.{Act, Participant}

-- QoS
pub record Qos : Type 0 where
  pub last_value_cache : Bool
  pub lifespan : Option ℕ
  pub min_separation : Option ℕ

-- A slot of a topic's signal: the rate limiter is a number, with its `m_minSepRep`.
pub record Subscriber (V : Type 0) : Type 0 where
  pub callback : ℕ
  pub predicate : Option (V → Bool)
  pub limiter : Option (ℕ × ℕ)
  pub thread : Option ℕ

pub record SpyPacket : Type 0 where
  pub topic : String
  pub value : String
  pub timestamp_us : ℕ

pub record LvcEntry (V : Type 0) : Type 0 where
  pub value : Erased V
  pub timestamp : ℕ

-- The arrays m_participants and m_participantErrorConnections: a null pointer and a connection that
-- is not connected are `none`, and a connection is the participant whose error signal it is to.
pub record Roster : Type 0 where
  pub participants : ℕ → Option ℕ
  pub connections : ℕ → Option ℕ
  pub count : ℕ

-- What the bus does to the outside.
pub data Effect (V : Type 0) : Type 0 where
  delivered : ℕ → V → Effect V
  posted : ℕ → Subscriber V → V → Effect V
  monitored : List ℕ → SpyPacket → Effect V
  unhandled : List ℕ → String → Effect V
  error_told : List ℕ → String → DelegateError → Effect V
  peer_acted : ℕ → Act V → Effect V

-- The bus, the participants with the sequence number that their dispatchers share, and the rate
-- limiters with their last deliveries. `faulted` is set when FaultHandler has ended the program.
pub record Bus (V W : Type 0) : Type 0 where
  pub continuous_errors : Bool
  pub reported_errors : Dict ℕ
  pub signals : Dict (Erased ℕ)
  pub objects : ℕ → Signal (Subscriber V)
  pub next_object : ℕ
  pub type_indices : Dict ℕ
  pub roster : Roster
  pub serializers : Dict (Erased (Serializer V))
  pub last_values : Dict (LvcEntry V)
  pub topic_qos : Dict Bool
  pub stringifiers : Dict (Erased (V → String))
  pub monitor_signal : Signal ℕ
  pub unhandled_signal : Signal ℕ
  pub error_signal : Signal ℕ
  pub nodes : ℕ → Participant V W
  pub next_seq_num : ℕ
  pub last_deliveries : ℕ → ℕ
  pub next_limiter : ℕ
  pub effects : List (Effect V)
  pub casts : List Cast
  pub faulted : Bool

abbrev pub max_participants : ℕ
max_participants = 8

abbrev pub new_roster : Roster
new_roster = record { participants = λ i. none; connections = λ i. none; count = 0 }

-- The bus as the program starts, with the participants that it will make.
abbrev pub new_bus : {V W : Type 0} → (ℕ → Participant V W) → Bus V W
new_bus nodes = record {
  continuous_errors = false;
  reported_errors = [];
  signals = [];
  objects = λ i. new_signal;
  next_object = 0;
  type_indices = [];
  roster = new_roster;
  serializers = [];
  last_values = [];
  topic_qos = [];
  stringifiers = [];
  monitor_signal = new_signal;
  unhandled_signal = new_signal;
  error_signal = new_signal;
  nodes = nodes;
  next_seq_num = 0;
  last_deliveries = λ i. 0;
  next_limiter = 0;
  effects = [];
  casts = [];
  faulted = false;
}

module _ {V W : Type 0} where
  abbrev pub emit_effect : Effect V → Bus V W → Bus V W
  emit_effect e b = record b { effects = b.effects ++ (e ∷ []) }

  abbrev pub note_cast : ℕ → ℕ → Bus V W → Bus V W
  note_cast wanted actual b = record b {
    casts = b.casts ++ (record { wanted = wanted; actual = actual } ∷ []);
  }
