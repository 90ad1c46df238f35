-- ===== src/Peer.antt =====
-- DelegateMQ/extras/databus/Participant.h: a remote node, its channels by remote id, and the filter of
-- duplicates. A channel is a RemoteChannel of extras/dispatcher/RemoteChannel.h: the remote delegate
-- that it owns and the target that it is bound to. The dispatchers of the channels share one transport
-- and one sequence number, so that they are one dispatcher here. A message type is a number, messages
-- are of one type `V`, and each operation holds the lock throughout. `show` writes a number to a
-- stream of characters; `transport` and `receive` are ITransport::Send and ITransport::Receive.
pub mod Channels
pub mod History
pub mod Typed
pub mod Requests
pub mod Errors
pub mod Latched
pub mod Once
pub mod Transfer
use async_http.Prelude.{
  ℕ, zero, suc, ◌+◌, ◌*◌, ◌/◌, ◌%◌, ◌^◌, Bool, true, false, ◌&&◌, not, Option, none, some, List, [],
  ◌∷◌, ◌++◌, ◌==◌, if◌then◌else◌,
}
use async_http.Prelude.Maps.{Map, lookup, insert}
use async_http.Prelude.Strings.{String, Dict, find, assign}
use async_http.Prelude.Erased.{Erased, Cast}
use async_http.Http.{Bytes}
use async_http.Reliable.Retry.{DmqHeader, minus_one}
use async_http.Wire.Frame.{marker, ack_remote_id}
use async_http.Wire.Dispatch.{Dispatcher}
use async_http.Remote.{
  DelegateError, success, err_stream_not_good, err_no_serializer, err_serialize, err_deserialize,
  err_deserialize_exception, err_no_dispatcher, err_dispatch, err_type_mismatch,
  err_transport_receive, err_capacity_exceeded, Stream, Serializer, Report, Remote, send, invoke,
}

abbrev pub error_code : DelegateError → ℕ
error_code success = 0
error_code err_stream_not_good = 1
error_code err_no_serializer = 2
error_code err_serialize = 3
error_code err_deserialize = 4
error_code err_deserialize_exception = 5
error_code err_no_dispatcher = 6
error_code err_dispatch = 7
error_code err_type_mismatch = 8
error_code err_transport_receive = 9
error_code err_capacity_exceeded = 10

abbrev pub history_size : ℕ
history_size = 8

-- SeqHistory
pub record SeqHistory : Type 0 where
  pub buffer : ℕ → ℕ
  pub valid : ℕ → Bool
  pub head : ℕ

abbrev pub new_history : SeqHistory
new_history = record { buffer = λ i. 0; valid = λ i. false; head = 0 }

-- The loop of is_duplicate over the first places.
unfoldable pub is_known : ℕ → ℕ → SeqHistory → Bool
is_known zero seq h = false
is_known (suc i) seq h = if h.valid i && (h.buffer i == seq) then true else is_known i seq h

unfoldable pub is_duplicate : ℕ → SeqHistory → Bool × SeqHistory
unfolding is_known
is_duplicate seq h = if is_known history_size seq h then (true, h) else (
  false,
  record {
    buffer = λ i. if i == h.head then seq else h.buffer i;
    valid = λ i. if i == h.head then true else h.valid i;
    head = (h.head + 1) % history_size;
  },
)

-- `bits & (1 << i)`
unfoldable pub bit_is_set : ℕ → ℕ → Bool
bit_is_set bits zero = bits % 2 == 1
bit_is_set bits (suc i) = bit_is_set (bits / 2) i

-- `bits | (1 << i)`
unfoldable pub set_bit : ℕ → ℕ → ℕ
set_bit bits zero = (bits / 2) * 2 + 1
set_bit bits (suc i) = set_bit (bits / 2) i * 2 + bits % 2

unfoldable pub bits_of : String → Dict ℕ → ℕ
bits_of topic m = elim (find topic m) [ none ↦ 0 | some bits ↦ bits ]

-- The latch of an error, a bit of its topic: whether the signal fires, and the latches afterwards.
unfoldable pub latch : Bool → String → DelegateError → Dict ℕ → Bool × Dict ℕ
unfolding bits_of bit_is_set set_bit
latch continuous topic e m =
    let bits = bits_of topic m in
    if bit_is_set bits (error_code e)
    then (continuous, m)
    else (true, assign topic (set_bit bits (error_code e)) m)

-- RemoteChannel: the handler that is bound is a number.
pub record Channel (V : Type 0) : Type 0 where
  pub remote : Remote V
  pub target : Option ℕ

pub record Participant (V W : Type 0) : Type 0 where
  pub send_thread : Option ℕ
  pub continuous_errors : Bool
  pub topic_to_remote_id : Dict ℕ
  pub channels : Map (Erased (Channel V))
  pub channel_types : Map ℕ
  pub reported_errors : Dict ℕ
  pub history : Map SeqHistory
  pub dispatcher : Dispatcher W
  pub casts : List Cast

-- What an operation does to the outside: errors to the subscribers, sends that are posted to the
-- thread, calls of bound handlers, and the end of the program by FaultHandler.
pub data Act (V : Type 0) : Type 0 where
  error_signal : String → DelegateError → Act V
  posted : ℕ → ℕ → V → Act V
  called : ℕ → V → Act V
  faulted : Act V

-- "UnknownRemoteId:"
abbrev pub unknown_remote_id : String
unknown_remote_id =
    85 ∷ 110 ∷ 107 ∷ 110 ∷ 111 ∷ 119 ∷ 110 ∷ 82 ∷ 101 ∷ 109 ∷ 111 ∷ 116 ∷ 101 ∷ 73 ∷ 100 ∷ 58 ∷ []

abbrev pub is_empty : String → Bool
is_empty [] = true
is_empty (c ∷ s) = false

abbrev pub is_success : DelegateError → Bool
is_success success = true
is_success _ = false

-- The first topic with that remote id, or an empty string.
unfoldable pub topic_of : ℕ → Dict ℕ → String
topic_of id [] = []
topic_of id ((topic, rid) ∷ m) = if rid == id then topic else topic_of id m
