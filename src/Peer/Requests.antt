-- ===== src/Peer/Requests.antt =====
-- Series of calls of a participant of Participant.h, in any order.
use async_http.Prelude.{ℕ, Bool, false, Option, none, List, [], ◌∷◌, ◌++◌, refl}
use async_http.Prelude.Maps.{lookup}
use async_http.Prelude.Strings.{String}
use async_http.Prelude.Erased.{AreSafe}
use async_http.Http.{Bytes}
use async_http.Reliable.Retry.{DmqHeader}
use async_http.Wire.Dispatch.{Dispatcher}
use async_http.Remote.{Stream, Serializer}
use async_http.Peer.{Act, Participant}
use async_http.Peer.Channels.{
  add_remote_topic, register_handler, channel_send, dispatch_if_interested, process_incoming,
  async_send, set_send_thread, enable_continuous_errors, reset_errors,
}
use async_http.Peer.Typed.{type_of, IsTyped}
use async_http.Peer.Typed.Calls.{
  register_handler-IsTyped, process_incoming-IsTyped, channel_send-IsTyped,
  dispatch_if_interested-IsTyped,
}

-- A call of a participant, from any thread.
pub data Request (V : Type 0) : Type 0 where
  topic_added : String → ℕ → Request V
  handler_registered : ℕ → ℕ → Serializer V → ℕ → Request V
  dispatched : String → ℕ → V → Option (Serializer V) → Request V
  send_ran : ℕ → V → Request V
  arrived : ℕ → Stream → DmqHeader → Request V
  thread_set : Option ℕ → Request V
  continuous_set : Bool → Request V
  errors_reset : Request V

module _ {V W : Type 0} where
  -- A participant as its constructor leaves it, with the dispatcher of its transport.
  abbrev pub new_participant : Dispatcher W → Participant V W
  new_participant d = record {
    send_thread = none;
    continuous_errors = false;
    topic_to_remote_id = [];
    channels = [];
    channel_types = [];
    reported_errors = [];
    history = [];
    dispatcher = d;
    casts = [];
  }

module _ {V W : Type 0} (show : ℕ → String) (transport : Bytes → DmqHeader → W → ℕ × W) where
  -- One call: what it does, and the participant afterwards.
  unfoldable pub serve : Request V → Participant V W → List (Act V) × Participant V W
  unfolding add_remote_topic register_handler dispatch_if_interested channel_send process_incoming
  serve (topic_added topic id) p = ([], add_remote_topic topic id p)
  serve (handler_registered type id z handler) p =
      let d = register_handler show type id z handler p in (d.acts, d.peer)
  serve (dispatched topic type x z) p =
      let d = dispatch_if_interested show transport topic type x z p in (d.acts, d.peer)
  serve (send_ran id x) p = let d = async_send show transport id x p in (d.acts, d.peer)
  serve (arrived result stream header) p =
      let d = process_incoming show result stream header p in (d.acts, d.peer)
  serve (thread_set thread) p = ([], set_send_thread thread p)
  serve (continuous_set enable) p = ([], enable_continuous_errors enable p)
  serve errors_reset p = ([], reset_errors p)

  unfoldable pub serve_all : List (Request V) → Participant V W → List (Act V) × Participant V W
  unfolding serve
  serve_all [] p = ([], p)
  serve_all (r ∷ rs) p =
      let first = serve r p in let rest = serve_all rs first.1 in (first.0 ++ rest.0, rest.1)

  serve-IsTyped : (r : Request V) (p : Participant V W) → IsTyped p → IsTyped (serve r p).1
  unfolding serve add_remote_topic
  serve-IsTyped (topic_added topic id) p v = record { agree = v.agree; safe = v.safe }
  serve-IsTyped (handler_registered type id z handler) p v =
      register_handler-IsTyped show type id z handler p v
  serve-IsTyped (dispatched topic type x z) p v =
      dispatch_if_interested-IsTyped show transport topic type x z p v
  serve-IsTyped (send_ran id x) p v = channel_send-IsTyped show transport id x p v
  serve-IsTyped (arrived result stream header) p v =
      process_incoming-IsTyped show result stream header p v
  serve-IsTyped (thread_set thread) p v = record { agree = v.agree; safe = v.safe }
  serve-IsTyped (continuous_set enable) p v = record { agree = v.agree; safe = v.safe }
  serve-IsTyped errors_reset p v = record { agree = v.agree; safe = v.safe }

  serve_all-IsTyped :
      (rs : List (Request V)) (p : Participant V W) → IsTyped p → IsTyped (serve_all rs p).1
  unfolding serve_all
  serve_all-IsTyped [] p v = v
  serve_all-IsTyped (r ∷ rs) p v = serve_all-IsTyped rs (serve r p).1 (serve-IsTyped r p v)

  -- In any series of calls of a new participant, each static cast of a channel is to the message
  -- type that the channel was made with.
  pub serve_all-AreSafe :
      (rs : List (Request V)) (d : Dispatcher W)
      → AreSafe (serve_all rs (new_participant d)).1.casts
  unfolding type_of lookup
  serve_all-AreSafe rs d =
      (serve_all-IsTyped rs (new_participant d) (record { agree = λ id. refl; safe = tt })).safe
