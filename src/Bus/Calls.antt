-- ===== src/Bus/Calls.antt =====
-- Series of calls of the bus of DataBus.h, in any order.
use async_http.Prelude.{ℕ, Bool, Option, List, [], ◌∷◌, ◌==◌, if◌then◌else◌}
use async_http.Prelude.Strings.{String}
use async_http.Http.{Bytes}
use async_http.Reliable.Retry.{DmqHeader}
use async_http.Signals.{connect}
use async_http.Remote.{Serializer}
use async_http.Peer.Requests.{Request, serve}
use async_http.Bus.{Qos, Subscriber, Bus}
use async_http.Bus.Registry.{
  register_serializer, register_stringifier, last_value_cache, enable_continuous, add_to_bus,
  remove_from_bus, reset,
}
use async_http.Bus.Publish.{publish, note_acts}
use async_http.Bus.Subscribe.{Subscription, subscribe, unsubscribe, run_posted}

pub data Call (V : Type 0) : Type 0 where
  published : String → ℕ → V → ℕ → Bool → Call V
  subscribed : String → ℕ → ℕ → Option (V → Bool) → Option ℕ → Qos → ℕ → Call V
  unsubscribed : Subscription → Call V
  ran_posted : ℕ → Subscriber V → V → Call V
  serializer_registered : String → ℕ → Serializer V → Call V
  stringifier_registered : String → ℕ → (V → String) → Call V
  cache_set : String → Bool → Call V
  continuous_set : Bool → Call V
  peer_added peer_removed : ℕ → Call V
  peer_served : ℕ → Request V → Call V
  monitor_connected unhandled_connected error_connected : ℕ → Call V
  bus_reset : Call V

module _ {V W : Type 0} (show : ℕ → String) (transport : Bytes → DmqHeader → W → ℕ × W) where
  -- A call of a participant itself, whose errors the bus is told.
  unfoldable pub serve_peer : ℕ → Request V → Bus V W → Bus V W
  unfolding serve note_acts
  serve_peer peer request b =
      let p = b.nodes peer in
      let d =
        serve show transport request
          (record p { dispatcher = record p.dispatcher { next_seq_num = b.next_seq_num } }) in
      note_acts peer d.0 (record b {
        nodes = λ i. if i == peer then d.1 else b.nodes i;
        next_seq_num = d.1.dispatcher.next_seq_num;
      })

  unfoldable pub call : Call V → Bus V W → Bus V W
  unfolding publish subscribe unsubscribe register_serializer register_stringifier last_value_cache
      enable_continuous add_to_bus remove_from_bus serve_peer connect reset
  call (published topic type v now local_only) b =
      publish show transport topic type v now local_only b
  call (subscribed topic type callback predicate thread qos now) b =
      (subscribe topic type callback predicate thread qos now b).1
  call (unsubscribed c) b = unsubscribe c b
  call (ran_posted now s v) b = run_posted now s v b
  call (serializer_registered topic type z) b = register_serializer topic type z b
  call (stringifier_registered topic type f) b = register_stringifier topic type f b
  call (cache_set topic enabled) b = last_value_cache topic enabled b
  call (continuous_set enable) b = enable_continuous enable b
  call (peer_added peer) b = add_to_bus peer b
  call (peer_removed peer) b = remove_from_bus peer b
  call (peer_served peer request) b = serve_peer peer request b
  call (monitor_connected callback) b = record b {
    monitor_signal = connect callback b.monitor_signal;
  }
  call (unhandled_connected callback) b = record b {
    unhandled_signal = connect callback b.unhandled_signal;
  }
  call (error_connected callback) b = record b { error_signal = connect callback b.error_signal }
  call bus_reset b = reset b

  -- The calls of a program, which a fault ends.
  unfoldable pub call_all : List (Call V) → Bus V W → Bus V W
  unfolding call
  call_all [] b = b
  call_all (c ∷ cs) b = let rest = call_all cs (call c b) in if b.faulted then b else rest
