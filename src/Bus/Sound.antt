-- ===== src/Bus/Sound.antt =====
-- Any series of calls of the bus of DataBus.h keeps the types of its topics.
use async_http.Prelude.{
  ℕ, zero, suc, Bool, true, Option, none, some, List, [], ◌∷◌, ◌≡◌, refl, sym, ap, subst, ◌==◌,
  if◌then◌else◌, if_both, option_cases, arith,
}
use async_http.Prelude.Strings.{String, find, assign}
use async_http.Prelude.Erased.{AreSafe}
use async_http.Http.{Bytes}
use async_http.Reliable.Retry.{DmqHeader}
use async_http.Remote.{err_capacity_exceeded}
use async_http.Peer.{Participant}
use async_http.Peer.Requests.{Request, serve}
use async_http.Bus.{Subscriber, Bus, Qos, note_cast, new_bus}
use async_http.Bus.Limiter.{call_slot, limiter_invoke}
use async_http.Bus.Registry.{
  get_or_create_signal, report_latched_error, enable_continuous, add_to_bus, reset, for_nodes,
  reset_node_errors, add_participant_name,
}
use async_http.Bus.Slots.{is_full}
use async_http.Bus.Subscribe.{
  add_limiter, enable_last_value, is_expired, deliver_last_value, connect_slot, connect_and_deliver,
  subscribe, Subscription,
}
use async_http.Bus.Calls.{
  Call, published, subscribed, unsubscribed, ran_posted, serializer_registered,
  stringifier_registered, cache_set, continuous_set, peer_added, peer_removed, peer_served,
  monitor_connected, unhandled_connected, error_connected, bus_reset, serve_peer, call, call_all,
}
use async_http.Bus.Tables.{
  tables, limiter_invoke-tables, call_slot-tables, report_latched_error-tables, note_acts-tables,
  for_nodes_mode-tables,
}
use async_http.Bus.Typed.{IsTyped}
use async_http.Bus.Typed.Registered.{
  get_or_create_signal-IsTyped, get_or_create_signal-here, mismatch-IsTyped,
  register_serializer-IsTyped, register_stringifier-IsTyped, IsOf, same-IsOf, cast-IsOf,
}
use async_http.Bus.Safe.{publish-IsTyped}

h_absurd : {A B : Type 0} {a : A} → none ≡ some a → B
h_absurd h = absurd (let f : ⊥ = cc in f)

module _ {V W : Type 0} where
  to-IsTyped : (b c : Bus V W) → tables c ≡ tables b → IsTyped (tables b) → IsTyped (tables c)
  to-IsTyped b c e v = subst IsTyped (sym e) v

  -- The flag of a topic is of no type.
  flagged-IsTyped :
      (q : _) (b : Bus V W) → IsTyped (tables b) → IsTyped (tables (record b { topic_qos = q }))
  flagged-IsTyped q b v = record {
    signals = v.signals;
    serializers = v.serializers;
    last_values = v.last_values;
    stringifiers = v.stringifiers;
    safe = v.safe;
  }

  enable_last_value-IsTyped :
      (topic : String) (qos : Qos) (b : Bus V W)
      → IsTyped (tables b)
      → IsTyped (tables (enable_last_value topic qos b))
  unfolding enable_last_value
  enable_last_value-IsTyped topic qos b v =
      let keeps : Bus V W → Type 0 = λ y. IsTyped (tables y) in
      if_both keeps qos.last_value_cache _ _ (flagged-IsTyped (assign topic true b.topic_qos) b v) v

  pub add_limiter-tables : (qos : Qos) (b : Bus V W) → tables (add_limiter qos b).1 ≡ tables b
  unfolding add_limiter
  add_limiter-tables qos b = ground arith

  deliver_last_value-IsTyped :
      (topic : String) (type : ℕ) (qos : Qos) (s : Subscriber V) (now : ℕ) (b : Bus V W)
      → IsOf topic type b
      → IsTyped (tables (deliver_last_value topic type qos s now b))
  unfolding deliver_last_value
  deliver_last_value-IsTyped topic type qos s now b v =
      let keeps : Bus V W → Type 0 = λ y. IsTyped (tables y) in
      if_both keeps qos.last_value_cache _ _
        (option_cases keeps (find topic b.last_values) _ _ (λ absent. v.typed)
          (λ entry found.
            let noted = note_cast type entry.value.made_as b in
            let w =
              cast-IsOf topic type entry.value.made_as b v
                (v.typed.last_values topic entry found) in
            if_both keeps (is_expired qos now entry.timestamp) _ _ v.typed (
              to-IsTyped noted (call_slot now entry.value.object s noted)
                (call_slot-tables now entry.value.object s noted) w.typed)))
        v.typed

  subscribe-IsTyped :
      (topic : String) (type callback : ℕ) (predicate : Option (V → Bool)) (thread : Option ℕ)
      (qos : Qos) (now : ℕ) (b : Bus V W)
      → IsTyped (tables b)
      → IsTyped (tables (subscribe topic type callback predicate thread qos now b).1)
  unfolding subscribe connect_and_deliver connect_slot
  subscribe-IsTyped topic type callback predicate thread qos now b v =
      let limited = add_limiter qos b in
      let enabled = enable_last_value topic qos limited.1 in
      let start =
        enable_last_value-IsTyped topic qos limited.1
          (to-IsTyped b limited.1 (add_limiter-tables qos b) v) in
      let found = get_or_create_signal topic type enabled in
      let typed = get_or_create_signal-IsTyped topic type enabled start in
      let s : Subscriber V = record {
        callback = callback;
        predicate = predicate;
        limiter = limited.0;
        thread = thread;
      } in
      let keeps : Option Subscription × Bus V W → Type 0 = λ y. IsTyped (tables y.1) in
      option_cases keeps found.0 _ _ (λ absent. mismatch-IsTyped topic found.1 typed)
        (λ object given.
          deliver_last_value-IsTyped topic type qos s now (connect_slot object s found.1).1 (
            same-IsOf topic type found.1 (connect_slot object s found.1).1 refl (record {
              typed = typed;
              here = get_or_create_signal-here topic type object enabled start given;
            })))

  reset_nodes-tables : (n : ℕ) (b : Bus V W) → tables (for_nodes reset_node_errors n b) ≡ tables b
  unfolding for_nodes
  reset_nodes-tables zero b = refl
  reset_nodes-tables (suc n) b = ground (arith, reset_nodes-tables n b)

  reset-IsTyped : (b : Bus V W) → IsTyped (tables b) → IsTyped (tables (reset b))
  unfolding reset find
  reset-IsTyped b v =
      let e : (for_nodes reset_node_errors b.roster.count b).casts ≡ b.casts =
        ap (λ t. t.casts) (reset_nodes-tables b.roster.count b) in
      record {
        signals = λ topic s h. h_absurd h;
        serializers = λ topic s h. h_absurd h;
        last_values = λ topic s h. h_absurd h;
        stringifiers = λ topic s h. h_absurd h;
        safe = subst AreSafe (sym e) v.safe;
      }

  add_to_bus-IsTyped :
      (peer : ℕ) (b : Bus V W) → IsTyped (tables b) → IsTyped (tables (add_to_bus peer b))
  unfolding add_to_bus
  add_to_bus-IsTyped peer b v =
      let keeps : Bus V W → Type 0 = λ y. IsTyped (tables y) in
      let told = report_latched_error add_participant_name err_capacity_exceeded b in
      if_both keeps (is_full b.roster) _ _
        (to-IsTyped b (record told { faulted = true })
          (report_latched_error-tables add_participant_name err_capacity_exceeded b) v)
        v

  module _ (show : ℕ → String) (transport : Bytes → DmqHeader → W → ℕ × W) where
    pub serve_peer-tables :
        (peer : ℕ) (request : Request V) (b : Bus V W)
        → tables (serve_peer show transport peer request b) ≡ tables b
    unfolding serve_peer
    serve_peer-tables peer request b =
        let p = b.nodes peer in
        let d =
          serve show transport request
            (record p { dispatcher = record p.dispatcher { next_seq_num = b.next_seq_num } }) in
        note_acts-tables peer d.0 (record b {
          nodes = λ i. if i == peer then d.1 else b.nodes i;
          next_seq_num = d.1.dispatcher.next_seq_num;
        })

    call-IsTyped :
        (c : Call V) (b : Bus V W) → IsTyped (tables b) → IsTyped (tables (call show transport c b))
    unfolding call
    call-IsTyped (published topic type v now local_only) b t =
        publish-IsTyped show transport topic type v now local_only b t
    call-IsTyped (subscribed topic type callback predicate thread qos now) b t =
        subscribe-IsTyped topic type callback predicate thread qos now b t
    call-IsTyped (unsubscribed c) b t = t
    call-IsTyped (ran_posted now s v) b t =
        to-IsTyped b (limiter_invoke now s v b) (limiter_invoke-tables now s v b) t
    call-IsTyped (serializer_registered topic type z) b t =
        register_serializer-IsTyped topic type z b t
    call-IsTyped (stringifier_registered topic type f) b t =
        register_stringifier-IsTyped topic type f b t
    call-IsTyped (cache_set topic enabled) b t =
        flagged-IsTyped (assign topic enabled b.topic_qos) b t
    call-IsTyped (continuous_set enable) b t =
        to-IsTyped b (enable_continuous enable b)
          (for_nodes_mode-tables enable b.roster.count (record b { continuous_errors = enable })) t
    call-IsTyped (peer_added peer) b t = add_to_bus-IsTyped peer b t
    call-IsTyped (peer_removed peer) b t = t
    call-IsTyped (peer_served peer request) b t =
        to-IsTyped b (serve_peer show transport peer request b) (serve_peer-tables peer request b) t
    call-IsTyped (monitor_connected callback) b t = t
    call-IsTyped (unhandled_connected callback) b t = t
    call-IsTyped (error_connected callback) b t = t
    call-IsTyped bus_reset b t = reset-IsTyped b t

    pub call_all-IsTyped :
        (cs : List (Call V)) (b : Bus V W)
        → IsTyped (tables b)
        → IsTyped (tables (call_all show transport cs b))
    unfolding call_all
    call_all-IsTyped [] b t = t
    call_all-IsTyped (c ∷ cs) b t =
        let keeps : Bus V W → Type 0 = λ y. IsTyped (tables y) in
        if_both keeps b.faulted _ _ t
          (call_all-IsTyped cs (call show transport c b) (call-IsTyped c b t))

    -- In any series of calls of a new bus, each static cast of a signal, a serializer, a
    -- stringifier or a last value is to the message type that the object was made with.
    pub call_all-AreSafe :
        (cs : List (Call V)) (nodes : ℕ → Participant V W)
        → AreSafe (call_all show transport cs (new_bus nodes)).casts
    unfolding find
    call_all-AreSafe cs nodes =
        (call_all-IsTyped cs (new_bus nodes) (record {
          signals = λ topic s h. h_absurd h;
          serializers = λ topic s h. h_absurd h;
          last_values = λ topic s h. h_absurd h;
          stringifiers = λ topic s h. h_absurd h;
          safe = tt;
        })).safe
