-- ===== src/Bus/Last.antt =====
-- The last values of DataBus.h after any series of calls, and the one that a late subscriber gets.
use async_http.Prelude.{
  ℕ, Bool, true, false, ◌||◌, Option, none, List, [], ◌∷◌, ◌≡◌, inl, inr, refl, ap, ◌∙◌, Bool-cases,
  if◌then◌else◌, if_both, option_cases, arith,
}
use async_http.Prelude.Strings.{String, same_string, find, find-assign}
use async_http.Http.{Bytes}
use async_http.Reliable.Retry.{DmqHeader}
use async_http.Remote.{Serializer, err_capacity_exceeded}
use async_http.Peer.{Participant}
use async_http.Bus.{Subscriber, Bus, Qos, note_cast, new_bus}
use async_http.Bus.Registry.{
  check_or_establish_type, get_or_create_signal, register_serializer, register_stringifier,
  last_value_cache, add_to_bus, reset, add_participant_name,
}
use async_http.Bus.Slots.{is_full}
use async_http.Bus.Subscribe.{
  add_limiter, enable_last_value, is_expired, deliver_last_value, connect_slot, connect_and_deliver,
  subscribe, Subscription,
}
use async_http.Bus.Calls.{
  Call, published, subscribed, unsubscribed, ran_posted, serializer_registered,
  stringifier_registered, cache_set, continuous_set, peer_added, peer_removed, peer_served,
  monitor_connected, unhandled_connected, error_connected, bus_reset, call, call_all,
}
use async_http.Bus.Tables.{
  tables, limiter_invoke-tables, call_slot-tables, report_latched_error-tables,
  report_mismatch-tables, for_nodes_mode-tables,
}
use async_http.Bus.Sound.{serve_peer-tables, add_limiter-tables}
use async_http.Bus.Cached.{Topic, view, note_type, note_message}
use async_http.Bus.Cached.Published.{check-view, publish-view}

abbrev pub new_topic : {V : Type 0} → Topic V
new_topic = record { type = none; cached = false; last = none }

-- What a call means for a topic.
unfoldable pub note : {V : Type 0} → String → Call V → Topic V → Topic V
unfolding same_string
note topic (published q type v now local_only) t =
    if same_string topic q then note_message type v now t else t
note topic (subscribed q type callback predicate thread qos now) t =
    if same_string topic q
    then note_type type (record t { cached = qos.last_value_cache || t.cached })
    else t
note topic (serializer_registered q type z) t = if same_string topic q then note_type type t else t
note topic (stringifier_registered q type f) t = if same_string topic q then note_type type t else t
note topic (cache_set q enabled) t =
    if same_string topic q then (record t { cached = enabled }) else t
note topic bus_reset t = new_topic
note topic _ t = t

unfoldable pub note_all : {V : Type 0} → String → List (Call V) → Topic V → Topic V
unfolding note
note_all topic [] t = t
note_all topic (c ∷ cs) t = note_all topic cs (note topic c t)

module _ {V W : Type 0} (topic : String) where
  enable_last_value-view :
      (q : String) (qos : Qos) (b : Bus V W)
      → view topic (tables (enable_last_value q qos b)) ≡ (
          if same_string topic q
          then record (view topic (tables b)) {
            cached = qos.last_value_cache || (view topic (tables b)).cached;
          }
          else view topic (tables b))
  unfolding enable_last_value view
  enable_last_value-view q qos b = ground (arith, find-assign q topic true b.topic_qos)

  get_or_create_signal-view :
      (q : String) (type : ℕ) (b : Bus V W)
      → view topic (tables (get_or_create_signal q type b).1)
        ≡ view topic (tables (check_or_establish_type q type b).1)
  unfolding get_or_create_signal view
  get_or_create_signal-view q type b =
      let x = check_or_establish_type q type b in
      let keeps : Option ℕ × Bus V W → Type 0 =
        λ y. view topic (tables y.1) ≡ view topic (tables x.1) in
      if_both keeps x.0 _ _ refl
        (option_cases keeps (find q x.1.signals) _ _ (λ absent. refl) (λ s found. refl))

  deliver_last_value-view :
      (q : String) (type : ℕ) (qos : Qos) (s : Subscriber V) (now : ℕ) (b : Bus V W)
      → view topic (tables (deliver_last_value q type qos s now b)) ≡ view topic (tables b)
  unfolding deliver_last_value view
  deliver_last_value-view q type qos s now b =
      let keeps : Bus V W → Type 0 = λ y. view topic (tables y) ≡ view topic (tables b) in
      if_both keeps qos.last_value_cache _ _
        (option_cases keeps (find q b.last_values) _ _ (λ absent. refl)
          (λ entry found. if_both keeps (is_expired qos now entry.timestamp) _ _ refl (
            ap (view topic)
              (call_slot-tables now entry.value.object s (note_cast type entry.value.made_as b)))))
        refl

  subscribe-view :
      (q : String) (type callback : ℕ) (predicate : Option (V → Bool)) (thread : Option ℕ)
      (qos : Qos) (now : ℕ) (b : Bus V W)
      → view topic (tables (subscribe q type callback predicate thread qos now b).1)
        ≡ note topic (subscribed q type callback predicate thread qos now) (view topic (tables b))
  unfolding subscribe connect_and_deliver connect_slot note
  subscribe-view q type callback predicate thread qos now b =
      let limited = add_limiter qos b in
      let enabled = enable_last_value q qos limited.1 in
      let found = get_or_create_signal q type enabled in
      let start = enable_last_value-view q qos limited.1 in
      let same = ap (view topic) (add_limiter-tables qos b) in
      let s : Subscriber V = record {
        callback = callback;
        predicate = predicate;
        limiter = limited.0;
        thread = thread;
      } in
      let after : view topic (tables found.1)
          ≡ note topic (subscribed q type callback predicate thread qos now)
              (view topic (tables b)) =
        get_or_create_signal-view q type enabled
        ∙ check-view topic q type enabled
        ∙ ground (arith, start, same) in
      let keeps : Option Subscription × Bus V W → Type 0 = λ y.
        view topic (tables y.1)
        ≡ note topic (subscribed q type callback predicate thread qos now)
            (view topic (tables b)) in
      option_cases keeps found.0 _ _
        (λ absent. ap (view topic) (report_mismatch-tables q found.1) ∙ after)
        (λ object given.
          deliver_last_value-view q type qos s now (connect_slot object s found.1).1 ∙ after)

  register_serializer-view :
      (q : String) (type : ℕ) (z : Serializer V) (b : Bus V W)
      → view topic (tables (register_serializer q type z b)) ≡ (
          if same_string topic q
          then note_type type (view topic (tables b))
          else view topic (tables b))
  unfolding register_serializer view
  register_serializer-view q type z b =
      let x = check_or_establish_type q type b in
      let meant =
        if same_string topic q
        then note_type type (view topic (tables b))
        else view topic (tables b) in
      let keeps : Bus V W → Type 0 = λ y. view topic (tables y) ≡ meant in
      if_both keeps x.0 _ _
        (ap (view topic) (report_mismatch-tables q x.1) ∙ check-view topic q type b)
        (check-view topic q type b)

  register_stringifier-view :
      (q : String) (type : ℕ) (f : V → String) (b : Bus V W)
      → view topic (tables (register_stringifier q type f b)) ≡ (
          if same_string topic q
          then note_type type (view topic (tables b))
          else view topic (tables b))
  unfolding register_stringifier view
  register_stringifier-view q type f b =
      let x = check_or_establish_type q type b in
      let meant =
        if same_string topic q
        then note_type type (view topic (tables b))
        else view topic (tables b) in
      let keeps : Bus V W → Type 0 = λ y. view topic (tables y) ≡ meant in
      if_both keeps x.0 _ _
        (ap (view topic) (report_mismatch-tables q x.1) ∙ check-view topic q type b)
        (check-view topic q type b)

  add_to_bus-tables : (peer : ℕ) (b : Bus V W) → tables (add_to_bus peer b) ≡ tables b
  unfolding add_to_bus
  add_to_bus-tables peer b =
      let keeps : Bus V W → Type 0 = λ y. tables y ≡ tables b in
      if_both keeps (is_full b.roster) _ _
        (report_latched_error-tables add_participant_name err_capacity_exceeded b) refl

  last_value_cache-view :
      (q : String) (enabled : Bool) (b : Bus V W)
      → view topic (tables (last_value_cache q enabled b)) ≡ (
          if same_string topic q
          then (record (view topic (tables b)) { cached = enabled })
          else view topic (tables b))
  unfolding last_value_cache view
  last_value_cache-view q enabled b = ground (arith, find-assign q topic enabled b.topic_qos)

  module _ (show : ℕ → String) (transport : Bytes → DmqHeader → W → ℕ × W) where
    call-view :
        (c : Call V) (b : Bus V W)
        → view topic (tables (call show transport c b)) ≡ note topic c (view topic (tables b))
    unfolding call note reset find view
    call-view (published q type v now local_only) b =
        publish-view topic q show transport type v now local_only b
    call-view (subscribed q type callback predicate thread qos now) b =
        subscribe-view q type callback predicate thread qos now b
    call-view (unsubscribed c) b = refl
    call-view (ran_posted now s v) b = ap (view topic) (limiter_invoke-tables now s v b)
    call-view (serializer_registered q type z) b = register_serializer-view q type z b
    call-view (stringifier_registered q type f) b = register_stringifier-view q type f b
    call-view (cache_set q enabled) b = last_value_cache-view q enabled b
    call-view (continuous_set enable) b =
        ap (view topic)
          (for_nodes_mode-tables enable b.roster.count (record b { continuous_errors = enable }))
    call-view (peer_added peer) b = ap (view topic) (add_to_bus-tables peer b)
    call-view (peer_removed peer) b = refl
    call-view (peer_served peer request) b =
        ap (view topic) (serve_peer-tables show transport peer request b)
    call-view (monitor_connected callback) b = refl
    call-view (unhandled_connected callback) b = refl
    call-view (error_connected callback) b = refl
    call-view bus_reset b = refl

    call_all-view :
        (cs : List (Call V)) (b : Bus V W)
        → (call_all show transport cs b).faulted ≡ false
        → view topic (tables (call_all show transport cs b))
          ≡ note_all topic cs (view topic (tables b))
    unfolding call_all note_all
    call_all-view [] b h = refl
    call_all-view (c ∷ cs) b h = elim (Bool-cases b.faulted) [
      | inl stopped ↦ absurd (let f : ⊥ = ground (arith, stopped, h) in f)
      | inr on ↦
          let rest = call_all-view cs (call show transport c b) (ground (arith, on, h)) in
          ground (arith, on, rest, call-view c b)
    ]

    -- After any series of calls of a new bus that has ended with no fault, what the bus keeps for a
    -- topic is what the calls mean for it: the type of its first use, whether last values are kept,
    -- and, with its time, the last message that was published while they were, since the last
    -- reset.
    pub call_all-note_all :
        (cs : List (Call V)) (nodes : ℕ → Participant V W)
        → (call_all show transport cs (new_bus nodes)).faulted ≡ false
        → view topic (tables (call_all show transport cs (new_bus nodes)))
          ≡ note_all topic cs new_topic
    unfolding view find
    call_all-note_all cs nodes h = call_all-view cs (new_bus nodes) h
