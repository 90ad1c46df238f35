-- ===== src/Bus/Late.antt =====
-- What a late subscriber of DataBus.h gets.
use async_http.Prelude.{
  ℕ, ◌+◌, true, false, Option, none, some, List, [], ◌∷◌, ◌++◌, append-nil, ◌≡◌, inl, inr, ap, ◌∙◌,
  ==_refl, Bool-cases, Option-cases, if◌then◌else◌, ltb, arith,
}
use async_http.Prelude.Strings.{String, find}
use async_http.Http.{Bytes}
use async_http.Reliable.Retry.{DmqHeader}
use async_http.Peer.{Participant}
use async_http.Bus.{Subscriber, Effect, delivered, Bus, Qos, new_bus}
use async_http.Bus.Limiter.{filter_invoke, limiter_invoke, call_slot}
use async_http.Bus.Registry.{check_or_establish_type, get_or_create_signal}
use async_http.Bus.Subscribe.{
  add_limiter, enable_last_value, is_expired, deliver_last_value, connect_slot, connect_and_deliver,
  subscribe,
}
use async_http.Bus.Calls.{Call, call_all}
use async_http.Bus.Cached.{view, value_of}
use async_http.Bus.Last.{note_all, call_all-note_all, new_topic}

-- What the last value of a topic is worth to a subscriber at a time.
abbrev pub late_delivery : {V : Type 0} → ℕ → Qos → ℕ → Option (V × ℕ) → List (Effect V)
late_delivery callback qos now none = []
late_delivery callback qos now (some (v, timestamp)) = elim qos.lifespan [
  | none ↦ delivered callback v ∷ []
  | some lifespan ↦ if ltb (timestamp + lifespan) now then [] else delivered callback v ∷ []
]

module _ {V W : Type 0} where
  deliver_last_value-effects :
      (topic : String) (type callback : ℕ) (qos : Qos) (now : ℕ) (b : Bus V W)
      → qos.last_value_cache ≡ true
      → (deliver_last_value topic type qos
          (record { callback = callback; predicate = none; limiter = none; thread = none })
          now
          b).effects
        ≡ b.effects ++ late_delivery callback qos now (value_of (find topic b.last_values))
  unfolding deliver_last_value call_slot limiter_invoke filter_invoke is_expired
  deliver_last_value-effects topic type callback qos now b on =
      elim (Option-cases (find topic b.last_values)) [
        | inl absent ↦ ground (arith, on, absent, append-nil b.effects)
        | inr e ↦ elim (Option-cases qos.lifespan) [
          | inl unbounded ↦ ground (arith, on, e.1, unbounded)
          | inr l ↦ elim (Bool-cases (ltb (e.0.timestamp + l.0) now)) [
            | inl old ↦ ground (arith, on, e.1, l.1, old, append-nil b.effects)
            | inr fresh ↦ ground (arith, on, e.1, l.1, fresh)
          ]
        ]
      ]

  -- A topic of the type gives a signal, and changes neither last values nor effects.
  signal_found :
      (topic : String) (type : ℕ) (b : Bus V W)
      → find topic b.type_indices ≡ some type
      → (object : ℕ) × (let g = get_or_create_signal topic type b in
          (g.0 ≡ some object) × (g.1.last_values ≡ b.last_values) × (g.1.effects ≡ b.effects))
  unfolding get_or_create_signal check_or_establish_type
  signal_found topic type b typed = elim (Option-cases (find topic b.signals)) [
    | inl absent ↦ (
      b.next_object,
      (
        ground (arith, typed, absent, ==_refl type),
        ground (arith, typed, absent, ==_refl type),
        ground (arith, typed, absent, ==_refl type),
      ),
    )
    | inr s ↦ (
      s.0.object,
      (
        ground (arith, typed, s.1, ==_refl type),
        ground (arith, typed, s.1, ==_refl type),
        ground (arith, typed, s.1, ==_refl type),
      ),
    )
  ]

  enabled_same :
      (topic : String) (qos : Qos) (b : Bus V W)
      → let c = enable_last_value topic qos b in
        (c.type_indices ≡ b.type_indices)
        × (c.last_values ≡ b.last_values)
        × (c.effects ≡ b.effects)
  unfolding enable_last_value
  enabled_same topic qos b = (ground arith, ground arith, ground arith)

  connect_and_deliver-some :
      (topic : String) (type : ℕ) (qos : Qos) (s : Subscriber V) (now object : ℕ)
      (found : Option ℕ × Bus V W)
      → found.0 ≡ some object
      → (connect_and_deliver topic type qos s now found).1
        ≡ deliver_last_value topic type qos s now (connect_slot object s found.1).1
  unfolding connect_and_deliver
  connect_and_deliver-some topic type qos s now object (none, c) e = absurd (let f : ⊥ = cc in f)
  connect_and_deliver-some topic type qos s now object (some i, c) e =
      let same : i ≡ object = ground (arith, e) in
      ap (λ j. deliver_last_value topic type qos s now (connect_slot j s c).1) same

  no_limiter : (qos : Qos) (b : Bus V W) → qos.min_separation ≡ none → add_limiter qos b ≡ (none, b)
  unfolding add_limiter
  no_limiter qos b h = ground (arith, h)

  unlimited_subscribe :
      (topic : String) (type callback : ℕ) (qos : Qos) (now : ℕ) (b : Bus V W)
      → qos.min_separation ≡ none
      → subscribe topic type callback none none qos now b
        ≡ connect_and_deliver topic type qos
            (record { callback = callback; predicate = none; limiter = none; thread = none })
            now
            (get_or_create_signal topic type (enable_last_value topic qos b))
  unfolding subscribe
  unlimited_subscribe topic type callback qos now b h =
      ap
        (λ l.
          connect_and_deliver topic type qos
            (record { callback = callback; predicate = none; limiter = l.0; thread = none }) now
            (get_or_create_signal topic type (enable_last_value topic qos l.1)))
        (no_limiter qos b h)

  subscribe-effects :
      (topic : String) (type callback : ℕ) (qos : Qos) (now : ℕ) (b : Bus V W)
      → find topic b.type_indices ≡ some type
      → qos.last_value_cache ≡ true
      → qos.min_separation ≡ none
      → (subscribe topic type callback none none qos now b).1.effects
        ≡ b.effects ++ late_delivery callback qos now (value_of (find topic b.last_values))
  unfolding connect_slot
  subscribe-effects topic type callback qos now b typed on unlimited =
      let enabled = enable_last_value topic qos b in
      let same = enabled_same topic qos b in
      let found = get_or_create_signal topic type enabled in
      let (object, (given, values, effects)) =
        signal_found topic type enabled (ap (find topic) same.0 ∙ typed) in
      let s : Subscriber V = record {
        callback = callback;
        predicate = none;
        limiter = none;
        thread = none;
      } in
      let connected = connect_slot object s found.1 in
      let e : (subscribe topic type callback none none qos now b).1
          ≡ deliver_last_value topic type qos s now connected.1 =
        ap (λ x. x.1) (unlimited_subscribe topic type callback qos now b unlimited)
        ∙ connect_and_deliver-some topic type qos s now object found given in
      ap (λ c. c.effects) e
      ∙ deliver_last_value-effects topic type callback qos now connected.1 on
      ∙ ap (λ m. found.1.effects ++ late_delivery callback qos now (value_of (find topic m)))
          (values ∙ same.1)
      ∙ ap (λ xs. xs ++ late_delivery callback qos now (value_of (find topic b.last_values)))
          (effects ∙ same.2)

  module _ (show : ℕ → String) (transport : Bytes → DmqHeader → W → ℕ × W) where
    -- A subscriber with no filter, no rate limiter and no thread, that asks for last values after
    -- any series of calls of a new bus which has ended with no fault, on a topic of its type, is
    -- called once with the last value that the calls mean for the topic, and not at all if there is
    -- none or if it is older than the lifespan; nothing else is done to the outside.
    pub subscribe-late_delivery :
        (cs : List (Call V)) (nodes : ℕ → Participant V W) (topic : String) (type callback : ℕ)
        (qos : Qos) (now : ℕ)
        → (call_all show transport cs (new_bus nodes)).faulted ≡ false
        → (note_all topic cs new_topic).type ≡ some type
        → qos.last_value_cache ≡ true
        → qos.min_separation ≡ none
        → let b = call_all show transport cs (new_bus nodes) in
          (subscribe topic type callback none none qos now b).1.effects
          ≡ b.effects ++ late_delivery callback qos now (note_all topic cs new_topic).last
    unfolding view
    subscribe-late_delivery cs nodes topic type callback qos now sound typed on unlimited =
        let b = call_all show transport cs (new_bus nodes) in
        let e = call_all-note_all topic show transport cs nodes sound in
        subscribe-effects topic type callback qos now b (ap (λ t. t.type) e ∙ typed) on unlimited
        ∙ ap (λ t. b.effects ++ late_delivery callback qos now t.last) e
