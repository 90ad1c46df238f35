-- ===== src/Bus/Local.antt =====
-- What PublishLocal of DataBus.h does to the outside.
use async_http.Prelude.{
  ℕ, ◌%◌, ◌^◌, Bool, true, false, ◌||◌, Option, none, some, List, [], ◌∷◌, ◌++◌, append-nil,
  append_assoc, ◌≡◌, inl, inr, refl, sym, ap, ◌∙◌, subst, map, Option-cases, if◌then◌else◌,
  if_cases, All, arith,
}
use async_http.Prelude.Strings.{String, Dict, find}
use async_http.Prelude.Erased.{Erased}
use async_http.Http.{Bytes}
use async_http.Reliable.Retry.{DmqHeader}
use async_http.Signals.{Signal, emit}
use async_http.Remote.{Serializer}
use async_http.Peer.{Participant}
use async_http.Bus.{
  Subscriber, SpyPacket, Effect, delivered, monitored, unhandled, Bus, note_cast, emit_effect,
}
use async_http.Bus.Limiter.{filter_invoke, limiter_invoke, call_slot, call_slots}
use async_http.Bus.Registry.{check_or_establish_type}
use async_http.Bus.Publish.{
  no_value, update_last_value, tell_monitors, dispatch_monitor, publish_local, find_serializer,
  distribute, publish,
}
use async_http.Bus.Slots.{snapshot}
use async_http.Bus.Cached.{agrees}
use async_http.Bus.Cached.Published.{check-agrees}

-- What the outside can see, and what a publication looks at.
record Outside (V W : Type 0) : Type 0 where
  effects : List (Effect V)
  signals : Dict (Erased ℕ)
  objects : ℕ → Signal (Subscriber V)
  stringifiers : Dict (Erased (V → String))
  monitor_signal : Signal ℕ
  unhandled_signal : Signal ℕ
  nodes : ℕ → Participant V W

-- A subscriber that is called where the message is published, for each one.
abbrev pub IsPlain : {V : Type 0} → Subscriber V → Type 0
IsPlain s = (s.thread ≡ none) × (s.limiter ≡ none) × (s.predicate ≡ none)

-- The monitor gets the message as the stringifier gives it.
abbrev pub packet_of : {V : Type 0} → String → V → ℕ → Dict (Erased (V → String)) → SpyPacket
packet_of topic v now stringifiers = record {
  topic = topic;
  value = elim (find topic stringifiers) [ none ↦ no_value | some f ↦ f.object v ];
  timestamp_us = now % 2 ^ 64;
}

-- What monitors are told.
abbrev pub spied_by :
    {V : Type 0} → List ℕ → String → V → ℕ → Dict (Erased (V → String)) → List (Effect V)
spied_by [] topic v now stringifiers = []
spied_by (c ∷ cs) topic v now stringifiers =
    monitored (c ∷ cs) (packet_of topic v now stringifiers) ∷ []

module _ {V W : Type 0} where
  abbrev outside : Bus V W → Outside V W
  outside b = record {
    effects = b.effects;
    signals = b.signals;
    objects = b.objects;
    stringifiers = b.stringifiers;
    monitor_signal = b.monitor_signal;
    unhandled_signal = b.unhandled_signal;
    nodes = b.nodes;
  }

  abbrev pub spied : String → V → ℕ → Bus V W → List (Effect V)
  spied topic v now b = spied_by (emit b.monitor_signal) topic v now b.stringifiers

  -- The subscribers of the topic in their order, or the news that there is no signal of it.
  abbrev pub received : String → V → Bus V W → List (Effect V)
  received topic v b = elim (find topic b.signals) [
    | none ↦ unhandled (emit b.unhandled_signal) topic ∷ []
    | some s ↦ map (λ s. delivered s.callback v) (emit (b.objects s.object))
  ]

  -- The same of what is outside.
  received_of : String → V → Outside V W → List (Effect V)
  received_of topic v o = elim (find topic o.signals) [
    | none ↦ unhandled (emit o.unhandled_signal) topic ∷ []
    | some s ↦ map (λ s. delivered s.callback v) (emit (o.objects s.object))
  ]

  spied_of : String → V → ℕ → Outside V W → List (Effect V)
  spied_of topic v now o = spied_by (emit o.monitor_signal) topic v now o.stringifiers

  PlainOf : String → Outside V W → Type 0
  PlainOf topic o =
      (s : Erased ℕ) → find topic o.signals ≡ some s → All IsPlain (emit (o.objects s.object))

  check-outside :
      (topic : String) (type : ℕ) (b : Bus V W)
      → outside (check_or_establish_type topic type b).1 ≡ outside b
  unfolding check_or_establish_type
  check-outside topic type b = ground arith

  update_last_value-outside :
      (topic : String) (type : ℕ) (v : V) (now : ℕ) (b : Bus V W)
      → outside (update_last_value topic type v now b) ≡ outside b
  unfolding update_last_value
  update_last_value-outside topic type v now b = ground arith

  find_serializer-outside :
      (topic : String) (type : ℕ) (b : Bus V W)
      → outside (find_serializer topic type b).1 ≡ outside b
  unfolding find_serializer
  find_serializer-outside topic type b = ground arith

  tell_monitors-outside :
      (callbacks : List ℕ) (topic : String) (type : ℕ) (v : V) (now : ℕ) (b : Bus V W)
      → outside (tell_monitors callbacks topic type v now b) ≡ record (outside b) {
        effects = b.effects ++ spied_by callbacks topic v now b.stringifiers;
      }
  unfolding tell_monitors
  tell_monitors-outside [] topic type v now b = ground (arith, append-nil b.effects)
  tell_monitors-outside (c ∷ cs) topic type v now b =
      elim (Option-cases (find topic b.stringifiers)) [
        | inl absent ↦ ground (arith, absent)
        | inr f ↦ ground (arith, f.1)
      ]

  call_slots-plain :
      (now : ℕ) (v : V) (ss : List (Subscriber V)) (b : Bus V W)
      → All IsPlain ss
      → outside (call_slots now v ss b)
        ≡ record (outside b) { effects = b.effects ++ map (λ s. delivered s.callback v) ss }
  unfolding call_slots call_slot limiter_invoke filter_invoke
  call_slots-plain now v [] b h = ground (arith, append-nil b.effects)
  call_slots-plain now v (s ∷ ss) b h =
      let e : call_slot now v s b ≡ emit_effect (delivered s.callback v) b =
        ground (arith, h.0.0, h.0.1, h.0.2) in
      ground (
        arith,
        e,
        call_slots-plain now v ss (emit_effect (delivered s.callback v) b) h.1,
        append_assoc b.effects (delivered s.callback v ∷ []) (map (λ s. delivered s.callback v) ss),
      )

  -- No signal, or one whose subscribers are called.
  publish_local-absent :
      (topic : String) (type : ℕ) (v : V) (now : ℕ) (b : Bus V W)
      → find topic b.signals ≡ none
      → publish_local topic type v now b ≡ (false, b)
  unfolding publish_local
  publish_local-absent topic type v now b h = ground (arith, h)

  publish_local-found :
      (topic : String) (type : ℕ) (v : V) (now : ℕ) (b : Bus V W) (s : Erased ℕ)
      → find topic b.signals ≡ some s
      → publish_local topic type v now b
        ≡ (true, call_slots now v (emit (b.objects s.object)) (note_cast type s.made_as b))
  unfolding publish_local
  publish_local-found topic type v now b s h = ground (arith, h)

  -- The end of a local publication: the news that no one was there.
  finish_local : String → Bool × Bus V W → Bus V W
  finish_local topic x =
      if x.0 || false then x.1 else emit_effect (unhandled (emit x.1.unhandled_signal) topic) x.1

  distribute-finish_local :
      (show : ℕ → String) (transport : Bytes → DmqHeader → W → ℕ × W) (topic : String) (type : ℕ)
      (v : V) (now : ℕ) (peers : List ℕ) (z : Option (Serializer V)) (b : Bus V W)
      → distribute show transport topic type v now true peers z b
        ≡ finish_local topic (publish_local topic type v now (dispatch_monitor topic type v now b))
  unfolding distribute finish_local
  distribute-finish_local show transport topic type v now peers z b = refl

  local_effects :
      (topic : String) (type : ℕ) (v : V) (now : ℕ) (b : Bus V W)
      → ((s : Erased ℕ) → find topic b.signals ≡ some s → All IsPlain (emit (b.objects s.object)))
      → let c = finish_local topic (publish_local topic type v now b) in
        (c.effects ≡ b.effects ++ received topic v b) × (c.nodes ≡ b.nodes)
  unfolding finish_local
  local_effects topic type v now b plain = elim (Option-cases (find topic b.signals)) [
    | inl absent ↦
        let e = ap (finish_local topic) (publish_local-absent topic type v now b absent) in
        (ap (λ c. c.effects) e ∙ ground (arith, absent), ap (λ c. c.nodes) e)
    | inr s ↦
        let e = ap (finish_local topic) (publish_local-found topic type v now b s.0 s.1) in
        let o =
          call_slots-plain now v (emit (b.objects s.0.object)) (note_cast type s.0.made_as b)
            (plain s.0 s.1) in
        (
          ap (λ c. c.effects) e ∙ ap (λ x. x.effects) o ∙ ground (arith, s.1),
          ap (λ c. c.nodes) e ∙ ap (λ x. x.nodes) o,
        )
  ]

  -- A message that is published to the local subscribers of a topic of its type, or of one without
  -- a type, is told to the monitors, as the stringifier gives it, and then goes once to each
  -- subscriber of the topic in their order; if the topic has no signal it is told as unhandled
  -- instead. A topic that has a signal without a subscriber left gets neither: its messages reach
  -- no one and are not told as unhandled. No participant is changed. The subscribers are called
  -- where the message is published, without filters and rate limiters.
  pub publish-local_only :
      (show : ℕ → String) (transport : Bytes → DmqHeader → W → ℕ × W) (topic : String) (type : ℕ)
      (v : V) (now : ℕ) (b : Bus V W)
      → agrees type (find topic b.type_indices) ≡ true
      → ((s : Erased ℕ) → find topic b.signals ≡ some s → All IsPlain (emit (b.objects s.object)))
      → let c = publish show transport topic type v now true b in
        (c.effects ≡ b.effects ++ spied topic v now b ++ received topic v b) × (c.nodes ≡ b.nodes)
  unfolding publish received_of spied_of PlainOf dispatch_monitor
  publish-local_only show transport topic type v now b typed plain =
      let checked = check_or_establish_type topic type b in
      let updated = update_last_value topic type v now checked.1 in
      let found = find_serializer topic type updated in
      let same : outside found.1 ≡ outside b =
        find_serializer-outside topic type updated
        ∙ update_last_value-outside topic type v now checked.1
        ∙ check-outside topic type b in
      let spying = tell_monitors-outside (emit found.1.monitor_signal) topic type v now found.1 in
      let told = dispatch_monitor topic type v now found.1 in
      let keeps : Bus V W → Type 0 = λ c.
        (c.effects ≡ b.effects ++ spied topic v now b ++ received topic v b)
        × (c.nodes ≡ b.nodes) in
      if_cases keeps checked.0 _ _
        (λ other.
          absurd (let f : ⊥ = ground (arith, other, check-agrees topic topic type b, typed) in f))
        (λ agreed.
          let o = outside found.1 in
          let t : outside told ≡ record o { effects = found.1.effects ++ spied_of topic v now o } =
            spying in
          let spy : Outside V W → Outside V W =
            λ x. record x { effects = x.effects ++ spied_of topic v now x } in
          let still : PlainOf topic (outside told) =
            subst (PlainOf topic) (sym (t ∙ ap spy same)) plain in
          let ended = local_effects topic type v now told still in
          let e =
            distribute-finish_local show transport topic type v now
              (snapshot b.roster.count 0 b.roster) found.0 found.1 in
          (
            ap (λ c. c.effects) e
                ∙ ended.0
                ∙ ap (λ x. x.effects ++ received_of topic v x) t
                ∙ ap (λ x. (x.effects ++ spied_of topic v now x) ++ received_of topic v x) same,
            ap (λ c. c.nodes) e ∙ ended.1 ∙ ap (λ x. x.nodes) t ∙ ap (λ x. x.nodes) same,
          ))
