-- ===== src/Bus/Cached/Published.antt =====
-- What InternalPublish of DataBus.h does to the values that are kept for a topic.
use async_http.Prelude.{
  ℕ, Bool, true, false, ◌||◌, not, Option, some, List, [], ◌∷◌, ◌≡◌, inl, inr, refl, ap, ◌∙◌,
  Bool-cases, Option-cases, if◌then◌else◌, if_both, if_cases, option_cases, arith,
}
use async_http.Prelude.Strings.{String, same_string, find, find-assign}
use async_http.Http.{Bytes}
use async_http.Reliable.Retry.{DmqHeader}
use async_http.Signals.{emit}
use async_http.Remote.{Serializer}
use async_http.Bus.{LvcEntry, Bus, note_cast}
use async_http.Bus.Registry.{check_or_establish_type}
use async_http.Bus.Publish.{
  update_last_value, tell_monitors, dispatch_monitor, publish_local, find_serializer,
  publish_remote, distribute, publish,
}
use async_http.Bus.Slots.{snapshot}
use async_http.Bus.Tables.{tables, call_slots-tables, report_mismatch-tables}
use async_http.Bus.Safe.{publish_remote-tables}
use async_http.Bus.Cached.{flag, value_of, agrees, find-equal, view, note_type, note_message}

module _ {V W : Type 0} (topic q : String) where
  pub check-view :
      (type : ℕ) (b : Bus V W)
      → view topic (tables (check_or_establish_type q type b).1) ≡ (
          if same_string topic q
          then note_type type (view topic (tables b))
          else view topic (tables b))
  unfolding check_or_establish_type view
  check-view type b = elim (Bool-cases (same_string topic q)) [
    | inl same ↦ ground (
      arith,
      same,
      find-equal topic q b.type_indices same,
      find-assign q topic type b.type_indices,
    )
    | inr other ↦ ground (arith, other, find-assign q topic type b.type_indices)
  ]

  pub check-agrees :
      (type : ℕ) (b : Bus V W)
      → (check_or_establish_type q type b).0 ≡ not (agrees type (find q b.type_indices))
  unfolding check_or_establish_type
  check-agrees type b = ground arith

  update_last_value-view :
      (type : ℕ) (v : V) (now : ℕ) (b : Bus V W)
      → view topic (tables (update_last_value q type v now b)) ≡ (
          if same_string topic q
          then record (view topic (tables b)) {
            last =
                if flag (find topic b.topic_qos)
                then some (v, now)
                else value_of (find topic b.last_values);
          }
          else view topic (tables b))
  unfolding update_last_value view
  update_last_value-view type v now b =
      let fresh : LvcEntry V = record {
        value = record { made_as = type; object = v };
        timestamp = now;
      } in
      let facts = find-assign q topic fresh b.last_values in
      elim (Bool-cases (same_string topic q)) [
        | inl same ↦
            let on = find-equal topic q b.topic_qos same in
            let held = find-equal topic q b.last_values same in
            elim (Option-cases (find q b.last_values)) [
              | inl absent ↦ ground (arith, same, on, held, absent, facts)
              | inr e ↦
                  let kept : LvcEntry V = record {
                    value = record { made_as = e.0.value.made_as; object = v };
                    timestamp = now;
                  } in
                  ground (arith, same, on, held, e.1, find-assign q topic kept b.last_values)
            ]
        | inr other ↦ elim (Option-cases (find q b.last_values)) [
          | inl absent ↦ ground (arith, other, absent, facts)
          | inr e ↦
              let kept : LvcEntry V = record {
                value = record { made_as = e.0.value.made_as; object = v };
                timestamp = now;
              } in
              ground (arith, other, e.1, find-assign q topic kept b.last_values)
        ]
      ]

  same-view : (b c : Bus V W) → tables c ≡ tables b → view topic (tables c) ≡ view topic (tables b)
  same-view b c e = ap (view topic) e

  find_serializer-view :
      (type : ℕ) (b : Bus V W)
      → view topic (tables (find_serializer q type b).1) ≡ view topic (tables b)
  unfolding find_serializer view
  find_serializer-view type b = ground arith

  tell_monitors-view :
      (callbacks : List ℕ) (type : ℕ) (v : V) (now : ℕ) (b : Bus V W)
      → view topic (tables (tell_monitors callbacks q type v now b)) ≡ view topic (tables b)
  unfolding tell_monitors view
  tell_monitors-view [] type v now b = refl
  tell_monitors-view (callback ∷ callbacks) type v now b =
      let keeps : Bus V W → Type 0 = λ c. view topic (tables c) ≡ view topic (tables b) in
      option_cases keeps (find q b.stringifiers) _ _ (λ absent. refl) (λ f found. refl)

  dispatch_monitor-view :
      (type : ℕ) (v : V) (now : ℕ) (b : Bus V W)
      → view topic (tables (dispatch_monitor q type v now b)) ≡ view topic (tables b)
  unfolding dispatch_monitor
  dispatch_monitor-view type v now b = tell_monitors-view (emit b.monitor_signal) type v now b

  publish_local-view :
      (type : ℕ) (v : V) (now : ℕ) (b : Bus V W)
      → view topic (tables (publish_local q type v now b).1) ≡ view topic (tables b)
  unfolding publish_local view
  publish_local-view type v now b =
      let keeps : Bool × Bus V W → Type 0 = λ c. view topic (tables c.1) ≡ view topic (tables b) in
      option_cases keeps (find q b.signals) _ _ (λ absent. refl)
        (λ s found.
          ap (view topic)
            (call_slots-tables now v (emit (b.objects s.object)) (note_cast type s.made_as b)))

  distribute-view :
      (show : ℕ → String) (transport : Bytes → DmqHeader → W → ℕ × W) (type : ℕ) (v : V) (now : ℕ)
      (local_only : Bool) (peers : List ℕ) (z : Option (Serializer V)) (b : Bus V W)
      → view topic (tables (distribute show transport q type v now local_only peers z b))
        ≡ view topic (tables b)
  unfolding distribute view
  distribute-view show transport type v now local_only peers z b =
      let monitor = dispatch_monitor q type v now b in
      let here = publish_local q type v now monitor in
      let there = publish_remote show transport peers q type v z here.1 in
      let local = publish_local-view type v now monitor ∙ dispatch_monitor-view type v now b in
      let keeps : Bool × Bus V W → Type 0 = λ y. view topic (tables y.1) ≡ view topic (tables b) in
      let sent =
        if_both keeps local_only (false, here.1) there local
          (ap (view topic) (publish_remote-tables show transport peers q type v z here.1)
            ∙ local) in
      let ends : Bus V W → Type 0 = λ y. view topic (tables y) ≡ view topic (tables b) in
      if_both ends (here.0 || (if local_only then (false, here.1) else there).0) _ _ sent sent

  -- A message of another type than the topic's.
  refused_message :
      (type : ℕ) (v : V) (now : ℕ) (b : Bus V W)
      → agrees type (find q b.type_indices) ≡ false
      → (if same_string topic q
          then note_type type (view topic (tables b))
          else view topic (tables b))
        ≡ (if same_string topic q
            then note_message type v now (view topic (tables b))
            else view topic (tables b))
  unfolding view
  refused_message type v now b h = elim (Bool-cases (same_string topic q)) [
    | inr other ↦ ground (arith, other)
    | inl same ↦ ground (arith, same, h, find-equal topic q b.type_indices same)
  ]

  accepted_message :
      (type : ℕ) (v : V) (now : ℕ) (b : Bus V W)
      → agrees type (find q b.type_indices) ≡ true
      → let c = (check_or_establish_type q type b).1 in
        (if same_string topic q
          then record (view topic (tables c)) {
            last =
                if flag (find topic c.topic_qos)
                then some (v, now)
                else value_of (find topic c.last_values);
          }
          else view topic (tables c))
        ≡ (if same_string topic q
            then note_message type v now (view topic (tables b))
            else view topic (tables b))
  unfolding view
  accepted_message type v now b h =
      let c = (check_or_establish_type q type b).1 in
      let after = check-view type b in
      elim (Bool-cases (same_string topic q)) [
        | inr other ↦ ground (arith, other, after)
        | inl same ↦ ground (arith, same, h, find-equal topic q b.type_indices same, after)
      ]

  pub publish-view :
      (show : ℕ → String) (transport : Bytes → DmqHeader → W → ℕ × W) (type : ℕ) (v : V) (now : ℕ)
      (local_only : Bool) (b : Bus V W)
      → view topic (tables (publish show transport q type v now local_only b)) ≡ (
          if same_string topic q
          then note_message type v now (view topic (tables b))
          else view topic (tables b))
  unfolding publish view
  publish-view show transport type v now local_only b =
      let checked = check_or_establish_type q type b in
      let t = view topic (tables b) in
      let after = check-view type b in
      let updated = update_last_value q type v now checked.1 in
      let found = find_serializer q type updated in
      let meant = if same_string topic q then note_message type v now t else t in
      let keeps : Bus V W → Type 0 = λ y. view topic (tables y) ≡ meant in
      let flagged = check-agrees type b in
      if_cases keeps checked.0 _ _
        (λ other.
          ap (view topic) (report_mismatch-tables q checked.1)
          ∙ after
          ∙ refused_message type v now b (ground (arith, other, flagged)))
        (λ agreed.
          distribute-view show transport type v now local_only (snapshot b.roster.count 0 b.roster)
            found.0 found.1
          ∙ find_serializer-view type updated
          ∙ update_last_value-view type v now checked.1
          ∙ accepted_message type v now b (ground (arith, agreed, flagged)))
