-- ===== src/Bus/Publish.antt =====
-- InternalPublish and InternalSubscribe of DataBus.h.
use async_http.Prelude.{
  ℕ, zero, suc, ◌%◌, ◌^◌, Bool, true, false, not, ◌||◌, Option, none, some, List, [], ◌∷◌, ◌==◌,
  if◌then◌else◌,
}
use async_http.Prelude.Strings.{String, find, assign}
use async_http.Http.{Bytes}
use async_http.Reliable.Retry.{DmqHeader}
use async_http.Signals.{emit}
use async_http.Remote.{DelegateError, err_no_serializer, Serializer}
use async_http.Peer.{Act, error_signal, faulted}
use async_http.Peer.Channels.{dispatch_if_interested}
use async_http.Bus.{SpyPacket, monitored, unhandled, peer_acted, Bus, emit_effect, note_cast}
use async_http.Bus.Slots.{listeners, snapshot}
use async_http.Bus.Limiter.{call_slots}
use async_http.Bus.Registry.{fault, report_latched_error, check_or_establish_type, report_mismatch}

-- "?"
abbrev pub no_value : String
no_value = 63 ∷ []

module _ {V W : Type 0} where
  -- The last value of a topic whose flag is set: an entry is written in place, or made.
  unfoldable pub update_last_value : String → ℕ → V → ℕ → Bus V W → Bus V W
  unfolding find assign
  update_last_value topic type v now b = elim (find topic b.topic_qos) [
    | none ↦ b
    | some enabled ↦ if not enabled then b else elim (find topic b.last_values) [
      | none ↦ record b {
        last_values =
            assign topic (record { value = record { made_as = type; object = v }; timestamp = now })
              b.last_values;
      }
      | some entry ↦ note_cast type entry.value.made_as (record b {
        last_values =
            assign topic (record { value = record (entry.value) { object = v }; timestamp = now })
              b.last_values;
      })
    ]
  ]

  -- The monitor's packet: the stringifier is looked for only if there is a monitor.
  unfoldable pub tell_monitors : List ℕ → String → ℕ → V → ℕ → Bus V W → Bus V W
  unfolding find
  tell_monitors [] topic type v now b = b
  tell_monitors (callback ∷ callbacks) topic type v now b =
      let packet : String → SpyPacket =
        λ value. record { topic = topic; value = value; timestamp_us = now % 2 ^ 64 } in
      elim (find topic b.stringifiers) [
        | none ↦ emit_effect (monitored (callback ∷ callbacks) (packet no_value)) b
        | some f ↦
            emit_effect (monitored (callback ∷ callbacks) (packet (f.object v)))
              (note_cast type f.made_as b)
      ]

  -- HasMonitorLocked, FindStringifierLocked, DispatchMonitor
  unfoldable pub dispatch_monitor : String → ℕ → V → ℕ → Bus V W → Bus V W
  unfolding tell_monitors emit
  dispatch_monitor topic type v now b = tell_monitors (emit b.monitor_signal) topic type v now b

  -- Local distribution: whether the topic has a signal.
  unfoldable pub publish_local : String → ℕ → V → ℕ → Bus V W → Bool × Bus V W
  unfolding find emit call_slots
  publish_local topic type v now b = elim (find topic b.signals) [
    | none ↦ (false, b)
    | some s ↦ (true, call_slots now v (emit (b.objects s.object)) (note_cast type s.made_as b))
  ]

  -- The serializer of the topic, cast to the type.
  unfoldable pub find_serializer : String → ℕ → Bus V W → Option (Serializer V) × Bus V W
  unfolding find
  find_serializer topic type b = elim (find topic b.serializers) [
    | none ↦ (none, b)
    | some z ↦ (some z.object, note_cast type z.made_as b)
  ]

  -- An error that a participant tells, once for each connection to its error signal.
  unfoldable pub report_times : ℕ → String → DelegateError → Bus V W → Bus V W
  unfolding report_latched_error
  report_times zero topic e b = b
  report_times (suc n) topic e b = report_times n topic e (report_latched_error topic e b)

  -- What a participant has done, told to the bus.
  unfoldable pub note_acts : ℕ → List (Act V) → Bus V W → Bus V W
  unfolding report_times listeners
  note_acts peer [] b = b
  note_acts peer (error_signal topic e ∷ acts) b =
      note_acts peer acts (report_times (listeners b.roster.count peer b.roster) topic e b)
  note_acts peer (faulted ∷ acts) b = fault b
  note_acts peer (act ∷ acts) b = note_acts peer acts (emit_effect (peer_acted peer act) b)

  module _ (show : ℕ → String) (transport : Bytes → DmqHeader → W → ℕ × W) where
    -- DispatchIfInterested of one participant; the sequence number is the process's.
    unfoldable pub dispatch_to :
        ℕ → String → ℕ → V → Option (Serializer V) → Bus V W → Bool × Bus V W
    unfolding dispatch_if_interested note_acts
    dispatch_to peer topic type v z b =
        let p = b.nodes peer in
        let d =
          dispatch_if_interested show transport topic type v z
            (record p { dispatcher = record p.dispatcher { next_seq_num = b.next_seq_num } }) in
        (
          d.result,
          note_acts peer d.acts (record b {
            nodes = λ i. if i == peer then d.peer else b.nodes i;
            next_seq_num = d.peer.dispatcher.next_seq_num;
          }),
        )

    -- The loop over the snapshot of the participants: whether any was interested. FaultHandler does not
    -- return.
    unfoldable pub dispatch_all :
        List ℕ → String → ℕ → V → Option (Serializer V) → Bus V W → Bool × Bus V W
    unfolding dispatch_to
    dispatch_all [] topic type v z b = (false, b)
    dispatch_all (peer ∷ peers) topic type v z b =
        let first = dispatch_to peer topic type v z b in
        let rest = dispatch_all peers topic type v z first.1 in
        if first.1.faulted then first else (first.0 || rest.0, rest.1)

    -- Remote distribution: whether any participant was interested.
    unfoldable pub publish_remote :
        List ℕ → String → ℕ → V → Option (Serializer V) → Bus V W → Bool × Bus V W
    unfolding dispatch_all report_latched_error
    publish_remote peers topic type v z b =
        let sent = dispatch_all peers topic type v z b in
        (
          sent.0,
          if sent.0
              then elim z [
                | none ↦ report_latched_error topic err_no_serializer (sent.1)
                | some s ↦ sent.1
              ]
              else sent.1,
        )

    -- Steps 6 to 9 of InternalPublish, with what was found under the lock.
    unfoldable pub distribute :
        String → ℕ → V → ℕ → Bool → List ℕ → Option (Serializer V) → Bus V W → Bus V W
    unfolding dispatch_monitor publish_local publish_remote emit
    distribute topic type v now local_only peers z b =
        let here = publish_local topic type v now (dispatch_monitor topic type v now b) in
        let there = publish_remote peers topic type v z here.1 in
        let sent = if local_only then (false, here.1) else there in
        if here.0 || sent.0
        then sent.1
        else emit_effect (unhandled (emit sent.1.unhandled_signal) topic) (sent.1)

    -- InternalPublish
    unfoldable pub publish : String → ℕ → V → ℕ → Bool → Bus V W → Bus V W
    unfolding check_or_establish_type report_mismatch update_last_value find_serializer snapshot
        distribute
    publish topic type v now local_only b =
        let checked = check_or_establish_type topic type b in
        let updated = update_last_value topic type v now checked.1 in
        let found = find_serializer topic type updated in
        let peers = snapshot b.roster.count 0 b.roster in
        if checked.0
        then report_mismatch topic checked.1
        else distribute topic type v now local_only peers found.0 found.1
