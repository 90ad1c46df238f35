-- ===== src/Bus/Registry.antt =====
-- The tables of DataBus.h: types, signals, serializers, stringifiers and errors, participants, reset.
use async_http.Prelude.{
  ℕ, zero, suc, ◌+◌, Bool, true, false, not, Option, none, some, [], ◌∷◌, ◌==◌, if◌then◌else◌,
}
use async_http.Prelude.Strings.{String, Dict, find, assign}
use async_http.Prelude.Erased.{Erased}
use async_http.Signals.{Signal, new_signal, emit, clear, mark_dead}
use async_http.Remote.{DelegateError, err_type_mismatch, err_capacity_exceeded, Serializer}
use async_http.Peer.{latch}
use async_http.Peer.Channels.{enable_continuous_errors, reset_errors}
use async_http.Bus.{Subscriber, error_told, Bus, emit_effect, note_cast}
use async_http.Bus.Slots.{add_participant, remove_participant, is_full, reset_slots}

-- "<AddParticipant>"
abbrev pub add_participant_name : String
add_participant_name =
    60 ∷ 65 ∷ 100 ∷ 100 ∷ 80 ∷ 97 ∷ 114 ∷ 116 ∷ 105 ∷ 99 ∷ 105 ∷ 112 ∷ 97 ∷ 110 ∷ 116 ∷ 62 ∷ []

-- The signals that the table of topics owns are destroyed with it.
unfoldable pub destroy_signals :
    {V : Type 0} → Dict (Erased ℕ) → (ℕ → Signal (Subscriber V)) → ℕ → Signal (Subscriber V)
unfolding mark_dead
destroy_signals [] objects = objects
destroy_signals ((topic, s) ∷ m) objects =
    destroy_signals m (λ i. if i == s.object then mark_dead (objects i) else objects i)

module _ {V W : Type 0} where
  -- DMQ_ASSERT
  abbrev pub fault : Bus V W → Bus V W
  fault b = record b { faulted = true }

  -- InternalReportLatchedError
  unfoldable pub report_latched_error : String → DelegateError → Bus V W → Bus V W
  unfolding latch emit
  report_latched_error topic e b =
      let fired = latch b.continuous_errors topic e b.reported_errors in
      let kept = record b { reported_errors = fired.1 } in
      if fired.0 then emit_effect (error_told (emit b.error_signal) topic e) kept else kept

  -- CheckOrEstablishType: whether the types differ, and the table.
  unfoldable pub check_or_establish_type : String → ℕ → Bus V W → Bool × Bus V W
  unfolding find assign
  check_or_establish_type topic type b = elim (find topic b.type_indices) [
    | some t ↦ (not (t == type), b)
    | none ↦ (false, record b { type_indices = assign topic type b.type_indices })
  ]

  -- What follows a type mismatch.
  unfoldable pub report_mismatch : String → Bus V W → Bus V W
  unfolding report_latched_error
  report_mismatch topic b = fault (report_latched_error topic err_type_mismatch b)

  -- GetOrCreateSignal: the number of the signal.
  unfoldable pub get_or_create_signal : String → ℕ → Bus V W → Option ℕ × Bus V W
  unfolding check_or_establish_type find assign
  get_or_create_signal topic type b =
      let checked = check_or_establish_type topic type b in
      let c = checked.1 in
      if checked.0 then (none, c) else elim (find topic c.signals) [
        | some s ↦ (some s.object, note_cast type s.made_as c)
        | none ↦ (
          some c.next_object,
          note_cast type type (record c {
            signals = assign topic (record { made_as = type; object = c.next_object }) c.signals;
            objects = λ i. if i == c.next_object then new_signal else c.objects i;
            next_object = c.next_object + 1;
          }),
        )
      ]

  -- InternalRegisterSerializer
  unfoldable pub register_serializer : String → ℕ → Serializer V → Bus V W → Bus V W
  unfolding check_or_establish_type report_mismatch assign
  register_serializer topic type z b =
      let checked = check_or_establish_type topic type b in
      if checked.0 then report_mismatch topic checked.1 else record (checked.1) {
        serializers = assign topic (record { made_as = type; object = z }) checked.1.serializers;
      }

  -- InternalRegisterStringifier
  unfoldable pub register_stringifier : String → ℕ → (V → String) → Bus V W → Bus V W
  unfolding check_or_establish_type report_mismatch assign
  register_stringifier topic type f b =
      let checked = check_or_establish_type topic type b in
      if checked.0 then report_mismatch topic checked.1 else record (checked.1) {
        stringifiers = assign topic (record { made_as = type; object = f }) checked.1.stringifiers;
      }

  -- InternalLastValueCache
  unfoldable pub last_value_cache : String → Bool → Bus V W → Bus V W
  unfolding assign
  last_value_cache topic enabled b = record b { topic_qos = assign topic enabled b.topic_qos }

  -- The participants in the first slots get the mode, or forget their errors.
  unfoldable pub for_nodes : (Option ℕ → Bus V W → Bus V W) → ℕ → Bus V W → Bus V W
  for_nodes f zero b = b
  for_nodes f (suc n) b = f (b.roster.participants n) (for_nodes f n b)

  abbrev pub set_node_mode : Bool → Option ℕ → Bus V W → Bus V W
  set_node_mode enable none b = b
  set_node_mode enable (some i) b = record b {
    nodes = λ j. if j == i then enable_continuous_errors enable (b.nodes j) else b.nodes j;
  }

  abbrev pub reset_node_errors : Option ℕ → Bus V W → Bus V W
  reset_node_errors none b = b
  reset_node_errors (some i) b = record b {
    nodes = λ j. if j == i then reset_errors (b.nodes j) else b.nodes j;
  }

  -- InternalEnableContinuousErrors
  unfoldable pub enable_continuous : Bool → Bus V W → Bus V W
  unfolding for_nodes
  enable_continuous enable b =
      for_nodes (set_node_mode enable) b.roster.count (record b { continuous_errors = enable })

  -- InternalAddParticipant
  unfoldable pub add_to_bus : ℕ → Bus V W → Bus V W
  unfolding is_full report_latched_error add_participant
  add_to_bus peer b =
      if is_full b.roster
      then fault (report_latched_error add_participant_name err_capacity_exceeded b)
      else record (set_node_mode b.continuous_errors (some peer) b) {
        roster = add_participant peer b.roster;
      }

  -- InternalRemoveParticipant
  unfoldable pub remove_from_bus : ℕ → Bus V W → Bus V W
  unfolding remove_participant
  remove_from_bus peer b = record b { roster = remove_participant peer b.roster }

  -- InternalReset
  unfoldable pub reset : Bus V W → Bus V W
  unfolding destroy_signals for_nodes reset_slots clear
  reset b =
      let c = for_nodes reset_node_errors b.roster.count b in
      record c {
        signals = [];
        objects = destroy_signals b.signals b.objects;
        roster = reset_slots b.roster.count b.roster;
        serializers = [];
        last_values = [];
        topic_qos = [];
        stringifiers = [];
        type_indices = [];
        monitor_signal = clear b.monitor_signal;
        unhandled_signal = clear b.unhandled_signal;
        error_signal = clear b.error_signal;
        reported_errors = [];
      }
