-- ===== src/Bus/Tables.antt =====
-- The tables of DataBus.h that hold type-erased objects, and what leaves them as they are.
use async_http.Prelude.{
  ℕ, zero, suc, Bool, Option, List, [], ◌∷◌, ◌≡◌, inl, inr, refl, ◌∙◌, ◌==◌, Bool-cases,
  if◌then◌else◌, arith,
}
use async_http.Prelude.Strings.{String, Dict}
use async_http.Prelude.Erased.{Erased, Cast}
use async_http.Http.{Bytes}
use async_http.Reliable.Retry.{DmqHeader}
use async_http.Remote.{DelegateError, err_type_mismatch, Serializer}
use async_http.Peer.{Act, error_signal, posted, called, faulted}
use async_http.Peer.Channels.{dispatch_if_interested}
use async_http.Bus.{Subscriber, LvcEntry, Bus}
use async_http.Bus.Limiter.{filter_invoke, limiter_invoke, call_slot, call_slots}
use async_http.Bus.Registry.{report_latched_error, report_mismatch, for_nodes, set_node_mode}
use async_http.Bus.Publish.{report_times, note_acts, dispatch_to, dispatch_all}
use async_http.Bus.Slots.{listeners}

pub record Tables (V : Type 0) : Type 0 where
  pub signals : Dict (Erased ℕ)
  pub serializers : Dict (Erased (Serializer V))
  pub last_values : Dict (LvcEntry V)
  pub stringifiers : Dict (Erased (V → String))
  pub type_indices : Dict ℕ
  pub topic_qos : Dict Bool
  pub casts : List Cast

module _ {V W : Type 0} where
  abbrev pub tables : Bus V W → Tables V
  tables b = record {
    signals = b.signals;
    serializers = b.serializers;
    last_values = b.last_values;
    stringifiers = b.stringifiers;
    type_indices = b.type_indices;
    topic_qos = b.topic_qos;
    casts = b.casts;
  }

  pub limiter_invoke-tables :
      (now : ℕ) (s : Subscriber V) (v : V) (b : Bus V W)
      → tables (limiter_invoke now s v b) ≡ tables b
  unfolding limiter_invoke filter_invoke
  limiter_invoke-tables now s v b = ground arith

  pub call_slot-tables :
      (now : ℕ) (v : V) (s : Subscriber V) (b : Bus V W) → tables (call_slot now v s b) ≡ tables b
  unfolding call_slot
  call_slot-tables now v s b = ground (arith, limiter_invoke-tables now s v b)

  pub call_slots-tables :
      (now : ℕ) (v : V) (ss : List (Subscriber V)) (b : Bus V W)
      → tables (call_slots now v ss b) ≡ tables b
  unfolding call_slots
  call_slots-tables now v [] b = refl
  call_slots-tables now v (s ∷ ss) b =
      call_slots-tables now v ss (call_slot now v s b) ∙ call_slot-tables now v s b

  pub report_latched_error-tables :
      (topic : String) (e : DelegateError) (b : Bus V W)
      → tables (report_latched_error topic e b) ≡ tables b
  unfolding report_latched_error
  report_latched_error-tables topic e b = ground arith

  pub report_mismatch-tables :
      (topic : String) (b : Bus V W) → tables (report_mismatch topic b) ≡ tables b
  unfolding report_mismatch
  report_mismatch-tables topic b = report_latched_error-tables topic err_type_mismatch b

  report_times-tables :
      (n : ℕ) (topic : String) (e : DelegateError) (b : Bus V W)
      → tables (report_times n topic e b) ≡ tables b
  unfolding report_times
  report_times-tables zero topic e b = refl
  report_times-tables (suc n) topic e b =
      report_times-tables n topic e (report_latched_error topic e b)
      ∙ report_latched_error-tables topic e b

  pub note_acts-tables :
      (peer : ℕ) (acts : List (Act V)) (b : Bus V W) → tables (note_acts peer acts b) ≡ tables b
  unfolding note_acts
  note_acts-tables peer [] b = refl
  note_acts-tables peer (error_signal topic e ∷ acts) b =
      let n = listeners b.roster.count peer b.roster in
      note_acts-tables peer acts (report_times n topic e b) ∙ report_times-tables n topic e b
  note_acts-tables peer (posted t i v ∷ acts) b = note_acts-tables peer acts _
  note_acts-tables peer (called h v ∷ acts) b = note_acts-tables peer acts _
  note_acts-tables peer (faulted ∷ acts) b = refl

  pub for_nodes_mode-tables :
      (enable : Bool) (n : ℕ) (b : Bus V W)
      → tables (for_nodes (set_node_mode enable) n b) ≡ tables b
  unfolding for_nodes
  for_nodes_mode-tables enable zero b = refl
  for_nodes_mode-tables enable (suc n) b = ground (arith, for_nodes_mode-tables enable n b)

  module _ (show : ℕ → String) (transport : Bytes → DmqHeader → W → ℕ × W) where
    dispatch_to-tables :
        (peer : ℕ) (topic : String) (type : ℕ) (v : V) (z : Option (Serializer V)) (b : Bus V W)
        → tables (dispatch_to show transport peer topic type v z b).1 ≡ tables b
    unfolding dispatch_to
    dispatch_to-tables peer topic type v z b =
        let p = b.nodes peer in
        let d =
          dispatch_if_interested show transport topic type v z
            (record p { dispatcher = record p.dispatcher { next_seq_num = b.next_seq_num } }) in
        note_acts-tables peer d.acts (record b {
          nodes = λ i. if i == peer then d.peer else b.nodes i;
          next_seq_num = d.peer.dispatcher.next_seq_num;
        })

    pub dispatch_all-tables :
        (peers : List ℕ) (topic : String) (type : ℕ) (v : V) (z : Option (Serializer V))
        (b : Bus V W)
        → tables (dispatch_all show transport peers topic type v z b).1 ≡ tables b
    unfolding dispatch_all
    dispatch_all-tables [] topic type v z b = refl
    dispatch_all-tables (peer ∷ peers) topic type v z b =
        let first = dispatch_to show transport peer topic type v z b in
        let one = dispatch_to-tables peer topic type v z b in
        elim (Bool-cases first.1.faulted) [
          | inl stopped ↦ ground (arith, stopped, one)
          | inr on ↦ ground (arith, on, one, dispatch_all-tables peers topic type v z first.1)
        ]
