-- ===== src/Peer/Channels.antt =====
-- The operations of Participant.h: its channels, sends, handlers and what arrives.
use async_http.Prelude.{
  ℕ, Bool, true, false, not, Option, none, some, List, [], ◌∷◌, ◌++◌, ◌==◌, if◌then◌else◌,
}
use async_http.Prelude.Maps.{lookup, insert}
use async_http.Prelude.Strings.{String, find, assign}
use async_http.Prelude.Erased.{Erased}
use async_http.Http.{Bytes}
use async_http.Reliable.Retry.{DmqHeader, minus_one}
use async_http.Wire.Frame.{marker, ack_remote_id}
use async_http.Remote.{
  DelegateError, success, err_no_dispatcher, err_type_mismatch, err_transport_receive, Stream,
  Serializer, Report, send, invoke,
}
use async_http.Peer.{
  is_duplicate, new_history, SeqHistory, latch, Channel, Participant, Act, error_signal, posted,
  called, faulted, unknown_remote_id, is_empty, is_success, topic_of,
}

-- INVALID_REMOTE_ID
abbrev pub invalid_remote_id : ℕ
invalid_remote_id = 65535

-- What an operation leaves: the result of the function, what it did, and the participant.
pub record Done (R V W : Type 0) : Type 0 where
  pub result : R
  pub acts : List (Act V)
  pub peer : Participant V W

-- The channel that was found or made, if the types agree.
pub record Found (V W : Type 0) : Type 0 where
  pub channel : Option (Erased (Channel V))
  pub type_mismatch : Bool
  pub peer : Participant V W

-- The constructor of RemoteChannel, SetRemoteId, AttachErrorHandler.
abbrev pub new_channel : {V : Type 0} → ℕ → Serializer V → Channel V
new_channel id z = record {
  remote = record {
    id = id;
    last_seq_num = 0;
    has_handler = true;
    has_dispatcher = true;
    error = success;
    stream = some (record { content = []; good = true });
    serializer = some z;
  };
  target = none;
}

-- Bind, which keeps the channel's own serializer and stream.
abbrev pub bind : {V : Type 0} → ℕ → ℕ → Channel V → Channel V
bind handler id c = record c { remote = record c.remote { id = id }; target = some handler }

-- A delegate that is bound to nothing calls nothing.
unfoldable pub call_acts : {V : Type 0} → Option V → Option ℕ → List (Act V)
call_acts none target = []
call_acts (some v) none = []
call_acts (some v) (some handler) = called handler v ∷ []

module _ {V W : Type 0} where
  -- AddRemoteTopic, EnableContinuousErrors, ResetErrors, SetSendThread
  unfoldable pub add_remote_topic : String → ℕ → Participant V W → Participant V W
  add_remote_topic topic id p = record p {
    topic_to_remote_id = assign topic id p.topic_to_remote_id;
  }

  abbrev pub enable_continuous_errors : Bool → Participant V W → Participant V W
  enable_continuous_errors enable p = record p { continuous_errors = enable }

  abbrev pub reset_errors : Participant V W → Participant V W
  reset_errors p = record p { reported_errors = [] }

  abbrev pub set_send_thread : Option ℕ → Participant V W → Participant V W
  set_send_thread thread p = record p { send_thread = thread }

  -- GetRemoteId, GetTopicName
  unfoldable pub get_remote_id : String → Participant V W → Option ℕ
  get_remote_id topic p = find topic p.topic_to_remote_id

  -- The test of `m_channelTypes`: an id without a type passes.
  unfoldable pub differs : ℕ → ℕ → Participant V W → Bool
  differs type id p = elim (lookup id p.channel_types) [ none ↦ false | some t ↦ not (t == type) ]

  -- GetOrCreateChannelLocked
  unfoldable pub get_or_create_channel : ℕ → ℕ → Serializer V → Participant V W → Found V W
  unfolding differs insert
  get_or_create_channel type id z p = elim (lookup id p.channels) [
    | some c ↦
        if differs type id p
        then record { channel = none; type_mismatch = true; peer = p }
        else record {
          channel = some c;
          type_mismatch = false;
          peer = record p {
            casts = p.casts ++ (record { wanted = type; actual = c.made_as } ∷ []);
          };
        }
    | none ↦
        let c : Erased (Channel V) = record { made_as = type; object = new_channel id z } in
        record {
          channel = some c;
          type_mismatch = false;
          peer = record p {
            channels = insert id c p.channels;
            channel_types = elim (lookup id p.channel_types) [
              | none ↦ insert id type p.channel_types
              | some t ↦ p.channel_types
            ];
            casts = p.casts ++ (record { wanted = type; actual = type } ∷ []);
          };
        }
  ]

  unfoldable pub history_of : ℕ → Participant V W → SeqHistory
  history_of id p = elim (lookup id p.history) [ none ↦ new_history | some h ↦ h ]

  -- A message of a channel is looked up in the history of its id, but for acknowledgements.
  unfoldable pub filter_duplicate : DmqHeader → Participant V W → Bool × Participant V W
  unfolding is_duplicate insert history_of
  filter_duplicate header p =
      let seen = is_duplicate header.seq_num (history_of header.id p) in
      elim (lookup header.id p.channels) [
        | none ↦ (false, p)
        | some c ↦
            if header.id == ack_remote_id
            then (false, p)
            else (seen.0, record p { history = insert header.id seen.1 p.history })
      ]

  module _ (show : ℕ → String) where
    -- OnChannelError
    unfoldable pub on_channel_error : ℕ → DelegateError → Participant V W → Done (Unit {0}) V W
    unfolding latch topic_of
    on_channel_error id e p =
        let name = topic_of id p.topic_to_remote_id in
        let topic = if is_empty name then unknown_remote_id ++ show id else name in
        let fired = latch p.continuous_errors topic e p.reported_errors in
        if is_success e then record { result = tt; acts = []; peer = p } else record {
          result = tt;
          acts = if fired.0 then error_signal topic e ∷ [] else [];
          peer = record p { reported_errors = fired.1 };
        }

    -- The error handler of a channel, called for each of its reports.
    unfoldable pub on_reports : List Report → Participant V W → Done (Unit {0}) V W
    unfolding on_channel_error
    on_reports [] p = record { result = tt; acts = []; peer = p }
    on_reports (r ∷ rs) p =
        let first = on_channel_error r.id r.error p in
        let rest = on_reports rs first.peer in record rest { acts = first.acts ++ rest.acts }

    -- RegisterHandler
    unfoldable pub register_handler :
        ℕ → ℕ → Serializer V → ℕ → Participant V W → Done (Unit {0}) V W
    unfolding get_or_create_channel on_channel_error insert
    register_handler type id z handler p =
        let found = get_or_create_channel type id z p in
        let failed = on_channel_error id err_type_mismatch found.peer in
        elim found.channel [
          | some c ↦ record {
            result = tt;
            acts = [];
            peer = record found.peer {
              channels =
                  insert id (record c { object = bind handler id c.object }) found.peer.channels;
            };
          }
          | none ↦
              if found.type_mismatch
              then record failed { acts = failed.acts ++ (faulted ∷ []) }
              else record { result = tt; acts = []; peer = found.peer }
        ]

    module _ (transport : Bytes → DmqHeader → W → ℕ × W) where
      -- RemoteChannel::operator(), on the channel of an id.
      unfoldable pub channel_send : ℕ → V → Participant V W → Done (Unit {0}) V W
      unfolding send on_reports insert
      channel_send id v p = elim (lookup id p.channels) [
        | none ↦ record { result = tt; acts = []; peer = p }
        | some c ↦
            let x = send transport v c.object.remote p.dispatcher in
            let kept = record c { object = record c.object { remote = x.remote } } in
            on_reports x.reports
              (record p { channels = insert id kept p.channels; dispatcher = x.dispatcher })
      ]

      -- AsyncSend, run by the send thread.
      abbrev pub async_send : ℕ → V → Participant V W → Done (Unit {0}) V W
      async_send id v p = channel_send id v p

      -- The channel, if there is one, sends or posts to the send thread.
      unfoldable pub send_or_post : ℕ → V → Found V W → Done Bool V W
      unfolding channel_send on_channel_error
      send_or_post id v found =
          let p = found.peer in
          let failed = on_channel_error id err_type_mismatch p in
          let sent = channel_send id v p in
          if found.type_mismatch
          then record { result = true; acts = failed.acts ++ (faulted ∷ []); peer = failed.peer }
          else elim found.channel [
            | none ↦ record { result = true; acts = []; peer = p }
            | some c ↦ elim p.send_thread [
              | some thread ↦ record { result = true; acts = posted thread id v ∷ []; peer = p }
              | none ↦ record { result = true; acts = sent.acts; peer = sent.peer }
            ]
          ]

      -- DispatchIfInterested
      unfoldable pub dispatch_if_interested :
          String → ℕ → V → Option (Serializer V) → Participant V W → Done Bool V W
      unfolding send_or_post get_or_create_channel
      dispatch_if_interested topic type v serializer p = elim (find topic p.topic_to_remote_id) [
        | none ↦ record { result = false; acts = []; peer = p }
        | some id ↦ elim serializer [
          | none ↦ record { result = true; acts = []; peer = p }
          | some z ↦ send_or_post id v (get_or_create_channel type id z p)
        ]
      ]

    -- What a channel does with a message: the handler is called, or an error is reported.
    unfoldable pub channel_invoke : ℕ → Stream → Participant V W → Done (Unit {0}) V W
    unfolding invoke on_reports insert on_channel_error call_acts
    channel_invoke id stream p = elim (lookup id p.channels) [
      | none ↦ on_channel_error id err_no_dispatcher p
      | some c ↦
          let x = invoke stream c.object.remote in
          let kept = record c { object = record c.object { remote = x.remote } } in
          let reported = on_reports x.reports (record p { channels = insert id kept p.channels }) in
          record reported { acts = call_acts x.call c.object.target ++ reported.acts }
    ]

    -- ProcessIncoming, after ITransport::Receive has given a result, a stream and a header.
    unfoldable pub process_incoming : ℕ → Stream → DmqHeader → Participant V W → Done ℕ V W
    unfolding filter_duplicate channel_invoke on_channel_error
    process_incoming result stream header p =
        let failed = on_channel_error invalid_remote_id err_transport_receive p in
        let seen = filter_duplicate header p in
        let called = channel_invoke header.id stream seen.1 in
        if not (result == 0)
        then record { result = result; acts = []; peer = p }
        else if not (header.marker == marker)
        then record { result = minus_one; acts = failed.acts; peer = failed.peer }
        else if seen.0
        then record { result = 0; acts = []; peer = seen.1 }
        else record { result = result; acts = called.acts; peer = called.peer }
