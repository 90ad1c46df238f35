-- ===== src/Peer/Transfer.antt =====
-- A message from a participant of one node to the participant of another, through Participant.h,
-- RemoteChannel.h and DelegateRemote.h.
use async_http.Prelude.{ℕ, true, false, none, some, [], ◌∷◌, ◌++◌, ◌≡◌, ap, ◌∙◌, ◌==◌, arith}
use async_http.Prelude.Maps.{lookup, insert}
use async_http.Prelude.Strings.{String, find}
use async_http.Prelude.Erased.{Erased}
use async_http.Http.{Bytes}
use async_http.Reliable.Retry.{DmqHeader}
use async_http.Wire.Frame.{ack_remote_id, new_header}
use async_http.Wire.Dispatch.{Dispatcher, dispatch}
use async_http.Remote.{
  success, Stream, Serializer, got, Remote, success_reports, dispatch_stream, send_serialized,
  after_write, send, invoke,
}
use async_http.Peer.{is_known, is_duplicate, history_size, Channel, Participant, called}
use async_http.Peer.Channels.{
  differs, get_or_create_channel, on_channel_error, on_reports, channel_send, send_or_post,
  dispatch_if_interested, call_acts, channel_invoke, history_of, filter_duplicate, process_incoming,
}

abbrev pub empty_stream : Stream
empty_stream = record { content = []; good = true }

-- The serializer writes a message to an empty stream, and reads it back.
pub record RoundTrips {V : Type 0} (z : Serializer V) (v : V) : Type 0 where
  pub unthrown : (z.write v empty_stream).threw ≡ false
  pub good : (z.write v empty_stream).stream.good ≡ true
  pub back : z.read (z.write v empty_stream).stream.content ≡ got v

abbrev pub content_of : {V : Type 0} → Serializer V → V → Bytes
content_of z v = (z.write v empty_stream).stream.content

module _ {V W : Type 0} where
  -- A channel of a message type, ready to send: nothing is left over in its stream.
  pub record IsReady (type id : ℕ) (z : Serializer V) (c : Erased (Channel V)) (p : Participant V W)
      : Type 0 where
    pub here : lookup id p.channels ≡ some c
    pub typed : lookup id p.channel_types ≡ some type
    pub serializer : c.object.remote.serializer ≡ some z
    pub stream : c.object.remote.stream ≡ some empty_stream
    pub handled : c.object.remote.has_handler ≡ true
    pub dispatching : c.object.remote.has_dispatcher ≡ true
    pub remote_id : c.object.remote.id ≡ id

  -- A channel that is bound to a handler, and a message that is no duplicate for it.
  pub record IsBound (id : ℕ) (z : Serializer V) (handler seq : ℕ) (c : Erased (Channel V))
      (p : Participant V W) : Type 0 where
    pub here : lookup id p.channels ≡ some c
    pub serializer : c.object.remote.serializer ≡ some z
    pub target : c.object.target ≡ some handler
    pub is_new : is_known history_size seq (history_of id p) ≡ false

  module _ (show : ℕ → String) (transport : Bytes → DmqHeader → W → ℕ × W) where
    send-ready :
        (id : ℕ) (z : Serializer V) (v : V) (r : Remote V) (d : Dispatcher W)
        → r.serializer ≡ some z
        → r.stream ≡ some empty_stream
        → r.has_handler ≡ true
        → r.has_dispatcher ≡ true
        → r.id ≡ id
        → RoundTrips z v
        → d.has_transport ≡ true
        → (transport (content_of z v) (new_header id d.next_seq_num) d.below).0 ≡ 0
        → let x = send transport v r d in
          (x.reports ≡ record { id = id; error = success; aux = 0 } ∷ [])
          × (x.dispatcher.below
              ≡ (transport (content_of z v) (new_header id d.next_seq_num) d.below).1)
    unfolding send after_write send_serialized dispatch_stream dispatch success_reports
    send-ready id z v r d serializer stream handler dispatcher named s on took = (
      ground (arith, serializer, stream, handler, dispatcher, named, s.unthrown, s.good, on, took),
      ground (arith, serializer, stream, handler, dispatcher, named, s.unthrown, s.good, on, took),
    )

    on_reports_success :
        (id : ℕ) (p : Participant V W)
        → on_reports show (record { id = id; error = success; aux = 0 } ∷ []) p
          ≡ record { result = tt; acts = []; peer = p }
    unfolding on_reports on_channel_error
    on_reports_success id p = ground arith

    channel_send-ready :
        (type id : ℕ) (z : Serializer V) (v : V) (c : Erased (Channel V)) (p : Participant V W)
        → IsReady type id z c p
        → RoundTrips z v
        → p.dispatcher.has_transport ≡ true
        → (transport
            (content_of z v)
            (new_header id p.dispatcher.next_seq_num)
            p.dispatcher.below).0
          ≡ 0
        → let d = channel_send show transport id v p in
          (d.acts ≡ [])
          × (d.peer.dispatcher.below
              ≡ (transport
                  (content_of z v)
                  (new_header id p.dispatcher.next_seq_num)
                  p.dispatcher.below).1)
    unfolding channel_send
    channel_send-ready type id z v c p r s on took =
        let x = send transport v c.object.remote p.dispatcher in
        let y =
          send-ready id z v c.object.remote p.dispatcher r.serializer r.stream r.handled
            r.dispatching r.remote_id s on took in
        let k : Erased (Channel V) = record c { object = record c.object { remote = x.remote } } in
        let q : Participant V W = record p {
          channels = insert id k p.channels;
          dispatcher = x.dispatcher;
        } in
        let e : channel_send show transport id v p ≡ record { result = tt; acts = []; peer = q } =
          ground (arith, r.here, y.0, on_reports_success id q) in
        (ap (λ d. d.acts) e, ap (λ d. d.peer.dispatcher.below) e ∙ y.1)

    send_or_post-ready :
        (type id : ℕ) (z : Serializer V) (v : V) (c : Erased (Channel V)) (p : Participant V W)
        → IsReady type id z c p
        → p.send_thread ≡ none
        → let q = record p {
          casts = p.casts ++ (record { wanted = type; actual = c.made_as } ∷ []);
        } in
          let d = channel_send show transport id v q in
          send_or_post show transport id v (get_or_create_channel type id z p)
          ≡ record { result = true; acts = d.acts; peer = d.peer }
    unfolding send_or_post get_or_create_channel differs
    send_or_post-ready type id z v c p r inline = ground (arith, r.here, r.typed, inline)

    channel_invoke-bound :
        (id handler : ℕ) (z : Serializer V) (v : V) (c : Erased (Channel V)) (p : Participant V W)
        → lookup id p.channels ≡ some c
        → c.object.remote.serializer ≡ some z
        → c.object.target ≡ some handler
        → RoundTrips z v
        → (channel_invoke show id (record { content = content_of z v; good = true }) p).acts
          ≡ called handler v ∷ []
    unfolding channel_invoke invoke call_acts on_reports
    channel_invoke-bound id handler z v c p here serializer target s =
        ground (arith, here, serializer, target, s.back)

    process_incoming-bound :
        (id handler seq : ℕ) (z : Serializer V) (v : V) (c : Erased (Channel V))
        (p : Participant V W)
        → (id == ack_remote_id) ≡ false
        → IsBound id z handler seq c p
        → RoundTrips z v
        → (process_incoming show 0
            (record { content = content_of z v; good = true })
            (new_header id seq)
            p).acts
          ≡ called handler v ∷ []
    unfolding process_incoming filter_duplicate is_duplicate
    process_incoming-bound id handler seq z v c p other t s =
        let q = (filter_duplicate (new_header id seq) p).1 in
        let found : lookup id q.channels ≡ some c = ground (arith, t.here, other) in
        ground (
          arith,
          t.here,
          other,
          t.is_new,
          channel_invoke-bound id handler z v c q found t.serializer t.target s,
        )

    -- A message of a topic, dispatched by a participant whose channel for it is ready and that has
    -- no send thread, goes to the transport with the header of its id and the next sequence number,
    -- and no error is told. When a participant whose channel of that id is bound to a handler gets
    -- those bytes and that header, the handler is called with the message, and nothing else is
    -- done. The transport accepts the message, the serializer reads back what it writes, the id is
    -- not the one of acknowledgements, and the sequence number is not among the last ones of the
    -- channel.
    pub dispatch-process_incoming :
        (topic : String) (type id handler : ℕ) (z : Serializer V) (v : V) (a b : Erased (Channel V))
        (sender receiver : Participant V W)
        → find topic sender.topic_to_remote_id ≡ some id
        → (id == ack_remote_id) ≡ false
        → sender.send_thread ≡ none
        → IsReady type id z a sender
        → IsBound id z handler sender.dispatcher.next_seq_num b receiver
        → RoundTrips z v
        → sender.dispatcher.has_transport ≡ true
        → (transport
            (content_of z v)
            (new_header id sender.dispatcher.next_seq_num)
            sender.dispatcher.below).0
          ≡ 0
        → let header = new_header id sender.dispatcher.next_seq_num in
          let sent = dispatch_if_interested show transport topic type v (some z) sender in
          let arrived =
            process_incoming show 0
              (record { content = content_of z v; good = true })
              header
              receiver in
          (sent.result ≡ true)
          × (sent.acts ≡ [])
          × (sent.peer.dispatcher.below
              ≡ (transport (content_of z v) header sender.dispatcher.below).1)
          × (arrived.acts ≡ called handler v ∷ [])
    unfolding dispatch_if_interested
    dispatch-process_incoming topic type id handler z v a b sender receiver named other inline r t s
          on took =
        let ready : IsReady type id z a (record sender {
          casts = sender.casts ++ (record { wanted = type; actual = a.made_as } ∷ []);
        }) =
          record {
            here = r.here;
            typed = r.typed;
            serializer = r.serializer;
            stream = r.stream;
            handled = r.handled;
            dispatching = r.dispatching;
            remote_id = r.remote_id;
          } in
        let sent = channel_send-ready type id z v a _ ready s on took in
        let e = send_or_post-ready type id z v a sender r inline in
        (
          ground (arith, named, e),
          ground (arith, named, e, sent.0),
          ground (arith, named, e, sent.1),
          process_incoming-bound id handler sender.dispatcher.next_seq_num z v b receiver other t s,
        )
