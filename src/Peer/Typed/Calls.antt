-- ===== src/Peer/Typed/Calls.antt =====
-- The calls of Participant.h keep the types of the channels.
use async_http.Prelude.{
  ℕ, not, Option, ◌≡◌, inl, inr, refl, sym, subst, ◌==◌, Bool-cases, Option-cases, if_both, arith,
}
use async_http.Prelude.Maps.{lookup, insert}
use async_http.Prelude.Strings.{String, find}
use async_http.Prelude.Erased.{Erased}
use async_http.Http.{Bytes}
use async_http.Reliable.Retry.{DmqHeader}
use async_http.Wire.Frame.{marker}
use async_http.Remote.{
  err_type_mismatch, err_no_dispatcher, err_transport_receive, Stream, Serializer, send, invoke,
}
use async_http.Peer.{Channel, Participant}
use async_http.Peer.Channels.{
  Done, Found, get_or_create_channel, on_channel_error, on_reports, bind, register_handler,
  channel_send, send_or_post, dispatch_if_interested, channel_invoke, filter_duplicate,
  process_incoming, invalid_remote_id,
}
use async_http.Peer.Typed.{
  IsTyped, on_channel_error-IsTyped, on_reports-IsTyped, replaced-IsTyped,
  get_or_create_channel-IsFound,
}

module _ {V W : Type 0} where
  module _ (show : ℕ → String) where
    pub register_handler-IsTyped :
        (type id : ℕ) (z : Serializer V) (handler : ℕ) (p : Participant V W)
        → IsTyped p
        → IsTyped (register_handler show type id z handler p).peer
    unfolding register_handler
    register_handler-IsTyped type id z handler p v =
        let f = get_or_create_channel type id z p in
        let w = get_or_create_channel-IsFound type id z p v in
        elim (Option-cases f.channel) [
          | inr c ↦
              let k : Erased (Channel V) = record c.0 { object = bind handler id c.0.object } in
              let e : (register_handler show type id z handler p).peer
                  ≡ record f.peer { channels = insert id k f.peer.channels } =
                ground (arith, c.1) in
              subst IsTyped (sym e) (
                replaced-IsTyped id c.0 k f.peer.dispatcher f.peer (w.present c.0 c.1).0 refl
                  w.typed)
          | inl absent ↦ elim (Bool-cases f.type_mismatch) [
            | inl other ↦
                let e : (register_handler show type id z handler p).peer
                    ≡ (on_channel_error show id err_type_mismatch f.peer).peer =
                  ground (arith, absent, other) in
                subst IsTyped (sym e)
                  (on_channel_error-IsTyped show id err_type_mismatch f.peer w.typed)
            | inr same ↦
                let e : (register_handler show type id z handler p).peer ≡ f.peer =
                  ground (arith, absent, same) in
                subst IsTyped (sym e) w.typed
          ]
        ]

    channel_invoke-IsTyped :
        (id : ℕ) (stream : Stream) (p : Participant V W)
        → IsTyped p
        → IsTyped (channel_invoke show id stream p).peer
    unfolding channel_invoke
    channel_invoke-IsTyped id stream p v = elim (Option-cases (lookup id p.channels)) [
      | inl absent ↦
          let e : (channel_invoke show id stream p).peer
              ≡ (on_channel_error show id err_no_dispatcher p).peer =
            ground (arith, absent) in
          subst IsTyped (sym e) (on_channel_error-IsTyped show id err_no_dispatcher p v)
      | inr c ↦
          let x = invoke stream c.0.object.remote in
          let k : Erased (Channel V) = record c.0 {
            object = record c.0.object { remote = x.remote };
          } in
          let q : Participant V W = record p { channels = insert id k p.channels } in
          let e : (channel_invoke show id stream p).peer ≡ (on_reports show x.reports q).peer =
            ground (arith, c.1) in
          subst IsTyped (sym e) (
            on_reports-IsTyped show x.reports q
              (replaced-IsTyped id c.0 k p.dispatcher p c.1 refl v))
    ]

    filter_duplicate-IsTyped :
        (header : DmqHeader) (p : Participant V W)
        → IsTyped p
        → IsTyped (filter_duplicate header p).1
    unfolding filter_duplicate
    filter_duplicate-IsTyped header p v = record {
      agree = λ i. ground (arith, v.agree i);
      safe = ground (arith, v.safe);
    }

    pub process_incoming-IsTyped :
        (result : ℕ) (stream : Stream) (header : DmqHeader) (p : Participant V W)
        → IsTyped p
        → IsTyped (process_incoming show result stream header p).peer
    unfolding process_incoming filter_duplicate
    process_incoming-IsTyped result stream header p v =
        let seen = filter_duplicate header p in
        let typed = filter_duplicate-IsTyped header p v in
        let keeps : Done ℕ V W → Type 0 = λ d. IsTyped d.peer in
        if_both keeps (not (result == 0)) _ _ v (
          if_both keeps (not (header.marker == marker)) _ _
            (on_channel_error-IsTyped show invalid_remote_id err_transport_receive p v)
            (if_both keeps seen.0 _ _ typed (channel_invoke-IsTyped header.id stream seen.1 typed)))

    module _ (transport : Bytes → DmqHeader → W → ℕ × W) where
      pub channel_send-IsTyped :
          (id : ℕ) (x : V) (p : Participant V W)
          → IsTyped p
          → IsTyped (channel_send show transport id x p).peer
      unfolding channel_send
      channel_send-IsTyped id x p v = elim (Option-cases (lookup id p.channels)) [
        | inl absent ↦
            let e : (channel_send show transport id x p).peer ≡ p = ground (arith, absent) in
            subst IsTyped (sym e) v
        | inr c ↦
            let y = send transport x c.0.object.remote p.dispatcher in
            let k : Erased (Channel V) = record c.0 {
              object = record c.0.object { remote = y.remote };
            } in
            let q : Participant V W = record p {
              channels = insert id k p.channels;
              dispatcher = y.dispatcher;
            } in
            let e : (channel_send show transport id x p).peer ≡ (on_reports show y.reports q).peer =
              ground (arith, c.1) in
            subst IsTyped (sym e) (
              on_reports-IsTyped show y.reports q
                (replaced-IsTyped id c.0 k y.dispatcher p c.1 refl v))
      ]

      send_or_post-IsTyped :
          (id : ℕ) (x : V) (f : Found V W)
          → IsTyped f.peer
          → IsTyped (send_or_post show transport id x f).peer
      unfolding send_or_post
      send_or_post-IsTyped id x f v =
          let y = send_or_post show transport id x f in
          let same : y.peer ≡ f.peer → IsTyped y.peer = λ e. subst IsTyped (sym e) v in
          elim (Bool-cases f.type_mismatch) [
            | inl other ↦
                let e : y.peer ≡ (on_channel_error show id err_type_mismatch f.peer).peer =
                  ground (arith, other) in
                subst IsTyped (sym e) (on_channel_error-IsTyped show id err_type_mismatch f.peer v)
            | inr agreed ↦ elim (Option-cases f.channel) [
              | inl absent ↦ same (ground (arith, agreed, absent))
              | inr c ↦ elim (Option-cases f.peer.send_thread) [
                | inr t ↦ same (ground (arith, agreed, c.1, t.1))
                | inl inline ↦
                    let e : y.peer ≡ (channel_send show transport id x f.peer).peer =
                      ground (arith, agreed, c.1, inline) in
                    subst IsTyped (sym e) (channel_send-IsTyped id x f.peer v)
              ]
            ]
          ]

      pub dispatch_if_interested-IsTyped :
          (topic : String) (type : ℕ) (x : V) (z : Option (Serializer V)) (p : Participant V W)
          → IsTyped p
          → IsTyped (dispatch_if_interested show transport topic type x z p).peer
      unfolding dispatch_if_interested
      dispatch_if_interested-IsTyped topic type x z p v =
          let y = dispatch_if_interested show transport topic type x z p in
          let same : y.peer ≡ p → IsTyped y.peer = λ e. subst IsTyped (sym e) v in
          elim (Option-cases (find topic p.topic_to_remote_id)) [
            | inl absent ↦ same (ground (arith, absent))
            | inr id ↦ elim (Option-cases z) [
              | inl unset ↦ same (ground (arith, id.1, unset))
              | inr s ↦
                  let f = get_or_create_channel type id.0 s.0 p in
                  let e : y.peer ≡ (send_or_post show transport id.0 x f).peer =
                    ground (arith, id.1, s.1) in
                  subst IsTyped (sym e) (
                    send_or_post-IsTyped id.0 x f
                      (get_or_create_channel-IsFound type id.0 s.0 p v).typed)
            ]
          ]
