-- ===== src/Peer/Latched/Calls.antt =====
-- The calls of Participant.h tell an error of a topic as often as its latch says.
use async_http.Prelude.{
  ℕ, true, false, not, List, [], ◌∷◌, ◌++◌, ◌≡◌, inl, inr, refl, sym, ap, ◌∙◌, subst, ◌==◌,
  Bool-cases, Option-cases, if_both, arith,
}
use async_http.Prelude.Maps.{lookup, insert}
use async_http.Prelude.Strings.{String}
use async_http.Prelude.Erased.{Erased}
use async_http.Http.{Bytes}
use async_http.Reliable.Retry.{DmqHeader}
use async_http.Wire.Frame.{marker}
use async_http.Remote.{
  err_type_mismatch, err_no_dispatcher, err_transport_receive, Stream, Serializer, send, invoke,
}
use async_http.Peer.{Act, posted, faulted, Channel, Participant}
use async_http.Peer.Channels.{
  Found, get_or_create_channel, on_channel_error, on_reports, register_handler, channel_send,
  send_or_post, channel_invoke, filter_duplicate, process_incoming, call_acts, invalid_remote_id,
}
use async_http.Peer.Errors.{told, told-call_acts}
use async_http.Peer.Latched.{
  IsTold, same-IsTold, faulted-IsTold, on_channel_error-IsTold, on_reports-IsTold, DoneTold,
  from-IsTold, IsQuiet, get_or_create_channel-IsQuiet, filter_duplicate-IsQuiet,
}

module _ {V W : Type 0} (topic : String) (code : ℕ) where
  module _ (show : ℕ → String) (p : Participant V W) (off : p.continuous_errors ≡ false) where
    mismatch-IsTold :
        (id : ℕ) (q : Participant V W)
        → IsQuiet topic code p q
        → let d = on_channel_error show id err_type_mismatch q in
          IsTold topic code (d.acts ++ (faulted ∷ [])) p d.peer
    mismatch-IsTold id q s =
        let d = on_channel_error show id err_type_mismatch q in
        faulted-IsTold topic code d.acts p d.peer (
          from-IsTold topic code d.acts p q d.peer s.mode s.errors
            (on_channel_error-IsTold topic code show id err_type_mismatch q (s.mode ∙ off)))

    pub register_handler-IsTold :
        (type id : ℕ) (z : Serializer V) (handler : ℕ)
        → DoneTold topic code p (register_handler show type id z handler p)
    unfolding register_handler DoneTold
    register_handler-IsTold type id z handler =
        let f = get_or_create_channel type id z p in
        let s = get_or_create_channel-IsQuiet topic code type id z p in
        let d = register_handler show type id z handler p in
        elim (Option-cases f.channel) [
          | inr c ↦
              let e : d.acts ≡ [] = ground (arith, c.1) in
              subst (λ xs. IsTold topic code xs p d.peer) (sym e)
                (same-IsTold topic code p d.peer off (ground (arith, c.1, s.mode))
                  (ground (arith, c.1, s.errors)))
          | inl absent ↦ elim (Bool-cases f.type_mismatch) [
            | inl other ↦
                let x = on_channel_error show id err_type_mismatch f.peer in
                let e : d ≡ record x { acts = x.acts ++ (faulted ∷ []) } =
                  ground (arith, absent, other) in
                subst (DoneTold topic code p) (sym e) (mismatch-IsTold id f.peer s)
            | inr agreed ↦
                let e : d ≡ record { result = tt; acts = []; peer = f.peer } =
                  ground (arith, absent, agreed) in
                subst (DoneTold topic code p) (sym e)
                  (same-IsTold topic code p f.peer off s.mode s.errors)
          ]
        ]

    channel_invoke-IsTold :
        (id : ℕ) (stream : Stream) → DoneTold topic code p (channel_invoke show id stream p)
    unfolding channel_invoke DoneTold told
    channel_invoke-IsTold id stream = elim (Option-cases (lookup id p.channels)) [
      | inl absent ↦
          let e : channel_invoke show id stream p ≡ on_channel_error show id err_no_dispatcher p =
            ground (arith, absent) in
          subst (DoneTold topic code p) (sym e)
            (on_channel_error-IsTold topic code show id err_no_dispatcher p off)
      | inr c ↦
          let x = invoke stream c.0.object.remote in
          let k : Erased (Channel V) = record c.0 {
            object = record c.0.object { remote = x.remote };
          } in
          let q : Participant V W = record p { channels = insert id k p.channels } in
          let y = on_reports show x.reports q in
          let a = on_reports-IsTold topic code show x.reports q off in
          let d = channel_invoke show id stream p in
          let e : d.peer ≡ y.peer = ground (arith, c.1) in
          let t : told topic code d.acts ≡ told topic code y.acts =
            ap (told topic code) (
              let f : d.acts ≡ call_acts x.call c.0.object.target ++ y.acts = ground (arith, c.1) in
              f)
            ∙ told-call_acts topic code x.call c.0.object.target y.acts in
          record {
            latching = ap (λ r. r.continuous_errors) e ∙ a.latching;
            balance = ground (arith, t, e, a.balance);
          }
    ]

  pub process_incoming-IsTold :
      (show : ℕ → String) (p : Participant V W)
      → p.continuous_errors ≡ false
      → (result : ℕ) (stream : Stream) (header : DmqHeader)
      → DoneTold topic code p (process_incoming show result stream header p)
  unfolding process_incoming DoneTold
  process_incoming-IsTold show p off result stream header =
      let seen = filter_duplicate header p in
      let s = filter_duplicate-IsQuiet topic code header p in
      let called = channel_invoke show header.id stream seen.1 in
      let invoked : IsTold topic code called.acts seen.1 called.peer =
        channel_invoke-IsTold show seen.1 (s.mode ∙ off) header.id stream in
      if_both (DoneTold topic code p) (not (result == 0)) _ _
        (same-IsTold topic code p p off refl refl)
        (if_both (DoneTold topic code p) (not (header.marker == marker)) _ _
          (on_channel_error-IsTold topic code show invalid_remote_id err_transport_receive p off)
          (if_both (DoneTold topic code p) seen.0 _ _
            (same-IsTold topic code p seen.1 off s.mode s.errors)
            (from-IsTold topic code called.acts p seen.1 called.peer s.mode s.errors invoked)))

  module _ (show : ℕ → String) (transport : Bytes → DmqHeader → W → ℕ × W) where
    pub channel_send-IsTold :
        (id : ℕ) (v : V) (p : Participant V W)
        → p.continuous_errors ≡ false
        → DoneTold topic code p (channel_send show transport id v p)
    unfolding channel_send DoneTold
    channel_send-IsTold id v p off = elim (Option-cases (lookup id p.channels)) [
      | inl absent ↦
          let e : channel_send show transport id v p ≡ record { result = tt; acts = []; peer = p } =
            ground (arith, absent) in
          subst (DoneTold topic code p) (sym e) (same-IsTold topic code p p off refl refl)
      | inr c ↦
          let x = send transport v c.0.object.remote p.dispatcher in
          let k : Erased (Channel V) = record c.0 {
            object = record c.0.object { remote = x.remote };
          } in
          let q : Participant V W = record p {
            channels = insert id k p.channels;
            dispatcher = x.dispatcher;
          } in
          let e : channel_send show transport id v p ≡ on_reports show x.reports q =
            ground (arith, c.1) in
          let a = on_reports-IsTold topic code show x.reports q off in
          subst (DoneTold topic code p) (sym e)
            (record { latching = a.latching; balance = a.balance })
    ]

    pub send_or_post-IsTold :
        (id : ℕ) (v : V) (f : Found V W) (p : Participant V W)
        → p.continuous_errors ≡ false
        → IsQuiet topic code p f.peer
        → DoneTold topic code p (send_or_post show transport id v f)
    unfolding send_or_post DoneTold told
    send_or_post-IsTold id v f p off s =
        let d = send_or_post show transport id v f in
        let same : (acts : List (Act V))
            → told topic code acts ≡ 0
            → d.acts ≡ acts
            → d.peer ≡ f.peer
            → IsTold topic code d.acts p d.peer =
          λ acts none_told e g. record {
            latching = ap (λ r. r.continuous_errors) g ∙ s.mode ∙ off;
            balance = ground (arith, none_told, e, g, s.errors);
          } in
        elim (Bool-cases f.type_mismatch) [
          | inl other ↦
              let x = on_channel_error show id err_type_mismatch f.peer in
              let e : d ≡ record { result = true; acts = x.acts ++ (faulted ∷ []); peer = x.peer } =
                ground (arith, other) in
              subst (DoneTold topic code p) (sym e) (mismatch-IsTold show p off id f.peer s)
          | inr agreed ↦ elim (Option-cases f.channel) [
            | inl absent ↦
                same [] refl (ground (arith, agreed, absent)) (ground (arith, agreed, absent))
            | inr c ↦ elim (Option-cases f.peer.send_thread) [
              | inr t ↦
                  same (posted t.0 id v ∷ []) refl (ground (arith, agreed, c.1, t.1))
                    (ground (arith, agreed, c.1, t.1))
              | inl inline ↦
                  let x = channel_send show transport id v f.peer in
                  let e : d ≡ record { result = true; acts = x.acts; peer = x.peer } =
                    ground (arith, agreed, c.1, inline) in
                  subst (DoneTold topic code p) (sym e) (
                    from-IsTold topic code x.acts p f.peer x.peer s.mode s.errors
                      (channel_send-IsTold id v f.peer (s.mode ∙ off)))
            ]
          ]
        ]
