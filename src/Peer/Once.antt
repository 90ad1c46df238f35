-- ===== src/Peer/Once.antt =====
-- How often a series of calls of Participant.h tells an error.
use async_http.Prelude.{
  ℕ, ◌+◌, ◌≤◌, Bool, true, false, not, Option, List, [], ◌∷◌, ◌≡◌, inl, inr, refl, sym, subst,
  Option-cases, All, arith,
}
use async_http.Prelude.Strings.{String, find}
use async_http.Http.{Bytes}
use async_http.Reliable.Retry.{DmqHeader}
use async_http.Remote.{Serializer}
use async_http.Peer.{Participant}
use async_http.Peer.Channels.{
  get_or_create_channel, send_or_post, dispatch_if_interested, add_remote_topic,
}
use async_http.Peer.Errors.{told, reported}
use async_http.Peer.Latched.{
  IsTold, DoneTold, same-IsTold, then-IsTold, get_or_create_channel-IsQuiet,
}
use async_http.Peer.Latched.Calls.{
  register_handler-IsTold, process_incoming-IsTold, channel_send-IsTold, send_or_post-IsTold,
}
use async_http.Peer.Requests.{
  Request, topic_added, handler_registered, dispatched, send_ran, arrived, thread_set,
  continuous_set, errors_reset, serve, serve_all,
}

-- Neither a reset of the errors nor the mode in which each error is told.
abbrev pub is_latching : {V : Type 0} → Request V → Bool
is_latching (continuous_set enable) = not enable
is_latching errors_reset = false
is_latching _ = true

reported-le : (topic : String) (code : ℕ) (m : _) → reported topic code m ≤ 1
unfolding reported
reported-le topic code m = ground arith

module _ {V W : Type 0} (show : ℕ → String) (transport : Bytes → DmqHeader → W → ℕ × W)
    (topic : String) (code : ℕ) where
  dispatch_if_interested-IsTold :
      (t : String) (type : ℕ) (v : V) (z : Option (Serializer V)) (p : Participant V W)
      → p.continuous_errors ≡ false
      → DoneTold topic code p (dispatch_if_interested show transport t type v z p)
  unfolding dispatch_if_interested DoneTold
  dispatch_if_interested-IsTold t type v z p off =
      let d = dispatch_if_interested show transport t type v z p in
      elim (Option-cases (find t p.topic_to_remote_id)) [
        | inl absent ↦
            let e : d ≡ record { result = false; acts = []; peer = p } = ground (arith, absent) in
            subst (DoneTold topic code p) (sym e) (same-IsTold topic code p p off refl refl)
        | inr id ↦ elim (Option-cases z) [
          | inl unset ↦
              let e : d ≡ record { result = true; acts = []; peer = p } =
                ground (arith, id.1, unset) in
              subst (DoneTold topic code p) (sym e) (same-IsTold topic code p p off refl refl)
          | inr s ↦
              let f = get_or_create_channel type id.0 s.0 p in
              let e : d ≡ send_or_post show transport id.0 v f = ground (arith, id.1, s.1) in
              subst (DoneTold topic code p) (sym e) (
                send_or_post-IsTold topic code show transport id.0 v f p off
                  (get_or_create_channel-IsQuiet topic code type id.0 s.0 p))
        ]
      ]

  serve-IsTold :
      (r : Request V) (p : Participant V W)
      → is_latching r ≡ true
      → p.continuous_errors ≡ false
      → let d = serve show transport r p in IsTold topic code d.0 p d.1
  unfolding serve DoneTold add_remote_topic
  serve-IsTold (topic_added t id) p h off = same-IsTold topic code p _ off refl refl
  serve-IsTold (handler_registered type id z handler) p h off =
      register_handler-IsTold topic code show p off type id z handler
  serve-IsTold (dispatched t type v z) p h off = dispatch_if_interested-IsTold t type v z p off
  serve-IsTold (send_ran id v) p h off = channel_send-IsTold topic code show transport id v p off
  serve-IsTold (arrived result stream header) p h off =
      process_incoming-IsTold topic code show p off result stream header
  serve-IsTold (thread_set thread) p h off = same-IsTold topic code p _ off refl refl
  serve-IsTold (continuous_set false) p h off = same-IsTold topic code p _ off (sym off) refl
  serve-IsTold (continuous_set true) p h off = absurd (let f : ⊥ = cc in f)
  serve-IsTold errors_reset p h off = absurd (let f : ⊥ = cc in f)

  serve_all-IsTold :
      (rs : List (Request V)) (p : Participant V W)
      → All (λ r. is_latching r ≡ true) rs
      → p.continuous_errors ≡ false
      → let d = serve_all show transport rs p in IsTold topic code d.0 p d.1
  unfolding serve_all
  serve_all-IsTold [] p h off = same-IsTold topic code p p off refl refl
  serve_all-IsTold (r ∷ rs) p h off =
      let first = serve show transport r p in
      let a = serve-IsTold r p h.0 off in
      let rest = serve_all show transport rs first.1 in
      then-IsTold topic code first.0 rest.0 p first.1 rest.1 a
        (serve_all-IsTold rs first.1 h.1 a.latching)

  -- In any series of calls of a participant that does not tell errors continuously, without a reset
  -- of the errors and without the continuous mode, each error is told at most once for a topic, and
  -- not at all if it had been told before.
  pub serve_all-tells_once :
      (rs : List (Request V)) (p : Participant V W)
      → All (λ r. is_latching r ≡ true) rs
      → p.continuous_errors ≡ false
      → told topic code (serve_all show transport rs p).0 + reported topic code p.reported_errors
        ≤ 1
  serve_all-tells_once rs p h off =
      let a = serve_all-IsTold rs p h off in
      omega
        (arith, a.balance, reported-le topic code (serve_all show transport rs p).1.reported_errors)
