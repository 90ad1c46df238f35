-- ===== src/Peer/Latched.antt =====
-- A series of calls of Participant.h tells each error of a topic once.
pub mod Calls
use async_http.Prelude.{
  ℕ, ◌+◌, true, false, not, List, [], ◌∷◌, ◌++◌, ◌≡◌, inl, inr, refl, sym, ap, ◌∙◌, subst, ◌==◌,
  Bool-cases, Option-cases, if◌then◌else◌, if_both, arith,
}
use async_http.Prelude.Maps.{lookup, insert}
use async_http.Prelude.Strings.{String}
use async_http.Prelude.Erased.{Erased}
use async_http.Http.{Bytes}
use async_http.Reliable.Retry.{DmqHeader}
use async_http.Wire.Frame.{marker}
use async_http.Remote.{
  DelegateError, err_type_mismatch, err_no_dispatcher, err_transport_receive, Stream, Serializer,
  Report, send, invoke,
}
use async_http.Peer.{
  Act, posted, faulted, Channel, Participant, topic_of, is_empty, unknown_remote_id,
}
use async_http.Peer.Channels.{
  Done, Found, get_or_create_channel, on_channel_error, on_reports, register_handler, channel_send,
  send_or_post, channel_invoke, filter_duplicate, process_incoming, call_acts, invalid_remote_id,
}
use async_http.Peer.Errors.{told, told-append, reported, reported-latch, told-call_acts}

module _ {V W : Type 0} (topic : String) (code : ℕ) where
  -- What was told is what the bit went up by, and errors still latch.
  pub record IsTold (acts : List (Act V)) (p q : Participant V W) : Type 0 where
    pub latching : q.continuous_errors ≡ false
    pub balance :
        told topic code acts + reported topic code p.reported_errors
        ≡ reported topic code q.reported_errors

  pub same-IsTold :
      (p q : Participant V W)
      → p.continuous_errors ≡ false
      → q.continuous_errors ≡ p.continuous_errors
      → q.reported_errors ≡ p.reported_errors
      → IsTold [] p q
  unfolding told
  same-IsTold p q off c e = record { latching = c ∙ off; balance = ground (arith, e) }

  pub then-IsTold :
      (xs ys : List (Act V)) (p q r : Participant V W)
      → IsTold xs p q
      → IsTold ys q r
      → IsTold (xs ++ ys) p r
  then-IsTold xs ys p q r a b = record {
    latching = b.latching;
    balance = omega (arith, told-append topic code xs ys, a.balance, b.balance);
  }

  pub faulted-IsTold :
      (xs : List (Act V)) (p q : Participant V W)
      → IsTold xs p q
      → IsTold (xs ++ (faulted ∷ [])) p q
  unfolding told
  faulted-IsTold xs p q a = record {
    latching = a.latching;
    balance = ground (arith, told-append topic code xs (faulted ∷ []), a.balance);
  }

  pub on_channel_error-IsTold :
      (show : ℕ → String) (id : ℕ) (e : DelegateError) (p : Participant V W)
      → p.continuous_errors ≡ false
      → let d = on_channel_error show id e p in IsTold d.acts p d.peer
  unfolding on_channel_error told
  on_channel_error-IsTold show id e p off =
      let name = topic_of id p.topic_to_remote_id in
      let t = if is_empty name then unknown_remote_id ++ show id else name in
      record {
        latching = ground (arith, off);
        balance = ground (arith, off, reported-latch topic t code e p.reported_errors);
      }

  pub on_reports-IsTold :
      (show : ℕ → String) (rs : List Report) (p : Participant V W)
      → p.continuous_errors ≡ false
      → let d = on_reports show rs p in IsTold d.acts p d.peer
  unfolding on_reports
  on_reports-IsTold show [] p off = same-IsTold p p off refl refl
  on_reports-IsTold show (r ∷ rs) p off =
      let first = on_channel_error show r.id r.error p in
      let a = on_channel_error-IsTold show r.id r.error p off in
      then-IsTold first.acts (on_reports show rs first.peer).acts p first.peer _ a
        (on_reports-IsTold show rs first.peer a.latching)

  unfoldable pub DoneTold : {R : Type 0} → Participant V W → Done R V W → Type 0
  DoneTold p d = IsTold d.acts p d.peer

  -- A participant whose errors and mode are those of another one stands for it.
  pub from-IsTold :
      (xs : List (Act V)) (p q r : Participant V W)
      → q.continuous_errors ≡ p.continuous_errors
      → q.reported_errors ≡ p.reported_errors
      → IsTold xs q r
      → IsTold xs p r
  from-IsTold xs p q r c e a = record {
    latching = a.latching;
    balance = ground (arith, a.balance, e);
  }

  -- Looking for a channel changes neither.
  pub record IsQuiet (p q : Participant V W) : Type 0 where
    pub mode : q.continuous_errors ≡ p.continuous_errors
    pub errors : q.reported_errors ≡ p.reported_errors

  pub get_or_create_channel-IsQuiet :
      (type id : ℕ) (z : Serializer V) (p : Participant V W)
      → IsQuiet p (get_or_create_channel type id z p).peer
  unfolding get_or_create_channel
  get_or_create_channel-IsQuiet type id z p = record { mode = ground arith; errors = ground arith }

  pub filter_duplicate-IsQuiet :
      (header : DmqHeader) (p : Participant V W) → IsQuiet p (filter_duplicate header p).1
  unfolding filter_duplicate
  filter_duplicate-IsQuiet header p = record { mode = ground arith; errors = ground arith }
