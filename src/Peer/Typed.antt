-- ===== src/Peer/Typed.antt =====
-- The types of the channels of Participant.h: static casts of a channel are to the type it was made with.
pub mod Calls
use async_http.Prelude.{
  ℕ, not, Option, none, some, List, [], ◌∷◌, ◌++◌, ◌≡◌, inl, inr, refl, sym, subst, ◌==◌,
  Bool-cases, Option-cases, if_both, All-append, arith,
}
use async_http.Prelude.Maps.{lookup, insert, lookup-insert}
use async_http.Prelude.Strings.{String, find}
use async_http.Prelude.Erased.{Erased, AreSafe}
use async_http.Http.{Bytes}
use async_http.Reliable.Retry.{DmqHeader}
use async_http.Wire.Frame.{marker}
use async_http.Wire.Dispatch.{Dispatcher}
use async_http.Remote.{
  DelegateError, err_type_mismatch, err_no_dispatcher, err_transport_receive, Stream, Serializer,
  Report, send, invoke,
}
use async_http.Peer.{Channel, Participant}
use async_http.Peer.Channels.{
  Done, Found, differs, get_or_create_channel, on_channel_error, on_reports, bind, new_channel,
  register_handler, channel_send, send_or_post, dispatch_if_interested, channel_invoke,
  filter_duplicate, process_incoming, invalid_remote_id,
}

unfoldable pub type_of : {V : Type 0} → Option (Erased (Channel V)) → Option ℕ
type_of none = none
type_of (some c) = some c.made_as

module _ {V W : Type 0} where
  pub record IsTyped (p : Participant V W) : Type 0 where
    pub agree : (id : ℕ) → lookup id p.channel_types ≡ type_of (lookup id p.channels)
    pub safe : AreSafe p.casts

  -- Errors change neither channels nor casts.
  pub on_channel_error-IsTyped :
      (show : ℕ → String) (id : ℕ) (e : DelegateError) (p : Participant V W)
      → IsTyped p
      → IsTyped (on_channel_error show id e p).peer
  unfolding on_channel_error
  on_channel_error-IsTyped show id e p v = record {
    agree = λ i. ground (arith, v.agree i);
    safe = ground (arith, v.safe);
  }

  pub on_reports-IsTyped :
      (show : ℕ → String) (rs : List Report) (p : Participant V W)
      → IsTyped p
      → IsTyped (on_reports show rs p).peer
  unfolding on_reports
  on_reports-IsTyped show [] p v = v
  on_reports-IsTyped show (r ∷ rs) p v =
      on_reports-IsTyped show rs (on_channel_error show r.id r.error p).peer
        (on_channel_error-IsTyped show r.id r.error p v)

  -- A channel is replaced by one that was made as the same type.
  pub replaced-IsTyped :
      (id : ℕ) (c k : Erased (Channel V)) (d : Dispatcher W) (p : Participant V W)
      → lookup id p.channels ≡ some c
      → k.made_as ≡ c.made_as
      → IsTyped p
      → IsTyped (record p { channels = insert id k p.channels; dispatcher = d })
  unfolding type_of
  replaced-IsTyped id c k d p here same v = record {
    agree = λ i. ground (arith, lookup-insert id i k p.channels, v.agree i, here, same);
    safe = v.safe;
  }

  -- A channel that was found or made is of the type that is wanted.
  pub record IsFound (type id : ℕ) (f : Found V W) : Type 0 where
    pub typed : IsTyped f.peer
    pub present :
        (c : Erased (Channel V))
        → f.channel ≡ some c
        → (lookup id f.peer.channels ≡ some c) × (c.made_as ≡ type)

  pub get_or_create_channel-IsFound :
      (type id : ℕ) (z : Serializer V) (p : Participant V W)
      → IsTyped p
      → IsFound type id (get_or_create_channel type id z p)
  unfolding get_or_create_channel differs type_of
  get_or_create_channel-IsFound type id z p v =
      let made : Erased (Channel V) = record { made_as = type; object = new_channel id z } in
      elim (Option-cases (lookup id p.channels)) [
        | inl absent ↦
            let safe : AreSafe (p.casts ++ (record { wanted = type; actual = type } ∷ [])) =
              All-append (λ c. c.wanted ≡ c.actual) p.casts _ v.safe (refl, tt) in
            record {
              typed = record {
                agree = λ i. ground (
                  arith,
                  absent,
                  v.agree i,
                  v.agree id,
                  lookup-insert id i made p.channels,
                  lookup-insert id i type p.channel_types,
                );
                safe = ground (arith, absent, safe);
              };
              present = λ c e. ground (arith, absent, e, lookup-insert id id made p.channels);
            }
        | inr c ↦ elim (Bool-cases (differs type id p)) [
          | inl other ↦ record {
            typed = record {
              agree = λ i. ground (arith, c.1, other, v.agree i);
              safe = ground (arith, c.1, other, v.safe);
            };
            present = λ x e. ground (arith, c.1, other, e);
          }
          | inr same ↦
              let e : c.0.made_as ≡ type = ground (arith, same, v.agree id, c.1) in
              let safe : AreSafe
                  (p.casts ++ (record { wanted = type; actual = c.0.made_as } ∷ [])) =
                All-append (λ c. c.wanted ≡ c.actual) p.casts _ v.safe (sym e, tt) in
              record {
                typed = record {
                  agree = λ i. ground (arith, c.1, same, v.agree i);
                  safe = ground (arith, c.1, same, safe);
                };
                present = λ x h. ground (arith, c.1, same, h, e);
              }
        ]
      ]
