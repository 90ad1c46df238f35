-- ===== src/Wire/Dispatch.antt =====
-- DelegateMQ/extras/dispatcher/Dispatcher.h: a message gets its header and goes to the transport.
-- `send` is ITransport::Send of the transport that has been set, over a state `W` of its own.
-- `m_seqNum` is one atomic uint16_t of the process, here a part of the state.
use async_http.Prelude.{
  ℕ, zero, suc, ◌+◌, ◌%◌, ◌^◌, ◌<◌, Bool, true, Option, none, some, List, [], ◌∷◌, ◌≡◌, refl, ap,
  if◌then◌else◌, length, arith,
}
use async_http.Http.{Bytes}
use async_http.Reliable.Retry.{DmqHeader, minus_one}
use async_http.Wire.Frame.{new_header}

pub record Dispatcher (W : Type 0) : Type 0 where
  pub has_transport : Bool
  pub next_seq_num : ℕ
  pub below : W

-- What a call leaves: its result, `*outSeqNum` if it was set, and the caller's stream.
pub record Dispatched (W : Type 0) : Type 0 where
  pub result : ℕ
  pub out_seq_num : Option ℕ
  pub stream : Bytes
  pub dispatcher : Dispatcher W

-- That many numbers of 16 bits, counted up from one.
unfoldable pub numbers_from : ℕ → ℕ → List (Option ℕ)
numbers_from zero seq = []
numbers_from (suc n) seq = some (seq % 2 ^ 16) ∷ numbers_from n (seq + 1)

numbers_from-mod : (n seq : ℕ) → numbers_from n (seq % 2 ^ 16) ≡ numbers_from n seq
unfolding numbers_from
numbers_from-mod zero seq = refl
numbers_from-mod (suc n) seq = ground (
  arith,
  numbers_from-mod n (seq % 2 ^ 16 + 1),
  numbers_from-mod n (seq + 1),
  ap (numbers_from n) (let e : (seq % 2 ^ 16 + 1) % 2 ^ 16 ≡ (seq + 1) % 2 ^ 16 = omega arith in e),
)

module _ {W : Type 0} (send : Bytes → DmqHeader → W → ℕ × W) where
  unfoldable pub dispatch : Bytes → ℕ → Dispatcher W → Dispatched W
  dispatch stream id d =
      let seq = d.next_seq_num in
      let r = send stream (new_header id seq) d.below in
      if d.has_transport
      then record {
        result = r.0;
        out_seq_num = some seq;
        stream = [];
        dispatcher = record d { next_seq_num = (seq + 1) % 2 ^ 16; below = r.1 };
      }
      else record { result = minus_one; out_seq_num = none; stream = stream; dispatcher = d }

  -- The sequence numbers of a series of calls.
  unfoldable pub dispatch_each : List (Bytes × ℕ) → Dispatcher W → List (Option ℕ)
  unfolding dispatch
  dispatch_each [] d = []
  dispatch_each ((stream, id) ∷ calls) d =
      let r = dispatch stream id d in r.out_seq_num ∷ dispatch_each calls r.dispatcher

  -- Messages get the sequence numbers one after another, modulo 2^16.
  pub dispatch_each-numbers_from :
      (calls : List (Bytes × ℕ)) (d : Dispatcher W)
      → d.has_transport ≡ true
      → d.next_seq_num < 2 ^ 16
      → dispatch_each calls d ≡ numbers_from (length calls) d.next_seq_num
  unfolding dispatch_each dispatch numbers_from
  dispatch_each-numbers_from [] d h l = refl
  dispatch_each-numbers_from ((stream, id) ∷ calls) d h l =
      let e : ((d.next_seq_num + 1) % 2 ^ 16) < 2 ^ 16 = omega arith in
      ground (
        arith,
        h,
        dispatch_each-numbers_from calls (dispatch stream id d).dispatcher,
        numbers_from-mod (length calls) (d.next_seq_num + 1),
      )
