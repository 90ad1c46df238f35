-- ===== src/Reliable/Calls.antt =====
-- Histories of calls on a RetryMonitor and its TransportMonitor.
use async_http.Prelude.{ℕ, ◌+◌, ◌^◌, ◌≤◌, ◌<◌, ◌≡◌, ◌≢◌, true, false, List, [], ◌∷◌, arith, All}
use async_http.Reliable.Retry.{
  RetryEntry, DmqHeader, Link, header_key, send_with_retry, acknowledge, process_round, monitor_add,
  minus_one,
}
use async_http.Prelude.Maps.{insert, has, lookup-erase}
use async_http.Reliable.Tracked.{IsWatched}
use async_http.Reliable.Tracked.Rounds.{
  process_round-IsWatched, acknowledge-IsWatched, send_with_retry-IsWatched,
}
use async_http.Reliable.Budget.{
  transmissions, bill, process_round-bill, acknowledge-bill, send_with_retry-bill,
}

-- A call at a time: a send, an acknowledgement of a sequence number from a remote, or a round of
-- TransportMonitor::Process.
pub data Call : Type 0 where
  sends : ℕ → List ℕ → DmqHeader → Call
  acknowledges : ℕ → ℕ → ℕ → Call
  rounds : ℕ → Call

-- Ids and sequence numbers are uint16_t.
abbrev pub IsWellTyped : Call → Type 0
IsWellTyped (sends now payload h) = (h.seq_num < 2 ^ 16) × (h.id < 2 ^ 16)
IsWellTyped (acknowledges now s i) = (s < 2 ^ 16) × (i < 2 ^ 16)
IsWellTyped (rounds now) = Unit {0}

-- The call sends nothing under the key.
abbrev pub Spares : ℕ → Call → Type 0
Spares k (sends now payload h) = header_key h ≢ k
Spares k _ = Unit {0}

module _ {W : Type 0} (send : List ℕ → DmqHeader → W → ℕ × W) where
  abbrev pub call : Call → Link W → Link W
  call (sends now payload h) l = (send_with_retry send now payload h l).1
  call (acknowledges now s i) l = acknowledge send now s i l
  call (rounds now) l = process_round send now l

  abbrev pub run : List Call → Link W → Link W
  run [] l = l
  run (c ∷ cs) l = run cs (call c l)

  call-IsWatched :
      (c : Call) (l : Link W) → IsWellTyped c → IsWatched [] l → IsWatched [] (call c l)
  call-IsWatched (sends now payload h) l t v =
      send_with_retry-IsWatched send now payload h l t.0 t.1 v
  call-IsWatched (acknowledges now s i) l t v = acknowledge-IsWatched send now s i l t.0 t.1 v
  call-IsWatched (rounds now) l t v = process_round-IsWatched send now l v

  -- After any well-typed calls on a link of which this holds, every packet that is stored for a
  -- retry is watched by the TransportMonitor for its timeout, has been sent, and lies under the key
  -- of its header; and the number of messages that are watched stays within the limit.
  pub run-IsWatched :
      (cs : List Call) (l : Link W) → All IsWellTyped cs → IsWatched [] l → IsWatched [] (run cs l)
  run-IsWatched [] l t v = v
  run-IsWatched (c ∷ cs) l t v = run-IsWatched cs (call c l) t.1 (call-IsWatched c l t.0 v)

  call-bill :
      (k : ℕ) (c : Call) (l : Link W) → Spares k c → IsWatched [] l → bill k (call c l) ≤ bill k l
  call-bill k (sends now payload h) l s v =
      ground (arith, send_with_retry-bill send k now payload h l)
  call-bill k (acknowledges now s i) l _ v = acknowledge-bill send k now s i l
  call-bill k (rounds now) l _ v = process_round-bill send k now l v

  run-bill :
      (k : ℕ) (cs : List Call) (l : Link W)
      → All IsWellTyped cs
      → All (Spares k) cs
      → IsWatched [] l
      → bill k (run cs l) ≤ bill k l
  run-bill k [] l t s v = omega arith
  run-bill k (c ∷ cs) l t s v =
      omega
        (arith, call-bill k c l s.0 v, run-bill k cs (call c l) t.1 s.1 (call-IsWatched c l t.0 v))

  -- On a link whose stored packets are watched, whatever well-typed calls follow a well-typed send,
  -- as long as none sends under the same key, the packet is handed to the transport at most 1 +
  -- max_retries times more than before it.
  pub send_with_retry-transmissions-le :
      (now : ℕ) (payload : List ℕ) (h : DmqHeader) (l : Link W) (cs : List Call)
      → h.seq_num < 2 ^ 16
      → h.id < 2 ^ 16
      → All IsWellTyped cs
      → All (Spares (header_key h)) cs
      → IsWatched [] l
      → transmissions (header_key h) (run cs (send_with_retry send now payload h l).1).log
        ≤ transmissions (header_key h) l.log + 1 + l.max_retries
  send_with_retry-transmissions-le now payload h l cs hs hi t s v = ground (
    arith,
    send_with_retry-bill send (header_key h) now payload h l,
    run-bill (header_key h) cs (send_with_retry send now payload h l).1 t s
        (send_with_retry-IsWatched send now payload h l hs hi v),
  )

  -- On a link whose stored packets are watched, a send under the key of a message that is still in
  -- flight is refused, and the packet that was stored for that message is lost: the
  -- TransportMonitor still watches it, but its timeout finds nothing to retransmit.
  pub send_with_retry_forgets :
      (now : ℕ) (payload : List ℕ) (h : DmqHeader) (l : Link W)
      → IsWatched [] l
      → has (header_key h) l.monitor.pending ≡ true
      → let (result, l') = send_with_retry send now payload h l in
        (result ≡ minus_one)
        × (has (header_key h) l'.retry_store ≡ false)
        × (has (header_key h) l'.monitor.pending ≡ true)
  unfolding send_with_retry monitor_add
  send_with_retry_forgets now payload h l v p =
      let entry : RetryEntry = record {
        packet_data = payload;
        header = h;
        attempts_remaining = l.max_retries;
        is_sent = false;
      } in
      ground (
        arith,
        v.room,
        lookup-erase (header_key h) (header_key h) (insert (header_key h) entry l.retry_store),
      )
