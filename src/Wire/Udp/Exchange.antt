-- ===== src/Wire/Udp/Exchange.antt =====
-- LinuxUdpTransport.h: a message and its acknowledgement between two transports, and refusals.
use async_http.Prelude.{
  ℕ, ◌^◌, ◌≤◌, ◌<◌, Bool, true, false, Option, some, [], ◌∷◌, ◌++◌, ◌≡◌, ◌≢◌, ◌⊎◌, refl, ap, ◌∙◌,
  length, All, arith,
}
use async_http.Http.{Bytes}
use async_http.Http.Client.Wait.{take-long}
use async_http.Prelude.Maps.{Map}
use async_http.Reliable.Monitor.{Monitor, TimeoutData, remove_seq, remove}
use async_http.Reliable.Retry.{DmqHeader, minus_one}
use async_http.Wire.Frame.{
  marker, ack_remote_id, put_header, frame, IsHeader, self, is_null, ack_header,
  parse_header-put_header, Ends, acknowledge,
}
use async_http.Wire.Udp.{Udp, Received, is_self, send, finish, receive}

module _ {A W : Type 0} (sendto : Bytes → A → W → Bool × W)
    (recvfrom : W → Option (Bytes × A) × W) where
  -- A datagram as Send makes it is received whole.
  receive-frame :
      (stream payload : Bytes) (header sent : DmqHeader) (sender : A) (u : Udp A) (w w' : W)
      → IsHeader sent
      → sent.marker ≡ marker
      → length payload ≤ 4088
      → u.ends.recv_transport ≡ self
      → recvfrom w ≡ (some (frame sent payload, sender), w')
      → receive sendto recvfrom stream header u w
        ≡ finish sendto recvfrom
            (stream ++ payload)
            (record sent { length = length payload })
            sender
            u
            w'
  unfolding receive frame
  receive-frame stream payload header sent sender u w w' v m l own e =
      let parsed = parse_header-put_header sent (length payload) payload v (omega arith) in
      ground (arith, own, e, parsed, m, (take-long (length payload) payload (omega arith)).0)

  -- Send refuses data on a subscriber, a transport that only receives, and a payload of more than 4088
  -- bytes; then nothing is sent.
  pub send_refused :
      (payload : Bytes) (header : DmqHeader) (u : Udp A) (w : W)
      → (u.is_sub ≡ true) × (header.id ≢ ack_remote_id)
        ⊎ (is_self u.ends.send_transport ≡ false)
        ⊎ (4088 < length payload)
      → send sendto recvfrom payload header u w ≡ (minus_one, w)
  unfolding send
  send_refused payload header u w h = ground arith

  -- A Receive gives 0 for a datagram with the right marker, or it gives -1 and leaves the stream and the
  -- transport as they were.
  pub receive_failed :
      (stream : Bytes) (header : DmqHeader) (u : Udp A) (w : W)
      → let r = receive sendto recvfrom stream header u w in
        ((r.status ≡ 0) × (r.header.marker ≡ marker))
        ⊎ ((r.status ≡ minus_one) × (r.stream ≡ stream) × (r.udp ≡ u))
  unfolding receive finish
  receive_failed stream header u w = ground arith

  send_done :
      (payload : Bytes) (header : DmqHeader) (p : Udp A) (w : W)
      → (send sendto recvfrom payload header p w).0 ≡ 0
      → (length payload ≤ 4088)
        × ((sendto (frame header payload) p.address w).0 ≡ true)
        × ((send sendto recvfrom payload header p w).1
            ≡ (sendto (frame header payload) p.address w).1)
  unfolding send
  send_done payload header p w h = ground arith

  finish-data :
      (stream : Bytes) (header : DmqHeader) (sender : A) (q : Udp A) (w : W)
      → header.id ≢ ack_remote_id
      → q.is_sub ≡ true
      → is_null q.ends.send_transport ≡ false
      → finish sendto recvfrom stream header sender q w ≡ record {
        status = 0;
        stream = stream;
        header = header;
        udp = q;
        network = (sendto (frame (ack_header header.seq_num) []) sender w).1;
      }
  unfolding finish frame put_header
  finish-data stream header sender q w id sub acks = ground arith

  receive-ack :
      (seq_num : ℕ) (header : DmqHeader) (sender : A) (p : Udp A) (w w' : W)
      → seq_num < 2 ^ 16
      → p.ends.recv_transport ≡ self
      → recvfrom w ≡ (some (frame (ack_header seq_num) [], sender), w')
      → receive sendto recvfrom [] header p w ≡ record {
        status = 0;
        stream = [];
        header = ack_header seq_num;
        udp = record p { ends = acknowledge seq_num p.ends };
        network = w';
      }
  unfolding finish
  receive-ack seq_num header sender p w w' l own e =
      receive-frame [] [] header (ack_header seq_num) sender p w w' (omega arith, omega arith, l)
        refl (omega arith) own e

  -- An acknowledgement takes the first message of its number off the monitor.
  remove_seq-first :
      (seq_num : ℕ) (before after : Map TimeoutData) (k : ℕ) (d : TimeoutData)
      → All (λ x. x.1.seq_num ≢ seq_num) before
      → d.seq_num ≡ seq_num
      → remove_seq seq_num (before ++ ((k, d) ∷ after)) ≡ some (d, before ++ after)
  unfolding remove_seq
  remove_seq-first seq_num [] after k d h e = ground (arith, e)
  remove_seq-first seq_num (x ∷ before) after k d h e =
      ground (arith, h.0, remove_seq-first seq_num before after k d h.1 e)

  acknowledge-first :
      (seq_num : ℕ) (e : Ends) (m : Monitor) (before after : Map TimeoutData) (k : ℕ)
      (d : TimeoutData)
      → e.transport_monitor ≡ some m
      → m.pending ≡ before ++ ((k, d) ∷ after)
      → All (λ x. x.1.seq_num ≢ seq_num) before
      → d.seq_num ≡ seq_num
      → acknowledge seq_num e ≡ record e {
        transport_monitor = some (record m { pending = before ++ after });
        acknowledged = e.acknowledged ++ (d ∷ []);
      }
  unfolding acknowledge remove
  acknowledge-first seq_num e m before after k d set listed h same = ground (
    arith,
    set,
    ap (remove_seq seq_num) listed ∙ remove_seq-first seq_num before after k d h same,
  )

  -- A message that a publisher sends is received by a subscriber with its payload and its header,
  -- whose length is that of the payload. The acknowledgement that the subscriber sends then takes
  -- the message off the monitor of the publisher, which watches it, and no other, and the monitor
  -- signals its success. The network brings both datagrams, and no message that the monitor lists
  -- before this one has its sequence number.
  pub send-receive-acknowledge :
      (payload : Bytes) (header : DmqHeader) (p q : Udp A) (w w1 w2 : W) (from_p from_q : A)
      (m : Monitor) (before after : Map TimeoutData) (k : ℕ) (d : TimeoutData)
      → IsHeader header
      → header.marker ≡ marker
      → header.id ≢ ack_remote_id
      → p.ends.recv_transport ≡ self
      → q.is_sub ≡ true
      → q.ends.recv_transport ≡ self
      → is_null q.ends.send_transport ≡ false
      → (send sendto recvfrom payload header p w).0 ≡ 0
      → ((sendto (frame header payload) p.address w).0 ≡ true
          → recvfrom (sendto (frame header payload) p.address w).1
            ≡ (some (frame header payload, from_p), w1))
      → recvfrom (sendto (frame (ack_header header.seq_num) []) from_p w1).1
        ≡ (some (frame (ack_header header.seq_num) [], from_q), w2)
      → p.ends.transport_monitor ≡ some m
      → m.pending ≡ before ++ ((k, d) ∷ after)
      → All (λ x. x.1.seq_num ≢ header.seq_num) before
      → d.seq_num ≡ header.seq_num
      → let got = receive sendto recvfrom [] header q (send sendto recvfrom payload header p w).1 in
        let ack = receive sendto recvfrom [] header p got.network in
        (got.status ≡ 0)
        × (got.stream ≡ payload)
        × (got.header ≡ record header { length = length payload })
        × (got.udp ≡ q)
        × (ack.status ≡ 0)
        × (ack.stream ≡ [])
        × (ack.udp ≡ record p {
          ends = record p.ends {
            transport_monitor = some (record m { pending = before ++ after });
            acknowledged = p.ends.acknowledged ++ (d ∷ []);
          };
        })
  send-receive-acknowledge payload header p q w w1 w2 from_p from_q m before after k d v marked id
        own sub own' acks sent there back set listed first same =
      let out = send_done payload header p w sent in
      let got =
        receive-frame [] payload header header from_p q (send sendto recvfrom payload header p w).1
          w1 v marked out.0 own' (ap recvfrom out.2 ∙ there out.1)
        ∙ finish-data payload (record header { length = length payload }) from_p q w1 id sub acks in
      let network_of : Received A W → W = λ r. r.network in
      let ack =
        receive-ack header.seq_num header from_q p
          (receive sendto recvfrom [] header q (send sendto recvfrom payload header p w).1).network
          w2 v.2 own (ap (λ r. recvfrom (network_of r)) got ∙ back) in
      ground (
        arith,
        got,
        ack,
        acknowledge-first header.seq_num p.ends m before after k d set listed first same,
      )
