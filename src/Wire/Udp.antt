-- ===== src/Wire/Udp.antt =====
-- DelegateMQ/port/transport/linux-udp/LinuxUdpTransport.h: Send and Receive. `sendto` and `recvfrom`
-- are parameters over a network `W`, with addresses `A`; a datagram longer than the buffer is cut by
-- `recvfrom`. `recvfrom` gives nothing if its result is negative.
pub mod Exchange
use async_http.Prelude.{
  ℕ, ◌+◌, ◌-◌, ◌^◌, Bool, true, false, ◌&&◌, not, Option, none, some, List, [], ◌∷◌, ◌++◌, ltb,
  ◌==◌, if◌then◌else◌, length, take,
}
use async_http.Http.{Bytes}
use async_http.Reliable.Retry.{DmqHeader, minus_one}
use async_http.Wire.Frame.{
  marker, header_size, ack_remote_id, buffer_size, ack_header, put_header, parse_header, frame, Ref,
  self, is_null, Ends, acknowledge,
}

pub record Udp (A : Type 0) : Type 0 where
  pub is_sub : Bool  -- Type::SUB
  pub address : A
  pub ends : Ends

pub record Received (A : Type 0) (W : Type 0) : Type 0 where
  pub status : ℕ
  pub stream : Bytes
  pub header : DmqHeader
  pub udp : Udp A
  pub network : W

abbrev pub is_self : Ref → Bool
is_self self = true
is_self _ = false

-- `payloadSize > size - HEADER_SIZE`: the length that the header gives, or what the datagram holds.
abbrev pub payload_size : DmqHeader → Bytes → ℕ
payload_size h rest = if ltb (length rest) h.length then length rest else h.length

module _ {A W : Type 0} (sendto : Bytes → A → W → Bool × W)
    (recvfrom : W → Option (Bytes × A) × W) where
  unfoldable pub send : Bytes → DmqHeader → Udp A → W → ℕ × W
  unfolding frame put_header
  send payload header u w =
      if u.is_sub && not (header.id == ack_remote_id)
      then (minus_one, w)
      else if not (is_self u.ends.send_transport)
      then (minus_one, w)
      else if ltb (buffer_size - header_size) (length payload)
      then (minus_one, w)
      else let r = sendto (frame header payload) u.address w in (if r.0 then 0 else minus_one, r.1)

  -- `Handle ACKs and Metadata`
  unfoldable pub finish : Bytes → DmqHeader → A → Udp A → W → Received A W
  unfolding acknowledge put_header
  finish stream header sender u w =
      if header.id == ack_remote_id
      then record {
        status = 0;
        stream = stream;
        header = header;
        udp = record u { ends = acknowledge header.seq_num u.ends };
        network = w;
      }
      else record {
        status = 0;
        stream = stream;
        header = header;
        udp = u;
        network =
            (if not (is_null u.ends.send_transport) && u.is_sub
              then (sendto (put_header (ack_header header.seq_num) 0) sender w).1
              else w);
      }

  unfoldable pub receive : Bytes → DmqHeader → Udp A → W → Received A W
  unfolding finish parse_header
  receive stream header u w =
      let stop : DmqHeader → W → Received A W = λ header w. record {
        status = minus_one;
        stream = stream;
        header = header;
        udp = u;
        network = w;
      } in
      let r = recvfrom w in
      if not (is_self u.ends.recv_transport) then stop header w else elim r.0 [
        | none ↦ stop header r.1
        | some d ↦ elim (parse_header d.0) [
          | none ↦ stop header r.1
          | some h ↦
              if h.0.marker == marker
              then finish (stream ++ take (payload_size h.0 h.1) h.1) h.0 d.1 u r.1
              else stop h.0 r.1
        ]
      ]
