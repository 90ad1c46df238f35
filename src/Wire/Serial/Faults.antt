-- ===== src/Wire/Serial/Faults.antt =====
-- SerialTransport.h: what is not received.
use async_http.Prelude.{
  ℕ, suc, ◌^◌, ◌<◌, true, some, [], ◌∷◌, ◌++◌, ◌≡◌, ap, ◌∙◌, append_assoc, length, arith,
}
use async_http.Http.{Bytes}
use async_http.Reliable.Retry.{DmqHeader, minus_one}
use async_http.Wire.Frame.{marker, put_header, frame, IsHeader, self}
use async_http.Wire.Port.{Port, read_one}
use async_http.Wire.Serial.{
  Serial, put16_host, crc_start, packet, send, sync, receive_payload, receive,
}
use async_http.Wire.Serial.Reading.{receive-started}
use async_http.Wire.Crc.{crc16_calc_block}

module _ {S : Type 0} (port : Port S) where
  -- After a stray 0xAA the first byte of a marker is lost: the loop goes on with its second one.
  pub sync_stray :
      (turns : ℕ) (s : S) (rest : Bytes)
      → port.coming s ≡ 0xAA ∷ 0xAA ∷ 0x55 ∷ rest
      → (t : S) × (sync port (suc turns) s ≡ sync port turns t) × (port.coming t ≡ 0x55 ∷ rest)
  unfolding sync
  sync_stray turns s rest e =
      let r = read_one port s 0xAA (0xAA ∷ 0x55 ∷ rest) e in
      let q = read_one port (port.read 1 s).1 0xAA (0x55 ∷ rest) r.1 in
      ((port.read 1 (port.read 1 s).1).1, ground (arith, r.0, q.0), q.1)

  send_long :
      (payload : Bytes) (header : DmqHeader) (q : Serial S)
      → q.is_open ≡ true
      → length payload < 2 ^ 16
      → (port.write (packet header payload) q.line).0 ≡ true
      → (send port payload header q).0 ≡ 0
  unfolding send
  send_long payload header q is_open l w = ground arith

  receive_payload_long :
      (head stream : Bytes) (header : DmqHeader) (p : Serial S)
      → 4096 < header.length
      → receive_payload port head stream header p
        ≡ record { status = minus_one; stream = stream; header = header; serial = p }
  unfolding receive_payload
  receive_payload_long head stream header p l = ground arith

  -- A payload of more than 4096 and at most 65535 bytes is sent on a serial line with success, and
  -- then the other side refuses it: the result is -1 and no byte of it is delivered.
  send-receive_long :
      (turns : ℕ) (payload : Bytes) (header got : DmqHeader) (q p : Serial S)
      → q.is_open ≡ true
      → p.is_open ≡ true
      → p.ends.recv_transport ≡ self
      → 0 < turns
      → IsHeader header
      → header.marker ≡ marker
      → 4096 < length payload
      → length payload < 2 ^ 16
      → (port.write (packet header payload) q.line).0 ≡ true
      → port.coming p.line ≡ packet header payload
      → ((send port payload header q).0 ≡ 0)
        × (t : S) × (receive port turns [] got p
            ≡ some (record {
              status = minus_one;
              stream = [];
              header = record header { length = length payload };
              serial = record p { line = t };
            }))
  unfolding packet frame
  send-receive_long turns payload header got q p from_open is_open own some_turn h m long short
        wrote e =
      let len = length payload in
      let sum = put16_host (crc16_calc_block (frame header payload) crc_start) in
      let r =
        receive-started port turns [] [] (payload ++ sum) got header len p is_open own tt some_turn
          h m short (e ∙ append_assoc (put_header header len) payload sum) in
      let stopped =
        receive_payload_long (put_header header len) [] (record header { length = len })
          (record p { line = r.0 }) long in
      (send_long payload header q from_open short wrote, r.0, r.1 ∙ ap some stopped)
