-- ===== src/Wire/Serial.antt =====
-- DelegateMQ/port/transport/serial/SerialTransport.h: Send and Receive, on a little-endian host. The
-- serial port of the system is a byte stream: `read` stands for sp_blocking_read and `write` for
-- sp_blocking_write. The loop that looks for a message's start runs on fuel.
pub mod Reading
pub mod Delivery
pub mod Faults
use async_http.Prelude.{
  ℕ, zero, suc, ◌+◌, ◌-◌, ◌*◌, ◌/◌, ◌%◌, ◌^◌, Bool, true, false, ◌||◌, not, Option, none, some,
  List, [], ◌∷◌, ◌++◌, ltb, ◌==◌, if◌then◌else◌, length,
}
use async_http.Http.{Bytes}
use async_http.Reliable.Retry.{DmqHeader, minus_one}
use async_http.Wire.Crc.{crc16_calc_block}
use async_http.Wire.Frame.{
  marker, header_size, ack_remote_id, buffer_size, ack_header, parse_header, frame, Ref, null, self,
  other, Ends, acknowledge,
}
use async_http.Wire.Port.{Port, read_exact}
use async_http.Wire.Udp.{is_self}

pub record Serial (S : Type 0) : Type 0 where
  pub is_open : Bool  -- m_port is not null
  pub ends : Ends
  pub forwarded : List DmqHeader  -- the empty messages that another transport was given to send
  pub line : S

pub record Received (S : Type 0) : Type 0 where
  pub status : ℕ
  pub stream : Bytes
  pub header : DmqHeader
  pub serial : Serial S

-- A uint16_t in the host's order.
abbrev pub put16_host : ℕ → Bytes
put16_host v = (v % 2 ^ 8) ∷ (v / 2 ^ 8 % 2 ^ 8) ∷ []

abbrev pub get16_host : Bytes → ℕ
get16_host (low ∷ high ∷ _) = high * 2 ^ 8 + low
get16_host _ = 0

abbrev pub crc_start : ℕ
crc_start = 0xFFFF

-- A message on the line.
unfoldable pub packet : DmqHeader → Bytes → Bytes
unfolding frame
packet header payload =
    frame header payload ++ put16_host (crc16_calc_block (frame header payload) crc_start)

-- The strict sync loop. `timed_out` is its `return -1`; `out_of_fuel` is no result of the code.
pub data Sync : Type 0 where
  found timed_out out_of_fuel : Sync

module _ {S : Type 0} (port : Port S) where
  unfoldable pub send : Bytes → DmqHeader → Serial S → ℕ × Serial S
  unfolding packet
  send payload header p =
      if not p.is_open
      then (minus_one, p)
      else if ltb (2 ^ 16 - 1) (length payload)
      then (minus_one, p)
      else let r = port.write (packet header payload) p.line in
        (if r.0 then 0 else minus_one, record p { line = r.1 })

  -- The byte that a read of one gave, or 0 as the variable starts out.
  abbrev first : Bytes → ℕ
  first [] = 0
  first (b ∷ _) = b

  unfoldable pub sync : ℕ → S → Sync × S
  sync zero s = (out_of_fuel, s)
  sync (suc turns) s =
      let r = port.read 1 s in
      let q = port.read 1 r.1 in
      let again = sync turns r.1 in
      let again' = sync turns q.1 in
      if length r.0 == 0
      then (timed_out, r.1)
      else if not (first r.0 == 0xAA)
      then again
      else if not (length q.0 == 0)
      then (if first q.0 == 0x55 then (found, q.1) else again')
      else again'

  -- Step 6, `ACKs`.
  unfoldable pub finish : Bytes → DmqHeader → Serial S → Received S
  unfolding acknowledge send
  finish stream header p =
      let ack = ack_header header.seq_num in
      let done : Serial S → Received S =
        λ p. record { status = 0; stream = stream; header = header; serial = p } in
      if header.id == ack_remote_id
      then done (record p { ends = acknowledge header.seq_num p.ends })
      else elim p.ends.send_transport [
        | null ↦ done p
        | self ↦ done (send [] ack p).1
        | other ↦ done (record p { forwarded = p.forwarded ++ (ack ∷ []) })
      ]

  -- Step 5, the CRC of the header's bytes and the payload.
  unfoldable pub check_crc : Bytes → Bytes → Bytes → DmqHeader → Serial S → Received S
  unfolding finish read_exact
  check_crc head payload stream header p =
      let stop : Serial S → Received S =
        λ p. record { status = minus_one; stream = stream; header = header; serial = p } in
      let r = read_exact port 2 p.line in
      let p' = record p { line = r.1 } in
      elim r.0 [
        | none ↦ stop p'
        | some bytes ↦
            if get16_host bytes == crc16_calc_block payload (crc16_calc_block head crc_start)
            then finish stream header p'
            else stop p'
      ]

  -- Step 4, the payload.
  unfoldable pub receive_payload : Bytes → Bytes → DmqHeader → Serial S → Received S
  unfolding check_crc read_exact
  receive_payload head stream header p =
      let stop : Serial S → Received S =
        λ p. record { status = minus_one; stream = stream; header = header; serial = p } in
      let r = read_exact port header.length p.line in
      let p' = record p { line = r.1 } in
      if header.length == 0
      then check_crc head [] stream header p
      else if ltb buffer_size header.length
      then stop p
      else elim r.0 [
        | none ↦ stop p'
        | some payload ↦ check_crc head payload (stream ++ payload) header p'
      ]

  -- Steps 2 and 3, the rest of the header.
  unfoldable pub receive_header : Bytes → DmqHeader → Serial S → Received S
  unfolding receive_payload read_exact parse_header
  receive_header stream header p =
      let stop : DmqHeader → Serial S → Received S =
        λ header p. record { status = minus_one; stream = stream; header = header; serial = p } in
      let r = read_exact port (header_size - 2) p.line in
      let p' = record p { line = r.1 } in
      elim r.0 [
        | none ↦ stop header p'
        | some bytes ↦ elim (parse_header (0xAA ∷ 0x55 ∷ bytes)) [
          | none ↦ stop header p'
          | some h ↦
              if h.0.marker == marker
              then receive_payload (0xAA ∷ 0x55 ∷ bytes) stream h.0 p'
              else stop h.0 p'
        ]
      ]

  -- Receive; `none` if the fuel ran out.
  unfoldable pub receive : ℕ → Bytes → DmqHeader → Serial S → Option (Received S)
  unfolding receive_header sync
  receive turns stream header p =
      let stop : Serial S → Option (Received S) =
        λ p. some (record { status = minus_one; stream = stream; header = header; serial = p }) in
      let r = sync turns p.line in
      if not p.is_open
      then stop p
      else if not (is_self p.ends.recv_transport)
      then stop p
      else elim r.0 [
        | found ↦ some (receive_header stream header (record p { line = r.1 }))
        | timed_out ↦ stop (record p { line = r.1 })
        | out_of_fuel ↦ none
      ]
