-- ===== src/Wire/Serial/Delivery.antt =====
-- SerialTransport.h: a message that Send has written is received, whatever noise comes before it.
use async_http.Prelude.{
  ℕ, ◌^◌, ◌≤◌, ◌<◌, true, false, some, [], ◌++◌, ◌≡◌, ◌≢◌, refl, sym, ap, ◌∙◌, append_assoc, if_pos,
  if_neg, subst, Bool-cases, ==_iff, inl, inr, ◌∷◌, ==_refl, length, All, All-append, ◌==◌,
  if◌then◌else◌, arith,
}
use async_http.Http.{Bytes}
use async_http.Reliable.Retry.{DmqHeader, minus_one}
use async_http.Wire.Crc.{crc16_calc_block}
use async_http.Wire.Crc.Rounds.{crc16_calc_block-append, crc16_calc_block-lt}
use async_http.Wire.Frame.{
  marker, put_header, frame, IsHeader, null, self, other, Ref-cases, ack_header, ack_remote_id,
  acknowledge,
}
use async_http.Wire.Port.{Port, IsQuiet}
use async_http.Wire.Serial.{Serial, Received, packet, put16_host, crc_start, send, finish, receive}
use async_http.Wire.Serial.Reading.{receive-started, receive_payload_lem, check_crc_lem}

module _ {S : Type 0} (port : Port S) where
  finish_lem :
      (stream : Bytes) (header : DmqHeader) (p : Serial S)
      → let r = finish port stream header p in
        (r.status ≡ 0) × (r.stream ≡ stream) × (r.header ≡ header)
  unfolding finish
  finish_lem stream header p = ground arith

  -- A message on the line is read to its end.
  receive-read :
      (turns : ℕ) (junk payload stream rest : Bytes) (header sent : DmqHeader) (p : Serial S)
      (crc : ℕ)
      → p.is_open ≡ true
      → p.ends.recv_transport ≡ self
      → All (λ b. b ≢ 0xAA) junk
      → length junk < turns
      → IsHeader sent
      → sent.marker ≡ marker
      → length payload ≤ 4096
      → crc < 2 ^ 16
      → port.coming p.line ≡ junk ++ (frame sent payload ++ (put16_host crc ++ rest))
      → let got : DmqHeader = record sent { length = length payload } in
        (t : S) × (receive port turns stream header p
          ≡ some (
              if crc == crc16_calc_block (frame sent payload) crc_start
              then finish port (stream ++ payload) got (record p { line = t })
              else record {
                status = minus_one;
                stream = stream ++ payload;
                header = got;
                serial = record p { line = t };
              }))
        × (port.coming t ≡ rest)
        × (IsQuiet port → port.sent t ≡ port.sent p.line)
  unfolding frame
  receive-read turns junk payload stream rest header sent p crc is_open own v short h m l word e =
      let len = length payload in
      let got : DmqHeader = record sent { length = len } in
      let head = put_header sent len in
      let lined : S → Serial S = λ t. record p { line = t } in
      let s1 =
        receive-started port turns junk stream (payload ++ (put16_host crc ++ rest)) header sent len
          p is_open own v short h m (omega arith)
          (e ∙ ap (λ b. junk ++ b) (append_assoc head payload (put16_host crc ++ rest))) in
      let s2 =
        receive_payload_lem port head payload stream (put16_host crc ++ rest) got (lined s1.0) refl
          l s1.2 in
      let s3 =
        check_crc_lem port head payload (stream ++ payload) rest got (lined s2.0) crc word s2.2 in
      let verdict : ℕ → Received S = λ c.
        if crc == c then finish port (stream ++ payload) got (lined s3.0) else record {
          status = minus_one;
          stream = stream ++ payload;
          header = got;
          serial = lined s3.0;
        } in
      (
        s3.0,
        s1.1
            ∙ ap some
                (s2.1 ∙ s3.1 ∙ ap verdict (sym (crc16_calc_block-append head payload crc_start))),
        s3.2,
        λ quiet. s3.3 quiet ∙ s2.3 quiet ∙ s1.3 quiet,
      )

  -- What is done for a message that has been accepted, when the line has been read up to `t`: an
  -- acknowledgement goes to the monitor; any other message is answered by one, which is written on
  -- the line, or given to the other transport that has been set, or left out without one.
  pub data IsAnswered (h : DmqHeader) (p : Serial S) (t : S) (x : Serial S) : Type 0 where
    monitored :
        h.id ≡ ack_remote_id
        → x ≡ record p { ends = acknowledge h.seq_num p.ends; line = t }
        → IsAnswered h p t x
    left_out :
        h.id == ack_remote_id ≡ false
        → p.ends.send_transport ≡ null
        → x ≡ record p { line = t }
        → IsAnswered h p t x
    written :
        h.id == ack_remote_id ≡ false
        → p.ends.send_transport ≡ self
        → x ≡ record p { line = (port.write (packet (ack_header h.seq_num) []) t).1 }
        → IsAnswered h p t x
    handed_on :
        h.id == ack_remote_id ≡ false
        → p.ends.send_transport ≡ other
        → x ≡ record p { forwarded = p.forwarded ++ (ack_header h.seq_num ∷ []); line = t }
        → IsAnswered h p t x

  finish-IsAnswered :
      (stream : Bytes) (h : DmqHeader) (p : Serial S) (t : S)
      → p.is_open ≡ true
      → IsAnswered h p t (finish port stream h (record p { line = t })).serial
  unfolding finish send
  finish-IsAnswered stream h p t is_open = elim (Bool-cases (h.id == ack_remote_id)) [
    | inl ack ↦ monitored ((==_iff h.id ack_remote_id).0 ack) (ground (arith, ack))
    | inr data_id ↦ elim (Ref-cases p.ends.send_transport) [
      | inl e ↦ left_out data_id e (ground (arith, data_id, e))
      | inr (inl e) ↦ written data_id e (ground (arith, data_id, e, is_open))
      | inr (inr e) ↦ handed_on data_id e (ground (arith, data_id, e))
    ]
  ]

  -- How a message ends whose two last bytes are `crc`, and whose checksum is `sum`.
  pub data IsJudged (crc sum : ℕ) (p : Serial S) (t : S) (r : Received S) : Type 0 where
    passed : crc ≡ sum → r.status ≡ 0 → IsAnswered r.header p t r.serial → IsJudged crc sum p t r
    failed :
        crc == sum ≡ false
        → r.status ≡ minus_one
        → r.serial ≡ record p { line = t }
        → IsJudged crc sum p t r

  -- A message of at most 4096 bytes on a serial line whose reads send nothing, after noise that has
  -- no byte 0xAA, is read up to its end: what follows is still to come, and nothing has been
  -- written by then. The stream gets the payload, and the header is that of the message with the
  -- length of the payload. If the two bytes after the payload are the checksum of header and
  -- payload, the result is 0, and an acknowledgement goes to the monitor, while any other message
  -- is answered by one, on the line or on the other transport if one is set. Otherwise the result
  -- is -1, nothing is written, and neither the monitor nor another transport hears of it. The fuel
  -- exceeds the bytes of noise.
  pub receive-checked :
      (turns : ℕ) (junk payload stream rest : Bytes) (header sent : DmqHeader) (p : Serial S)
      (crc : ℕ)
      → IsQuiet port
      → p.is_open ≡ true
      → p.ends.recv_transport ≡ self
      → All (λ b. b ≢ 0xAA) junk
      → length junk < turns
      → IsHeader sent
      → sent.marker ≡ marker
      → length payload ≤ 4096
      → crc < 2 ^ 16
      → port.coming p.line ≡ junk ++ (frame sent payload ++ (put16_host crc ++ rest))
      → (t : S) × (r : Received S) × (receive port turns stream header p ≡ some r)
        × (port.coming t ≡ rest)
        × (port.sent t ≡ port.sent p.line)
        × (r.stream ≡ stream ++ payload)
        × (r.header ≡ record sent { length = length payload })
        × IsJudged crc (crc16_calc_block (frame sent payload) crc_start) p t r
  receive-checked turns junk payload stream rest header sent p crc quiet is_open own v short h m l
        word e =
      let got : DmqHeader = record sent { length = length payload } in
      let sum = crc16_calc_block (frame sent payload) crc_start in
      let read =
        receive-read turns junk payload stream rest header sent p crc is_open own v short h m l word
          e in
      let p' : Serial S = record p { line = read.0 } in
      let good : Received S = finish port (stream ++ payload) got p' in
      let bad : Received S = record {
        status = minus_one;
        stream = stream ++ payload;
        header = got;
        serial = p';
      } in
      let done = finish_lem (stream ++ payload) got p' in
      let answered = finish-IsAnswered (stream ++ payload) got p read.0 is_open in
      elim (Bool-cases (crc == sum)) [
        | inl same ↦ (
          read.0,
          good,
          read.1 ∙ ap some (if_pos (λ z. z ≡ good) (crc == sum) good bad same refl),
          read.2,
          read.3 quiet,
          done.1,
          done.2,
          passed ((==_iff crc sum).0 same) done.0
              (subst (λ k. IsAnswered k p read.0 good.serial) (sym done.2) answered),
        )
        | inr differ ↦ (
          read.0,
          bad,
          read.1 ∙ ap some (if_neg (λ z. z ≡ bad) (crc == sum) good bad differ refl),
          read.2,
          read.3 quiet,
          refl,
          refl,
          failed differ refl refl,
        )
      ]

  frame-octets :
      (h : DmqHeader) (payload : Bytes)
      → All (λ b. b < 256) payload
      → All (λ b. b < 256) (frame h payload)
  unfolding frame put_header
  frame-octets h payload v =
      All-append (λ b. b < 256) (put_header h (length payload)) payload (ground arith) v

  send-sent :
      (payload : Bytes) (header : DmqHeader) (q : Serial S)
      → (send port payload header q).0 ≡ 0
      → port.sent (send port payload header q).1.line ≡ port.sent q.line ++ packet header payload
  unfolding send
  send-sent payload header q e = ground (arith, port.writes_sent (packet header payload) q.line)

  packet_lem :
      (header : DmqHeader) (payload : Bytes)
      → packet header payload
        ≡ frame header payload
          ++ (put16_host (crc16_calc_block (frame header payload) crc_start) ++ [])
  unfolding packet
  packet_lem header payload = refl

  -- A message of at most 4096 bytes that one side sends on an idle serial line is received by the
  -- other, with its payload and its header, whose length is that of the payload, after any noise
  -- that has no byte 0xAA. The fuel exceeds the bytes of noise.
  pub receive-send :
      (turns : ℕ) (junk payload : Bytes) (header got : DmqHeader) (q p : Serial S)
      → p.is_open ≡ true
      → p.ends.recv_transport ≡ self
      → All (λ b. b ≢ 0xAA) junk
      → length junk < turns
      → IsHeader header
      → header.marker ≡ marker
      → length payload ≤ 4096
      → All (λ b. b < 256) payload
      → port.sent q.line ≡ []
      → (send port payload header q).0 ≡ 0
      → port.coming p.line ≡ junk ++ port.sent (send port payload header q).1.line
      → (r : Received S) × (receive port turns [] got p ≡ some r)
        × (r.status ≡ 0)
        × (r.stream ≡ payload)
        × (r.header ≡ record header { length = length payload })
  receive-send turns junk payload header got q p is_open own v short h m l octets idle done e =
      let crc = crc16_calc_block (frame header payload) crc_start in
      let word : crc < 2 ^ 16 =
        crc16_calc_block-lt (frame header payload) crc_start (omega arith)
          (frame-octets header payload octets) in
      let r =
        receive-read turns junk payload [] [] got header p crc is_open own v short h m l word (
          e
          ∙ ap (λ b. junk ++ b)
              (send-sent payload header q done
                ∙ ap (λ b. b ++ packet header payload) idle
                ∙ packet_lem header payload)) in
      let p' : Serial S = record p { line = r.0 } in
      let got' : DmqHeader = record header { length = length payload } in
      let f = finish_lem payload got' p' in
      (
        finish port payload got' p',
        r.1
            ∙ ap some
                (if_pos (λ z. z ≡ finish port payload got' p') (crc == crc) _ _ (==_refl crc) refl),
        f.0,
        f.1,
        f.2,
      )
