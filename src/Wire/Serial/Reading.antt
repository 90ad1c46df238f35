-- ===== src/Wire/Serial/Reading.antt =====
-- SerialTransport.h: the parts of Receive, from the noise before a message to its checksum.
use async_http.Prelude.{
  ℕ, zero, suc, ◌^◌, ◌≤◌, ◌<◌, true, Option, some, [], ◌∷◌, ◌++◌, ◌≡◌, ◌≢◌, refl, sym, ap, ◌∙◌,
  append-nil, length, All, ◌==◌, if◌then◌else◌, arith,
}
use async_http.Http.{Bytes}
use async_http.Reliable.Retry.{DmqHeader, minus_one}
use async_http.Wire.Crc.{crc16_calc_block}
use async_http.Wire.Frame.{
  marker, put16, put_header, parse_header, IsHeader, self, parse_header-put_header,
}
use async_http.Wire.Port.{Port, IsQuiet, read_exact, read_exact_next, read_exact-sent, read_one}
use async_http.Wire.Serial.{
  Serial, Received, put16_host, get16_host, crc_start, found, sync, finish, check_crc,
  receive_payload, receive_header, receive,
}

module _ {S : Type 0} (port : Port S) where
  pub sync-found :
      (turns : ℕ) (junk rest : Bytes) (s : S)
      → All (λ b. b ≢ 0xAA) junk
      → length junk < turns
      → port.coming s ≡ junk ++ (0xAA ∷ 0x55 ∷ rest)
      → ((sync port turns s).0 ≡ found) × (port.coming (sync port turns s).1 ≡ rest)
  unfolding sync
  sync-found zero junk rest s v l e = absurd (omega arith)
  sync-found (suc turns) [] rest s v l e =
      let r = read_one port s 0xAA (0x55 ∷ rest) e in
      let q = read_one port (port.read 1 s).1 0x55 rest r.1 in ground (arith, r.0, q.0, q.1)
  sync-found (suc turns) (b ∷ junk) rest s v l e =
      let r = read_one port s b (junk ++ (0xAA ∷ 0x55 ∷ rest)) e in
      ground (arith, r.0, v.0, sync-found turns junk rest (port.read 1 s).1 v.1 (omega arith) r.1)

  sync-sent : (turns : ℕ) (s : S) → IsQuiet port → port.sent (sync port turns s).1 ≡ port.sent s
  unfolding sync
  sync-sent zero s quiet = refl
  sync-sent (suc turns) s quiet =
      let r = port.read 1 s in
      let q = port.read 1 r.1 in
      ground (arith, quiet 1 s, quiet 1 r.1, sync-sent turns r.1 quiet, sync-sent turns q.1 quiet)

  get16_host-put16_host : (v : ℕ) → v < 2 ^ 16 → get16_host (put16_host v) ≡ v
  get16_host-put16_host v l = omega arith

  pub check_crc_lem :
      (head payload stream rest : Bytes) (header : DmqHeader) (p : Serial S) (v : ℕ)
      → v < 2 ^ 16
      → port.coming p.line ≡ put16_host v ++ rest
      → (t : S) × (check_crc port head payload stream header p ≡ (
          if v == crc16_calc_block payload (crc16_calc_block head crc_start)
          then finish port stream header (record p { line = t })
          else record {
            status = minus_one;
            stream = stream;
            header = header;
            serial = record p { line = t };
          }))
        × (port.coming t ≡ rest)
        × (IsQuiet port → port.sent t ≡ port.sent p.line)
  unfolding check_crc
  check_crc_lem head payload stream rest header p v l e =
      let r = read_exact_next port p.line (put16_host v) rest 2 e refl in
      (
        (read_exact port 2 p.line).1,
        ground (arith, r.0, get16_host-put16_host v l),
        r.1,
        λ quiet. read_exact-sent port quiet 2 p.line,
      )

  pub receive_payload_lem :
      (head payload stream rest : Bytes) (header : DmqHeader) (p : Serial S)
      → header.length ≡ length payload
      → length payload ≤ 4096
      → port.coming p.line ≡ payload ++ rest
      → (t : S) × (receive_payload port head stream header p
          ≡ check_crc port head payload (stream ++ payload) header (record p { line = t }))
        × (port.coming t ≡ rest)
        × (IsQuiet port → port.sent t ≡ port.sent p.line)
  unfolding receive_payload
  receive_payload_lem head [] stream rest header p l k e =
      (p.line, rw (append-nil stream) (ground (arith, l)), e, λ quiet. refl)
  receive_payload_lem head (b ∷ bs) stream rest header p l k e =
      let r = read_exact_next port p.line (b ∷ bs) rest header.length e (sym l) in
      (
        (read_exact port header.length p.line).1,
        ground (arith, r.0, l, k),
        r.1,
        λ quiet. read_exact-sent port quiet header.length p.line,
      )

  -- What follows the marker.
  abbrev header_tail : DmqHeader → ℕ → Bytes
  header_tail h len = put16 h.id ++ put16 h.seq_num ++ put16 len

  put_header-tail :
      (h : DmqHeader) (len : ℕ)
      → h.marker ≡ marker
      → put_header h len ≡ 0xAA ∷ 0x55 ∷ header_tail h len
  unfolding put_header
  put_header-tail h len m = ap (λ v. put16 v ++ header_tail h len) m

  parse_header-tail :
      (h : DmqHeader) (len : ℕ)
      → IsHeader h
      → h.marker ≡ marker
      → len < 2 ^ 16
      → parse_header (0xAA ∷ 0x55 ∷ header_tail h len) ≡ some (record h { length = len }, [])
  parse_header-tail h len v m l =
      ap parse_header (sym (put_header-tail h len m) ∙ sym (append-nil (put_header h len)))
      ∙ parse_header-put_header h len [] v l

  receive_header_lem :
      (stream rest : Bytes) (header sent : DmqHeader) (len : ℕ) (p : Serial S)
      → IsHeader sent
      → sent.marker ≡ marker
      → len < 2 ^ 16
      → port.coming p.line ≡ header_tail sent len ++ rest
      → (t : S) × (receive_header port stream header p
          ≡ receive_payload port
              (0xAA ∷ 0x55 ∷ header_tail sent len)
              stream
              (record sent { length = len })
              (record p { line = t }))
        × (port.coming t ≡ rest)
        × (IsQuiet port → port.sent t ≡ port.sent p.line)
  unfolding receive_header
  receive_header_lem stream rest header sent len p v m l e =
      let r = read_exact_next port p.line (header_tail sent len) rest 6 e refl in
      (
        (read_exact port 6 p.line).1,
        ground (arith, r.0, parse_header-tail sent len v m l, m),
        r.1,
        λ quiet. read_exact-sent port quiet 6 p.line,
      )

  receive-found :
      (turns : ℕ) (stream : Bytes) (header : DmqHeader) (p : Serial S)
      → p.is_open ≡ true
      → p.ends.recv_transport ≡ self
      → (sync port turns p.line).0 ≡ found
      → receive port turns stream header p
        ≡ some (receive_header port stream header (record p { line = (sync port turns p.line).1 }))
  unfolding receive
  receive-found turns stream header p is_open own e = ground (arith, is_open, own, e)

  -- A header is found and read, whatever noise comes before it.
  pub receive-started :
      (turns : ℕ) (junk stream rest : Bytes) (header sent : DmqHeader) (len : ℕ) (p : Serial S)
      → p.is_open ≡ true
      → p.ends.recv_transport ≡ self
      → All (λ b. b ≢ 0xAA) junk
      → length junk < turns
      → IsHeader sent
      → sent.marker ≡ marker
      → len < 2 ^ 16
      → port.coming p.line ≡ junk ++ (put_header sent len ++ rest)
      → (t : S) × (receive port turns stream header p
          ≡ some (
              receive_payload port
                (put_header sent len)
                stream
                (record sent { length = len })
                (record p { line = t })))
        × (port.coming t ≡ rest)
        × (IsQuiet port → port.sent t ≡ port.sent p.line)
  receive-started turns junk stream rest header sent len p is_open own v short h m l e =
      let lined : S → Serial S = λ t. record p { line = t } in
      let s1 =
        sync-found turns junk (header_tail sent len ++ rest) p.line v short
          (e ∙ ap (λ b. junk ++ (b ++ rest)) (put_header-tail sent len m)) in
      let s2 =
        receive_header_lem stream rest header sent len (lined (sync port turns p.line).1) h m l
          s1.1 in
      let from : Bytes → Option (Received S) =
        λ b. some (receive_payload port b stream (record sent { length = len }) (lined s2.0)) in
      (
        s2.0,
        receive-found turns stream header p is_open own s1.0
            ∙ ap some s2.1
            ∙ ap from (sym (put_header-tail sent len m)),
        s2.2,
        λ quiet. s2.3 quiet ∙ sync-sent turns p.line quiet,
      )
