-- ===== src/Wire/Frame.antt =====
-- How the transports lay a DmqHeader (DelegateMQ/port/transport/common/DmqHeader.h) out in bytes, and
-- the part of a transport's state that they share: their links to other transports and to the
-- TransportMonitor of the connection.
use async_http.Prelude.{
  Bool, true, false, ℕ, ◌+◌, ◌*◌, ◌/◌, ◌%◌, ◌^◌, ◌<◌, Option, none, some, List, [], ◌∷◌, ◌++◌, ◌≡◌,
  ◌⊎◌, inl, inr, refl, length, arith,
}
use async_http.Http.{Bytes}
use async_http.Reliable.Monitor.{Monitor, TimeoutData, remove}
use async_http.Reliable.Retry.{DmqHeader}

abbrev pub marker : ℕ
marker = 0xAA55

abbrev pub header_size : ℕ
header_size = 8

-- dmq::ACK_REMOTE_ID
abbrev pub ack_remote_id : ℕ
ack_remote_id = 0

-- BUFFER_SIZE of each transport.
abbrev pub buffer_size : ℕ
buffer_size = 4096

-- A DmqHeader that no one has set a field of, and `DmqHeader(id, seqNum)`.
abbrev pub new_header : ℕ → ℕ → DmqHeader
new_header id seq_num = record { marker = marker; id = id; seq_num = seq_num; length = 0 }

abbrev pub ack_header : ℕ → DmqHeader
ack_header seq_num = new_header ack_remote_id seq_num

-- `htons`, or `swap16` on a little-endian host, and the two bytes that are copied out.
abbrev pub put16 : ℕ → Bytes
put16 v = (v / 2 ^ 8 % 2 ^ 8) ∷ (v % 2 ^ 8) ∷ []

abbrev pub get16 : ℕ → ℕ → ℕ
get16 high low = high * 2 ^ 8 + low

-- The header's bytes with another length than the one it holds.
unfoldable pub put_header : DmqHeader → ℕ → Bytes
put_header h len = put16 h.marker ++ put16 h.id ++ put16 h.seq_num ++ put16 len

-- The header in the first bytes, and the bytes after it, if there are enough for one.
unfoldable pub parse_header : Bytes → Option (DmqHeader × Bytes)
parse_header (a ∷ b ∷ c ∷ d ∷ e ∷ f ∷ g ∷ h ∷ rest) =
    some
      (record { marker = get16 a b; id = get16 c d; seq_num = get16 e f; length = get16 g h }, rest)
parse_header _ = none

-- The fields are uint16_t.
abbrev pub IsHeader : DmqHeader → Type 0
IsHeader h = (h.marker < 2 ^ 16) × (h.id < 2 ^ 16) × (h.seq_num < 2 ^ 16)

-- What is read back is the header with the length that was written.
pub parse_header-put_header :
    (h : DmqHeader) (len : ℕ) (rest : Bytes)
    → IsHeader h
    → len < 2 ^ 16
    → parse_header (put_header h len ++ rest) ≡ some (record h { length = len }, rest)
unfolding parse_header put_header
parse_header-put_header h len rest v l = ground (arith, v.0, v.1, v.2, l)

pub length-put_header : (h : DmqHeader) (len : ℕ) → length (put_header h len) ≡ 8
unfolding put_header
length-put_header h len = omega arith

-- A message on the wire.
unfoldable pub frame : DmqHeader → Bytes → Bytes
frame h payload = put_header h (length payload) ++ payload

-- An ITransport* as a transport sees it.
pub data Ref : Type 0 where
  null self other : Ref

abbrev pub is_null : Ref → Bool
is_null null = true
is_null _ = false

pub Ref-cases : (r : Ref) → (r ≡ null) ⊎ ((r ≡ self) ⊎ (r ≡ other))
Ref-cases null = inl refl
Ref-cases self = inr (inl refl)
Ref-cases other = inr (inr refl)

pub record Ends : Type 0 where
  pub send_transport : Ref
  pub recv_transport : Ref
  pub transport_monitor : Option Monitor
  pub acknowledged : List TimeoutData  -- whose success the monitor has signalled

-- `if (m_transportMonitor) m_transportMonitor->Remove(seqNum)`
unfoldable pub acknowledge : ℕ → Ends → Ends
unfolding remove
acknowledge seq_num e = elim e.transport_monitor [
  | none ↦ e
  | some m ↦ elim (remove seq_num 0 m).0 [
    | none ↦ record e { transport_monitor = some (remove seq_num 0 m).1 }
    | some d ↦ record e {
      transport_monitor = some (remove seq_num 0 m).1;
      acknowledged = e.acknowledged ++ (d ∷ []);
    }
  ]
]
