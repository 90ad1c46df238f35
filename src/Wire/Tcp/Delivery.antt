-- ===== src/Wire/Tcp/Delivery.antt =====
-- LinuxTcpTransport.h: what one side sends is what the other receives.
use async_http.Prelude.{
  ℕ, zero, suc, ◌≤◌, ◌<◌, Bool, true, some, List, [], ◌∷◌, ◌++◌, ◌≡◌, refl, sym, ap, ◌∙◌, subst,
  append-nil, append_assoc, map, length, All, ◌==◌, if◌then◌else◌, arith,
}
use async_http.Http.{Bytes}
use async_http.Reliable.Retry.{DmqHeader}
use async_http.Wire.Frame.{
  marker, ack_remote_id, put_header, parse_header, frame, IsHeader, Ends, new_header,
  parse_header-put_header, length-put_header, acknowledge, ack_header,
}
use async_http.Wire.Port.{Port, read_exact, read_exact_next}
use async_http.Wire.Tcp.{Received, send_to_socket, finish, receive_payload, receive_socket}

-- A message that Send accepts.
abbrev pub IsSendable : DmqHeader × Bytes → Type 0
IsSendable m = IsHeader m.0 × (m.0.marker ≡ marker) × (length m.1 ≤ 4088)

module _ {S : Type 0} (port : Port S) (select : S → Bool) where
  finish-coming :
      (stream : Bytes) (header : DmqHeader) (ends : Ends) (s : S)
      → port.coming (finish port stream header ends s).socket ≡ port.coming s
  unfolding finish
  finish-coming stream header ends s =
      ground (arith, port.writes_coming (put_header (ack_header header.seq_num) 0) s)

  -- The payload is read whole, and the message is finished with.
  receive_payload_lem :
      (stream : Bytes) (header : DmqHeader) (ends : Ends) (s : S) (payload rest : Bytes)
      → port.coming s ≡ payload ++ rest
      → header.length ≡ length payload
      → length payload ≤ 4096
      → (t : S) × (receive_payload port stream header ends s
          ≡ finish port (stream ++ payload) header ends t)
        × (port.coming t ≡ rest)
  unfolding receive_payload
  receive_payload_lem stream header ends s [] rest e l k =
      (s, rw (append-nil stream) (ground arith), e)
  receive_payload_lem stream header ends s (b ∷ bs) rest e l k =
      let r = read_exact_next port s (b ∷ bs) rest header.length e (sym l) in
      ((read_exact port header.length s).1, ground (arith, r.0, l, k), r.1)

  -- A message is received with its payload and its length, and what follows it is left.
  receive_socket-frame :
      (stream payload rest : Bytes) (header sent : DmqHeader) (ends : Ends) (s : S)
      → select s ≡ true
      → IsSendable (sent, payload)
      → port.coming s ≡ frame sent payload ++ rest
      → let got : DmqHeader = record sent { length = length payload } in
        (t : S) × (receive_socket port select stream header ends s
          ≡ finish port (stream ++ payload) got ends t)
        × (port.coming t ≡ rest)
  unfolding receive_socket frame
  receive_socket-frame stream payload rest header sent ends s ready v e =
      let bytes = put_header sent (length payload) in
      let r =
        read_exact_next port s bytes (payload ++ rest) 8 (e ∙ append_assoc bytes payload rest)
          (length-put_header sent (length payload)) in
      let parsed : parse_header bytes ≡ some (record sent { length = length payload }, []) =
        ap parse_header (sym (append-nil bytes))
        ∙ parse_header-put_header sent (length payload) [] v.0 (omega (arith, v.2)) in
      let p =
        receive_payload_lem stream (record sent { length = length payload }) ends
          (read_exact port 8 s).1 payload rest r.1 refl (omega (arith, v.2)) in
      (p.0, ground (arith, ready, r.0, parsed, v.1, p.1), p.2)

-- Messages sent one after another, with the results.
unfoldable pub send_each : {S : Type 0} → Port S → List (DmqHeader × Bytes) → S → List ℕ × S
unfolding send_to_socket
send_each port [] s = ([], s)
send_each port ((header, payload) ∷ msgs) s =
    let r = send_to_socket port payload header s in
    let rest = send_each port msgs r.1 in (r.0 ∷ rest.0, rest.1)

-- What a number of calls of Receive give, each into a new header and a new stream.
unfoldable pub receive_each :
    {S : Type 0} → Port S → (S → Bool) → ℕ → Ends → S → List (ℕ × DmqHeader × Bytes)
unfolding receive_socket
receive_each port select zero ends s = []
receive_each port select (suc n) ends s =
    let r = receive_socket port select [] (new_header 0 0) ends s in
    (r.status, r.header, r.stream) ∷ receive_each port select n r.ends r.socket

abbrev pub frames : List (DmqHeader × Bytes) → Bytes
frames [] = []
frames ((header, payload) ∷ msgs) = frame header payload ++ frames msgs

-- A message as Receive gives it.
abbrev pub delivered : DmqHeader × Bytes → ℕ × DmqHeader × Bytes
delivered m = (0, record m.0 { length = length m.1 }, m.1)

module _ {S : Type 0} (port : Port S) where
  send_to_socket-sent :
      (payload : Bytes) (header : DmqHeader) (s : S)
      → length payload ≤ 4088
      → (send_to_socket port payload header s).0 ≡ 0
      → port.sent (send_to_socket port payload header s).1 ≡ port.sent s ++ frame header payload
  unfolding send_to_socket
  send_to_socket-sent payload header s l e =
      ground (arith, port.writes_sent (frame header payload) s)

  send_each-sent :
      (msgs : List (DmqHeader × Bytes)) (s : S)
      → All IsSendable msgs
      → All (λ r. r ≡ 0) (send_each port msgs s).0
      → port.sent (send_each port msgs s).1 ≡ port.sent s ++ frames msgs
  unfolding send_each
  send_each-sent [] s v e = sym (append-nil (port.sent s))
  send_each-sent ((header, payload) ∷ msgs) s v e =
      send_each-sent msgs (send_to_socket port payload header s).1 v.1 e.1
      ∙ ap (λ b. b ++ frames msgs) (send_to_socket-sent payload header s v.0.2 e.0)
      ∙ append_assoc (port.sent s) (frame header payload) (frames msgs)

module _ {S : Type 0} (port : Port S) (select : S → Bool)
    (selects : (t : S) → 0 < length (port.coming t) → select t ≡ true) where
  finish_lem :
      (stream : Bytes) (header : DmqHeader) (ends : Ends) (s : S)
      → let r = finish port stream header ends s in
        (r.status ≡ 0)
        × (r.stream ≡ stream)
        × (r.header ≡ header)
        × (r.ends ≡ (if header.id == ack_remote_id then acknowledge header.seq_num ends else ends))
  unfolding finish
  finish_lem stream header ends s = ground arith

  frame_nonempty :
      (header : DmqHeader) (payload rest : Bytes) → 0 < length (frame header payload ++ rest)
  unfolding frame put_header
  frame_nonempty header payload rest = omega arith

  receive_each-frames :
      (msgs : List (DmqHeader × Bytes)) (ends : Ends) (t : S)
      → All IsSendable msgs
      → port.coming t ≡ frames msgs
      → receive_each port select (length msgs) ends t ≡ map delivered msgs
  unfolding receive_each
  receive_each-frames [] ends t v e = refl
  receive_each-frames ((header, payload) ∷ msgs) ends t v e =
      let m : DmqHeader = record header { length = length payload } in
      let r =
        receive_socket-frame port select [] payload (frames msgs) (new_header 0 0) header ends t
          (selects t
            (subst (λ b. 0 < length b) (sym e) (frame_nonempty header payload (frames msgs))))
          v.0 e in
      let f = finish_lem payload m ends r.0 in
      let next =
        receive_each-frames msgs (finish port payload m ends r.0).ends
          (finish port payload m ends r.0).socket v.1
          (finish-coming port select payload m ends r.0 ∙ r.2) in
      subst
        (λ (x : Received S).
          ((x.status, x.header, x.stream) ∷ receive_each port select (length msgs) x.ends x.socket)
          ≡ delivered (header, payload) ∷ map delivered msgs)
        (sym r.1) (ground (arith, f.0, f.1, f.2, next))

  -- Messages that one side of a TCP connection sends one after another, with success, are received
  -- by the other side in the same order, each with its payload and its header, whose length is that
  -- of the payload, however the system cuts the stream. Each payload has at most 4088 bytes, the
  -- sender has sent nothing before, and select reports bytes that have come.
  pub receive_each-send_each :
      (msgs : List (DmqHeader × Bytes)) (ends : Ends) (s t : S)
      → All IsSendable msgs
      → port.sent s ≡ []
      → All (λ r. r ≡ 0) (send_each port msgs s).0
      → port.coming t ≡ port.sent (send_each port msgs s).1
      → receive_each port select (length msgs) ends t ≡ map delivered msgs
  receive_each-send_each msgs ends s t v e done joined =
      receive_each-frames msgs ends t v
        (joined ∙ send_each-sent port msgs s v done ∙ ap (λ b. b ++ frames msgs) e)
