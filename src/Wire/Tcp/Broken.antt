-- ===== src/Wire/Tcp/Broken.antt =====
-- LinuxTcpTransport.h: connections that end, and messages that are not whole.
use async_http.Prelude.{
  ℕ, ◌≤◌, ◌<◌, Bool, true, some, List, [], ◌∷◌, ◌++◌, ◌≡◌, refl, sym, ap, ◌∙◌, append-nil, length,
  ◌==◌, if◌then◌else◌, arith,
}
use async_http.Http.{Bytes}
use async_http.Reliable.Retry.{DmqHeader, minus_one}
use async_http.Wire.Frame.{
  marker, put_header, parse_header, IsHeader, Ends, parse_header-put_header, length-put_header,
}
use async_http.Wire.Port.{Port, read_exact, read_exact_next, read_exact_short}
use async_http.Wire.Tcp.{receive_payload, receive_socket, receive_from_clients, minus_two}

module _ {S : Type 0} (port : Port S) (select : S → Bool) (stream : Bytes) (header : DmqHeader)
    (ends : Ends) (s : S) (ready : select s ≡ true) where
  -- A connection that ends before a whole header: -2, and the header, the stream and the acknowledgements
  -- are as before.
  pub receive_socket_short :
      length (port.coming s) < 8
      → receive_socket port select stream header ends s ≡ record {
        status = minus_two;
        stream = stream;
        header = header;
        ends = ends;
        socket = (read_exact port 8 s).1;
      }
  unfolding receive_socket
  receive_socket_short l = rw (ready, read_exact_short port 8 s l) refl

  -- A connection that ends within a payload of at most 4096 bytes: -2, or -1 if the marker is wrong; the
  -- stream and the acknowledgements are as before.
  pub receive_socket_cut :
      (sent : DmqHeader) (len : ℕ) (part : Bytes)
      → IsHeader sent
      → len ≤ 4096
      → length part < len
      → port.coming s ≡ put_header sent len ++ part
      → let r = receive_socket port select stream header ends s in
        (r.status ≡ (if sent.marker == marker then minus_two else minus_one))
        × (r.stream ≡ stream)
        × (r.ends ≡ ends)
        × (r.header ≡ record sent { length = len })
  unfolding receive_socket receive_payload
  receive_socket_cut sent len part v l k e =
      let bytes = put_header sent len in
      let r = read_exact_next port s bytes part 8 e (length-put_header sent len) in
      let parsed : parse_header bytes ≡ some (record sent { length = len }, []) =
        ap parse_header (sym (append-nil bytes))
        ∙ parse_header-put_header sent len [] v (omega arith) in
      let short =
        read_exact_short port len (read_exact port 8 s).1 (omega (arith, k, ap length r.1)) in
      ground (arith, ready, r.0, parsed, short, k, l)

  -- The clients before it have nothing to read.
  pub receive_from_clients_left :
      (clients : List S)
      → length (port.coming s) < 8
      → receive_from_clients port select stream header ends (s ∷ clients)
        ≡ receive_from_clients port select stream header ends clients
  unfolding receive_from_clients
  receive_from_clients_left clients l = ground (arith, ready, receive_socket_short l)
