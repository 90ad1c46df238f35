-- ===== src/Wire/Tcp.antt =====
-- DelegateMQ/port/transport/linux-tcp/LinuxTcpTransport.h: Send, Receive and what they call. The
-- sockets are byte streams of the system. Statuses are ints, -1 and -2 by their bit patterns.
-- A server's `m_serverClients` is a list of sockets in its order; `ready` is what `select` says of a
-- socket, and a new client that `accept` gives is an argument.
pub mod Delivery
pub mod Broken
use async_http.Prelude.{
  ℕ, ◌-◌, ◌^◌, Bool, true, false, ◌||◌, not, Option, none, some, List, [], ◌∷◌, ◌++◌, ltb, ◌==◌,
  if◌then◌else◌, length,
}
use async_http.Http.{Bytes}
use async_http.Reliable.Retry.{DmqHeader, minus_one}
use async_http.Wire.Frame.{
  marker, header_size, ack_remote_id, buffer_size, ack_header, put_header, parse_header, frame, Ref,
  is_null, Ends, acknowledge,
}
use async_http.Wire.Port.{Port, read_exact}

abbrev pub minus_two : ℕ
minus_two = 2 ^ 32 - 2

-- What a Receive leaves: its result, the caller's stream and header, the transport and the socket.
pub record Received (S : Type 0) : Type 0 where
  pub status : ℕ
  pub stream : Bytes
  pub header : DmqHeader
  pub ends : Ends
  pub socket : S

module _ {S : Type 0} (port : Port S) where
  -- SendToSocket
  unfoldable pub send_to_socket : Bytes → DmqHeader → S → ℕ × S
  unfolding frame put_header
  send_to_socket payload header s =
      if ltb (buffer_size - header_size) (length payload)
      then (minus_one, s)
      else let r = port.write (frame header payload) s in (if r.0 then 0 else minus_one, r.1)

  -- Send of a server: to each client in turn.
  unfoldable pub send_to_clients : Bytes → DmqHeader → List S → ℕ × List S
  unfolding send_to_socket
  send_to_clients payload header [] = (0, [])
  send_to_clients payload header (s ∷ clients) =
      let r = send_to_socket payload header s in
      let rest = send_to_clients payload header clients in
      (if r.0 == 0 then rest.0 else minus_one, r.1 ∷ rest.1)

  -- The end of ReceiveSocket: `Handle Acknowledgment`.
  unfoldable pub finish : Bytes → DmqHeader → Ends → S → Received S
  unfolding acknowledge put_header
  finish stream header ends s =
      if header.id == ack_remote_id
      then record {
        status = 0;
        stream = stream;
        header = header;
        ends = acknowledge header.seq_num ends;
        socket = s;
      }
      else record {
        status = 0;
        stream = stream;
        header = header;
        ends = ends;
        socket =
            (if is_null ends.send_transport
              then s
              else (port.write (put_header (ack_header header.seq_num) 0) s).1);
      }

  -- ReceiveSocket from the payload on, with a header whose marker is right.
  unfoldable pub receive_payload : Bytes → DmqHeader → Ends → S → Received S
  unfolding finish read_exact
  receive_payload stream header ends s =
      let stop : ℕ → S → Received S = λ status s. record {
        status = status;
        stream = stream;
        header = header;
        ends = ends;
        socket = s;
      } in
      let r = read_exact port header.length s in
      if header.length == 0
      then finish stream header ends s
      else if ltb buffer_size header.length
      then stop minus_one s
      else elim r.0 [
        | none ↦ stop minus_two r.1
        | some bytes ↦ finish (stream ++ bytes) header ends r.1
      ]

module _ {S : Type 0} (port : Port S) (select : S → Bool) where
  -- ReceiveSocket
  unfoldable pub receive_socket : Bytes → DmqHeader → Ends → S → Received S
  unfolding receive_payload read_exact parse_header
  receive_socket stream header ends s =
      let stop : ℕ → DmqHeader → S → Received S = λ status header s. record {
        status = status;
        stream = stream;
        header = header;
        ends = ends;
        socket = s;
      } in
      let r = read_exact port header_size s in
      if not (select s) then stop minus_one header s else elim r.0 [
        | none ↦ stop minus_two header r.1
        | some bytes ↦ elim (parse_header bytes) [
          | none ↦ stop minus_two header r.1
          | some h ↦
              if h.0.marker == marker
              then receive_payload port stream h.0 ends r.1
              else stop minus_one h.0 r.1
        ]
      ]

  -- The loop of ReceiveServer over the clients that its `select` has marked. A client that has left
  -- is closed and taken off the list, and what its Receive left in the header stays.
  unfoldable pub receive_from_clients : Bytes → DmqHeader → Ends → List S → Received (List S)
  unfolding receive_socket
  receive_from_clients stream header ends [] = record {
    status = minus_one;
    stream = stream;
    header = header;
    ends = ends;
    socket = [];
  }
  receive_from_clients stream header ends (s ∷ clients) =
      let r = receive_socket stream header ends s in
      let next = receive_from_clients r.stream r.header r.ends clients in
      let skip = receive_from_clients stream header ends clients in
      if not (select s)
      then record skip { socket = s ∷ skip.socket }
      else if r.status == minus_two
      then next
      else record {
        status = r.status;
        stream = r.stream;
        header = r.header;
        ends = r.ends;
        socket = r.socket ∷ clients;
      }

  -- ReceiveServer, with the client that has just been accepted, if one has.
  unfoldable pub receive_server : Option S → Bytes → DmqHeader → Ends → List S → Received (List S)
  unfolding receive_from_clients
  receive_server accepted stream header ends clients =
      receive_from_clients stream header ends
        (clients ++ elim accepted [ none ↦ [] | some s ↦ s ∷ [] ])

-- Send and Receive of a client: its socket is `m_connFd`, or -1.
module _ {S : Type 0} (port : Port S) (select : S → Bool) where
  unfoldable pub send : Bytes → DmqHeader → Option S → ℕ × Option S
  unfolding send_to_socket
  send payload header none = (minus_one, none)
  send payload header (some s) = let r = send_to_socket port payload header s in (r.0, some r.1)
