-- ===== src/Tests/Wires.antt =====
-- Runs of the transports over a byte stream that gives at most three bytes to a read, and over a
-- network that is a queue of datagrams.
use async_http.Prelude.{
  ℕ, zero, suc, min, Bool, true, false, Option, none, some, List, [], ◌∷◌, ◌++◌, ◌≡◌, refl, ap, map,
  length, take, arith, ltb,
}
use async_http.Http.{Bytes}
use async_http.Thread.Work.{drop_first}
use async_http.Reliable.Monitor.{TimeoutData, key}
use async_http.Reliable.Retry.{DmqHeader}
use async_http.Wire.Crc.{crc16_calc_block, crc16_calc_block_by_bits}
use async_http.Wire.Crc.Rounds.{crc16_calc_block-by_bits}
use async_http.Wire.Frame.{Ends, self, new_header, frame, put_header}
use async_http.Wire.Port.{Port, IsQuiet}
use async_http.Wire.Tcp.Delivery.{send_each, receive_each, receive_each-send_each, delivered}
use async_http.Wire.Udp.{Udp, send, receive}
use async_http.Wire.Udp.Exchange.{send-receive-acknowledge}
use async_http.Wire.Serial
use async_http.Wire.Serial.{Serial, packet, put16_host, crc_start}
use async_http.Wire.Serial.Delivery.{receive-send, receive-checked, IsJudged}

record Line : Type 0 where
  incoming : Bytes
  outgoing : Bytes

abbrev read : ℕ → Line → Bytes × Line
read n l = (take (min n 3) l.incoming, record l { incoming = drop_first (min n 3) l.incoming })

abbrev write : Bytes → Line → Bool × Line
write b l = (true, record l { outgoing = l.outgoing ++ b })

length-take : (n : ℕ) (xs : Bytes) → length (take n xs) ≡ min n (length xs)
length-take zero xs = omega arith
length-take (suc n) [] = omega arith
length-take (suc n) (x ∷ xs) = omega (arith, length-take n xs)

take-drop_first : (n : ℕ) (xs : Bytes) → take n xs ++ drop_first n xs ≡ xs
take-drop_first zero xs = refl
take-drop_first (suc n) [] = refl
take-drop_first (suc n) (x ∷ xs) = ap (λ r. x ∷ r) (take-drop_first n xs)

take_none : (n : ℕ) (xs : Bytes) → length xs ≡ 0 → take n xs ≡ []
take_none zero xs e = refl
take_none (suc n) [] e = refl
take_none (suc n) (x ∷ xs) e = absurd (omega arith)

abbrev line_port : Port Line
line_port = record {
  read = read;
  write = write;
  coming = λ l. l.incoming;
  sent = λ l. l.outgoing;
  reads_some = λ n l p q. omega (arith, length-take (min n 3) l.incoming);
  reads_most = λ n l. omega (arith, length-take (min n 3) l.incoming);
  reads_next = λ n l p q. take-drop_first (min n 3) l.incoming;
  reads_none = λ n l e. take_none (min n 3) l.incoming e;
  writes_coming = λ b l. refl;
  writes_sent = λ b l e. refl;
}

crc16_calc_block-by_bits_example :
    crc16_calc_block (0x31 ∷ 0x32 ∷ 0x33 ∷ []) 0xFFFF
    ≡ crc16_calc_block_by_bits (0x31 ∷ 0x32 ∷ 0x33 ∷ []) 0xFFFF
crc16_calc_block-by_bits_example =
    crc16_calc_block-by_bits (0x31 ∷ 0x32 ∷ 0x33 ∷ []) 0xFFFF (omega arith)
      (omega arith, (omega arith, (omega arith, tt)))

-- The check value of CRC-16/CCITT-FALSE.
crc_check :
    crc16_calc_block (0x31 ∷ 0x32 ∷ 0x33 ∷ 0x34 ∷ 0x35 ∷ 0x36 ∷ 0x37 ∷ 0x38 ∷ 0x39 ∷ []) 0xFFFF
    ≡ 0x29B1
unfolding crc16_calc_block
crc_check = refl

abbrev hello : Bytes
hello = 104 ∷ 101 ∷ 108 ∷ 108 ∷ 111 ∷ []

abbrev two_messages : List (DmqHeader × Bytes)
two_messages = (new_header 7 300, hello) ∷ (new_header 8 301, []) ∷ []

abbrev both_ends : Ends
both_ends = record {
  send_transport = self;
  recv_transport = self;
  transport_monitor = none;
  acknowledged = [];
}

abbrev idle_line : Line
idle_line = record { incoming = []; outgoing = [] }

abbrev tcp_line : Line
tcp_line = record {
  incoming = frame (new_header 7 300) hello ++ (frame (new_header 8 301) [] ++ []);
  outgoing = [];
}

abbrev has_bytes : Line → Bool
has_bytes l = ltb 0 (length l.incoming)

receive_each-send_each_example :
    receive_each line_port has_bytes 2 both_ends tcp_line ≡ map delivered two_messages
unfolding send_each frame put_header
receive_each-send_each_example =
    receive_each-send_each line_port has_bytes (λ l h. ground arith) two_messages both_ends
      idle_line tcp_line
      (
        ((omega arith, omega arith, omega arith), refl, omega arith),
        (((omega arith, omega arith, omega arith), refl, omega arith), tt),
      )
      refl (refl, (refl, tt)) refl

-- Datagrams with the address of the other side.
abbrev Network : Type 0
Network = List (Bytes × ℕ)

abbrev sendto : Bytes → ℕ → Network → Bool × Network
sendto b a w = (true, w ++ ((b, a) ∷ []))

abbrev recvfrom : Network → Option (Bytes × ℕ) × Network
recvfrom [] = (none, [])
recvfrom (d ∷ w) = (some d, w)

abbrev publisher : Udp ℕ
publisher = record { is_sub = false; address = 1; ends = both_ends }

-- It watches an older message, the one that is sent, and another remote's with the same number.
abbrev watch : ℕ → ℕ → TimeoutData
watch id seq_num = record { remote_id = id; seq_num = seq_num; time_stamp = 5 }

abbrev watching : Udp ℕ
watching = record publisher {
  ends = record both_ends {
    transport_monitor = some (record {
      pending = (key 7 299, watch 7 299) ∷ (key 7 300, watch 7 300) ∷ (key 8 300, watch 8 300) ∷ [];
      transport_timeout = 100;
      max_pending = 4;
    });
  };
}

abbrev subscriber : Udp ℕ
subscriber = record { is_sub = true; address = 1; ends = both_ends }

send-receive-acknowledge_example :
    let got =
      receive sendto recvfrom []
        (new_header 7 300)
        subscriber
        (send sendto recvfrom hello (new_header 7 300) watching []).1 in
    let ack = receive sendto recvfrom [] (new_header 7 300) watching got.network in
    (got.status ≡ 0)
    × (got.stream ≡ hello)
    × (got.header ≡ record (new_header 7 300) { length = 5 })
    × (got.udp ≡ subscriber)
    × (ack.status ≡ 0)
    × (ack.stream ≡ [])
    × (ack.udp ≡ record watching {
      ends = record both_ends {
        transport_monitor = some (record {
          pending = (key 7 299, watch 7 299) ∷ (key 8 300, watch 8 300) ∷ [];
          transport_timeout = 100;
          max_pending = 4;
        });
        acknowledged = watch 7 300 ∷ [];
      };
    })
unfolding send frame put_header
send-receive-acknowledge_example =
    send-receive-acknowledge sendto recvfrom hello (new_header 7 300) watching subscriber [] [] [] 1
      1
      (record {
        pending =
            (key 7 299, watch 7 299) ∷ (key 7 300, watch 7 300) ∷ (key 8 300, watch 8 300) ∷ [];
        transport_timeout = 100;
        max_pending = 4;
      })
      ((key 7 299, watch 7 299) ∷ []) ((key 8 300, watch 8 300) ∷ []) (key 7 300) (watch 7 300)
      (omega arith, omega arith, omega arith) refl (omega arith) refl refl refl refl refl
      (λ e. refl) refl refl refl (omega arith, tt) refl

abbrev serial : Line → Serial Line
serial l = record { is_open = true; ends = both_ends; forwarded = []; line = l }

-- The line with a byte of noise before the message.
abbrev noisy_line : Line
noisy_line = record {
  incoming =
      0xFF ∷ (Serial.send line_port hello (new_header 7 300) (serial idle_line)).1.line.outgoing;
  outgoing = [];
}

receive-send_example :
    (r : Serial.Received Line) × (Serial.receive line_port 2 [] (new_header 0 0) (serial noisy_line)
      ≡ some r)
    × (r.status ≡ 0)
    × (r.stream ≡ hello)
    × (r.header ≡ record (new_header 7 300) { length = 5 })
unfolding Serial.send
receive-send_example =
    receive-send line_port 2 (0xFF ∷ []) hello (new_header 7 300) (new_header 0 0)
      (serial idle_line) (serial noisy_line) refl refl (omega arith, tt) (omega arith)
      (omega arith, omega arith, omega arith) refl (omega arith)
      (omega arith, (omega arith, (omega arith, (omega arith, (omega arith, tt))))) refl refl refl

-- A checksum of 0, which is not that of the message.
abbrev spoilt_line : Line
spoilt_line = record {
  incoming = [] ++ (frame (new_header 7 300) hello ++ (put16_host 0 ++ []));
  outgoing = [];
}

line_port-IsQuiet : IsQuiet line_port
line_port-IsQuiet n l = refl

receive-checked_example :
    (t : Line) × (r : Serial.Received Line) × (Serial.receive line_port 1 []
        (new_header 0 0)
        (serial spoilt_line)
      ≡ some r)
    × (t.incoming ≡ [])
    × (t.outgoing ≡ [])
    × (r.stream ≡ hello)
    × (r.header ≡ record (new_header 7 300) { length = 5 })
    × IsJudged line_port 0
        (crc16_calc_block (frame (new_header 7 300) hello) crc_start)
        (serial spoilt_line)
        t
        r
receive-checked_example =
    receive-checked line_port 1 [] hello [] [] (new_header 0 0) (new_header 7 300)
      (serial spoilt_line) 0 line_port-IsQuiet refl refl tt (omega arith)
      (omega arith, omega arith, omega arith) refl (omega arith) (omega arith) refl

abbrev zeros : ℕ → Bytes
zeros zero = []
zeros (suc n) = 0 ∷ zeros n

abbrev long_line : Line
long_line = record { incoming = packet (new_header 7 300) (zeros 4097); outgoing = [] }
