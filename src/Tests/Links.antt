-- ===== src/Tests/Links.antt =====
-- Runs of the acknowledged transport of TransportMonitor.h and RetryMonitor.h.
use async_http.Prelude.{
  ℕ, ◌+◌, ◌*◌, ◌≤◌, ◌<◌, ◌≡◌, refl, true, false, some, none, List, [], ◌∷◌, arith,
}
use async_http.Prelude.Maps.{lookup, has}
use async_http.Reliable.Monitor.{key}
use async_http.Reliable.Retry.{
  DmqHeader, RetryEntry, Link, header_key, minus_one, send_with_retry, monitor_add, process,
}
use async_http.Reliable.Tracked.{IsWatched}
use async_http.Reliable.Budget.{transmissions}
use async_http.Reliable.Calls.{
  Call, sends, acknowledges, rounds, run, run-IsWatched, send_with_retry-transmissions-le,
  send_with_retry_forgets,
}
use async_http.Reliable.Failure.{failures}
use async_http.Reliable.Failure.Stamps.{Stamped}
use async_http.Reliable.Failure.Process.{process_each, IsSpaced, process_each_gives_up}
use async_http.Reliable.Drain.{late, process_drains}

-- A transport that accepts everything and counts.
abbrev send : List ℕ → DmqHeader → ℕ → ℕ × ℕ
send payload h w = (0, w + 1)

abbrev header : DmqHeader
header = record { marker = 1; id = 3; seq_num = 9; length = 2 }

abbrev quiet : Link ℕ
quiet = record {
  monitor = record { pending = []; transport_timeout = 100; max_pending = 4 };
  retry_store = [];
  max_retries = 2;
  wire = 0;
  log = [];
}

quiet-IsWatched : IsWatched [] quiet
unfolding lookup
quiet-IsWatched = record {
  valid = record { keyed = tt; bounded = omega arith };
  room = omega arith;
  keyed = λ k e h. ground (arith, h);
  sent = λ k e h. ground (arith, h);
  watched = λ k h. ground (arith, h);
}

abbrev calls : List Call
calls = sends 5 (7 ∷ 8 ∷ []) header ∷ rounds 200 ∷ acknowledges 201 9 3 ∷ []

abbrev later_calls : List Call
later_calls = rounds 200 ∷ acknowledges 201 9 3 ∷ []

run-IsWatched_example : IsWatched [] (run send calls quiet)
run-IsWatched_example =
    run-IsWatched send calls quiet
      ((omega arith, omega arith), (tt, ((omega arith, omega arith), tt))) quiet-IsWatched

send_with_retry-transmissions-le_example :
    transmissions
      (header_key header)
      (run send later_calls (send_with_retry send 5 (7 ∷ 8 ∷ []) header quiet).1).log
    ≤ 0 + 1 + 2
send_with_retry-transmissions-le_example =
    send_with_retry-transmissions-le send 5 (7 ∷ 8 ∷ []) header quiet later_calls (omega arith)
      (omega arith) (tt, ((omega arith, omega arith), tt)) (tt, (tt, tt)) quiet-IsWatched

-- The message is in flight, with its packet stored.
abbrev in_flight : Link ℕ
in_flight = (send_with_retry send 5 (7 ∷ 8 ∷ []) header quiet).1

in_flight-IsWatched : IsWatched [] in_flight
in_flight-IsWatched =
    run-IsWatched send (sends 5 (7 ∷ 8 ∷ []) header ∷ []) quiet ((omega arith, omega arith), tt)
      quiet-IsWatched

is_pending : has (header_key header) in_flight.monitor.pending ≡ true
unfolding send_with_retry monitor_add
is_pending = refl

send_with_retry_forgets_example :
    let (result, l') = send_with_retry send 6 (5 ∷ []) header in_flight in
    (result ≡ minus_one)
    × (has (header_key header) l'.retry_store ≡ false)
    × (has (header_key header) l'.monitor.pending ≡ true)
send_with_retry_forgets_example =
    send_with_retry_forgets send 6 (5 ∷ []) header in_flight in_flight-IsWatched is_pending

abbrev stored : RetryEntry
stored = record {
  packet_data = 7 ∷ 8 ∷ [];
  header = header;
  attempts_remaining = 2;
  is_sent = true;
}

is_stored : lookup (key 3 9) in_flight.retry_store ≡ some stored
unfolding send_with_retry monitor_add
is_stored = refl

in_flight-Stamped : Stamped 5 in_flight.monitor.pending
unfolding send_with_retry monitor_add
in_flight-Stamped = (omega arith, tt)

limits : (in_flight.monitor.max_pending ≡ 4) × (in_flight.monitor.transport_timeout ≡ 100)
unfolding send_with_retry monitor_add
limits = (refl, refl)

in_flight-IsSpaced : IsSpaced in_flight.monitor.transport_timeout 5 (200 ∷ 400 ∷ 600 ∷ [])
unfolding send_with_retry monitor_add
in_flight-IsSpaced = (omega arith, (omega arith, (omega arith, tt)))

-- The transport accepts both retransmissions, and the third timeout ends it.
process_each_gives_up_example :
    (l' : Link ℕ) × (process_each send 1 (200 ∷ 400 ∷ 600 ∷ []) in_flight ≡ some l')
    × (lookup (key 3 9) l'.retry_store ≡ none)
    × (failures (key 3 9) l'.log ≡ failures (key 3 9) in_flight.log + 1)
process_each_gives_up_example =
    process_each_gives_up send (key 3 9) 1 5 (200 ∷ 400 ∷ 600 ∷ []) stored in_flight
      in_flight-IsWatched in_flight-Stamped is_stored refl (omega (arith, limits.0))
      in_flight-IsSpaced (omega arith)

all_late : late 200 in_flight < 16 * 1
unfolding send_with_retry monitor_add
all_late = omega arith

process_drains_example :
    (l' : Link ℕ) × (process send 1 (λ _. 200) in_flight ≡ some l') × (late 200 l' ≡ 0)
process_drains_example = process_drains send 200 1 in_flight all_late
