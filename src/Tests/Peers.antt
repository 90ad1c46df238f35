-- ===== src/Tests/Peers.antt =====
-- A channel and a participant of the data bus, with messages that are numbers.
use async_http.Prelude.{ℕ, ◌+◌, ◌≤◌, true, false, some, List, [], ◌∷◌, ◌++◌, ◌≡◌, refl}
use async_http.Prelude.Maps.{lookup}
use async_http.Prelude.Strings.{String, find}
use async_http.Prelude.Erased.{Erased}
use async_http.Http.{Bytes}
use async_http.Reliable.Retry.{DmqHeader}
use async_http.Wire.Frame.{new_header}
use async_http.Wire.Dispatch.{Dispatcher}
use async_http.Remote.{Read, got, failed, Serializer, send}
use async_http.Remote.Reports.{written, IsAnswered, send-IsAnswered}
use async_http.Peer.{Channel, Participant, called, is_known, new_history}
use async_http.Peer.History.{duplicates, repeats, duplicates-repeats}
use async_http.Peer.Channels.{
  new_channel, bind, dispatch_if_interested, process_incoming, history_of,
}
use async_http.Peer.Errors.{told, reported}
use async_http.Peer.Requests.{
  Request, topic_added, handler_registered, dispatched, serve_all, new_participant,
}
use async_http.Peer.Once.{serve_all-tells_once}
use async_http.Peer.Transfer.{dispatch-process_incoming}

abbrev read_one : Bytes → Read ℕ
read_one (v ∷ []) = got v
read_one _ = failed

-- One byte for a message.
abbrev plain : Serializer ℕ
plain = record {
  write = λ v s. record {
    stream = record { content = s.content ++ (v ∷ []); good = s.good };
    threw = false;
  };
  read = read_one;
}

-- It counts the messages that it accepts.
abbrev pub wire : Bytes → DmqHeader → ℕ → ℕ × ℕ
wire content header w = (0, w + 1)

abbrev pub letters : ℕ → String
letters n = n ∷ []

abbrev dispatcher : Dispatcher ℕ
dispatcher = record { has_transport = true; next_seq_num = 41; below = 0 }

abbrev channel : Channel ℕ
channel = new_channel 7 plain

send-IsAnswered_example :
    IsAnswered wire
      (written 5 channel.remote)
      channel.remote.has_dispatcher
      7
      dispatcher
      (send wire 5 channel.remote dispatcher)
send-IsAnswered_example = send-IsAnswered wire 5 channel.remote dispatcher refl

-- Eleven messages, of which the first comes again too late, and the fourth in time.
duplicates-repeats_example :
    duplicates (1 ∷ 2 ∷ 3 ∷ 4 ∷ 5 ∷ 6 ∷ 7 ∷ 8 ∷ 9 ∷ 1 ∷ 4 ∷ []) new_history
    ≡ false ∷ false ∷ false ∷ false ∷ false ∷ false ∷ false ∷ false ∷ false ∷ false ∷ true ∷ []
unfolding repeats
duplicates-repeats_example = duplicates-repeats (1 ∷ 2 ∷ 3 ∷ 4 ∷ 5 ∷ 6 ∷ 7 ∷ 8 ∷ 9 ∷ 1 ∷ 4 ∷ [])

abbrev topic : String
topic = 65 ∷ []

-- A message of another type, twice.
abbrev requests : List (Request ℕ)
requests =
    topic_added topic 7
    ∷ handler_registered 1 7 plain 3
    ∷ dispatched topic 2 5 (some plain)
    ∷ dispatched topic 2 6 (some plain)
    ∷ []

serve_all-tells_once_example :
    told topic 8 (serve_all letters wire requests (new_participant dispatcher)).0
      + reported topic 8 []
    ≤ 1
serve_all-tells_once_example =
    serve_all-tells_once letters wire topic 8 requests (new_participant dispatcher)
      (refl, (refl, (refl, (refl, tt)))) refl

abbrev sending : Erased (Channel ℕ)
sending = record { made_as = 1; object = channel }

abbrev receiving : Erased (Channel ℕ)
receiving = record { made_as = 1; object = bind 3 7 channel }

abbrev sender : Participant ℕ ℕ
sender = record (new_participant dispatcher) {
  topic_to_remote_id = (topic, 7) ∷ [];
  channels = (7, sending) ∷ [];
  channel_types = (7, 1) ∷ [];
}

abbrev receiver : Participant ℕ ℕ
receiver = record (new_participant dispatcher) {
  channels = (7, receiving) ∷ [];
  channel_types = (7, 1) ∷ [];
}

dispatch-process_incoming_example :
    let sent = dispatch_if_interested letters wire topic 1 5 (some plain) sender in
    let arrived =
      process_incoming letters 0
        (record { content = 5 ∷ []; good = true })
        (new_header 7 41)
        receiver in
    (sent.result ≡ true)
    × (sent.acts ≡ [])
    × (sent.peer.dispatcher.below ≡ 1)
    × (arrived.acts ≡ called 3 5 ∷ [])
unfolding find lookup is_known history_of
dispatch-process_incoming_example =
    dispatch-process_incoming letters wire topic 1 7 3 plain 5 sending receiving sender receiver
      refl refl refl
      (record {
        here = refl;
        typed = refl;
        serializer = refl;
        stream = refl;
        handled = refl;
        dispatching = refl;
        remote_id = refl;
      })
      (record { here = refl; serializer = refl; target = refl; is_new = refl })
      (record { unthrown = refl; good = refl; back = refl }) refl refl
