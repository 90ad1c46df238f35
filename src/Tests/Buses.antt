-- ===== src/Tests/Buses.antt =====
-- Runs of the data bus, with messages that are numbers.
use async_http.Prelude.{ℕ, true, none, some, List, [], ◌∷◌, ◌++◌, ◌≡◌, refl, ltb, map, arith}
use async_http.Prelude.Strings.{String, same_string, find}
use async_http.Prelude.Erased.{AreSafe}
use async_http.Signals.{emit, connect}
use async_http.Peer.{Participant}
use async_http.Peer.Requests.{new_participant}
use async_http.Bus.{Qos, Subscriber, delivered, unhandled, Bus, new_bus, new_roster}
use async_http.Bus.Slots.{Change, added, removed, change_all}
use async_http.Bus.Listed.{Holds, list_changes, change_all-list_changes}
use async_http.Bus.Publish.{publish}
use async_http.Bus.Subscribe.{subscribe}
use async_http.Bus.Calls.{Call, published, subscribed, cache_set, call_all}
use async_http.Bus.Sound.{call_all-AreSafe}
use async_http.Bus.Tables.{tables}
use async_http.Bus.Cached.{view}
use async_http.Bus.Last.{note_all, call_all-note_all}
use async_http.Bus.Late.{subscribe-late_delivery}
use async_http.Bus.Local.{publish-local_only}
use async_http.Bus.Rates.{Paced, invoke_each, invoke_each-Paced}
use async_http.Tests.Peers.{letters, wire}

abbrev topic : String
topic = 65 ∷ []

abbrev nodes : ℕ → Participant ℕ ℕ
nodes i = new_participant (record { has_transport = true; next_seq_num = 0; below = 0 })

-- Last values are asked for, and kept for an hour.
abbrev keeping : Qos
keeping = record { last_value_cache = true; lifespan = some 3600000000; min_separation = none }

-- Two publications, the second with a subscriber that lets small numbers pass.
abbrev calls : List (Call ℕ)
calls =
    cache_set topic true
    ∷ published topic 1 5 1000 true
    ∷ subscribed topic 1 20 (some (λ v. ltb v 10)) none keeping 2000
    ∷ published topic 1 12 3000 true
    ∷ []

call_all-AreSafe_example : AreSafe (call_all letters wire calls (new_bus nodes)).casts
call_all-AreSafe_example = call_all-AreSafe letters wire calls nodes

calls_effects :
    (call_all letters wire calls (new_bus nodes)).effects ≡ unhandled [] topic ∷ delivered 20 5 ∷ []
unfolding call_all same_string
calls_effects = refl

call_all-note_all_example :
    view topic (tables (call_all letters wire calls (new_bus nodes)))
    ≡ record { type = some 1; cached = true; last = some (12, 3000) }
unfolding call_all note_all
call_all-note_all_example = call_all-note_all topic letters wire calls nodes refl

subscribe-late_delivery_example :
    let b = call_all letters wire calls (new_bus nodes) in
    (subscribe topic 1 30 none none keeping 4000 b).1.effects ≡ b.effects ++ (delivered 30 12 ∷ [])
unfolding call_all note_all
subscribe-late_delivery_example =
    subscribe-late_delivery letters wire calls nodes topic 1 30 keeping 4000 refl refl refl refl

-- Nine participants, of which one has no room, and two removals.
abbrev changes : List Change
changes =
    added 1
    ∷ added 2
    ∷ added 3
    ∷ added 1
    ∷ added 5
    ∷ added 6
    ∷ added 7
    ∷ added 8
    ∷ added 9
    ∷ removed 1
    ∷ removed 6
    ∷ []

change_all-list_changes_example : Holds (change_all changes new_roster) (2 ∷ 3 ∷ 1 ∷ 5 ∷ 7 ∷ 8 ∷ [])
unfolding list_changes
change_all-list_changes_example = change_all-list_changes changes

-- A bus with one plain subscriber of the topic.
abbrev one_subscriber : Bus ℕ ℕ
one_subscriber = record (new_bus nodes) {
  type_indices = (topic, 1) ∷ [];
  signals = (topic, record { made_as = 1; object = 0 }) ∷ [];
  objects = λ i.
      connect (record { callback = 20; predicate = none; limiter = none; thread = none })
        ((new_bus nodes).objects i);
  next_object = 1;
}

publish-local_only_example :
    let c = publish letters wire topic 1 5 1000 true one_subscriber in
    (c.effects ≡ delivered 20 5 ∷ []) × (c.nodes ≡ nodes)
unfolding find emit connect
publish-local_only_example =
    publish-local_only letters wire topic 1 5 1000 one_subscriber refl
      (λ s found. ((refl, refl, refl), tt))

abbrev limited : Subscriber ℕ
limited = record { callback = 20; predicate = none; limiter = some (0, 100); thread = none }

-- At 150, 200 and 260 milliseconds: the second comes too soon.
abbrev messages : List (ℕ × ℕ)
messages = (150000, 1) ∷ (200000, 2) ∷ (260000, 3) ∷ []

invoke_each-Paced_example :
    (out : List ℕ) × Paced 100 0 messages out
    × ((invoke_each limited messages (new_bus nodes)).effects ≡ map (delivered 20) out)
invoke_each-Paced_example =
    invoke_each-Paced limited 0 100 messages (new_bus nodes) refl refl (omega arith)
      (omega arith, omega arith, (omega arith, omega arith, (omega arith, omega arith, tt)))
