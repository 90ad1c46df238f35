-- ===== src/Bus/Subscribe.antt =====
-- InternalSubscribe of DataBus.h, and what subscribers do afterwards.
use async_http.Prelude.{
  ℕ, ◌+◌, ◌/◌, ◌%◌, ◌^◌, Bool, true, false, Option, none, some, ltb, ◌==◌, if◌then◌else◌,
}
use async_http.Prelude.Strings.{String, find, assign}
use async_http.Signals.{connect, disconnect}
use async_http.Bus.{Qos, Subscriber, Bus, note_cast}
use async_http.Bus.Limiter.{limiter_invoke, call_slot}
use async_http.Bus.Registry.{report_mismatch, get_or_create_signal}

-- A connection to a topic's signal: the signal's number and the number of the slot.
pub record Subscription : Type 0 where
  pub object : ℕ
  pub copy : ℕ

-- Whether a last value is too old for the lifespan.
unfoldable pub is_expired : Qos → ℕ → ℕ → Bool
is_expired qos now timestamp = elim qos.lifespan [
  | none ↦ false
  | some lifespan ↦ ltb (timestamp + lifespan) now
]

module _ {V W : Type 0} where
  -- The rate limiter that the quality of service asks for, of its own last delivery.
  unfoldable pub add_limiter : Qos → Bus V W → Option (ℕ × ℕ) × Bus V W
  add_limiter qos b = elim qos.min_separation [
    | none ↦ (none, b)
    | some separation ↦ (
      some (b.next_limiter, separation / 1000 % 2 ^ 32),
      record b {
        last_deliveries = λ i. if i == b.next_limiter then 0 else b.last_deliveries i;
        next_limiter = b.next_limiter + 1;
      },
    )
  ]

  -- The flag of the topic, which stays.
  unfoldable pub enable_last_value : String → Qos → Bus V W → Bus V W
  unfolding assign
  enable_last_value topic qos b =
      if qos.last_value_cache then (record b { topic_qos = assign topic true b.topic_qos }) else b

  -- The delivery of the last value: AsyncInvoke, or a call of the function.
  unfoldable pub deliver_last_value : String → ℕ → Qos → Subscriber V → ℕ → Bus V W → Bus V W
  unfolding find is_expired call_slot
  deliver_last_value topic type qos s now b =
      if qos.last_value_cache
      then elim (find topic b.last_values) [
        | none ↦ b
        | some entry ↦
            if is_expired qos now entry.timestamp
            then b
            else call_slot now entry.value.object s (note_cast type entry.value.made_as b)
      ]
      else b

  -- Signal::Connect on the topic's signal.
  unfoldable pub connect_slot : ℕ → Subscriber V → Bus V W → Subscription × Bus V W
  unfolding connect
  connect_slot object s b = (
    record { object = object; copy = (b.objects object).next_copy },
    record b { objects = λ i. if i == object then connect s (b.objects i) else b.objects i },
  )

  -- The connection and the last value, if there is a signal, or the report that the types differ.
  unfoldable pub connect_and_deliver :
      String → ℕ → Qos → Subscriber V → ℕ → Option ℕ × Bus V W → Option Subscription × Bus V W
  unfolding report_mismatch connect_slot deliver_last_value
  connect_and_deliver topic type qos s now found = elim found.0 [
    | none ↦ (none, report_mismatch topic found.1)
    | some object ↦
        let connected = connect_slot object s found.1 in
        (some connected.0, deliver_last_value topic type qos s now connected.1)
  ]

  -- InternalSubscribe, with the filter of SubscribeFilter inside of the function.
  unfoldable pub subscribe :
      String
      → ℕ
      → ℕ
      → Option (V → Bool)
      → Option ℕ
      → Qos
      → ℕ
      → Bus V W
      → Option Subscription × Bus V W
  unfolding add_limiter enable_last_value get_or_create_signal connect_and_deliver
  subscribe topic type callback predicate thread qos now b =
      let limited = add_limiter qos b in
      connect_and_deliver topic type qos
        (record {
          callback = callback;
          predicate = predicate;
          limiter = limited.0;
          thread = thread;
        })
        now (get_or_create_signal topic type (enable_last_value topic qos limited.1))

  -- The destructor of the connection, or Disconnect.
  unfoldable pub unsubscribe : Subscription → Bus V W → Bus V W
  unfolding disconnect
  unsubscribe c b = record b {
    objects = λ i. if i == c.object then disconnect c.copy (b.objects i) else b.objects i;
  }

  -- A subscriber's thread takes up a message that was posted to it.
  abbrev pub run_posted : ℕ → Subscriber V → V → Bus V W → Bus V W
  run_posted now s v b = limiter_invoke now s v b
