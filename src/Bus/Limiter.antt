-- ===== src/Bus/Limiter.antt =====
-- RateLimiter and Filter of DataBus.h, and the call of a slot.
use async_http.Prelude.{
  ℕ, ◌+◌, ◌-◌, ◌/◌, ◌%◌, ◌^◌, Bool, none, some, List, [], ◌∷◌, leb, ◌==◌, if◌then◌else◌,
}
use async_http.Bus.{Subscriber, delivered, posted, Bus, emit_effect}

-- The clock in milliseconds, as a uint32_t.
abbrev pub now_rep : ℕ → ℕ
now_rep now = now / 1000 % 2 ^ 32

-- The test of RateLimiter::Invoke: a difference of uint32_t.
unfoldable pub is_due : ℕ → ℕ → ℕ → Bool
is_due rep last min_sep = leb min_sep ((rep + 2 ^ 32 - last) % 2 ^ 32)

module _ {V W : Type 0} where
  -- Filter::Invoke, or the function itself.
  unfoldable pub filter_invoke : Subscriber V → V → Bus V W → Bus V W
  filter_invoke s v b = elim s.predicate [
    | none ↦ emit_effect (delivered s.callback v) b
    | some p ↦ if p v then emit_effect (delivered s.callback v) b else b
  ]

  -- RateLimiter::Invoke around it, if there is a limiter: the function that is called, on the thread
  -- of the subscriber or on the caller's.
  unfoldable pub limiter_invoke : ℕ → Subscriber V → V → Bus V W → Bus V W
  unfolding is_due filter_invoke
  limiter_invoke now s v b = elim s.limiter [
    | none ↦ filter_invoke s v b
    | some l ↦
        if is_due (now_rep now) (b.last_deliveries l.0) l.1
        then filter_invoke s v (record b {
          last_deliveries = λ i. if i == l.0 then now_rep now else b.last_deliveries i;
        })
        else b
  ]

  -- A call of the slot, which posts to the subscriber's thread if it has one.
  unfoldable pub call_slot : ℕ → V → Subscriber V → Bus V W → Bus V W
  unfolding limiter_invoke
  call_slot now v s b = elim s.thread [
    | none ↦ limiter_invoke now s v b
    | some t ↦ emit_effect (posted t s v) b
  ]

  -- The calls of an emission, in their order.
  unfoldable pub call_slots : ℕ → V → List (Subscriber V) → Bus V W → Bus V W
  unfolding call_slot
  call_slots now v [] b = b
  call_slots now v (s ∷ ss) b = call_slots now v ss (call_slot now v s b)
