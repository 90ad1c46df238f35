-- ===== src/Signals/Promise.antt =====
-- What Signal.h promises of a signal, and how a state keeps it: the invariant of the connections.
use async_http.Prelude.{
  ℕ, ◌+◌, ◌≤◌, ◌<◌, Bool, true, false, ◌&&◌, ◌||◌, none, some, List, [], ◌∷◌, ◌++◌, ◌≡◌, ◌⊎◌, refl,
  ◌==◌, arith,
}
use async_http.Prelude.Maps.{Map, lookup, erase, has, lookup-insert}
use async_http.Signals.{
  Signal, Connection, Operation, connected_to, disconnected, cleared, current, connect, new_signal,
}

-- What a signal promises: the slots by the numbers of their connections, and the next number.
pub record Promised (D : Type 0) : Type 0 where
  pub slots : Map D
  pub next : ℕ

module _ {D : Type 0} where
  unfoldable pub promise : Operation D → Promised D → Promised D
  unfolding erase
  promise (connected_to d) p = record { slots = p.slots ++ ((p.next, d) ∷ []); next = p.next + 1 }
  promise (disconnected copy) p = record p { slots = erase copy p.slots }
  promise cleared p = record p { slots = [] }

  unfoldable pub promise_all : List (Operation D) → Promised D → Promised D
  unfolding promise
  promise_all [] p = p
  promise_all (o ∷ os) p = promise_all os (promise o p)

  -- Whether a connection is to the state that the signal has now.
  abbrev pub attached : ℕ → Signal D → Bool
  attached copy w = elim (lookup copy w.connections) [
    | none ↦ false
    | some c ↦ c.connected && (c.state == w.state)
  ]

  pub record Keeps (w : Signal D) (p : Promised D) : Type 0 where
    pub listed : (current w).delegates ≡ p.slots
    pub counted : w.next_copy ≡ p.next
    pub living : (current w).alive ≡ true
    pub numbered : w.state < w.next_state
    pub gone : (copy : ℕ) → attached copy w ≡ false → has copy p.slots ≡ false
    pub stale :
        (copy : ℕ) (c : Connection)
        → lookup copy w.connections ≡ some c
        → ((c.state ≡ w.state) ⊎ ((w.states c.state).alive ≡ false)) × (c.state < w.next_state)
    pub unused : (copy : ℕ) → p.next ≤ copy → lookup copy w.connections ≡ none

  pub new_signal-Keeps : Keeps new_signal (record { slots = []; next = 0 })
  unfolding lookup
  new_signal-Keeps = record {
    listed = refl;
    counted = refl;
    living = refl;
    numbered = omega arith;
    gone = λ copy h. refl;
    stale = λ copy c h. absurd (let e : none ≡ some c = h in let f : ⊥ = cc in f);
    unused = λ copy h. refl;
  }

  pub erase-absent : (k : ℕ) (m : Map D) → has k m ≡ false → erase k m ≡ m
  unfolding erase lookup
  erase-absent k [] h = refl
  erase-absent k ((j, v) ∷ m) h = ground (arith, erase-absent k m)

  has-append : (k j : ℕ) (d : D) (m : Map D) → has k (m ++ ((j, d) ∷ [])) ≡ (has k m || (k == j))
  unfolding lookup
  has-append k j d [] = ground arith
  has-append k j d ((i, v) ∷ m) = ground (arith, has-append k j d m)

  pub connect-Keeps :
      (d : D) (w : Signal D) (p : Promised D)
      → Keeps w p
      → Keeps (connect d w) (promise (connected_to d) p)
  unfolding connect promise
  connect-Keeps d w p v = record {
    listed = ground (arith, v.listed, v.counted);
    counted = omega (arith, v.counted);
    living = ground (arith, v.living);
    numbered = v.numbered;
    gone = λ copy h. ground (
      arith,
      has-append copy p.next d p.slots,
      lookup-insert w.next_copy copy (record { state = w.state; connected = true }) w.connections,
      v.gone copy,
      v.counted,
    );
    stale = λ copy c h. ground (
      arith,
      lookup-insert w.next_copy copy (record { state = w.state; connected = true }) w.connections,
      v.stale copy c,
      v.numbered,
    );
    unused = λ copy h. ground (
      arith,
      lookup-insert w.next_copy copy (record { state = w.state; connected = true }) w.connections,
      v.unused copy,
      v.counted,
    );
  }
