-- ===== src/Signals/Disconnect.antt =====
-- Connection::Disconnect of Signal.h keeps what the signal promises.
use async_http.Prelude.{
  ℕ, ◌≤◌, ◌<◌, true, false, none, some, ◌≡◌, ◌⊎◌, inl, inr, sym, ap, ◌∙◌, subst, ◌==◌, Bool-cases,
  Option-cases, if◌then◌else◌, arith,
}
use async_http.Prelude.Maps.{lookup, insert, erase, has, lookup-insert, lookup-erase}
use async_http.Signals.{
  Signal, Connection, disconnected, current, disconnect_impl, disconnect, put_state,
}
use async_http.Signals.Promise.{Promised, promise, Keeps, attached, erase-absent}

module _ {D : Type 0} where
  -- Nothing to take off: the connection is not there, or not connected, or to a state that is dead.
  untouched-Keeps :
      (copy : ℕ) (w : Signal D) (p : Promised D)
      → attached copy w ≡ false
      → Keeps w p
      → Keeps w (promise (disconnected copy) p)
  unfolding promise
  untouched-Keeps copy w p out v =
      let same : erase copy p.slots ≡ p.slots = erase-absent copy p.slots (v.gone copy out) in
      record {
        listed = v.listed ∙ sym same;
        counted = v.counted;
        living = v.living;
        numbered = v.numbered;
        gone = λ k h. subst (λ m. has k m ≡ false) (sym same) (v.gone k h);
        stale = v.stale;
        unused = v.unused;
      }

  -- The flag of a connection goes down.
  dropped : ℕ → Connection → Signal D → Signal D
  dropped copy c w = record w {
    connections = insert copy (record c { connected = false }) w.connections;
  }

  attached-dropped :
      (copy k : ℕ) (c : Connection) (w : Signal D)
      → attached k (dropped copy c w) ≡ (if k == copy then false else attached k w)
  unfolding dropped
  attached-dropped copy k c w =
      ground (arith, lookup-insert copy k (record c { connected = false }) w.connections)

  -- The slot of a connection to the present state is taken off.
  erased : ℕ → Signal D → Signal D
  erased copy w =
      put_state w.state
        (record { alive = (current w).alive; delegates = erase copy (current w).delegates }) w

  module _ (copy : ℕ) (c : Connection) (w : Signal D) (p : Promised D)
      (found : lookup copy w.connections ≡ some c) (v : Keeps w p) where
    old : Connection
    old = record c { connected = false }

    dropped-stale :
        (k : ℕ) (x : Connection)
        → lookup k (insert copy old w.connections) ≡ some x
        → ((x.state ≡ w.state) ⊎ ((w.states x.state).alive ≡ false)) × (x.state < w.next_state)
    unfolding old
    dropped-stale k x h =
        ground (arith, lookup-insert copy k old w.connections, v.stale copy c found, v.stale k x)

    dropped-unused : (k : ℕ) → p.next ≤ k → lookup k (insert copy old w.connections) ≡ none
    unfolding old
    dropped-unused k h = ground (arith, lookup-insert copy k old w.connections, v.unused k h, found)

    dropped-Keeps :
        (c.state == w.state) ≡ false → Keeps (dropped copy c w) (promise (disconnected copy) p)
    unfolding dropped old promise
    dropped-Keeps there =
        let out : attached copy w ≡ false = ground (arith, found, there) in
        let u = untouched-Keeps copy w p out v in
        record {
          listed = u.listed;
          counted = u.counted;
          living = v.living;
          numbered = v.numbered;
          gone = λ k h. ground (arith, attached-dropped copy k c w, u.gone k, u.gone copy out, h);
          stale = dropped-stale;
          unused = dropped-unused;
        }

    erased-Keeps :
        (c.state == w.state) ≡ true
        → Keeps (dropped copy c (erased copy w)) (promise (disconnected copy) p)
    unfolding dropped erased promise old
    erased-Keeps here = record {
      listed = ground (arith, ap (erase copy) v.listed);
      counted = v.counted;
      living = ground (arith, v.living);
      numbered = v.numbered;
      gone = λ k h.
          ground (arith, attached-dropped copy k c w, lookup-erase copy k p.slots, v.gone k, h);
      stale = λ k x h. ground (arith, dropped-stale k x h);
      unused = dropped-unused;
    }

    disconnect_connected-Keeps :
        c.connected ≡ true → Keeps (disconnect copy w) (promise (disconnected copy) p)
    unfolding disconnect disconnect_impl dropped erased
    disconnect_connected-Keeps on = elim (Bool-cases (c.state == w.state)) [
      | inl here ↦
          let e : disconnect copy w ≡ dropped copy c (erased copy w) =
            ground (arith, found, on, here, v.living) in
          subst (λ x. Keeps x (promise (disconnected copy) p)) (sym e) (erased-Keeps here)
      | inr there ↦
          let e : disconnect copy w ≡ dropped copy c w =
            ground (arith, found, on, there, v.stale copy c found) in
          subst (λ x. Keeps x (promise (disconnected copy) p)) (sym e) (dropped-Keeps there)
    ]

  pub disconnect-Keeps :
      (copy : ℕ) (w : Signal D) (p : Promised D)
      → Keeps w p
      → Keeps (disconnect copy w) (promise (disconnected copy) p)
  unfolding disconnect
  disconnect-Keeps copy w p v = elim (Option-cases (lookup copy w.connections)) [
    | inl absent ↦ rw (disconnect, absent) (untouched-Keeps copy w p (ground (arith, absent)) v)
    | inr c ↦ elim (Bool-cases c.0.connected) [
      | inl on ↦ disconnect_connected-Keeps copy c.0 w p c.1 v on
      | inr off ↦
          let e : disconnect copy w ≡ w = ground (arith, c.1, off) in
          subst (λ x. Keeps x (promise (disconnected copy) p)) (sym e)
            (untouched-Keeps copy w p (ground (arith, c.1, off)) v)
    ]
  ]
