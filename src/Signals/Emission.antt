-- ===== src/Signals/Emission.antt =====
-- Signal.h against what it promises: a list of the slots that are connected, in the order in which
-- they were, and an emission that calls them.
use async_http.Prelude.{
  ℕ, zero, suc, ◌≤◌, false, some, List, [], ◌∷◌, ◌≡◌, inl, inr, refl, ap, ◌∙◌, map, Option-cases,
  length, arith,
}
use async_http.Prelude.Maps.{lookup, lookup-insert}
use async_http.Signals.{
  Signal, Connection, Operation, connected_to, disconnected, cleared, current, disconnect_impl,
  disconnect, mark_dead, clear, fill, get_snapshot, small_calls, invoke_snapshot, emit, operate,
  operate_all, new_signal,
}
use async_http.Signals.Promise.{
  Promised, promise, promise_all, Keeps, new_signal-Keeps, connect-Keeps,
}
use async_http.Signals.Disconnect.{disconnect-Keeps}

module _ {D : Type 0} where
  -- The small buffer gives back what was put in.
  small_calls-fill :
      (n : ℕ) (ds : List D) → length ds ≤ n → small_calls (length ds) (fill n ds) ≡ ds
  unfolding small_calls fill
  small_calls-fill n [] l = refl
  small_calls-fill zero (d ∷ ds) l = absurd (omega arith)
  small_calls-fill (suc n) (d ∷ ds) l = ap (λ r. d ∷ r) (small_calls-fill n ds (omega arith))

  -- An emission calls what the present state lists.
  pub emit-delegates : (w : Signal D) → emit w ≡ map (λ e. e.1) (current w).delegates
  unfolding emit get_snapshot invoke_snapshot
  emit-delegates w = ground (arith, small_calls-fill 8 (map (λ e. e.1) (current w).delegates))

  clear-Keeps : (w : Signal D) (p : Promised D) → Keeps w p → Keeps (clear w) (promise cleared p)
  unfolding clear mark_dead promise lookup
  clear-Keeps w p v = record {
    listed = ground arith;
    counted = v.counted;
    living = ground arith;
    numbered = omega arith;
    gone = λ k h. refl;
    stale = λ k c h. ground (arith, v.stale k c h, v.numbered);
    unused = v.unused;
  }

  operate-Keeps :
      (o : Operation D) (w : Signal D) (p : Promised D)
      → Keeps w p
      → Keeps (operate o w) (promise o p)
  unfolding operate
  operate-Keeps (connected_to d) w p v = connect-Keeps d w p v
  operate-Keeps (disconnected copy) w p v = disconnect-Keeps copy w p v
  operate-Keeps cleared w p v = clear-Keeps w p v

  operate_all-Keeps :
      (os : List (Operation D)) (w : Signal D) (p : Promised D)
      → Keeps w p
      → Keeps (operate_all os w) (promise_all os p)
  unfolding operate_all promise_all
  operate_all-Keeps [] w p v = v
  operate_all-Keeps (o ∷ os) w p v =
      operate_all-Keeps os (operate o w) (promise o p) (operate-Keeps o w p v)

  -- After any connections, disconnections and clears, an emission calls the slots that have been
  -- connected since the last clear and not disconnected, each once, in the order in which they were
  -- connected, whether the snapshot is a small or a large one.
  pub emit-operate_all :
      (os : List (Operation D))
      → emit (operate_all os new_signal)
        ≡ map (λ e. e.1) (promise_all os (record { slots = []; next = 0 })).slots
  emit-operate_all os =
      emit-delegates (operate_all os new_signal)
      ∙ ap (map (λ e. e.1)) (operate_all-Keeps os new_signal _ new_signal-Keeps).listed

  disconnect_off :
      (copy : ℕ) (w : Signal D)
      → ((c : Connection) → lookup copy w.connections ≡ some c → c.connected ≡ false)
      → disconnect copy w ≡ w
  unfolding disconnect
  disconnect_off copy w off = elim (Option-cases (lookup copy w.connections)) [
    | inl absent ↦ ground (arith, absent)
    | inr c ↦ ground (arith, c.1, off c.0 c.1)
  ]

  disconnect-flag :
      (copy : ℕ) (w : Signal D) (c : Connection)
      → lookup copy (disconnect copy w).connections ≡ some c
      → c.connected ≡ false
  unfolding disconnect disconnect_impl
  disconnect-flag copy w c h = elim (Option-cases (lookup copy w.connections)) [
    | inl absent ↦ ground (arith, absent, h)
    | inr x ↦
        ground
          (arith, x.1, h, lookup-insert copy copy (record x.0 { connected = false }) w.connections)
  ]

  -- A second Disconnect does nothing.
  pub disconnect_twice :
      (copy : ℕ) (w : Signal D) → disconnect copy (disconnect copy w) ≡ disconnect copy w
  disconnect_twice copy w = disconnect_off copy (disconnect copy w) (disconnect-flag copy w)

  disconnect-dead :
      (copy : ℕ) (w : Signal D)
      → ((c : Connection) → lookup copy w.connections ≡ some c → (w.states c.state).alive ≡ false)
      → (disconnect copy w).states ≡ w.states
  unfolding disconnect disconnect_impl
  disconnect-dead copy w dead = elim (Option-cases (lookup copy w.connections)) [
    | inl absent ↦ ground (arith, absent)
    | inr c ↦ ground (arith, c.1, dead c.0 c.1)
  ]

  mark_dead-dead :
      (copy : ℕ) (w : Signal D) (p : Promised D)
      → Keeps w p
      → (c : Connection) → lookup copy w.connections ≡ some c
      → ((mark_dead w).states c.state).alive ≡ false
  unfolding mark_dead
  mark_dead-dead copy w p v c h = ground (arith, v.stale copy c h)

  -- After any operations and then the end of the signal, disconnecting any of its connections
  -- changes no state that they share.
  disconnect-mark_dead :
      (os : List (Operation D)) (copy : ℕ)
      → let gone = mark_dead (operate_all os new_signal) in
        (disconnect copy gone).states ≡ gone.states
  unfolding mark_dead
  disconnect-mark_dead os copy =
      let w = operate_all os new_signal in
      disconnect-dead copy (mark_dead w)
        (mark_dead-dead copy w _ (operate_all-Keeps os new_signal _ new_signal-Keeps))
