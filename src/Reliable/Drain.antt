-- ===== src/Reliable/Drain.antt =====
-- The loop of TransportMonitor::Process, with the RetryMonitor's callbacks: it ends, and nothing that
-- has timed out is left. Stated for a clock that stands still during the call.
use async_http.Prelude.{
  ℕ, zero, suc, ◌+◌, ◌-◌, ◌*◌, ◌≤◌, ◌<◌, ◌≡◌, refl, Option, some, none, List, [], ◌∷◌, ◌++◌, arith,
  length, if◌then◌else◌, ◌==◌, Bool-cases, inl, inr, Option-cases,
}
use async_http.Prelude.Maps.{Map, lookup, insert, erase}
use async_http.Reliable.Monitor.{
  Monitor, TimeoutData, timed_out, is_expired, scan, cancel, key, pass, max_timer_expired,
}
use async_http.Reliable.Retry.{
  DmqHeader, RetryEntry, Link, send_status, monitor_add, retransmit, on_timeout, on_status_changed,
  notify, notify_all, emit_exceeded, process_round, process,
}

-- How many messages have timed out and are still on the map.
abbrev pub overdue : ℕ → ℕ → Map TimeoutData → ℕ
overdue timeout now [] = 0
overdue timeout now ((k, d) ∷ m) =
    (if is_expired timeout now d then 1 else 0) + overdue timeout now m

pub overdue-le : (timeout now : ℕ) (m : Map TimeoutData) → overdue timeout now m ≤ length m
overdue-le timeout now [] = omega arith
overdue-le timeout now ((k, d) ∷ m) = ground (arith, overdue-le timeout now m)

overdue-insert :
    (timeout now k : ℕ) (d : TimeoutData) (m : Map TimeoutData)
    → d.time_stamp ≡ now
    → overdue timeout now (insert k d m) ≤ overdue timeout now m
unfolding insert
overdue-insert timeout now k d [] h = ground arith
overdue-insert timeout now k d ((j, e) ∷ m) h = ground (arith, overdue-insert timeout now k d m h)

overdue-erase :
    (timeout now k : ℕ) (m : Map TimeoutData)
    → overdue timeout now (erase k m) ≤ overdue timeout now m
unfolding erase
overdue-erase timeout now k [] = omega arith
overdue-erase timeout now k ((j, e) ∷ m) = ground (arith, overdue-erase timeout now k m)

-- What a walk does: each message that it reports is one that had timed out, and a walk that does
-- not fill its batch leaves none behind.
scan-overdue :
    (room timeout now : ℕ) (m : Map TimeoutData)
    → let (expired, kept) = scan room timeout now m in
      (overdue timeout now kept + length expired ≡ overdue timeout now m)
      × (length expired ≤ room)
      × (length expired < room → overdue timeout now kept ≡ 0)
unfolding scan
scan-overdue room timeout now [] = ground arith
scan-overdue zero timeout now ((k, d) ∷ m) = ground arith
scan-overdue (suc room) timeout now ((k, d) ∷ m) =
    ground (arith, scan-overdue room timeout now m, scan-overdue (suc room) timeout now m)

cancel-overdue :
    (timeout now s i : ℕ) (m : Monitor)
    → (overdue timeout now (cancel s i m).1.pending ≤ overdue timeout now m.pending)
      × ((cancel s i m).1.transport_timeout ≡ m.transport_timeout)
unfolding cancel
cancel-overdue timeout now s i m = ground (arith, overdue-erase timeout now (key i s) m.pending)

module _ {W : Type 0} where
  abbrev pub late : ℕ → Link W → ℕ
  late now l = overdue l.monitor.transport_timeout now l.monitor.pending

  -- A call that lets no message become overdue, and leaves the timeout alone.
  abbrev Eases : ℕ → Link W → Link W → Type 0
  Eases now l l' =
      (late now l' ≤ late now l) × (l'.monitor.transport_timeout ≡ l.monitor.transport_timeout)

  monitor_add-Eases : (now : ℕ) (h : DmqHeader) (l : Link W) → Eases now l (monitor_add now h l).1
  unfolding monitor_add
  monitor_add-Eases now h l =
      let d : TimeoutData = record { remote_id = h.id; seq_num = h.seq_num; time_stamp = now } in
      ground (
        arith,
        overdue-insert l.monitor.transport_timeout now (key h.id h.seq_num) d l.monitor.pending
            refl,
      )

  emit_exceeded-Eases : (now : ℕ) (o : Option ℕ) (l : Link W) → Eases now l (emit_exceeded o l)
  emit_exceeded-Eases now none l = omega arith
  emit_exceeded-Eases now (some n) l = omega arith

  module _ (send : List ℕ → DmqHeader → W → ℕ × W) (now : ℕ) where
    retransmit-Eases :
        (id s : ℕ) (e : RetryEntry) (l : Link W) → Eases now l (retransmit send now id s e l)
    unfolding retransmit
    retransmit-Eases id s e l =
        let l' = (monitor_add now e.header l).1 in
        ground (
          arith,
          monitor_add-Eases now e.header l,
          cancel-overdue l'.monitor.transport_timeout now e.header.seq_num e.header.id l'.monitor,
        )

    on_timeout-Eases :
        (id s : ℕ) (e : RetryEntry) (l : Link W) → Eases now l (on_timeout send now id s e l)
    unfolding on_timeout
    on_timeout-Eases id s e l =
        let e' : RetryEntry = record e { attempts_remaining = e.attempts_remaining - 1 } in
        ground (
          arith,
          monitor_add-Eases now e.header l,
          retransmit-Eases id s e' (record l { retry_store = insert (key id s) e' l.retry_store }),
        )

    notify-Eases : (id s : ℕ) (l : Link W) → Eases now l (notify send now timed_out id s l)
    unfolding notify
    notify-Eases id s l = elim (Option-cases (lookup (key id s) l.retry_store)) [
      | inl gone ↦ rw (gone, on_status_changed) (omega arith)
      | inr (e, f) ↦
          rw (f, on_status_changed)
            (on_timeout-Eases id s e
              (record l { log = l.log ++ (send_status id s timed_out ∷ []) }))
    ]

    notify_all-Eases : (ds : List TimeoutData) (l : Link W) → Eases now l (notify_all send now ds l)
    unfolding notify_all
    notify_all-Eases [] l = omega arith
    notify_all-Eases (d ∷ ds) l =
        let l' = notify send now timed_out d.remote_id d.seq_num l in
        ground (arith, notify-Eases d.remote_id d.seq_num l, notify_all-Eases ds l')

    process_round-late :
        (l : Link W)
        → (late now (process_round send now l) + length (pass now l.monitor).expired ≤ late now l)
          × (length (pass now l.monitor).expired ≤ max_timer_expired)
          × (length (pass now l.monitor).expired < max_timer_expired
              → late now (process_round send now l) ≡ 0)
    unfolding process_round
    process_round-late l =
        let p = pass now l.monitor in
        let l' : Link W = record l { monitor = p.monitor } in
        let l'' = notify_all send now p.expired l' in
        ground (
          arith,
          scan-overdue max_timer_expired l.monitor.transport_timeout now l.monitor.pending,
          notify_all-Eases p.expired l',
          emit_exceeded-Eases now p.exceeded l'',
        )

    -- With a clock that stands still, one round for each sixteen messages that have timed out, and
    -- one more, is enough for TransportMonitor::Process to return, whatever its callbacks
    -- retransmit, and then no message that is still watched has timed out.
    pub process_drains :
        (fuel : ℕ) (l : Link W)
        → late now l < max_timer_expired * fuel
        → (l' : Link W) × (process send fuel (λ _. now) l ≡ some l') × (late now l' ≡ 0)
    unfolding process
    process_drains zero l h = absurd (omega arith)
    process_drains (suc fuel) l h = elim (Bool-cases (length l.monitor.pending == 0)) [
      | inl empty ↦
          rw empty
            (l, refl, ground (arith, overdue-le l.monitor.transport_timeout now l.monitor.pending))
      | inr busy ↦ elim (Bool-cases (length (pass now l.monitor).expired == max_timer_expired)) [
        | inl more ↦
            rw (busy, more)
              (process_drains fuel (process_round send now l)
                (ground (arith, process_round-late l)))
        | inr last ↦
            rw (busy, last) (process_round send now l, refl, ground (arith, process_round-late l))
      ]
    ]
