-- ===== src/Reliable/Failure/Stamps.antt =====
-- TransportMonitor.h and RetryMonitor.h: what is watched was added by the time of the last call, and
-- the limits of the monitor stay.
use async_http.Prelude.{
  ℕ, zero, suc, ◌-◌, ◌≤◌, ◌≡◌, refl, ◌∙◌, some, none, Option, List, [], ◌∷◌, ◌++◌, arith, All, inl,
  inr, Option-cases, ◌⊎◌, sym, ltb, if_both, subst,
}
use async_http.Prelude.Maps.{Map, lookup, insert, erase}
use async_http.Reliable.Monitor.{
  Monitor, TimeoutData, timed_out, scan, cancel, key, pass, max_timer_expired,
}
use async_http.Reliable.Retry.{
  DmqHeader, RetryEntry, Link, send_status, monitor_add, retransmit, on_timeout, on_status_changed,
  notify, notify_all, emit_exceeded, process_round,
}

abbrev pub Stamped : ℕ → Map TimeoutData → Type 0
Stamped t m = All (λ x. x.1.time_stamp ≤ t) m

pub Stamped-le : (t u : ℕ) (m : Map TimeoutData) → t ≤ u → Stamped t m → Stamped u m
Stamped-le t u [] l v = tt
Stamped-le t u (x ∷ m) l v = (omega (arith, v.0), Stamped-le t u m l v.1)

pub lookup-Stamped :
    (t k : ℕ) (m : Map TimeoutData) (d : TimeoutData)
    → Stamped t m
    → lookup k m ≡ some d
    → d.time_stamp ≤ t
unfolding lookup
lookup-Stamped t k [] d v e = cc
lookup-Stamped t k (x ∷ m) d v e = ground (arith, v.0, lookup-Stamped t k m d v.1)

insert-Stamped :
    (t k : ℕ) (d : TimeoutData) (m : Map TimeoutData)
    → d.time_stamp ≤ t
    → Stamped t m
    → Stamped t (insert k d m)
unfolding insert
insert-Stamped t k d [] h v = (h, tt)
insert-Stamped t k d ((j, e) ∷ m) h v = ground (arith, insert-Stamped t k d m h v.1)

erase-Stamped : (t k : ℕ) (m : Map TimeoutData) → Stamped t m → Stamped t (erase k m)
unfolding erase
erase-Stamped t k [] v = tt
erase-Stamped t k ((j, e) ∷ m) v = ground (arith, erase-Stamped t k m v.1)

scan-Stamped :
    (t room timeout now : ℕ) (m : Map TimeoutData)
    → Stamped t m
    → Stamped t (scan room timeout now m).1
unfolding scan
scan-Stamped t room timeout now [] v = tt
scan-Stamped t zero timeout now ((k, d) ∷ m) v = v
scan-Stamped t (suc room) timeout now ((k, d) ∷ m) v =
    ground
      (arith, scan-Stamped t room timeout now m v.1, scan-Stamped t (suc room) timeout now m v.1)

-- What a call at a time keeps of the monitor.
abbrev pub Keeps : ℕ → Monitor → Monitor → Type 0
Keeps now m n =
    (Stamped now m.pending → Stamped now n.pending)
    × (n.max_pending ≡ m.max_pending)
    × (n.transport_timeout ≡ m.transport_timeout)

pub same : (now : ℕ) (m : Monitor) → Keeps now m m
same now m = (λ v. v, refl, refl)

pub also : (now : ℕ) (l m n : Monitor) → Keeps now l m → Keeps now m n → Keeps now l n
also now l m n a b = (λ v. b.0 (a.0 v), b.1 ∙ a.1, b.2 ∙ a.2)

cancel-Keeps : (now s i : ℕ) (m : Monitor) → Keeps now m (cancel s i m).1
unfolding cancel
cancel-Keeps now s i m =
    (λ v. ground (arith, v, erase-Stamped now (key i s) m.pending v), ground arith, ground arith)

pass-Keeps : (now : ℕ) (m : Monitor) → Keeps now m (pass now m).monitor
unfolding pass
pass-Keeps now m =
    (scan-Stamped now max_timer_expired m.transport_timeout now m.pending, refl, refl)

module _ {W : Type 0} where
  monitor_add-Keeps :
      (now : ℕ) (h : DmqHeader) (l : Link W) → Keeps now l.monitor (monitor_add now h l).1.monitor
  unfolding monitor_add
  monitor_add-Keeps now h l =
      let d : TimeoutData = record { remote_id = h.id; seq_num = h.seq_num; time_stamp = now } in
      let le : d.time_stamp ≤ now = omega arith in
      (
        λ v. ground (arith, v, insert-Stamped now (key h.id h.seq_num) d l.monitor.pending le v),
        ground arith,
        ground arith,
      )

  emit_exceeded-Keeps :
      (now : ℕ) (o : Option ℕ) (l : Link W) → Keeps now l.monitor (emit_exceeded o l).monitor
  emit_exceeded-Keeps now none l = same now l.monitor
  emit_exceeded-Keeps now (some n) l = same now l.monitor

  module _ (send : List ℕ → DmqHeader → W → ℕ × W) (now : ℕ) where
    -- The monitor after a retransmission is one of three.
    retransmit-Keeps :
        (id s : ℕ) (e : RetryEntry) (l : Link W)
        → Keeps now l.monitor (retransmit send now id s e l).monitor
    unfolding retransmit
    retransmit-Keeps id s e l =
        let m = (monitor_add now e.header l).1.monitor in
        let c = (cancel e.header.seq_num e.header.id m).1 in
        let a = monitor_add-Keeps now e.header l in
        let b = also now l.monitor m c a (cancel-Keeps now e.header.seq_num e.header.id m) in
        let r = retransmit send now id s e l in
        let either : (r.monitor ≡ m) ⊎ (r.monitor ≡ c) = ground arith in
        elim either [
          | inl e ↦ subst (Keeps now l.monitor) (sym e) a
          | inr e ↦ subst (Keeps now l.monitor) (sym e) b
        ]

    on_timeout-Keeps :
        (id s : ℕ) (e : RetryEntry) (l : Link W)
        → Keeps now l.monitor (on_timeout send now id s e l).monitor
    unfolding on_timeout
    on_timeout-Keeps id s e l =
        let e' : RetryEntry = record e { attempts_remaining = e.attempts_remaining - 1 } in
        let stored : Link W = record l { retry_store = insert (key id s) e' l.retry_store } in
        let keeps : Link W → Type 0 = λ x. Keeps now l.monitor x.monitor in
        if_both keeps (ltb 0 e.attempts_remaining) _ _
          (if_both keeps e.is_sent _ _ (retransmit-Keeps id s e' stored)
            (monitor_add-Keeps now e.header l))
          (same now l.monitor)

    notify-Keeps :
        (id s : ℕ) (l : Link W) → Keeps now l.monitor (notify send now timed_out id s l).monitor
    unfolding notify
    notify-Keeps id s l = elim (Option-cases (lookup (key id s) l.retry_store)) [
      | inl gone ↦ rw (gone, on_status_changed) (same now l.monitor)
      | inr (e, f) ↦
          rw (f, on_status_changed)
            (on_timeout-Keeps id s e
              (record l { log = l.log ++ (send_status id s timed_out ∷ []) }))
    ]

    notify_all-Keeps :
        (ds : List TimeoutData) (l : Link W)
        → Keeps now l.monitor (notify_all send now ds l).monitor
    unfolding notify_all
    notify_all-Keeps [] l = same now l.monitor
    notify_all-Keeps (d ∷ ds) l =
        let l' = notify send now timed_out d.remote_id d.seq_num l in
        also now l.monitor l'.monitor (notify_all send now ds l').monitor
          (notify-Keeps d.remote_id d.seq_num l) (notify_all-Keeps ds l')

    pub process_round-Keeps : (l : Link W) → Keeps now l.monitor (process_round send now l).monitor
    unfolding process_round
    process_round-Keeps l =
        let p = pass now l.monitor in
        let l1 : Link W = record l { monitor = p.monitor } in
        let l2 = notify_all send now p.expired l1 in
        also now l.monitor l2.monitor (emit_exceeded p.exceeded l2).monitor
          (also now l.monitor p.monitor l2.monitor (pass-Keeps now l.monitor)
            (notify_all-Keeps p.expired l1))
          (emit_exceeded-Keeps now p.exceeded l2)
