-- ===== src/Reliable/Failure.antt =====
-- RetryMonitor.h: what a timeout that is reported does to the message and to others.
pub mod Stamps
pub mod Expired
pub mod Process
use async_http.Prelude.{
  ℕ, zero, suc, ◌+◌, ◌-◌, ◌<◌, ◌≡◌, ◌⊎◌, inl, inr, true, some, none, List, [], ◌∷◌, ◌++◌, arith,
  length, if◌then◌else◌, ◌==◌, refl, ◌≢◌, Option, Option-cases,
}
use async_http.Prelude.Maps.{lookup, insert, lookup-insert, lookup-erase}
use async_http.Reliable.Monitor.{Monitor, TimeoutData, timed_out, key, cancel}
use async_http.Reliable.Retry.{
  DmqHeader, RetryEntry, Link, Signal, send_status, cap_exceeded, pending_exceeded, delivery_failed,
  transmitted, monitor_add, retransmit, on_timeout, on_status_changed, notify, header_key,
  emit_exceeded,
}

-- How often OnDeliveryFailed was emitted for a key.
abbrev pub failures : ℕ → List Signal → ℕ
failures k [] = 0
failures k (delivery_failed i s ∷ log) = (if k == key i s then 1 else 0) + failures k log
failures k (transmitted h p ∷ log) = failures k log
failures k (send_status i s t ∷ log) = failures k log
failures k (cap_exceeded n ∷ log) = failures k log
failures k (pending_exceeded n ∷ log) = failures k log

failures-snoc :
    (k : ℕ) (log : List Signal) (e : Signal)
    → failures k (log ++ (e ∷ [])) ≡ failures k log + failures k (e ∷ [])
failures-snoc k [] e = omega arith
failures-snoc k (delivery_failed i s ∷ log) e = omega (arith, failures-snoc k log e)
failures-snoc k (transmitted h p ∷ log) e = failures-snoc k log e
failures-snoc k (send_status i s t ∷ log) e = failures-snoc k log e
failures-snoc k (cap_exceeded n ∷ log) e = failures-snoc k log e
failures-snoc k (pending_exceeded n ∷ log) e = failures-snoc k log e

-- A message that is stored under a key, and was sent.
abbrev pub Stored : {W : Type 0} → ℕ → RetryEntry → Link W → Type 0
Stored k e l = (lookup k l.retry_store ≡ some e) × (e.is_sent ≡ true)

-- A message that is not stored, when it has been reported as failed so often.
abbrev pub Gone : {W : Type 0} → ℕ → ℕ → Link W → Type 0
Gone k n l = (lookup k l.retry_store ≡ none) × (failures k l.log ≡ n)

module _ {W : Type 0} (send : List ℕ → DmqHeader → W → ℕ × W) (now id s : ℕ) where
  monitor_add_log :
      (h : DmqHeader) (l : Link W)
      → let l' = (monitor_add now h l).1 in
        (failures (key id s) l'.log ≡ failures (key id s) l.log) × (l'.retry_store ≡ l.retry_store)
  unfolding monitor_add
  monitor_add_log h l =
      ground (arith, failures-snoc (key id s) l.log (cap_exceeded (length l.monitor.pending)))

  retransmit_outcome :
      (e : RetryEntry) (l : Link W)
      → Stored (key id s) e l
      → let l' = retransmit send now id s e l in
        Gone (key id s) (failures (key id s) l.log + 1) l'
        ⊎ (Stored (key id s) e l' × (failures (key id s) l'.log ≡ failures (key id s) l.log))
  unfolding retransmit
  retransmit_outcome e l q =
      let k = key id s in
      let l' = (monitor_add now e.header l).1 in
      ground (
        arith,
        monitor_add_log e.header l,
        failures-snoc k l'.log (transmitted e.header e.packet_data),
        failures-snoc k l'.log (delivery_failed id s),
        failures-snoc k (l'.log ++ (transmitted e.header e.packet_data ∷ []))
            (delivery_failed id s),
        lookup-erase k k l.retry_store,
      )

  pub notify_outcome :
      (e : RetryEntry) (l : Link W)
      → Stored (key id s) e l
      → let l' = notify send now timed_out id s l in
        Gone (key id s) (failures (key id s) l.log + 1) l'
        ⊎ ((0 < e.attempts_remaining)
            × Stored (key id s) (record e { attempts_remaining = e.attempts_remaining - 1 }) l'
            × (failures (key id s) l'.log ≡ failures (key id s) l.log))
  unfolding notify on_timeout
  notify_outcome e l q =
      let k = key id s in
      let e' : RetryEntry = record e { attempts_remaining = e.attempts_remaining - 1 } in
      let noted : Link W = record l { log = l.log ++ (send_status id s timed_out ∷ []) } in
      let stored : Link W = record noted { retry_store = insert k e' l.retry_store } in
      ground (
        arith,
        retransmit_outcome e' stored,
        lookup-insert k k e' l.retry_store,
        lookup-erase k k l.retry_store,
        failures-snoc k l.log (send_status id s timed_out),
        failures-snoc k noted.log (delivery_failed id s),
      )

  pub notify-Gone :
      (n : ℕ) (l : Link W)
      → Gone (key id s) n l
      → Gone (key id s) n (notify send now timed_out id s l)
  unfolding notify
  notify-Gone n l q = ground (arith, failures-snoc (key id s) l.log (send_status id s timed_out))

cancel-lookup :
    (k s i : ℕ) (m : Monitor) → key i s ≢ k → lookup k (cancel s i m).1.pending ≡ lookup k m.pending
unfolding cancel
cancel-lookup k s i m other = ground (arith, lookup-erase (key i s) k m.pending)

-- What is known of a message under a key: its entry, how often it has been reported as failed, and
-- how it is watched.
module _ {W : Type 0} (k : ℕ) where
  abbrev pub SameOf : Link W → Link W → Type 0
  SameOf l l' =
      (lookup k l'.retry_store ≡ lookup k l.retry_store)
      × (failures k l'.log ≡ failures k l.log)
      × (lookup k l'.monitor.pending ≡ lookup k l.monitor.pending)

  monitor_add-SameOf :
      (now : ℕ) (h : DmqHeader) (l : Link W) → header_key h ≢ k → SameOf l (monitor_add now h l).1
  unfolding monitor_add
  monitor_add-SameOf now h l other =
      let d : TimeoutData = record { remote_id = h.id; seq_num = h.seq_num; time_stamp = now } in
      ground (
        arith,
        failures-snoc k l.log (cap_exceeded (length l.monitor.pending)),
        lookup-insert (header_key h) k d l.monitor.pending,
      )

  pub emit_exceeded-SameOf : (o : Option ℕ) (l : Link W) → SameOf l (emit_exceeded o l)
  emit_exceeded-SameOf none l = (refl, refl, refl)
  emit_exceeded-SameOf (some n) l =
      (refl, omega (arith, failures-snoc k l.log (pending_exceeded n)), refl)

  module _ (send : List ℕ → DmqHeader → W → ℕ × W) (now id s : ℕ) (other : key id s ≢ k) where
    retransmit-SameOf :
        (e : RetryEntry) (l : Link W)
        → header_key e.header ≢ k
        → SameOf l (retransmit send now id s e l)
    unfolding retransmit
    retransmit-SameOf e l apart =
        let l' = (monitor_add now e.header l).1 in
        ground (
          arith,
          monitor_add-SameOf now e.header l apart,
          cancel-lookup k e.header.seq_num e.header.id l'.monitor apart,
          lookup-erase (key id s) k l.retry_store,
          lookup-erase (key id s) k l'.retry_store,
          failures-snoc k l'.log (transmitted e.header e.packet_data),
          failures-snoc k l'.log (delivery_failed id s),
          failures-snoc k (l'.log ++ (transmitted e.header e.packet_data ∷ []))
              (delivery_failed id s),
        )

    on_timeout-SameOf :
        (e : RetryEntry) (l : Link W)
        → header_key e.header ≢ k
        → SameOf l (on_timeout send now id s e l)
    unfolding on_timeout
    on_timeout-SameOf e l apart =
        let e' : RetryEntry = record e { attempts_remaining = e.attempts_remaining - 1 } in
        let stored : Link W = record l { retry_store = insert (key id s) e' l.retry_store } in
        ground (
          arith,
          monitor_add-SameOf now e.header l apart,
          retransmit-SameOf e' stored apart,
          lookup-insert (key id s) k e' l.retry_store,
          lookup-erase (key id s) k l.retry_store,
          failures-snoc k l.log (delivery_failed id s),
        )

    -- A timeout of another message changes nothing of this one.
    pub notify-SameOf :
        (l : Link W)
        → ((e : RetryEntry) → lookup (key id s) l.retry_store ≡ some e → header_key e.header ≢ k)
        → SameOf l (notify send now timed_out id s l)
    unfolding notify
    notify-SameOf l apart =
        let noted : Link W = record l { log = l.log ++ (send_status id s timed_out ∷ []) } in
        let silent = failures-snoc k l.log (send_status id s timed_out) in
        elim (Option-cases (lookup (key id s) l.retry_store)) [
          | inl gone ↦ rw (gone, on_status_changed) (refl, omega (arith, silent), refl)
          | inr (e, f) ↦
              let o = on_timeout-SameOf e noted (apart e f) in
              rw (f, on_status_changed) (o.0, omega (arith, o.1, silent), o.2)
        ]
