-- ===== src/Reliable/Budget.antt =====
-- RetryMonitor.h: how often a packet is transmitted, and how a message ends.
use async_http.Prelude.{
  length, ℕ, ◌+◌, ◌-◌, ◌≤◌, ◌≡◌, refl, true, false, Option, some, none, List, [], ◌∷◌, ◌++◌, arith,
  if◌then◌else◌, ◌==◌, Option-cases, sym, inl, inr,
}
use async_http.Prelude.Maps.{lookup, insert, lookup-insert, lookup-erase}
use async_http.Reliable.Monitor.{TimeoutData, success, timed_out, remove, pass, key}
use async_http.Reliable.Retry.{
  DmqHeader, RetryEntry, Link, Signal, send_status, cap_exceeded, pending_exceeded, delivery_failed,
  transmitted, header_key, monitor_add, send_with_retry, retransmit, on_timeout, on_status_changed,
  notify, acknowledge, notify_all, process_round, emit_exceeded,
}
use async_http.Reliable.Tracked.{IsWatched, notify-IsWatched}
use async_http.Reliable.Tracked.Rounds.{pass-IsWatched}

-- How often a packet with a key was handed to the transport.
abbrev pub transmissions : ℕ → List Signal → ℕ
transmissions k [] = 0
transmissions k (transmitted h p ∷ log) = (if k == header_key h then 1 else 0) + transmissions k log
transmissions k (send_status i s t ∷ log) = transmissions k log
transmissions k (cap_exceeded n ∷ log) = transmissions k log
transmissions k (pending_exceeded n ∷ log) = transmissions k log
transmissions k (delivery_failed i s ∷ log) = transmissions k log

transmissions-snoc :
    (k : ℕ) (log : List Signal) (e : Signal)
    → transmissions k (log ++ (e ∷ [])) ≡ transmissions k log + transmissions k (e ∷ [])
transmissions-snoc k [] e = omega arith
transmissions-snoc k (transmitted h p ∷ log) e = omega (arith, transmissions-snoc k log e)
transmissions-snoc k (send_status i s t ∷ log) e = transmissions-snoc k log e
transmissions-snoc k (cap_exceeded n ∷ log) e = transmissions-snoc k log e
transmissions-snoc k (pending_exceeded n ∷ log) e = transmissions-snoc k log e
transmissions-snoc k (delivery_failed i s ∷ log) e = transmissions-snoc k log e

module _ {W : Type 0} where
  -- The retransmissions that a key may still cause.
  abbrev pub credit : ℕ → Link W → ℕ
  credit k l = elim (lookup k l.retry_store) [ none ↦ 0 | some e ↦ e.attempts_remaining ]

  -- What a key has cost and may still cost.
  abbrev pub bill : ℕ → Link W → ℕ
  bill k l = transmissions k l.log + credit k l

  monitor_add_log :
      (k now : ℕ) (h : DmqHeader) (l : Link W)
      → let l' = (monitor_add now h l).1 in
        (transmissions k l'.log ≡ transmissions k l.log) × (l'.retry_store ≡ l.retry_store)
  unfolding monitor_add
  monitor_add_log k now h l =
      ground (arith, transmissions-snoc k l.log (cap_exceeded (length l.monitor.pending)))

  module _ (send : List ℕ → DmqHeader → W → ℕ × W) where
    retransmit-bill :
        (k now : ℕ) (id s : ℕ) (e : RetryEntry) (l : Link W)
        → header_key e.header ≡ key id s
        → bill k (retransmit send now id s e l) ≤ bill k l + (if k == key id s then 1 else 0)
    unfolding retransmit
    retransmit-bill k now id s e l q =
        let l' = (monitor_add now e.header l).1 in
        ground (
          arith,
          monitor_add_log k now e.header l,
          transmissions-snoc k l'.log (transmitted e.header e.packet_data),
          transmissions-snoc k l'.log (delivery_failed id s),
          transmissions-snoc k (l'.log ++ (transmitted e.header e.packet_data ∷ []))
              (delivery_failed id s),
          lookup-erase (key id s) k l.retry_store,
        )

    on_timeout-bill :
        (k now id s : ℕ) (e : RetryEntry) (l : Link W)
        → lookup (key id s) l.retry_store ≡ some e
        → header_key e.header ≡ key id s
        → bill k (on_timeout send now id s e l) ≤ bill k l
    unfolding on_timeout
    on_timeout-bill k now id s e l f q =
        let e' : RetryEntry = record e { attempts_remaining = e.attempts_remaining - 1 } in
        let stored = insert (key id s) e' l.retry_store in
        ground (
          arith,
          retransmit-bill k now id s e' (record l { retry_store = stored }) q,
          lookup-insert (key id s) k e' l.retry_store,
          lookup-erase (key id s) k l.retry_store,
          monitor_add_log k now e.header l,
          transmissions-snoc k l.log (delivery_failed id s),
        )

    notify-bill :
        (k now : ℕ) (d : TimeoutData) (late : List TimeoutData) (l : Link W)
        → IsWatched (d ∷ late) l
        → bill k (notify send now timed_out d.remote_id d.seq_num l) ≤ bill k l
    unfolding notify
    notify-bill k now d late l v =
        let log = l.log ++ (send_status d.remote_id d.seq_num timed_out ∷ []) in
        let noted : Link W = record l { log = log } in
        let once = transmissions-snoc k l.log (send_status d.remote_id d.seq_num timed_out) in
        elim (Option-cases (lookup (key d.remote_id d.seq_num) l.retry_store)) [
          | inl gone ↦ rw (gone, on_status_changed) (omega (arith, once))
          | inr (e, f) ↦
              rw (f, on_status_changed)
                (omega (
                  arith,
                  once,
                  on_timeout-bill k now d.remote_id d.seq_num e noted f
                      (sym (v.keyed (key d.remote_id d.seq_num) e f).0),
                ))
        ]

    notify_all-bill :
        (k now : ℕ) (ds : List TimeoutData) (l : Link W)
        → IsWatched ds l
        → bill k (notify_all send now ds l) ≤ bill k l
    unfolding notify_all
    notify_all-bill k now [] l v = omega arith
    notify_all-bill k now (d ∷ ds) l v = omega (
      arith,
      notify-bill k now d ds l v,
      notify_all-bill k now ds (notify send now timed_out d.remote_id d.seq_num l)
          (notify-IsWatched send now d ds l v),
    )

    exceeded-bill : (k : ℕ) (o : Option ℕ) (l : Link W) → bill k (emit_exceeded o l) ≡ bill k l
    exceeded-bill k none l = refl
    exceeded-bill k (some n) l = omega (arith, transmissions-snoc k l.log (pending_exceeded n))

    pub process_round-bill :
        (k now : ℕ) (l : Link W) → IsWatched [] l → bill k (process_round send now l) ≤ bill k l
    unfolding process_round
    process_round-bill k now l v =
        let p = pass now l.monitor in
        let l' : Link W = record l { monitor = p.monitor } in
        omega (
          arith,
          exceeded-bill k p.exceeded (notify_all send now p.expired l'),
          notify_all-bill k now p.expired l' (pass-IsWatched send now l v),
        )

    pub acknowledge-bill :
        (k now s i : ℕ) (l : Link W) → bill k (acknowledge send now s i l) ≤ bill k l
    unfolding acknowledge notify
    acknowledge-bill k now s i l = elim (Option-cases (remove s i l.monitor).0) [
      | inl e ↦ rw (e, acknowledge) (omega arith)
      | inr (d, e) ↦
          rw (e, acknowledge)
            (ground (
              arith,
              transmissions-snoc k l.log (send_status d.remote_id s success),
              lookup-erase (key d.remote_id s) k l.retry_store,
            ))
    ]

    pub send_with_retry-bill :
        (k now : ℕ) (payload : List ℕ) (h : DmqHeader) (l : Link W)
        → bill k (send_with_retry send now payload h l).1
          ≤ (if k == header_key h then transmissions k l.log + 1 + l.max_retries else bill k l)
    unfolding send_with_retry
    send_with_retry-bill k now payload h l =
        let j = header_key h in
        let entry : RetryEntry = record {
          packet_data = payload;
          header = h;
          attempts_remaining = l.max_retries;
          is_sent = false;
        } in
        let stored = insert j entry l.retry_store in
        let l' = (monitor_add now h (record l { retry_store = stored })).1 in
        ground (
          arith,
          monitor_add_log k now h (record l { retry_store = stored }),
          transmissions-snoc k l'.log (transmitted h payload),
          transmissions-snoc k l'.log (delivery_failed h.id h.seq_num),
          transmissions-snoc k (l'.log ++ (transmitted h payload ∷ []))
              (delivery_failed h.id h.seq_num),
          lookup-insert j k entry l.retry_store,
          lookup-insert j j entry l.retry_store,
          lookup-insert j k (record entry { is_sent = true }) stored,
          lookup-erase j k stored,
        )
