-- ===== src/Reliable/Tracked/Rounds.antt =====
-- The timers' rounds and the calls of RetryMonitor.h keep the stored packets watched.
use async_http.Prelude.{
  subst, ◌^◌, Bool-cases, ℕ, zero, suc, ◌<◌, ◌≡◌, ◌⊎◌, inl, inr, true, false, some, List, [], ◌∷◌,
  arith, length, All, Option-cases, ◌==◌,
}
use async_http.Reliable.Retry.{
  DmqHeader, RetryEntry, Link, header_key, monitor_add, send_with_retry, notify, acknowledge,
  process_round, process,
}
use async_http.Prelude.Maps.{Map, lookup, insert, lookup-insert, lookup-erase, has}
use async_http.Reliable.Monitor.{
  TimeoutData, success, key, add, remove, scan, pass, max_timer_expired,
}
use async_http.Reliable.Monitor.Bounds.{
  IsKeyed, add-IsValid, cancel-IsValid, remove-IsValid, pass-IsValid,
}
use async_http.Reliable.Pending.{
  is_among, add_pending, cancel_pending, remove_pending, max_pending-remove,
}
use async_http.Reliable.Tracked.{IsWatched, exceeded-IsWatched, notify_all-IsWatched}

module _ {W : Type 0} where
  module _ (send : List ℕ → DmqHeader → W → ℕ × W) where
    -- A message that a pass takes off the map is among those that it reports.
    scan_pending :
        (room timeout now k : ℕ) (m : Map TimeoutData)
        → All IsKeyed m
        → has k m ≡ true
        → (has k (scan room timeout now m).1 ≡ true)
          ⊎ (is_among k (scan room timeout now m).0 ≡ true)
    unfolding scan lookup
    scan_pending room timeout now k [] a h = inl h
    scan_pending zero timeout now k ((j, d) ∷ m) a h = inl h
    scan_pending (suc room) timeout now k ((j, d) ∷ m) a h =
        ground (
          arith,
          scan_pending room timeout now k m a.1,
          scan_pending (suc room) timeout now k m a.1,
        )

    pub pass-IsWatched :
        (now : ℕ) (l : Link W)
        → IsWatched [] l
        → IsWatched
            (pass now l.monitor).expired
            (record l { monitor = (pass now l.monitor).monitor })
    unfolding pass
    pass-IsWatched now l v =
        let m = l.monitor in
        record {
          valid = pass-IsValid now v.valid;
          room = v.room;
          keyed = v.keyed;
          sent = v.sent;
          watched = λ k g.
              scan_pending max_timer_expired m.transport_timeout now k m.pending v.valid.keyed
                (ground (arith, v.watched k));
        }

    pub process_round-IsWatched :
        (now : ℕ) (l : Link W) → IsWatched [] l → IsWatched [] (process_round send now l)
    unfolding process_round
    process_round-IsWatched now l v =
        let p = pass now l.monitor in
        exceeded-IsWatched send p.exceeded (
          notify_all-IsWatched send now p.expired (record l { monitor = p.monitor })
            (pass-IsWatched now l v))

    -- `Process` keeps the invariant, however many rounds it runs and whatever its callbacks send.
    pub process-IsWatched :
        (fuel : ℕ) (clock : ℕ → ℕ) (l : Link W) {l' : Link W}
        → IsWatched [] l
        → process send fuel clock l ≡ some l'
        → IsWatched [] l'
    unfolding process
    process-IsWatched zero clock l v e = cc
    process-IsWatched (suc fuel) clock l v e = elim (Bool-cases (length l.monitor.pending == 0)) [
      | inl empty ↦ subst (IsWatched []) (ground arith) v
      | inr busy ↦
          elim (Bool-cases (length (pass (clock fuel) l.monitor).expired == max_timer_expired)) [
            | inl more ↦
                process-IsWatched fuel clock (process_round send (clock fuel) l)
                  (process_round-IsWatched (clock fuel) l v) (ground arith)
            | inr last ↦
                subst (IsWatched []) (ground arith) (process_round-IsWatched (clock fuel) l v)
          ]
    ]

    forget-IsWatched :
        (now s : ℕ) (d : TimeoutData) (l : Link W)
        → IsWatched (record d { seq_num = s } ∷ []) l
        → IsWatched [] (notify send now success d.remote_id s l)
    unfolding notify
    forget-IsWatched now s d l v = record {
      valid = ground (arith, v.valid);
      room = ground (arith, v.room);
      keyed =
          λ j x g. ground (arith, v.keyed j x, lookup-erase (key d.remote_id s) j l.retry_store);
      sent = λ j x g. ground (arith, v.sent j x, lookup-erase (key d.remote_id s) j l.retry_store);
      watched =
          λ j g. ground (arith, v.watched j, lookup-erase (key d.remote_id s) j l.retry_store);
    }

    pub acknowledge-IsWatched :
        (now s i : ℕ) (l : Link W)
        → s < 2 ^ 16
        → i < 2 ^ 16
        → IsWatched [] l
        → IsWatched [] (acknowledge send now s i l)
    unfolding acknowledge
    acknowledge-IsWatched now s i l hs hi v = elim (Option-cases (remove s i l.monitor).0) [
      | inl e ↦ rw (e, acknowledge) v
      | inr (d, e) ↦
          rw (e, acknowledge)
            (forget-IsWatched now s d (record l { monitor = (remove s i l.monitor).1 })
              (record {
                valid = remove-IsValid s i v.valid;
                room = omega (arith, max_pending-remove s i l.monitor, v.room);
                keyed = v.keyed;
                sent = v.sent;
                watched = λ j g.
                    ground
                      (arith, v.watched j, remove_pending s i j l.monitor hs hi v.valid.keyed e);
              }))
    ]

    pub send_with_retry-IsWatched :
        (now : ℕ) (payload : List ℕ) (h : DmqHeader) (l : Link W)
        → h.seq_num < 2 ^ 16
        → h.id < 2 ^ 16
        → IsWatched [] l
        → IsWatched [] (send_with_retry send now payload h l).1
    unfolding send_with_retry monitor_add
    send_with_retry-IsWatched now payload h l hs hi v =
        let k = header_key h in
        let entry : RetryEntry = record {
          packet_data = payload;
          header = h;
          attempts_remaining = l.max_retries;
          is_sent = false;
        } in
        let m = (add now h.seq_num h.id l.monitor).1 in
        let v' = add-IsValid now h.seq_num h.id hs hi v.valid in
        let stored = insert k entry l.retry_store in
        record {
          valid = ground (arith, v.valid, v', cancel-IsValid h.seq_num h.id v');
          room = ground (
            arith,
            v.room,
            add_pending now h.seq_num h.id 0 l.monitor v.room,
            cancel_pending h.seq_num h.id 0 m,
          );
          keyed = λ j x g. ground (
            arith,
            v.keyed j x,
            lookup-insert k j entry l.retry_store,
            lookup-insert k k entry l.retry_store,
            lookup-insert k j (record entry { is_sent = true }) stored,
            lookup-erase k j stored,
          );
          sent = λ j x g. ground (
            arith,
            v.sent j x,
            lookup-insert k j entry l.retry_store,
            lookup-insert k k entry l.retry_store,
            lookup-insert k j (record entry { is_sent = true }) stored,
            lookup-erase k j stored,
          );
          watched = λ j g. ground (
            arith,
            v.watched j,
            lookup-insert k j entry l.retry_store,
            lookup-insert k k entry l.retry_store,
            lookup-insert k j (record entry { is_sent = true }) stored,
            lookup-erase k j stored,
            add_pending now h.seq_num h.id j l.monitor v.room,
            cancel_pending h.seq_num h.id j m,
          );
        }
