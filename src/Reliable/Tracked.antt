-- ===== src/Reliable/Tracked.antt =====
-- RetryMonitor.h and TransportMonitor.h together: every stored packet is watched for a timeout.
pub mod Rounds
use async_http.Prelude.{
  subst, ◌^◌, ltb, if_pos, Bool-cases, ◌++◌, ◌-◌, ℕ, zero, suc, ◌<◌, ◌≡◌, ◌⊎◌, inl, inr, true,
  false, Option, some, none, List, [], ◌∷◌, arith, length, All, Option-cases, ◌==◌,
}
use async_http.Reliable.Retry.{
  send_status, emit_exceeded, DmqHeader, RetryEntry, Link, header_key, monitor_add, send_with_retry,
  retransmit, on_timeout, on_status_changed, notify, acknowledge, notify_all, process_round,
  process,
}
use async_http.Prelude.Maps.{Map, lookup, insert, lookup-insert, lookup-erase, has}
use async_http.Reliable.Monitor.{
  TimeoutData, success, timed_out, key, add, remove, scan, pass, max_timer_expired,
}
use async_http.Reliable.Monitor.Bounds.{
  IsValid, IsKeyed, add-IsValid, cancel-IsValid, remove-IsValid, pass-IsValid,
}
use async_http.Reliable.Pending.{
  is_among, add_pending, cancel_pending, IsKeyedHeader, remove_pending, max_pending-remove,
}

module _ {W : Type 0} where
  -- Every stored packet has been sent, lies under the key of its header, and is either watched by the
  -- TransportMonitor or among the timeouts that are about to be reported.
  pub record IsWatched (late : List TimeoutData) (l : Link W) : Type 0 where
    pub valid : IsValid l.monitor
    pub room : 0 < l.monitor.max_pending
    pub keyed :
        (k : ℕ) (e : RetryEntry) → lookup k l.retry_store ≡ some e → IsKeyedHeader k e.header
    pub sent : (k : ℕ) (e : RetryEntry) → lookup k l.retry_store ≡ some e → e.is_sent ≡ true
    pub watched :
        (k : ℕ)
        → has k l.retry_store ≡ true
        → (has k l.monitor.pending ≡ true) ⊎ (is_among k late ≡ true)

  module _ (send : List ℕ → DmqHeader → W → ℕ × W) where
    retransmit-IsWatched :
        (now : ℕ) (d : TimeoutData) (e : RetryEntry) (late : List TimeoutData) (l : Link W)
        → IsKeyedHeader (key d.remote_id d.seq_num) e.header
        → IsWatched (d ∷ late) l
        → IsWatched late (retransmit send now d.remote_id d.seq_num e l)
    unfolding retransmit monitor_add
    retransmit-IsWatched now d e late l q v =
        let k = key d.remote_id d.seq_num in
        let h = e.header in
        let m = (add now h.seq_num h.id l.monitor).1 in
        let v' = add-IsValid now h.seq_num h.id q.2 q.1 v.valid in
        record {
          valid = ground (arith, v.valid, v', cancel-IsValid h.seq_num h.id v');
          room = ground (
            arith,
            v.room,
            add_pending now h.seq_num h.id 0 l.monitor v.room,
            cancel_pending h.seq_num h.id 0 m,
          );
          keyed = λ j x g. ground (arith, v.keyed j x, lookup-erase k j l.retry_store);
          sent = λ j x g. ground (arith, v.sent j x, lookup-erase k j l.retry_store);
          watched = λ j g. ground (
            arith,
            v.watched j,
            lookup-erase k j l.retry_store,
            add_pending now h.seq_num h.id j l.monitor v.room,
            cancel_pending h.seq_num h.id j m,
          );
        }

    on_timeout-IsWatched :
        (now : ℕ) (d : TimeoutData) (e : RetryEntry) (late : List TimeoutData) (l : Link W)
        → lookup (key d.remote_id d.seq_num) l.retry_store ≡ some e
        → IsWatched (d ∷ late) l
        → IsWatched late (on_timeout send now d.remote_id d.seq_num e l)
    unfolding on_timeout
    on_timeout-IsWatched now d e late l f v =
        let k = key d.remote_id d.seq_num in
        let e' : RetryEntry = record e { attempts_remaining = e.attempts_remaining - 1 } in
        let stored : Link W = record l { retry_store = insert k e' l.retry_store } in
        let watched' : IsWatched (d ∷ late) stored = record {
          valid = v.valid;
          room = v.room;
          keyed = λ j x g.
              ground (arith, lookup-insert k j e' l.retry_store, v.keyed j x, v.keyed k e f);
          sent =
              λ j x g. ground (arith, lookup-insert k j e' l.retry_store, v.sent j x, v.sent k e f);
          watched = λ j g. ground (arith, lookup-insert k j e' l.retry_store, v.watched j);
        } in
        elim (Bool-cases (ltb 0 e.attempts_remaining)) [
          | inl more ↦ if_pos (IsWatched late) (ltb 0 e.attempts_remaining) _ _ more (
              if_pos (IsWatched late) e.is_sent _ _ (v.sent k e f)
                (retransmit-IsWatched now d e' late stored (v.keyed k e f) watched'))
          | inr none_left ↦ rw none_left (record {
            valid = v.valid;
            room = v.room;
            keyed = λ j x g. ground (arith, lookup-erase k j l.retry_store, v.keyed j x);
            sent = λ j x g. ground (arith, lookup-erase k j l.retry_store, v.sent j x);
            watched = λ j g. ground (arith, lookup-erase k j l.retry_store, v.watched j);
          })
        ]

    -- The log plays no part.
    pub notify-IsWatched :
        (now : ℕ) (d : TimeoutData) (late : List TimeoutData) (l : Link W)
        → IsWatched (d ∷ late) l
        → IsWatched late (notify send now timed_out d.remote_id d.seq_num l)
    unfolding notify
    notify-IsWatched now d late l v =
        elim (Option-cases (lookup (key d.remote_id d.seq_num) l.retry_store)) [
          | inl gone ↦
              rw (gone, on_status_changed)
                (record {
                  valid = v.valid;
                  room = v.room;
                  keyed = v.keyed;
                  sent = v.sent;
                  watched = λ j g. ground (arith, v.watched j);
                })
          | inr (e, f) ↦
              rw (f, on_status_changed)
                (on_timeout-IsWatched now d e late
                  (record l { log = l.log ++ (send_status d.remote_id d.seq_num timed_out ∷ []) }) f
                  (record {
                    valid = v.valid;
                    room = v.room;
                    keyed = v.keyed;
                    sent = v.sent;
                    watched = v.watched;
                  }))
        ]

    pub exceeded-IsWatched :
        {l : Link W} (o : Option ℕ) → IsWatched [] l → IsWatched [] (emit_exceeded o l)
    exceeded-IsWatched none v = v
    exceeded-IsWatched (some n) v = record {
      valid = v.valid;
      room = v.room;
      keyed = v.keyed;
      sent = v.sent;
      watched = v.watched;
    }

    pub notify_all-IsWatched :
        (now : ℕ) (ds : List TimeoutData) (l : Link W)
        → IsWatched ds l
        → IsWatched [] (notify_all send now ds l)
    unfolding notify_all
    notify_all-IsWatched now [] l v = v
    notify_all-IsWatched now (d ∷ ds) l v =
        notify_all-IsWatched now ds (notify send now timed_out d.remote_id d.seq_num l)
          (notify-IsWatched now d ds l v)
