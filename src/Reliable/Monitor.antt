-- ===== src/Reliable/Monitor.antt =====
-- DelegateMQ/extras/util/TransportMonitor.h: messages in flight and their timeouts.
-- `m_pending` is a map ordered by its keys. Times are numbers of one unit; the clock is steady, so no
-- stamp lies ahead of it. A signal that is emitted is part of an operation's result.
pub mod Bounds
use async_http.Prelude.{
  ℕ, zero, suc, ◌+◌, ◌-◌, ◌*◌, ◌%◌, ◌^◌, Bool, true, false, ◌||◌, Option, none, some, List, [], ◌∷◌,
  ◌++◌, ltb, leb, ◌==◌, if◌then◌else◌, length,
}
use async_http.Prelude.Maps.{Map, lookup, insert, erase}

pub data Status : Type 0 where
  success timed_out : Status

pub record TimeoutData : Type 0 where
  pub remote_id : ℕ  -- uint16_t
  pub seq_num : ℕ  -- uint16_t
  pub time_stamp : ℕ

pub record Monitor : Type 0 where
  pub pending : Map TimeoutData
  pub transport_timeout : ℕ
  pub max_pending : ℕ  -- MAX_TRANSPORT_MONITOR_PENDING

abbrev pub max_timer_expired : ℕ
max_timer_expired = 16

-- `(uint32_t(remoteId) << 16) | seqNum` of 16-bit numbers.
abbrev pub key : ℕ → ℕ → ℕ
key remote_id seq_num = remote_id * 2 ^ 16 % 2 ^ 32 + seq_num

-- `full` and `collision` return false; `full` emits OnCapExceeded with the size.
pub data Added : Type 0 where
  added collision : Added
  full : ℕ → Added

unfoldable pub add : ℕ → ℕ → ℕ → Monitor → Added × Monitor
unfolding lookup insert
add now seq_num remote_id m =
    let k = key remote_id seq_num in
    let d : TimeoutData = record { remote_id = remote_id; seq_num = seq_num; time_stamp = now } in
    if leb m.max_pending (length m.pending)
    then (if ltb 0 (length m.pending) then full (length m.pending) else added, m)
    else elim (lookup k m.pending) [
      | some old ↦ (collision, m)
      | none ↦ (added, record m { pending = insert k d m.pending })
    ]

-- The linear scan of `Remove` for a sequence number of any remote.
unfoldable pub remove_seq : ℕ → Map TimeoutData → Option (TimeoutData × Map TimeoutData)
remove_seq seq_num [] = none
remove_seq seq_num ((k, d) ∷ rest) =
    if d.seq_num == seq_num
    then some (d, rest)
    else elim (remove_seq seq_num rest) [ none ↦ none | some r ↦ some (r.0, (k, d) ∷ r.1) ]

-- `Remove`: the message whose success OnSendStatus reports, if one was found.
unfoldable pub remove : ℕ → ℕ → Monitor → Option TimeoutData × Monitor
unfolding remove_seq lookup erase
remove seq_num remote_id m =
    let k = key remote_id seq_num in
    if remote_id == 0
    then elim (remove_seq seq_num m.pending) [
      | none ↦ (none, m)
      | some r ↦ (some r.0, record m { pending = r.1 })
    ]
    else elim (lookup k m.pending) [
      | none ↦ (none, m)
      | some d ↦ (some d, record m { pending = erase k m.pending })
    ]

unfoldable pub cancel : ℕ → ℕ → Monitor → Bool × Monitor
unfolding lookup erase
cancel seq_num remote_id m =
    let k = key remote_id seq_num in
    elim (lookup k m.pending) [
      | none ↦ (false, m)
      | some d ↦ (true, record m { pending = erase k m.pending })
    ]

abbrev pub is_expired : ℕ → ℕ → TimeoutData → Bool
is_expired timeout now d = ltb timeout (now - d.time_stamp)

-- The walk of `Process` along the map, with the room left in the batch: the expired messages, and the
-- entries that stay. With no room the walk breaks at the next expired entry; what it has passed by
-- then is kept, and so is the rest.
unfoldable pub scan : ℕ → ℕ → ℕ → Map TimeoutData → List TimeoutData × Map TimeoutData
scan room timeout now [] = ([], [])
scan zero timeout now ((k, d) ∷ rest) = ([], (k, d) ∷ rest)
scan (suc room) timeout now ((k, d) ∷ rest) =
    let hit = scan room timeout now rest in
    let miss = scan (suc room) timeout now rest in
    if is_expired timeout now d then (d ∷ hit.0, hit.1) else (miss.0, (k, d) ∷ miss.1)

abbrev any_expired : ℕ → ℕ → Map TimeoutData → Bool
any_expired timeout now [] = false
any_expired timeout now ((k, d) ∷ rest) = is_expired timeout now d || any_expired timeout now rest

-- One pass of `Process` under the lock.
pub record Passed : Type 0 where
  pub expired : List TimeoutData  -- whose timeout OnSendStatus then reports, in this order
  pub exceeded : Option ℕ  -- what OnPendingExceeded then reports, if the walk broke off
  pub monitor : Monitor

unfoldable pub pass : ℕ → Monitor → Passed
unfolding scan
pass now m =
    let r = scan max_timer_expired m.transport_timeout now m.pending in
    record {
      expired = r.0;
      exceeded = (if any_expired m.transport_timeout now r.1 then some (length r.1) else none);
      monitor = record m { pending = r.1 };
    }
