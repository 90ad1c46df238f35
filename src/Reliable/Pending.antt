-- ===== src/Reliable/Pending.antt =====
-- What each call of TransportMonitor.h does to the messages that it watches.
use async_http.Prelude.{
  ◌^◌, ℕ, ◌<◌, ◌≡◌, ◌≢◌, ◌⊎◌, true, false, Bool, Option, some, none, List, [], ◌∷◌, arith, All,
  if◌then◌else◌, ◌==◌, ◌||◌,
}
use async_http.Prelude.Maps.{Map, lookup, lookup-insert, lookup-erase, has}
use async_http.Reliable.Monitor.{Monitor, TimeoutData, added, key, add, remove_seq, remove, cancel}
use async_http.Reliable.Monitor.Bounds.{IsKeyed}
use async_http.Reliable.Retry.{DmqHeader, header_key}

abbrev pub is_among : ℕ → List TimeoutData → Bool
is_among k [] = false
is_among k (d ∷ ds) = k == key d.remote_id d.seq_num || is_among k ds

-- How `Add` changes what is pending.
pub add_pending :
    (now s i j : ℕ) (m : Monitor)
    → 0 < m.max_pending
    → ((add now s i m).0 ≡ added
        → has j (add now s i m).1.pending ≡ (if j == key i s then true else has j m.pending))
      × ((add now s i m).0 ≢ added → (add now s i m).1 ≡ m)
      × ((add now s i m).1.max_pending ≡ m.max_pending)
unfolding add
add_pending now s i j m h = ground (
  arith,
  lookup-insert (key i s) j (record { remote_id = i; seq_num = s; time_stamp = now }) m.pending,
)

pub cancel_pending :
    (s i j : ℕ) (m : Monitor)
    → (has j (cancel s i m).1.pending ≡ (if j == key i s then false else has j m.pending))
      × ((cancel s i m).1.max_pending ≡ m.max_pending)
unfolding cancel
cancel_pending s i j m = ground (arith, lookup-erase (key i s) j m.pending)

abbrev pub IsKeyedHeader : ℕ → DmqHeader → Type 0
IsKeyedHeader k h = (k ≡ header_key h) × (h.id < 2 ^ 16) × (h.seq_num < 2 ^ 16)

pub lookup-IsKeyed :
    (k : ℕ) (m : Map TimeoutData) {d : TimeoutData}
    → All IsKeyed m
    → lookup k m ≡ some d
    → IsKeyed (k, d)
unfolding lookup
lookup-IsKeyed k [] a e = cc
lookup-IsKeyed k ((j, x) ∷ m) {d} a e = ground (arith, a.0, lookup-IsKeyed k m {d = d} a.1)

-- The message that `Remove` finds, if any, is the one entry that it takes off the map.
abbrev pub Found : ℕ → ℕ → Option (TimeoutData × Map TimeoutData) → Type 0
Found s j none = Unit {0}
Found s j (some r) = (has j r.1 ≡ true) ⊎ (j ≡ key r.0.remote_id s)

pub remove_seq-Found :
    (s j : ℕ) (m : Map TimeoutData) → All IsKeyed m → has j m ≡ true → Found s j (remove_seq s m)
unfolding remove_seq lookup
remove_seq-Found s j [] a h = tt
remove_seq-Found s j ((k, x) ∷ m) a h = ground (arith, a.0, remove_seq-Found s j m a.1)

pub remove_pending :
    (s i j : ℕ) (m : Monitor) {d : TimeoutData}
    → s < 2 ^ 16
    → i < 2 ^ 16
    → All IsKeyed m.pending
    → (remove s i m).0 ≡ some d
    → has j m.pending ≡ true
    → (has j (remove s i m).1.pending ≡ true) ⊎ (j ≡ key d.remote_id s)
unfolding remove
remove_pending s i j m {d} hs hi a e h = ground (
  arith,
  remove_seq-Found s j m.pending a h,
  lookup-IsKeyed (key i s) m.pending {d = d} a,
  lookup-erase (key i s) j m.pending,
)

pub max_pending-remove : (s i : ℕ) (m : Monitor) → (remove s i m).1.max_pending ≡ m.max_pending
unfolding remove
max_pending-remove s i m = ground arith
