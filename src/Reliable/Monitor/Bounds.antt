-- ===== src/Reliable/Monitor/Bounds.antt =====
-- The map of pending messages in TransportMonitor.h: its keys and its size.
use async_http.Prelude.{
  ℕ, zero, suc, ◌+◌, ◌^◌, ◌≤◌, ◌<◌, ◌≡◌, refl, Option, some, none, [], ◌∷◌, arith, length, All,
}
use async_http.Prelude.Maps.{Map, insert, erase, length-insert-le, length-erase-le}
use async_http.Reliable.Monitor.{
  Monitor, TimeoutData, key, add, remove_seq, remove, cancel, scan, pass, max_timer_expired,
}

-- Two pairs of a 16-bit id and a 16-bit sequence number with the same key are the same.
pub key_injective :
    (a b s t : ℕ)
    → a < 2 ^ 16
    → b < 2 ^ 16
    → s < 2 ^ 16
    → t < 2 ^ 16
    → key a s ≡ key b t
    → (a ≡ b) × (s ≡ t)
key_injective a b s t ha hb hs ht e = omega arith

-- An entry stands under the key of its message, whose id and sequence number have 16 bits.
abbrev pub IsKeyed : ℕ × TimeoutData → Type 0
IsKeyed e =
    (e.0 ≡ key e.1.remote_id e.1.seq_num) × (e.1.remote_id < 2 ^ 16) × (e.1.seq_num < 2 ^ 16)

pub record IsValid (m : Monitor) : Type 0 where
  pub keyed : All IsKeyed m.pending
  pub bounded : length m.pending ≤ m.max_pending

insert-All :
    (k : ℕ) (d : TimeoutData) (m : Map TimeoutData)
    → IsKeyed (k, d)
    → All IsKeyed m
    → All IsKeyed (insert k d m)
unfolding insert
insert-All k d [] h v = (h, tt)
insert-All k d ((j, e) ∷ m) h v = ground (arith, insert-All k d m h v.1)

erase-All : (k : ℕ) (m : Map TimeoutData) → All IsKeyed m → All IsKeyed (erase k m)
unfolding erase
erase-All k [] v = tt
erase-All k ((j, e) ∷ m) v = ground (arith, erase-All k m v.1)

abbrev Kept : ℕ → Option (TimeoutData × Map TimeoutData) → Type 0
Kept n none = Unit {0}
Kept n (some r) = All IsKeyed r.1 × (length r.1 ≤ n)

remove_seq-Kept : (s : ℕ) (m : Map TimeoutData) → All IsKeyed m → Kept (length m) (remove_seq s m)
unfolding remove_seq
remove_seq-Kept s [] v = tt
remove_seq-Kept s ((k, x) ∷ m) v = ground (arith, remove_seq-Kept s m v.1)

scan-All :
    (room timeout now : ℕ) (m : Map TimeoutData)
    → All IsKeyed m
    → All IsKeyed (scan room timeout now m).1
unfolding scan
scan-All room timeout now [] v = tt
scan-All zero timeout now ((k, d) ∷ m) v = v
scan-All (suc room) timeout now ((k, d) ∷ m) v =
    ground (arith, scan-All room timeout now m v.1, scan-All (suc room) timeout now m v.1)

pub length-scan :
    (room timeout now : ℕ) (m : Map TimeoutData)
    → length (scan room timeout now m).0 + length (scan room timeout now m).1 ≡ length m
unfolding scan
length-scan room timeout now [] = refl
length-scan zero timeout now ((k, d) ∷ m) = omega arith
length-scan (suc room) timeout now ((k, d) ∷ m) =
    ground (arith, length-scan room timeout now m, length-scan (suc room) timeout now m)

pub add-IsValid :
    (now s i : ℕ) {m : Monitor} → s < 2 ^ 16 → i < 2 ^ 16 → IsValid m → IsValid (add now s i m).1
unfolding add
add-IsValid now s i {m} hs hi v = ground (
  arith,
  insert-All (key i s) (record { remote_id = i; seq_num = s; time_stamp = now }) m.pending
      (refl, hi, hs) v.keyed,
  length-insert-le (key i s) (record { remote_id = i; seq_num = s; time_stamp = now }) m.pending,
)

pub cancel-IsValid : (s i : ℕ) {m : Monitor} → IsValid m → IsValid (cancel s i m).1
unfolding cancel
cancel-IsValid s i {m} v =
    ground (arith, erase-All (key i s) m.pending v.keyed, length-erase-le (key i s) m.pending)

pub remove-IsValid : (s i : ℕ) {m : Monitor} → IsValid m → IsValid (remove s i m).1
unfolding remove
remove-IsValid s i {m} v = ground (
  arith,
  remove_seq-Kept s m.pending v.keyed,
  erase-All (key i s) m.pending v.keyed,
  length-erase-le (key i s) m.pending,
)

pub pass-IsValid : (now : ℕ) {m : Monitor} → IsValid m → IsValid (pass now m).monitor
unfolding pass
pass-IsValid now {m} v = record {
  keyed = scan-All max_timer_expired m.transport_timeout now m.pending v.keyed;
  bounded =
      omega (arith, length-scan max_timer_expired m.transport_timeout now m.pending, v.bounded);
}
