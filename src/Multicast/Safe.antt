-- ===== src/Multicast/Safe.antt =====
-- DelegateMQ/delegate/MulticastDelegateSafe.h: the container for several threads. Its changes are
-- those of the base class, each under the lock, and it never enters a BroadcastGuard: a broadcast
-- takes a snapshot under the lock and calls it after that.
use async_http.Prelude.{
  ℕ, zero, suc, ◌≤◌, Bool, Option, none, some, List, [], ◌∷◌, ◌≡◌, refl, ap, ◌∙◌, leb,
  if◌then◌else◌, length, arith,
}
use async_http.Multicast.{Multicast, Event, run, fresh}
use async_http.Multicast.Live.{live, live-run, promised_run}

pub record SafeSnapshot (D : Type 0) : Type 0 where
  pub small_buf : List (Option D)
  pub large_buf : List (Option D)
  pub count : ℕ

abbrev sbo_count : ℕ
sbo_count = 8

module _ {D : Type 0} where
  -- The first places of the buffer are written, the others stay null.
  unfoldable pub copy_into : ℕ → List (Option D) → List (Option D)
  copy_into zero ds = []
  copy_into (suc n) [] = none ∷ copy_into n []
  copy_into (suc n) (d ∷ ds) = d ∷ copy_into n ds

  -- MulticastSafeSnapshot
  unfoldable pub safe_snapshot : Multicast D → SafeSnapshot D
  unfolding copy_into
  safe_snapshot m =
      let n = length m.delegates in
      if leb n sbo_count
      then record { small_buf = copy_into sbo_count m.delegates; large_buf = []; count = n }
      else record { small_buf = copy_into sbo_count []; large_buf = m.delegates; count = n }

  -- The loop over the first places of the small buffer.
  unfoldable pub call_first : ℕ → List (Option D) → List D
  call_first zero buf = []
  call_first (suc n) [] = []
  call_first (suc n) (none ∷ buf) = call_first n buf
  call_first (suc n) (some d ∷ buf) = d ∷ call_first n buf

  -- The calls of operator(), in their order.
  unfoldable pub safe_broadcast : Multicast D → List D
  unfolding safe_snapshot call_first
  safe_broadcast m =
      let s = safe_snapshot m in
      if leb s.count sbo_count then call_first s.count s.small_buf else live s.large_buf

  call_first-copy_into :
      (n : ℕ) (ds : List (Option D))
      → length ds ≤ n
      → call_first (length ds) (copy_into n ds) ≡ live ds
  unfolding call_first copy_into
  call_first-copy_into n [] l = refl
  call_first-copy_into zero (d ∷ ds) l = absurd (omega arith)
  call_first-copy_into (suc n) (none ∷ ds) l = call_first-copy_into n ds (omega arith)
  call_first-copy_into (suc n) (some d ∷ ds) l =
      ap (λ r. d ∷ r) (call_first-copy_into n ds (omega arith))

  -- A broadcast calls what the container lists when the snapshot is taken.
  safe_broadcast-live : (m : Multicast D) → safe_broadcast m ≡ live m.delegates
  unfolding safe_broadcast safe_snapshot
  safe_broadcast-live m = ground (arith, call_first-copy_into 8 m.delegates)

  -- After any changes, those are the delegates that a plain list would have.
  safe_broadcast-run :
      (same : D → D → Bool) (es : List (Event D))
      → safe_broadcast (run same es fresh).container ≡ promised_run same es []
  safe_broadcast-run same es =
      safe_broadcast-live (run same es fresh).container ∙ live-run same es fresh
