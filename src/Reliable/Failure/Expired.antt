-- ===== src/Reliable/Failure/Expired.antt =====
-- What a round of TransportMonitor::Process does to a message that RetryMonitor.h stores: the timeout
-- of the message itself, and those of others.
use async_http.Prelude.{
  ℕ, zero, suc, ◌+◌, ◌-◌, ◌≤◌, ◌<◌, ◌≡◌, ◌≢◌, ◌⊎◌, refl, sym, ◌∙◌, subst, inl, inr, true, false,
  some, List, [], ◌∷◌, arith, All, Bool-cases, ==_iff, ◌==◌,
}
use async_http.Prelude.Maps.{Map, lookup}
use async_http.Reliable.Monitor.{
  TimeoutData, timed_out, key, is_expired, scan, pass, max_timer_expired,
}
use async_http.Reliable.Monitor.Bounds.{IsKeyed}
use async_http.Reliable.Retry.{DmqHeader, RetryEntry, Link, notify, notify_all, process_round}
use async_http.Reliable.Pending.{is_among}
use async_http.Reliable.Tracked.{IsWatched, notify-IsWatched}
use async_http.Reliable.Tracked.Rounds.{pass-IsWatched}
use async_http.Reliable.Drain.{overdue, late}
use async_http.Reliable.Failure.{
  failures, Stored, Gone, SameOf, notify_outcome, notify-Gone, notify-SameOf, emit_exceeded-SameOf,
}

-- A walk that does not report a message leaves it on the map as it was.
pub scan-lookup :
    (k room timeout now : ℕ) (m : Map TimeoutData)
    → All IsKeyed m
    → is_among k (scan room timeout now m).0 ≡ false
    → lookup k (scan room timeout now m).1 ≡ lookup k m
unfolding scan lookup
scan-lookup k room timeout now [] v h = refl
scan-lookup k zero timeout now ((j, d) ∷ m) v h = refl
scan-lookup k (suc room) timeout now ((j, d) ∷ m) v h = ground (
  arith,
  v.0,
  h,
  scan-lookup k room timeout now m v.1,
  scan-lookup k (suc room) timeout now m v.1,
)

-- A message that has expired counts as overdue.
pub overdue-lookup :
    (k timeout now : ℕ) (m : Map TimeoutData) (d : TimeoutData)
    → lookup k m ≡ some d
    → is_expired timeout now d ≡ true
    → 0 < overdue timeout now m
unfolding lookup
overdue-lookup k timeout now [] d e h = cc
overdue-lookup k timeout now ((j, x) ∷ m) d e h =
    ground (arith, e, h, overdue-lookup k timeout now m d)

module _ {W : Type 0} (k : ℕ) where
  -- A message that is still stored, with fewer retries left or otherwise as `Rest` says.
  abbrev pub Held : RetryEntry → ℕ → Type 0 → Link W → Type 0
  Held e n Rest l =
      (a : ℕ) × (a ≤ e.attempts_remaining)
      × Stored k (record e { attempts_remaining = a }) l
      × (failures k l.log ≡ n)
      × ((a < e.attempts_remaining) ⊎ Rest)

  -- It is given up and reported once, or held.
  abbrev pub Outcome : RetryEntry → ℕ → Type 0 → Link W → Type 0
  Outcome e n Rest l = Gone k (n + 1) l ⊎ Held e n Rest l

  pub Outcome-also :
      (e : RetryEntry) (n : ℕ) (P Q R : Type 0) (l l' : Link W)
      → (P → Q → R)
      → Outcome e n P l
      → (Gone k (n + 1) l → Gone k (n + 1) l')
      → ((a : ℕ)
          → Stored k (record e { attempts_remaining = a }) l
          → failures k l.log ≡ n
          → Outcome (record e { attempts_remaining = a }) n Q l')
      → Outcome e n R l'
  Outcome-also e n P Q R l l' both o gone held = elim o [
    | inl g ↦ inl (gone g)
    | inr (a, le, st, f, rest) ↦ elim (held a st f) [
      | inl g ↦ inl g
      | inr (b, le', st', f', rest') ↦ elim rest [
        | inl less ↦ inr (b, omega (arith, le, le'), st', f', inl (omega (arith, less, le')))
        | inr p ↦ elim rest' [
          | inl less ↦ inr (b, omega (arith, le, le'), st', f', inl (omega (arith, less, le)))
          | inr q ↦ inr (b, omega (arith, le, le'), st', f', inr (both p q))
        ]
      ]
    ]
  ]

  same-Gone : (n : ℕ) (l l' : Link W) → SameOf k l l' → Gone k n l → Gone k n l'
  same-Gone n l l' same g = (same.0 ∙ g.0, same.1 ∙ g.1)

  pub same-Outcome :
      (e : RetryEntry) (n : ℕ) (Rest : Type 0) (l l' : Link W)
      → SameOf k l l'
      → Rest
      → Stored k e l
      → failures k l.log ≡ n
      → Outcome e n Rest l'
  same-Outcome e n Rest l l' same rest st f =
      inr (e.attempts_remaining, omega arith, (same.0 ∙ st.0, st.1), same.1 ∙ f, inr rest)

  module _ (send : List ℕ → DmqHeader → W → ℕ × W) (now : ℕ) where
    -- A timeout that is reported, of this message or of another one.
    notify_one :
        (d : TimeoutData) (late : List TimeoutData) (e : RetryEntry) (n : ℕ) (l : Link W)
        → IsWatched (d ∷ late) l
        → Stored k e l
        → failures k l.log ≡ n
        → let l' = notify send now timed_out d.remote_id d.seq_num l in
          Outcome e n
            ((k == key d.remote_id d.seq_num ≡ false)
              × (lookup k l'.monitor.pending ≡ lookup k l.monitor.pending))
            l'
    notify_one d late e n l v st f =
        let j = key d.remote_id d.seq_num in
        let l' = notify send now timed_out d.remote_id d.seq_num l in
        let Rest : Type 0 =
          (k == j ≡ false) × (lookup k l'.monitor.pending ≡ lookup k l.monitor.pending) in
        elim (Bool-cases (k == j)) [
          | inl mine ↦
              let here : k ≡ j = (==_iff k j).0 mine in
              let st' : Stored j e l = subst (λ i. Stored i e l) here st in
              elim (notify_outcome send now d.remote_id d.seq_num e l st') [
                | inl g ↦ inl (
                    subst (λ m. Gone k (m + 1) l') f
                      (subst (λ i. Gone i (failures i l.log + 1) l') (sym here) g))
                | inr (more, left, same) ↦ inr (
                  e.attempts_remaining - 1,
                  omega arith,
                  subst
                      (λ i.
                        Stored i (record e { attempts_remaining = e.attempts_remaining - 1 }) l')
                      (sym here) left,
                  subst (λ i. failures i l'.log ≡ failures i l.log) (sym here) same ∙ f,
                  inl (omega (arith, more)),
                )
              ]
          | inr differ ↦
              let other : j ≢ k = ground arith in
              let same =
                notify-SameOf k send now d.remote_id d.seq_num other l
                  (λ x g. let q = v.keyed j x g in ground (arith, q.0, other)) in
              same-Outcome e n Rest l l' same (differ, same.2) st f
        ]

    -- It stays given up.
    notify-Stays :
        (d : TimeoutData) (late : List TimeoutData) (n : ℕ) (l : Link W)
        → IsWatched (d ∷ late) l
        → Gone k n l
        → Gone k n (notify send now timed_out d.remote_id d.seq_num l)
    notify-Stays d late n l v g =
        let j = key d.remote_id d.seq_num in
        elim (Bool-cases (k == j)) [
          | inl mine ↦
              let here : k ≡ j = (==_iff k j).0 mine in
              subst (λ i. Gone i n (notify send now timed_out d.remote_id d.seq_num l)) (sym here)
                (notify-Gone send now d.remote_id d.seq_num n l (subst (λ i. Gone i n l) here g))
          | inr differ ↦
              let other : j ≢ k = ground arith in
              same-Gone n l (notify send now timed_out d.remote_id d.seq_num l)
                (notify-SameOf k send now d.remote_id d.seq_num other l
                  (λ x g. let q = v.keyed j x g in ground (arith, q.0, other)))
                g
        ]

    notify_all-Stays :
        (ds : List TimeoutData) (n : ℕ) (l : Link W)
        → IsWatched ds l
        → Gone k n l
        → Gone k n (notify_all send now ds l)
    unfolding notify_all
    notify_all-Stays [] n l v g = g
    notify_all-Stays (d ∷ ds) n l v g =
        notify_all-Stays ds n (notify send now timed_out d.remote_id d.seq_num l)
          (notify-IsWatched send now d ds l v) (notify-Stays d ds n l v g)

    notify_each :
        (ds : List TimeoutData) (e : RetryEntry) (n : ℕ) (l : Link W)
        → IsWatched ds l
        → Stored k e l
        → failures k l.log ≡ n
        → let l' = notify_all send now ds l in
          Outcome e n
            ((is_among k ds ≡ false) × (lookup k l'.monitor.pending ≡ lookup k l.monitor.pending))
            l'
    unfolding notify_all
    notify_each [] e n l v st f = same-Outcome e n _ l l (refl, refl, refl) (refl, refl) st f
    notify_each (d ∷ ds) e n l v st f =
        let l1 = notify send now timed_out d.remote_id d.seq_num l in
        let l2 = notify_all send now ds l1 in
        let v1 = notify-IsWatched send now d ds l v in
        Outcome-also e n
          ((k == key d.remote_id d.seq_num ≡ false)
            × (lookup k l1.monitor.pending ≡ lookup k l.monitor.pending))
          ((is_among k ds ≡ false) × (lookup k l2.monitor.pending ≡ lookup k l1.monitor.pending))
          ((is_among k (d ∷ ds) ≡ false)
            × (lookup k l2.monitor.pending ≡ lookup k l.monitor.pending))
          l1 l2 (λ p q. (ground (arith, p.0, q.0), q.1 ∙ p.1)) (notify_one d ds e n l v st f)
          (notify_all-Stays ds (n + 1) l1 v1)
          (λ a st' f'. notify_each ds (record e { attempts_remaining = a }) n l1 v1 st' f')

    -- One round of Process: the message is given up, or has a retry less, or stays as it was.
    pub round_outcome :
        (e : RetryEntry) (n : ℕ) (l : Link W)
        → IsWatched [] l
        → Stored k e l
        → failures k l.log ≡ n
        → let l' = process_round send now l in
          Outcome e n (lookup k l'.monitor.pending ≡ lookup k l.monitor.pending) l'
    unfolding process_round pass
    round_outcome e n l v st f =
        let p = pass now l.monitor in
        let l1 : Link W = record l { monitor = p.monitor } in
        let l2 = notify_all send now p.expired l1 in
        let l3 = process_round send now l in
        let end : SameOf k l2 l3 = emit_exceeded-SameOf k p.exceeded l2 in
        Outcome-also e n
          ((is_among k p.expired ≡ false)
            × (lookup k l2.monitor.pending ≡ lookup k p.monitor.pending))
          (lookup k l3.monitor.pending ≡ lookup k l2.monitor.pending)
          (lookup k l3.monitor.pending ≡ lookup k l.monitor.pending) l2 l3
          (λ a b.
            b
            ∙ a.1
            ∙ scan-lookup k max_timer_expired l.monitor.transport_timeout now l.monitor.pending
                v.valid.keyed a.0)
          (notify_each p.expired e n l1 (pass-IsWatched send now l v) st f)
          (same-Gone (n + 1) l2 l3 end)
          (λ a st' f'.
            same-Outcome (record e { attempts_remaining = a }) n _ l2 l3 end end.2 st' f')

    pub round-Stays :
        (n : ℕ) (l : Link W) → IsWatched [] l → Gone k n l → Gone k n (process_round send now l)
    unfolding process_round
    round-Stays n l v g =
        let p = pass now l.monitor in
        let l1 : Link W = record l { monitor = p.monitor } in
        let l2 = notify_all send now p.expired l1 in
        same-Gone n l2 (process_round send now l) (emit_exceeded-SameOf k p.exceeded l2)
          (notify_all-Stays p.expired n l1 (pass-IsWatched send now l v) g)
