-- ===== src/Reliable/Failure/Process.antt =====
-- RetryMonitor.h on a TransportMonitor whose Process is called from time to time: a message that is
-- never acknowledged is given up, and reported once.
use async_http.Prelude.{
  ℕ, zero, suc, ◌+◌, ◌*◌, ◌<◌, ◌≡◌, refl, sym, ap, ◌∙◌, subst, inl, inr, true, Option, some, none,
  List, [], ◌∷◌, arith, length, Bool-cases, Option-cases, ◌==◌,
}
use async_http.Prelude.Maps.{lookup}
use async_http.Reliable.Monitor.{is_expired, pass, max_timer_expired}
use async_http.Reliable.Retry.{DmqHeader, RetryEntry, Link, process_round, process}
use async_http.Reliable.Tracked.{IsWatched}
use async_http.Reliable.Tracked.Rounds.{process_round-IsWatched, process-IsWatched}
use async_http.Reliable.Drain.{overdue-le, late, process_drains}
use async_http.Reliable.Failure.{failures, Stored, Gone}
use async_http.Reliable.Failure.Stamps.{
  Stamped, Stamped-le, lookup-Stamped, Keeps, also, same, process_round-Keeps,
}
use async_http.Reliable.Failure.Expired.{
  Outcome, Outcome-also, same-Outcome, round_outcome, round-Stays, overdue-lookup,
}

-- The times are later than a time, and each by more than the timeout than the one before.
abbrev pub IsSpaced : ℕ → ℕ → List ℕ → Type 0
IsSpaced timeout t [] = Unit {0}
IsSpaced timeout t (now ∷ times) = (t + timeout < now) × IsSpaced timeout now times

module _ {W : Type 0} (send : List ℕ → DmqHeader → W → ℕ × W) where
  -- What holds after the rounds of a call of Process holds after the call.
  process_rule :
      (now : ℕ) (P : Link W → Type 0)
      → ((l : Link W) → P l → P (process_round send now l))
      → (fuel : ℕ) (l l' : Link W) → process send fuel (λ _. now) l ≡ some l'
      → P l
      → P l'
  unfolding process
  process_rule now P step zero l l' e h = cc
  process_rule now P step (suc fuel) l l' e h = elim (Bool-cases (length l.monitor.pending == 0)) [
    | inl empty ↦ subst P (ground arith) h
    | inr busy ↦ elim (Bool-cases (length (pass now l.monitor).expired == max_timer_expired)) [
      | inl more ↦
          process_rule now P step fuel (process_round send now l) l' (ground arith) (step l h)
      | inr last ↦ subst P (ground arith) (step l h)
    ]
  ]

  -- Process is called at each of the times, with fuel for its rounds.
  abbrev pub process_each : ℕ → List ℕ → Link W → Option (Link W)
  process_each fuel [] l = some l
  process_each fuel (now ∷ times) l = elim (process send fuel (λ _. now) l) [
    | none ↦ none
    | some l' ↦ process_each fuel times l'
  ]

  module _ (k : ℕ) where
    -- From one state to another the message has been given up, or is held.
    record IsReported (e : RetryEntry) (n : ℕ) (start l : Link W) : Type 0 where
      watched : IsWatched [] l
      outcome : Outcome k e n (lookup k l.monitor.pending ≡ lookup k start.monitor.pending) l

    process-IsReported :
        (now fuel : ℕ) (e : RetryEntry) (n : ℕ) (l l' : Link W)
        → IsWatched [] l
        → Stored k e l
        → failures k l.log ≡ n
        → process send fuel (λ _. now) l ≡ some l'
        → IsReported e n l l'
    process-IsReported now fuel e n l l' v st f h =
        process_rule now (IsReported e n l)
          (λ x r.
            let y = process_round send now x in
            record {
              watched = process_round-IsWatched send now x r.watched;
              outcome =
                  Outcome-also k e n (lookup k x.monitor.pending ≡ lookup k l.monitor.pending)
                    (lookup k y.monitor.pending ≡ lookup k x.monitor.pending)
                    (lookup k y.monitor.pending ≡ lookup k l.monitor.pending) x y (λ a b. b ∙ a)
                    r.outcome (round-Stays k send now (n + 1) x r.watched)
                    (λ a st' f'.
                      round_outcome k send now (record e { attempts_remaining = a }) n x r.watched
                        st' f');
            })
          fuel l l' h
          (record { watched = v; outcome = same-Outcome k e n _ l l (refl, refl, refl) refl st f })

    record IsGone (n : ℕ) (l : Link W) : Type 0 where
      watched : IsWatched [] l
      gone : Gone k n l

    process-IsGone :
        (now fuel n : ℕ) (l l' : Link W)
        → IsGone n l
        → process send fuel (λ _. now) l ≡ some l'
        → IsGone n l'
    process-IsGone now fuel n l l' g h =
        process_rule now (IsGone n)
          (λ x r. record {
            watched = process_round-IsWatched send now x r.watched;
            gone = round-Stays k send now n x r.watched r.gone;
          })
          fuel l l' h g

    -- A call after the timeout of a stored message reports it.
    process_expires :
        (now fuel t : ℕ) (e : RetryEntry) (n : ℕ) (l l' : Link W)
        → IsWatched [] l
        → Stored k e l
        → failures k l.log ≡ n
        → Stamped t l.monitor.pending
        → t + l.monitor.transport_timeout < now
        → process send fuel (λ _. now) l ≡ some l'
        → Keeps now l.monitor l'.monitor
        → late now l' ≡ 0
        → Outcome k e n ⊥ l'
    process_expires now fuel t e n l l' v st f stamped after h keeps clear =
        let r = process-IsReported now fuel e n l l' v st f h in
        elim r.outcome [
          | inl g ↦ inl g
          | inr (a, le, st', f', rest) ↦ elim rest [
            | inl less ↦ inr (a, le, st', f', inl less)
            | inr same ↦ elim (Option-cases (lookup k l'.monitor.pending)) [
              | inl absent ↦
                  let w = r.watched.watched k (ground (arith, st'.0)) in
                  absurd (let f : ⊥ = ground (arith, w, absent) in f)
              | inr (d, there) ↦
                  let stamp = lookup-Stamped t k l.monitor.pending d stamped (sym same ∙ there) in
                  let old : is_expired l'.monitor.transport_timeout now d ≡ true =
                    ground (arith, stamp, after, keeps.2) in
                  let some_late =
                    overdue-lookup k l'.monitor.transport_timeout now l'.monitor.pending d there
                      old in
                  absurd (omega (arith, some_late, clear))
            ]
          ]
        ]

    process-Keeps :
        (now fuel : ℕ) (l l' : Link W)
        → process send fuel (λ _. now) l ≡ some l'
        → Keeps now l.monitor l'.monitor
    process-Keeps now fuel l l' h =
        process_rule now (λ x. Keeps now l.monitor x.monitor)
          (λ x r.
            also now l.monitor x.monitor (process_round send now x).monitor r
              (process_round-Keeps send now x))
          fuel l l' h (same now l.monitor)

    enough_fuel :
        (now fuel : ℕ) (l : Link W)
        → IsWatched [] l
        → l.monitor.max_pending < max_timer_expired * fuel
        → late now l < max_timer_expired * fuel
    enough_fuel now fuel l v room =
        omega (
          arith,
          v.valid.bounded,
          room,
          overdue-le l.monitor.transport_timeout now l.monitor.pending,
        )

    process_each-IsGone :
        (fuel n : ℕ) (times : List ℕ) (l : Link W)
        → IsGone n l
        → l.monitor.max_pending < max_timer_expired * fuel
        → (l' : Link W) × (process_each fuel times l ≡ some l') × Gone k n l'
    process_each-IsGone fuel n [] l g room = (l, refl, g.gone)
    process_each-IsGone fuel n (now ∷ times) l g room =
        let (x, h, clear) =
          process_drains send now fuel l (enough_fuel now fuel l g.watched room) in
        let keeps = process-Keeps now fuel l x h in
        let (l', h', g') =
          process_each-IsGone fuel n times x (process-IsGone now fuel n l x g h)
            (omega (arith, keeps.1, room)) in
        (l', rw (h, process_each) h', g')

    -- A message that is stored and was sent, on a link whose stored packets are watched since `t`
    -- at the latest, is never acknowledged, and Process is called at times that lie more than the
    -- timeout apart, more often than the message has retries left. Then all the calls return, the
    -- packet is dropped from the store, and OnDeliveryFailed has been emitted for it exactly once,
    -- whatever the transport answers to the retransmissions, and whatever other messages are in
    -- flight and time out. The fuel is enough for as many messages as the monitor watches at most.
    pub process_each_gives_up :
        (fuel t : ℕ) (times : List ℕ) (e : RetryEntry) (l : Link W)
        → IsWatched [] l
        → Stamped t l.monitor.pending
        → lookup k l.retry_store ≡ some e
        → e.is_sent ≡ true
        → l.monitor.max_pending < max_timer_expired * fuel
        → IsSpaced l.monitor.transport_timeout t times
        → e.attempts_remaining < length times
        → (l' : Link W) × (process_each fuel times l ≡ some l')
          × (lookup k l'.retry_store ≡ none)
          × (failures k l'.log ≡ failures k l.log + 1)
    process_each_gives_up fuel t [] e l v stamped found sent room spaced few =
        absurd (omega (arith, few))
    process_each_gives_up fuel t (now ∷ times) e l v stamped found sent room spaced few =
        let (x, h, clear) = process_drains send now fuel l (enough_fuel now fuel l v room) in
        let keeps = process-Keeps now fuel l x h in
        let watched = process-IsWatched send fuel (λ _. now) l v h in
        let room' : x.monitor.max_pending < max_timer_expired * fuel =
          omega (arith, keeps.1, room) in
        let o =
          process_expires now fuel t e (failures k l.log) l x v (found, sent) refl stamped spaced.0
            h keeps clear in
        elim o [
          | inl g ↦
              let (l', h', g') =
                process_each-IsGone fuel (failures k l.log + 1) times x
                  (record { watched = watched; gone = g }) room' in
              (l', rw (h, process_each) h', g'.0, g'.1)
          | inr (a, le, st, f, less) ↦
              let fewer : a < e.attempts_remaining = ground (arith, less) in
              let early = Stamped-le t now l.monitor.pending (omega (arith, spaced.0)) stamped in
              let (l', h', gone, once) =
                process_each_gives_up fuel now times (record e { attempts_remaining = a }) x watched
                  (keeps.0 early) st.0 sent room'
                  (subst (λ timeout. IsSpaced timeout now times) (sym keeps.2) spaced.1)
                  (omega (arith, fewer, few)) in
              (l', rw (h, process_each) h', gone, once ∙ ap (λ i. i + 1) f)
        ]
