-- ===== src/Timer/Expiry.antt =====
-- What `CheckExpired` of Timer.cpp decides about one timer.
use async_http.Prelude.{ℕ, ◌+◌, ◌≤◌, ◌≡◌, ◌↔◌, true, false, arith}
use async_http.Timer.{Timer, check_expired}

-- A timer expires exactly when it is enabled and its time has come.
pub check_expired_iff :
    (now : ℕ) (t : Timer)
    → ((check_expired now t).0 ≡ true) ↔ ((t.enabled ≡ true) × (t.expire_time ≤ now))
unfolding check_expired
check_expired_iff now t = (λ h. ground arith, λ h. ground arith)

-- A timer that has expired: a one-shot is disabled; a periodic one stays enabled, and is next due
-- no earlier than now, and within one period of now. One that has not expired is left as it was.
check_expired_next :
    (now : ℕ) (t : Timer)
    → let (expired, t') = check_expired now t in
      (expired ≡ true → t.once ≡ true → (t'.enabled ≡ false) × (t'.expire_time ≡ t.expire_time))
      × (expired ≡ true
          → t.once ≡ false
          → (t'.enabled ≡ true) × (now ≤ t'.expire_time) × (t'.expire_time ≤ now + t.timeout))
      × (expired ≡ false → t' ≡ t)
unfolding check_expired
check_expired_next now t = ground arith
