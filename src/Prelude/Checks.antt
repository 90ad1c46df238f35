-- ===== src/Prelude/Checks.antt =====
-- Tests of every number below a bound.
use Prim.Native.Nat.{ℕ, zero, suc, ◌<◌}
use mathlib.Core.Path.{◌≡◌, ap}
use mathlib.Core.Logic.{inl, inr}
use mathlib.Core.Bool.{Bool, true, false}
use native.Mathlib.Omega.{arith}
use async_http.Prelude.Tests.{◌==◌, ==_iff, Bool-cases, if◌then◌else◌}

unfoldable pub holds_below : (ℕ → Bool) → ℕ → Bool
holds_below test zero = true
holds_below test (suc n) = if test n then holds_below test n else false

pub holds_at : (test : ℕ → Bool) (n i : ℕ) → holds_below test n ≡ true → i < n → test i ≡ true
unfolding holds_below
holds_at test (suc n) i h below =
    let rest : i < n → test i ≡ true = holds_at test n i (ground (arith, h)) in
    elim (Bool-cases (i == n)) [
      | inl last ↦ ground (arith, h, ap test ((==_iff i n).0 last))
      | inr earlier ↦ rest (ground (arith, earlier, below))
    ]
holds_at test zero i h below = elim below [ ]
