-- ===== src/Prelude/Distinct.antt =====
-- Lists of numbers without repetitions.
use Prim.Native.Nat.{ℕ}
use mathlib.Core.Path.{◌≡◌}
use mathlib.Core.List.{List, [], ◌∷◌}
use mathlib.Core.Bool.{Bool, false}
use native.Mathlib.Omega.{arith}
use async_http.Prelude.Tests.{◌==◌, if◌then◌else◌}
use async_http.Prelude.Lists.{contains, erase_first, keep_if}

abbrev pub IsDistinct : List ℕ → Type 0
IsDistinct [] = Unit {0}
IsDistinct (i ∷ is) = (contains i is ≡ false) × IsDistinct is

pub contains-erase_first :
    (i j : ℕ) (xs : List ℕ)
    → IsDistinct xs
    → contains j (erase_first i xs) ≡ (if j == i then false else contains j xs)
contains-erase_first i j [] d = ground arith
contains-erase_first i j (x ∷ xs) d = ground (arith, contains-erase_first i j xs d.1)

pub erase_first-IsDistinct : (i : ℕ) (xs : List ℕ) → IsDistinct xs → IsDistinct (erase_first i xs)
erase_first-IsDistinct i [] d = tt
erase_first-IsDistinct i (x ∷ xs) d =
    ground (arith, erase_first-IsDistinct i xs d.1, contains-erase_first i x xs d.1)

pub contains-keep_if :
    (p : ℕ → Bool) (j : ℕ) (xs : List ℕ)
    → contains j (keep_if p xs) ≡ (if p j then contains j xs else false)
contains-keep_if p j [] = ground arith
contains-keep_if p j (x ∷ xs) = ground (arith, contains-keep_if p j xs)

pub keep_if-IsDistinct : (p : ℕ → Bool) (xs : List ℕ) → IsDistinct xs → IsDistinct (keep_if p xs)
keep_if-IsDistinct p [] d = tt
keep_if-IsDistinct p (x ∷ xs) d =
    ground (arith, keep_if-IsDistinct p xs d.1, contains-keep_if p x xs)
