-- ===== src/Prelude/Erased.antt =====
-- A pointer to void with the type that its object was made with, and a record of static casts.
use Prim.Native.Nat.{ℕ}
use mathlib.Core.Path.{◌≡◌}
use mathlib.Core.List.{List}
use async_http.Prelude.Lists.{All}

-- Types are numbers, as std::type_index tells them apart.
pub record Erased (A : Type 0) : Type 0 where
  pub made_as : ℕ
  pub object : A

-- A static cast: the type that it is to, and the one that the object was made with.
pub record Cast : Type 0 where
  pub wanted : ℕ
  pub actual : ℕ

-- Every cast is to the type of the object.
abbrev pub AreSafe : List Cast → Type 0
AreSafe = All (λ c. c.wanted ≡ c.actual)
