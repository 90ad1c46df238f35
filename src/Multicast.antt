-- ===== src/Multicast.antt =====
-- DelegateMQ/delegate/MulticastDelegate.h: the list of delegates, and broadcasts that callbacks change.
-- `same` is operator== of delegates; a clone is the delegate. The class is not for several threads:
-- a history is a list of events, and what a callback does are the events between two visits of its
-- broadcast. An iterator of std::list, where nothing is erased, is the number of entries before it.
pub mod Tidy
pub mod Sound
pub mod Live
pub mod Calls
pub mod Safe
use async_http.Prelude.{
  ℕ, zero, suc, ◌+◌, ◌-◌, Bool, true, false, ◌&&◌, not, Option, none, some, List, [], ◌∷◌, ◌++◌,
  map, ltb, ◌==◌, if◌then◌else◌, length,
}

pub record Multicast (D : Type 0) : Type 0 where
  pub delegates : List (Option D)
  pub broadcast_count : ℕ
  pub cleanup : Bool

abbrev pub is_null : {D : Type 0} → Option D → Bool
is_null none = true
is_null (some d) = false

module _ {D : Type 0} (same : D → D → Bool) where
  -- The test of `find_if` in MulticastRemove.
  abbrev pub matches : D → Option D → Bool
  matches d none = false
  matches d (some e) = same e d

  -- `it->reset()` and `erase(it)` at the first match, if there is one.
  unfoldable pub reset_first : D → List (Option D) → List (Option D)
  reset_first d [] = []
  reset_first d (x ∷ xs) = if matches d x then none ∷ xs else x ∷ reset_first d xs

  unfoldable pub erase_first : D → List (Option D) → List (Option D)
  erase_first d [] = []
  erase_first d (x ∷ xs) = if matches d x then xs else x ∷ erase_first d xs

  unfoldable pub found : D → List (Option D) → Bool
  found d [] = false
  found d (x ∷ xs) = if matches d x then true else found d xs

  -- MulticastRemove
  unfoldable pub remove : D → Multicast D → Multicast D
  unfolding reset_first erase_first found
  remove d m =
      if not (found d m.delegates)
      then m
      else if ltb 0 m.broadcast_count
      then record m { delegates = reset_first d m.delegates; cleanup = true }
      else record m { delegates = erase_first d m.delegates }

module _ {D : Type 0} where
  -- MulticastPushBack
  unfoldable pub push_back : D → Multicast D → Multicast D
  push_back d m = record m { delegates = m.delegates ++ (some d ∷ []) }

  -- MulticastClear
  unfoldable pub reset_all : List (Option D) → List (Option D)
  reset_all [] = []
  reset_all (x ∷ xs) = none ∷ reset_all xs

  unfoldable pub clear : Multicast D → Multicast D
  unfolding reset_all
  clear m =
      if ltb 0 m.broadcast_count
      then record m { delegates = reset_all m.delegates; cleanup = true }
      else record m { delegates = [] }

  -- `remove_if` of the null pointers.
  unfoldable pub drop_nulls : List (Option D) → List (Option D)
  drop_nulls [] = []
  drop_nulls (x ∷ xs) = if is_null x then drop_nulls xs else x ∷ drop_nulls xs

  -- MulticastCopyFrom into a list.
  unfoldable pub copy_from : List (Option D) → List (Option D) → List (Option D)
  unfolding drop_nulls
  copy_from dest src = dest ++ drop_nulls src

  -- Copy assignment and move assignment from another container's list.
  unfoldable pub assign : List (Option D) → Multicast D → Multicast D
  unfolding clear copy_from
  assign src m = let c = clear m in record c { delegates = copy_from c.delegates src }

  unfoldable pub move_assign : List (Option D) → Multicast D → Multicast D
  unfolding clear
  move_assign src m =
      let c = clear m in
      if ltb 0 m.broadcast_count
      then record c { delegates = c.delegates ++ src }
      else record c { delegates = src }

  -- The constructor and the destructor of BroadcastGuard.
  unfoldable pub enter : Multicast D → Multicast D
  enter m = record m { broadcast_count = m.broadcast_count + 1 }

  unfoldable pub leave : Multicast D → Multicast D
  unfolding drop_nulls
  leave m =
      let left = m.broadcast_count - 1 in
      if left == 0 && m.cleanup
      then record { delegates = drop_nulls m.delegates; broadcast_count = left; cleanup = false }
      else record m { broadcast_count = left }

  -- What an iterator reads: nothing at the end.
  unfoldable pub entry : List (Option D) → ℕ → Option (Option D)
  entry [] i = none
  entry (x ∷ xs) zero = some x
  entry (x ∷ xs) (suc i) = entry xs i

-- A container, the iterators of its broadcasts, the innermost first, and the calls made so far.
pub record Run (D : Type 0) : Type 0 where
  pub container : Multicast D
  pub iterators : List ℕ
  pub calls : List D

-- A list that is moved or copied in has no null pointers: its container is in no broadcast.
pub data Event (D : Type 0) : Type 0 where
  pushed removed : D → Event D
  cleared began advanced : Event D
  assigned moved : List D → Event D

module _ {D : Type 0} where
  -- The innermost broadcast reads its iterator: it calls the delegate, passes over a null pointer, or
  -- is at the end.
  unfoldable pub advance : ℕ → List ℕ → Run D → Run D
  unfolding entry leave
  advance i outer r = elim (entry r.container.delegates i) [
    | none ↦ record r { container = leave r.container; iterators = outer }
    | some none ↦ record r { iterators = (i + 1) ∷ outer }
    | some (some d) ↦ record r { iterators = (i + 1) ∷ outer; calls = r.calls ++ (d ∷ []) }
  ]

  -- An advance with no broadcast is no event.
  unfoldable pub advance_innermost : List ℕ → Run D → Run D
  unfolding advance
  advance_innermost [] r = r
  advance_innermost (i ∷ outer) r = advance i outer r

  unfoldable pub step : (D → D → Bool) → Event D → Run D → Run D
  unfolding push_back remove clear enter assign move_assign advance_innermost
  step same (pushed d) r = record r { container = push_back d r.container }
  step same (removed d) r = record r { container = remove same d r.container }
  step same cleared r = record r { container = clear r.container }
  step same (assigned src) r = record r { container = assign (map some src) r.container }
  step same (moved src) r = record r { container = move_assign (map some src) r.container }
  step same began r = record r { container = enter r.container; iterators = 0 ∷ r.iterators }
  step same advanced r = advance_innermost r.iterators r

  unfoldable pub run : (D → D → Bool) → List (Event D) → Run D → Run D
  unfolding step
  run same [] r = r
  run same (e ∷ es) r = run same es (step same e r)

  abbrev pub fresh : Run D
  fresh = record {
    container = record { delegates = []; broadcast_count = 0; cleanup = false };
    iterators = [];
    calls = [];
  }
