-- ===== src/Multicast/Tidy.antt =====
-- MulticastDelegate.h: what the operations do to the list, the count and the mark for the purge.
use async_http.Prelude.{
  ℕ, zero, suc, ◌+◌, ◌≤◌, ◌<◌, Bool, false, ◌||◌, Option, some, List, [], ◌∷◌, ◌++◌, ◌≡◌, refl, map,
  inl, inr, Bool-cases, ltb, ltb→lt, length, length-append, All, arith,
}
use async_http.Multicast.{
  Multicast, Run, is_null, reset_first, erase_first, remove, push_back, reset_all, clear,
  drop_nulls, copy_from, assign, move_assign, entry,
}

-- A list that grows keeps the iterators inside.
pub inside_weaken : (is : List ℕ) (m n : ℕ) → m ≤ n → All (λ i. i ≤ m) is → All (λ i. i ≤ n) is
inside_weaken [] m n l a = tt
inside_weaken (i ∷ is) m n l a = (omega (arith, a.0), inside_weaken is m n l a.1)

pub inside_none : (is : List ℕ) (n : ℕ) → length is ≡ 0 → All (λ i. i ≤ n) is
inside_none [] n e = tt
inside_none (i ∷ is) n e = absurd (omega arith)

module _ {D : Type 0} where
  abbrev pub has_null : List (Option D) → Bool
  has_null [] = false
  has_null (x ∷ xs) = is_null x || has_null xs

  pub record IsTidy (m : Multicast D) : Type 0 where
    pub marked : m.cleanup ≡ false → has_null m.delegates ≡ false
    pub purged : m.broadcast_count ≡ 0 → m.cleanup ≡ false

  pub record IsSound (r : Run D) : Type 0 where
    pub counted : length r.iterators ≡ r.container.broadcast_count
    pub tidy : IsTidy r.container
    pub inside : All (λ i. i ≤ length r.container.delegates) r.iterators

  has_null-append : (xs ys : List (Option D)) → has_null (xs ++ ys) ≡ (has_null xs || has_null ys)
  has_null-append [] ys = refl
  has_null-append (x ∷ xs) ys = ground (arith, has_null-append xs ys)

  pub has_null-drop_nulls : (xs : List (Option D)) → has_null (drop_nulls xs) ≡ false
  unfolding drop_nulls
  has_null-drop_nulls [] = refl
  has_null-drop_nulls (x ∷ xs) = ground (arith, has_null-drop_nulls xs)

  has_null-map : (xs : List D) → has_null (map some xs) ≡ false
  has_null-map [] = refl
  has_null-map (x ∷ xs) = has_null-map xs

  length-reset_all : (xs : List (Option D)) → length (reset_all xs) ≡ length xs
  unfolding reset_all
  length-reset_all [] = refl
  length-reset_all (x ∷ xs) = omega (arith, length-reset_all xs)

  pub entry-inside :
      (xs : List (Option D)) (i : ℕ) (x : Option D) → entry xs i ≡ some x → i + 1 ≤ length xs
  unfolding entry
  entry-inside [] i x e = cc
  entry-inside (y ∷ xs) zero x e = omega arith
  entry-inside (y ∷ xs) (suc i) x e = omega (arith, entry-inside xs i x e)

  -- What the operations do to the count and the length.
  abbrev pub Kept : Multicast D → Multicast D → Type 0
  Kept m m' =
      (m'.broadcast_count ≡ m.broadcast_count)
      × (0 < m.broadcast_count → length m.delegates ≤ length m'.delegates)

  -- An operation, which leaves the count alone and, in a broadcast, does not shorten the list.
  pub change-IsSound :
      (m : Multicast D) (r : Run D)
      → IsTidy m
      → m.broadcast_count ≡ r.container.broadcast_count
      → (0 < r.container.broadcast_count → length r.container.delegates ≤ length m.delegates)
      → IsSound r
      → IsSound (record r { container = m })
  change-IsSound m r t e l v = record {
    counted = omega (arith, e, v.counted);
    tidy = t;
    inside = elim (Bool-cases (ltb 0 r.container.broadcast_count)) [
      | inl busy ↦ inside_weaken r.iterators _ _ (l (ltb→lt 0 _ busy)) v.inside
      | inr idle ↦ inside_none r.iterators _ (ground (arith, v.counted, idle))
    ];
  }

  pub push_back-IsTidy : (d : D) (m : Multicast D) → IsTidy m → IsTidy (push_back d m)
  unfolding push_back
  push_back-IsTidy d m t = ground (arith, has_null-append m.delegates (some d ∷ []))

  pub clear-IsTidy : (m : Multicast D) → IsTidy m → IsTidy (clear m)
  unfolding clear
  clear-IsTidy m t = ground arith

  length-clear :
      (m : Multicast D) → 0 < m.broadcast_count → length m.delegates ≤ length (clear m).delegates
  unfolding clear
  length-clear m l = ground (arith, length-reset_all m.delegates)

  clear-idle : (m : Multicast D) → (clear m).broadcast_count ≡ m.broadcast_count
  unfolding clear
  clear-idle m = ground arith

  pub assign-IsTidy : (src : List D) (m : Multicast D) → IsTidy m → IsTidy (assign (map some src) m)
  unfolding assign copy_from
  assign-IsTidy src m t = ground (
    arith,
    clear-IsTidy m t,
    has_null-append (clear m).delegates (drop_nulls (map some src)),
    has_null-drop_nulls (map some src),
  )

  pub move_assign-IsTidy :
      (src : List D) (m : Multicast D) → IsTidy m → IsTidy (move_assign (map some src) m)
  unfolding move_assign
  move_assign-IsTidy src m t = ground (
    arith,
    clear-IsTidy m t,
    has_null-append (clear m).delegates (map some src),
    has_null-map src,
  )

  pub push_back-Kept : (d : D) (m : Multicast D) → Kept m (push_back d m)
  unfolding push_back
  push_back-Kept d m = (refl, λ l. omega (arith, length-append m.delegates (some d ∷ [])))

  pub clear-Kept : (m : Multicast D) → Kept m (clear m)
  clear-Kept m = (clear-idle m, length-clear m)

  pub assign-Kept : (src : List D) (m : Multicast D) → Kept m (assign (map some src) m)
  unfolding assign copy_from
  assign-Kept src m = (
    clear-idle m,
    λ l.
        omega
          (arith, length-clear m l, length-append (clear m).delegates (drop_nulls (map some src))),
  )

  pub move_assign-Kept : (src : List D) (m : Multicast D) → Kept m (move_assign (map some src) m)
  unfolding move_assign
  move_assign-Kept src m = (
    ground (arith, clear-idle m),
    λ l. ground (arith, length-clear m l, length-append (clear m).delegates (map some src)),
  )

  module _ (same : D → D → Bool) where
    length-reset_first : (d : D) (xs : List (Option D)) → length (reset_first same d xs) ≡ length xs
    unfolding reset_first
    length-reset_first d [] = refl
    length-reset_first d (x ∷ xs) = ground (arith, length-reset_first d xs)

    has_null-erase_first :
        (d : D) (xs : List (Option D))
        → has_null xs ≡ false
        → has_null (erase_first same d xs) ≡ false
    unfolding erase_first
    has_null-erase_first d [] h = refl
    has_null-erase_first d (x ∷ xs) h = ground (arith, has_null-erase_first d xs)

    pub remove-IsTidy : (d : D) (m : Multicast D) → IsTidy m → IsTidy (remove same d m)
    unfolding remove
    remove-IsTidy d m t = ground (arith, has_null-erase_first d m.delegates)

    pub remove-Kept : (d : D) (m : Multicast D) → Kept m (remove same d m)
    unfolding remove
    remove-Kept d m = (ground arith, λ l. ground (arith, length-reset_first d m.delegates))
