-- ===== src/Multicast/Live.antt =====
-- MulticastDelegate.h against what it promises: a list of delegates in the order in which they were
-- added, each called once in a broadcast.
use async_http.Prelude.{
  ℕ, Bool, false, Option, none, some, List, [], ◌∷◌, ◌++◌, ◌≡◌, refl, ap, ◌∙◌, map, if◌then◌else◌,
  arith,
}
use async_http.Multicast.{
  Multicast, Run, Event, pushed, removed, cleared, began, advanced, assigned, moved, reset_first,
  erase_first, found, remove, push_back, reset_all, clear, drop_nulls, copy_from, assign,
  move_assign, enter, leave, advance, advance_innermost, step, run,
}

module _ {D : Type 0} where
  -- The delegates that have not been removed.
  abbrev pub live : List (Option D) → List D
  live [] = []
  live (none ∷ xs) = live xs
  live (some d ∷ xs) = d ∷ live xs

  abbrev pub live_in : Run D → List D
  live_in r = live r.container.delegates

  live-append : (xs ys : List (Option D)) → live (xs ++ ys) ≡ live xs ++ live ys
  live-append [] ys = refl
  live-append (none ∷ xs) ys = live-append xs ys
  live-append (some d ∷ xs) ys = ap (λ r. d ∷ r) (live-append xs ys)

  live-map : (ds : List D) → live (map some ds) ≡ ds
  live-map [] = refl
  live-map (d ∷ ds) = ap (λ r. d ∷ r) (live-map ds)

  live-drop_nulls : (xs : List (Option D)) → live (drop_nulls xs) ≡ live xs
  unfolding drop_nulls
  live-drop_nulls [] = refl
  live-drop_nulls (none ∷ xs) = live-drop_nulls xs
  live-drop_nulls (some d ∷ xs) = ap (λ r. d ∷ r) (live-drop_nulls xs)

  live-reset_all : (xs : List (Option D)) → live (reset_all xs) ≡ []
  unfolding reset_all
  live-reset_all [] = refl
  live-reset_all (x ∷ xs) = live-reset_all xs

  live-clear : (m : Multicast D) → live (clear m).delegates ≡ []
  unfolding clear
  live-clear m = ground (arith, live-reset_all m.delegates)

  live-leave : (m : Multicast D) → live (leave m).delegates ≡ live m.delegates
  unfolding leave
  live-leave m = ground (arith, live-drop_nulls m.delegates)

  module _ (same : D → D → Bool) where
    -- The abstract container.
    abbrev pub without : D → List D → List D
    without d [] = []
    without d (x ∷ xs) = if same x d then xs else x ∷ without d xs

    abbrev pub promised : Event D → List D → List D
    promised (pushed d) ds = ds ++ (d ∷ [])
    promised (removed d) ds = without d ds
    promised cleared ds = []
    promised (assigned src) ds = src
    promised (moved src) ds = src
    promised began ds = ds
    promised advanced ds = ds

    abbrev pub promised_run : List (Event D) → List D → List D
    promised_run [] ds = ds
    promised_run (e ∷ es) ds = promised_run es (promised e ds)

    live-reset_first :
        (d : D) (xs : List (Option D)) → live (reset_first same d xs) ≡ without d (live xs)
    unfolding reset_first
    live-reset_first d [] = refl
    live-reset_first d (none ∷ xs) = live-reset_first d xs
    live-reset_first d (some x ∷ xs) = ground (arith, live-reset_first d xs)

    live-erase_first :
        (d : D) (xs : List (Option D)) → live (erase_first same d xs) ≡ without d (live xs)
    unfolding erase_first
    live-erase_first d [] = refl
    live-erase_first d (none ∷ xs) = live-erase_first d xs
    live-erase_first d (some x ∷ xs) = ground (arith, live-erase_first d xs)

    live-not_found :
        (d : D) (xs : List (Option D)) → found same d xs ≡ false → live xs ≡ without d (live xs)
    unfolding found
    live-not_found d [] h = refl
    live-not_found d (none ∷ xs) h = live-not_found d xs h
    live-not_found d (some x ∷ xs) h = ground (arith, live-not_found d xs)

    live-remove :
        (d : D) (m : Multicast D) → live (remove same d m).delegates ≡ without d (live m.delegates)
    unfolding remove
    live-remove d m = ground (
      arith,
      live-reset_first d m.delegates,
      live-erase_first d m.delegates,
      live-not_found d m.delegates,
    )

    live-advance : (i : ℕ) (outer : List ℕ) (r : Run D) → live_in (advance i outer r) ≡ live_in r
    unfolding advance
    live-advance i outer r = ground (arith, live-leave r.container)

    live-advance_innermost :
        (is : List ℕ) (r : Run D) → live_in (advance_innermost is r) ≡ live_in r
    unfolding advance_innermost
    live-advance_innermost [] r = refl
    live-advance_innermost (i ∷ outer) r = live-advance i outer r

    live-move_assign :
        (src : List D) (m : Multicast D) → live (move_assign (map some src) m).delegates ≡ src
    unfolding move_assign
    live-move_assign src m =
        ground (arith, live-append (clear m).delegates (map some src), live-clear m, live-map src)

    live-assign : (src : List D) (m : Multicast D) → live (assign (map some src) m).delegates ≡ src
    unfolding assign copy_from
    live-assign src m =
        live-append (clear m).delegates (drop_nulls (map some src))
        ∙ ap (λ ds. ds ++ live (drop_nulls (map some src))) (live-clear m)
        ∙ live-drop_nulls (map some src)
        ∙ live-map src

    -- Whatever happens to a multicast container, in or out of broadcasts, the delegates that it
    -- lists, null pointers passed over, change as those of a plain list: an addition goes to the
    -- end, a removal takes the first equal one, a clear takes all, an assignment replaces all, and
    -- the steps of a broadcast take none.
    pub live-step : (e : Event D) (r : Run D) → live_in (step same e r) ≡ promised e (live_in r)
    unfolding step push_back enter
    live-step (pushed d) r = live-append r.container.delegates (some d ∷ [])
    live-step (removed d) r = live-remove d r.container
    live-step cleared r = live-clear r.container
    live-step (assigned src) r = live-assign src r.container
    live-step (moved src) r = live-move_assign src r.container
    live-step began r = refl
    live-step advanced r = live-advance_innermost r.iterators r

    pub live-run :
        (es : List (Event D)) (r : Run D) → live_in (run same es r) ≡ promised_run es (live_in r)
    unfolding run
    live-run [] r = refl
    live-run (e ∷ es) r = live-run es (step same e r) ∙ ap (promised_run es) (live-step e r)
