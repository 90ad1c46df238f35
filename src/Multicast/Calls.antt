-- ===== src/Multicast/Calls.antt =====
-- MulticastDelegate.h: which delegates the broadcasts call.
use async_http.Prelude.{
  ℕ, zero, suc, ◌+◌, Bool, Option, none, some, List, [], ◌∷◌, ◌++◌, ◌≡◌, ◌⊎◌, inl, inr, refl, sym,
  ap, ◌∙◌, subst, append-nil, append_assoc, Option-cases, length, length-append, arith,
}
use async_http.Multicast.{
  Multicast, Run, Event, pushed, removed, cleared, began, advanced, assigned, moved, enter, leave,
  entry, advance, advance_innermost, step, run, fresh,
}
use async_http.Multicast.Live.{live, live_in, live-run, promised_run}

module _ {D : Type 0} where
  -- An event makes no call, or one of a delegate in a list.
  abbrev pub CallsOneOf : List D → List D → List D → Type 0
  CallsOneOf ds before after =
      (after ≡ before)
      ⊎ (d : D) × (xs : List D) × (ys : List D) × (after ≡ before ++ (d ∷ []))
        × (ds ≡ xs ++ (d ∷ ys))

  entry-live :
      (xs : List (Option D)) (i : ℕ) (d : D)
      → entry xs i ≡ some (some d)
      → (us : List D) × (vs : List D) × (live xs ≡ us ++ (d ∷ vs))
  unfolding entry
  entry-live [] i d e = cc
  entry-live (none ∷ xs) zero d e = cc
  entry-live (some x ∷ xs) zero d e = ([], live xs, cc)
  entry-live (none ∷ xs) (suc i) d e = entry-live xs i d e
  entry-live (some x ∷ xs) (suc i) d e =
      let r = entry-live xs i d e in (x ∷ r.0, r.1, ap (λ ds. x ∷ ds) r.2)

  visited-calls :
      (i : ℕ) (outer : List ℕ) (r : Run D) (x : Option D)
      → entry r.container.delegates i ≡ some x
      → CallsOneOf (live_in r) r.calls (advance i outer r).calls
  unfolding advance
  visited-calls i outer r none e = inl (rw (advance, e) refl)
  visited-calls i outer r (some d) e =
      let l = entry-live r.container.delegates i d e in inr (d, l.0, l.1, rw (advance, e) refl, l.2)

  advance-calls :
      (i : ℕ) (outer : List ℕ) (r : Run D)
      → CallsOneOf (live_in r) r.calls (advance i outer r).calls
  unfolding advance
  advance-calls i outer r = elim (Option-cases (entry r.container.delegates i)) [
    | inl end ↦ inl (rw (advance, end) refl)
    | inr x ↦ visited-calls i outer r x.0 x.1
  ]

  advance_innermost-calls :
      (is : List ℕ) (r : Run D) → CallsOneOf (live_in r) r.calls (advance_innermost is r).calls
  unfolding advance_innermost
  advance_innermost-calls [] r = inl refl
  advance_innermost-calls (i ∷ outer) r = advance-calls i outer r

  module _ (same : D → D → Bool) where
    step-calls : (e : Event D) (r : Run D) → CallsOneOf (live_in r) r.calls (step same e r).calls
    unfolding step
    step-calls (pushed d) r = inl refl
    step-calls (removed d) r = inl refl
    step-calls cleared r = inl refl
    step-calls (assigned src) r = inl refl
    step-calls (moved src) r = inl refl
    step-calls began r = inl refl
    step-calls advanced r = advance_innermost-calls r.iterators r

    -- After any events, the next one calls nothing, or one delegate, which is on the list that a
    -- plain container would have then: a delegate that has been removed is not called, also not by
    -- a broadcast that had begun before.
    run-calls :
        (es : List (Event D)) (e : Event D)
        → let r = run same es fresh in
          CallsOneOf (promised_run same es []) r.calls (step same e r).calls
    run-calls es e =
        subst
          (λ ds. CallsOneOf ds (run same es fresh).calls (step same e (run same es fresh)).calls)
          (live-run same es fresh) (step-calls e (run same es fresh))

  abbrev pub advances : ℕ → List (Event D)
  advances zero = []
  advances (suc n) = advanced ∷ advances n

  entry-append :
      (xs ys : List (Option D)) (y : Option D) → entry (xs ++ (y ∷ ys)) (length xs) ≡ some y
  unfolding entry
  entry-append [] ys y = refl
  entry-append (x ∷ xs) ys y = entry-append xs ys y

  entry_end : (xs : List (Option D)) → entry xs (length xs) ≡ none
  unfolding entry
  entry_end [] = refl
  entry_end (x ∷ xs) = entry_end xs

  advance_at :
      (xs ys : List (Option D)) (y : Option D) (i : ℕ) (c : Multicast D)
      → c.delegates ≡ xs ++ (y ∷ ys)
      → i ≡ length xs
      → entry c.delegates i ≡ some y
  advance_at xs ys y i c e l =
      ap (entry c.delegates) l ∙ ap (λ ds. entry ds (length xs)) e ∙ entry-append xs ys y

  advance_over :
      (xs : List (Option D)) (i : ℕ) (c : Multicast D)
      → c.delegates ≡ xs ++ []
      → i ≡ length xs
      → entry c.delegates i ≡ none
  advance_over xs i c e l =
      ap (entry c.delegates) l ∙ ap (λ ds. entry ds (length xs)) (e ∙ append-nil xs) ∙ entry_end xs

  module _ (same : D → D → Bool) where
    -- From an iterator to the end, with nothing in between.
    run-advances :
        (xs ys : List (Option D)) (i : ℕ) (outer : List ℕ) (c : Multicast D) (calls : List D)
        → c.delegates ≡ xs ++ ys
        → i ≡ length xs
        → run same
            (advances (suc (length ys)))
            (record { container = c; iterators = i ∷ outer; calls = calls })
          ≡ record { container = leave c; iterators = outer; calls = calls ++ live ys }
    unfolding run step advance_innermost advance
    run-advances xs [] i outer c calls e l =
        ground (arith, advance_over xs i c e l, append-nil calls)
    run-advances xs (none ∷ ys) i outer c calls e l =
        let next =
          run-advances (xs ++ (none ∷ [])) ys (i + 1) outer c calls
            (e ∙ sym (append_assoc xs (none ∷ []) ys))
            (omega (arith, length-append xs (none ∷ []))) in
        ground (arith, advance_at xs ys none i c e l, next)
    run-advances xs (some d ∷ ys) i outer c calls e l =
        let next =
          run-advances (xs ++ (some d ∷ [])) ys (i + 1) outer c (calls ++ (d ∷ []))
            (e ∙ sym (append_assoc xs (some d ∷ []) ys))
            (omega (arith, length-append xs (some d ∷ []))) in
        ground
          (arith, advance_at xs ys (some d) i c e l, next, append_assoc calls (d ∷ []) (live ys))

    -- A broadcast in which nothing else happens calls every delegate of the container once, in the
    -- order of the list, and leaves the outer broadcasts where they were.
    run-undisturbed :
        (r : Run D)
        → let n = length r.container.delegates in
          run same (began ∷ advances (suc n)) r
          ≡ record r { container = leave (enter r.container); calls = r.calls ++ live_in r }
    unfolding run step
    run-undisturbed r =
        run-advances [] r.container.delegates 0 r.iterators (enter r.container) r.calls refl refl
