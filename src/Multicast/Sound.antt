-- ===== src/Multicast/Sound.antt =====
-- MulticastDelegate.h: the bookkeeping of nested broadcasts. The iterators stay inside the list, and
-- null pointers are there only until the outermost broadcast ends.
use async_http.Prelude.{
  ℕ, suc, ◌+◌, ◌≤◌, Bool, Option, none, some, List, [], ◌∷◌, ◌++◌, ◌≡◌, refl, sym, ap, ◌∙◌, subst,
  inl, inr, Bool-cases, Option-cases, ==_iff, ◌==◌, length, All, arith,
}
use async_http.Multicast.{
  Multicast, Run, Event, pushed, removed, cleared, began, advanced, assigned, moved, found, enter,
  leave, entry, advance, advance_innermost, step, run, fresh,
}
use async_http.Multicast.Tidy.{
  IsTidy, IsSound, Kept, has_null-drop_nulls, inside_weaken, inside_none, entry-inside,
  change-IsSound, push_back-IsTidy, remove-IsTidy, clear-IsTidy, assign-IsTidy, move_assign-IsTidy,
  push_back-Kept, remove-Kept, clear-Kept, assign-Kept, move_assign-Kept,
}

module _ {D : Type 0} where
  module _ (same : D → D → Bool) where
    change-step :
        (m : Multicast D) (r : Run D)
        → IsTidy m
        → Kept r.container m
        → IsSound r
        → IsSound (record r { container = m })
    change-step m r t k v = change-IsSound m r t k.0 k.1 v

    leave-IsTidy : (m : Multicast D) → IsTidy m → IsTidy (leave m)
    unfolding leave
    leave-IsTidy m t = ground (arith, has_null-drop_nulls m.delegates)

    leave-IsSound :
        (i : ℕ) (outer : List ℕ) (r : Run D)
        → r.iterators ≡ i ∷ outer
        → IsSound r
        → IsSound (record r { container = leave r.container; iterators = outer })
    unfolding leave
    leave-IsSound i outer r e v =
        let count : suc (length outer) ≡ r.container.broadcast_count =
          sym (ap length e) ∙ v.counted in
        let within : All (λ j. j ≤ length r.container.delegates) (i ∷ outer) =
          subst (All (λ j. j ≤ length r.container.delegates)) e v.inside in
        record {
          counted = ground (arith, count);
          tidy = leave-IsTidy r.container v.tidy;
          inside = elim (Bool-cases (length outer == 0)) [
            | inl none_left ↦ inside_none outer _ ((==_iff _ _).0 none_left)
            | inr some_left ↦
                inside_weaken outer (length r.container.delegates) _
                  (ground (arith, count, some_left)) within.1
          ];
        }

    visit-IsSound :
        (i : ℕ) (outer : List ℕ) (r : Run D) (x : Option D) (calls : List D)
        → r.iterators ≡ i ∷ outer
        → entry r.container.delegates i ≡ some x
        → IsSound r
        → IsSound (record r { iterators = (i + 1) ∷ outer; calls = calls })
    visit-IsSound i outer r x calls e found v = record {
      counted = sym (ap length e) ∙ v.counted;
      tidy = v.tidy;
      inside = (
        entry-inside r.container.delegates i x found,
        (let within : All (λ j. j ≤ length r.container.delegates) (i ∷ outer) =
              subst (All (λ j. j ≤ length r.container.delegates)) e v.inside in
            within.1),
      );
    }

    visited :
        (i : ℕ) (outer : List ℕ) (r : Run D) (x : Option D)
        → r.iterators ≡ i ∷ outer
        → entry r.container.delegates i ≡ some x
        → IsSound r
        → IsSound (advance i outer r)
    unfolding advance
    visited i outer r none e f v = rw (advance, f) (visit-IsSound i outer r none r.calls e f v)
    visited i outer r (some d) e f v =
        rw (advance, f) (visit-IsSound i outer r (some d) (r.calls ++ (d ∷ [])) e f v)

    advance-IsSound :
        (i : ℕ) (outer : List ℕ) (r : Run D)
        → r.iterators ≡ i ∷ outer
        → IsSound r
        → IsSound (advance i outer r)
    unfolding advance
    advance-IsSound i outer r e v = elim (Option-cases (entry r.container.delegates i)) [
      | inl end ↦ rw (advance, end) (leave-IsSound i outer r e v)
      | inr x ↦ visited i outer r x.0 e x.1 v
    ]

    advance_innermost-IsSound :
        (is : List ℕ) (r : Run D) → r.iterators ≡ is → IsSound r → IsSound (advance_innermost is r)
    unfolding advance_innermost
    advance_innermost-IsSound [] r e v = v
    advance_innermost-IsSound (i ∷ outer) r e v = advance-IsSound i outer r e v

    began-IsSound : (r : Run D) → IsSound r → IsSound (step same began r)
    unfolding step enter
    began-IsSound r v = record {
      counted = omega (arith, v.counted);
      tidy = ground (arith, v.tidy);
      inside = (omega arith, v.inside);
    }

    pub step-IsSound : (e : Event D) (r : Run D) → IsSound r → IsSound (step same e r)
    unfolding step
    step-IsSound (pushed d) r v =
        change-step _ r (push_back-IsTidy d r.container v.tidy) (push_back-Kept d r.container) v
    step-IsSound (removed d) r v =
        change-step _ r (remove-IsTidy same d r.container v.tidy) (remove-Kept same d r.container) v
    step-IsSound cleared r v =
        change-step _ r (clear-IsTidy r.container v.tidy) (clear-Kept r.container) v
    step-IsSound (assigned src) r v =
        change-step _ r (assign-IsTidy src r.container v.tidy) (assign-Kept src r.container) v
    step-IsSound (moved src) r v =
        change-step _ r (move_assign-IsTidy src r.container v.tidy)
          (move_assign-Kept src r.container) v
    step-IsSound began r v = began-IsSound r v
    step-IsSound advanced r v = advance_innermost-IsSound r.iterators r refl v

    run_from-IsSound : (es : List (Event D)) (r : Run D) → IsSound r → IsSound (run same es r)
    unfolding run
    run_from-IsSound [] r v = v
    run_from-IsSound (e ∷ es) r v = run_from-IsSound es (step same e r) (step-IsSound e r v)

    fresh-IsSound : IsSound (fresh {D = D})
    fresh-IsSound = ground arith

    -- After any events, the broadcasts that go on are as many as the count says, each iterator lies
    -- inside the list or at its end, null pointers are in the list only while the mark for the
    -- purge is set, and the mark is never set outside a broadcast.
    pub run-IsSound : (es : List (Event D)) → IsSound (run same es fresh)
    run-IsSound es = run_from-IsSound es fresh fresh-IsSound
