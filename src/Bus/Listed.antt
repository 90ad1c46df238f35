-- ===== src/Bus/Listed.antt =====
-- The participants of DataBus.h after any series of additions, removals and resets.
use async_http.Prelude.{
  ℕ, zero, suc, ◌+◌, ◌≤◌, none, some, List, [], ◌∷◌, ◌++◌, ◌≡◌, inl, inr, refl, sym, ap, ◌∙◌, subst,
  ltb, ◌==◌, Bool-cases, if◌then◌else◌, length, length-append, erase_first, arith,
}
use async_http.Bus.{Roster, new_roster, max_participants}
use async_http.Bus.Slots.{
  is_full, add_participant, remove_participant, reset_slots, snapshot, entry, HoldsList, Change,
  added, removed, cleared, change, change_all,
}
use async_http.Bus.Rosters.{add_participant-HoldsList, remove_participant-HoldsList, entry-beyond}

-- What a change means for a list of at most eight.
unfoldable pub list_change : Change → List ℕ → List ℕ
list_change (added peer) ps = if ltb (length ps) max_participants then ps ++ (peer ∷ []) else ps
list_change (removed peer) ps = erase_first peer ps
list_change cleared ps = []

unfoldable pub list_changes : List Change → List ℕ → List ℕ
unfolding list_change
list_changes [] ps = ps
list_changes (c ∷ cs) ps = list_changes cs (list_change c ps)

-- The arrays hold a list, there is room for it, and the snapshot of a publication is that list.
pub record Holds (r : Roster) (ps : List ℕ) : Type 0 where
  pub held : HoldsList r ps
  pub bounded : length ps ≤ max_participants
  pub snapped : snapshot r.count 0 r ≡ ps

snapshot-entry :
    (ps : List ℕ) (i : ℕ) (r : Roster)
    → ((k : ℕ) → r.participants (i + k) ≡ entry ps k)
    → snapshot (length ps) i r ≡ ps
unfolding snapshot entry
snapshot-entry [] i r h = refl
snapshot-entry (p ∷ ps) i r h =
    let rest = snapshot-entry ps (i + 1) r (λ k. ap r.participants (omega arith) ∙ h (suc k)) in
    let here : r.participants i ≡ some p = ap r.participants (omega arith) ∙ h 0 in
    ground (arith, rest, here)

holds : (r : Roster) (ps : List ℕ) → HoldsList r ps → length ps ≤ max_participants → Holds r ps
holds r ps v small = record {
  held = v;
  bounded = small;
  snapped =
      subst (λ n. snapshot n 0 r ≡ ps) (sym v.counted)
        (snapshot-entry ps 0 r (λ k. ap r.participants (omega arith) ∙ v.slots k));
}

-- The loop of Reset empties the slots below its bound.
reset_slots-entry :
    (n : ℕ) (r : Roster) (i : ℕ)
    → ((reset_slots n r).participants i ≡ (if ltb i n then none else r.participants i))
      × ((reset_slots n r).connections i ≡ (if ltb i n then none else r.connections i))
      × ((reset_slots n r).count ≡ 0)
unfolding reset_slots
reset_slots-entry zero r i = (ground arith, ground arith, refl)
reset_slots-entry (suc n) r i =
    let next : Roster = record r {
      participants = λ j. if j == n then none else r.participants j;
      connections = λ j. if j == n then none else r.connections j;
    } in
    let rest = reset_slots-entry n next i in
    (ground (arith, rest.0), ground (arith, rest.1), rest.2)

reset_slots-HoldsList :
    (r : Roster) (ps : List ℕ) → HoldsList r ps → HoldsList (reset_slots r.count r) []
unfolding entry
reset_slots-HoldsList r ps v = record {
  counted = (reset_slots-entry r.count r 0).2;
  slots =
      λ i. ground (arith, reset_slots-entry r.count r i, v.counted, v.slots i, entry-beyond ps i);
  connected = λ i.
      ground (arith, reset_slots-entry r.count r i, v.counted, v.connected i, entry-beyond ps i);
}

length-erase_first-le : (p : ℕ) (ps : List ℕ) → length (erase_first p ps) ≤ length ps
length-erase_first-le p [] = omega arith
length-erase_first-le p (q ∷ ps) = ground (arith, length-erase_first-le p ps)

change-Holds :
    (c : Change) (r : Roster) (ps : List ℕ) → Holds r ps → Holds (change c r) (list_change c ps)
unfolding change list_change is_full
change-Holds (added peer) r ps v = elim (Bool-cases (ltb (length ps) max_participants)) [
  | inl room ↦
      let e : change (added peer) r ≡ add_participant peer r =
        ground (arith, room, v.held.counted) in
      let f : list_change (added peer) ps ≡ ps ++ (peer ∷ []) = ground (arith, room) in
      subst (λ x. Holds x (list_change (added peer) ps)) (sym e)
        (subst (Holds (add_participant peer r)) (sym f) (
          holds (add_participant peer r) (ps ++ (peer ∷ []))
            (add_participant-HoldsList peer r ps v.held)
            (ground (arith, room, length-append ps (peer ∷ [])))))
  | inr full ↦
      let e : change (added peer) r ≡ r = ground (arith, full, v.held.counted) in
      let f : list_change (added peer) ps ≡ ps = ground (arith, full) in
      subst (λ x. Holds x (list_change (added peer) ps)) (sym e) (subst (Holds r) (sym f) v)
]
change-Holds (removed peer) r ps v =
    holds (remove_participant peer r) (erase_first peer ps)
      (remove_participant-HoldsList peer r ps v.held)
      (omega (arith, length-erase_first-le peer ps, v.bounded))
change-Holds cleared r ps v =
    holds (reset_slots r.count r) [] (reset_slots-HoldsList r ps v.held) (omega arith)

change_all-Holds :
    (cs : List Change) (r : Roster) (ps : List ℕ)
    → Holds r ps
    → Holds (change_all cs r) (list_changes cs ps)
unfolding change_all list_changes
change_all-Holds [] r ps v = v
change_all-Holds (c ∷ cs) r ps v =
    change_all-Holds cs (change c r) (list_change c ps) (change-Holds c r ps v)

-- After any additions, removals and resets, the arrays of participants and of their connections
-- hold one list in their first slots and nothing beyond, the list has at most eight entries, a
-- snapshot is that list, and the list is what the changes mean: an addition goes to the end while
-- there is room, and a removal takes the first entry of the participant out.
pub change_all-list_changes :
    (cs : List Change) → Holds (change_all cs new_roster) (list_changes cs [])
unfolding entry
change_all-list_changes cs = change_all-Holds cs new_roster [] (
    holds new_roster [] (record { counted = refl; slots = λ i. refl; connected = λ i. refl })
      (omega arith))
