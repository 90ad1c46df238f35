-- ===== src/Prelude/Strings.antt =====
-- std::string as its bytes, and std::map with strings as keys: the entries in lexicographic order.
use Prim.Native.Nat.{ℕ}
use mathlib.Core.Path.{◌≡◌, refl, sym, ap, ◌∙◌}
use mathlib.Core.List.{List, [], ◌∷◌}
use mathlib.Core.Bool.{Bool, true, false}
use mathlib.Core.Logic.{inl, inr}
use mathlib.Core.Option.{Option, none, some}
use native.Mathlib.Omega.{arith}
use async_http.Prelude.Tests.{ltb, ◌==◌, ==_iff, ==_refl, Bool-cases, if◌then◌else◌}

abbrev pub String : Type 0
String = List ℕ

-- `a == b`
unfoldable pub same_string : String → String → Bool
same_string [] [] = true
same_string [] (d ∷ b) = false
same_string (c ∷ a) [] = false
same_string (c ∷ a) (d ∷ b) = if c == d then same_string a b else false

-- `a < b`
unfoldable pub string_less : String → String → Bool
string_less a [] = false
string_less [] (d ∷ b) = true
string_less (c ∷ a) (d ∷ b) = if c == d then string_less a b else ltb c d

pub same_string_refl : (a : String) → same_string a a ≡ true
unfolding same_string
same_string_refl [] = refl
same_string_refl (c ∷ a) = ground (arith, ==_refl c, same_string_refl a)

pub same_string→≡ : (a b : String) → same_string a b ≡ true → a ≡ b
unfolding same_string
same_string→≡ [] [] h = refl
same_string→≡ [] (d ∷ b) h = absurd (let f : ⊥ = cc in f)
same_string→≡ (c ∷ a) [] h = absurd (let f : ⊥ = cc in f)
same_string→≡ (c ∷ a) (d ∷ b) h = elim (Bool-cases (c == d)) [
  | inl e ↦
      ap (λ x. x ∷ a) ((==_iff c d).0 e) ∙ ap (λ r. d ∷ r) (same_string→≡ a b (ground (arith, e)))
  | inr n ↦ absurd (let f : ⊥ = ground (arith, n) in f)
]

abbrev pub Dict {ℓ} : Type ℓ → Type ℓ
Dict V = List (String × V)

module _ {ℓ} {V : Type ℓ} where
  -- `m.find(k)`
  unfoldable pub find : String → Dict V → Option V
  unfolding same_string
  find k [] = none
  find k ((j, v) ∷ m) = if same_string k j then some v else find k m

  -- `m[k] = v`
  unfoldable pub assign : String → V → Dict V → Dict V
  unfolding same_string string_less
  assign k v [] = (k, v) ∷ []
  assign k v ((j, w) ∷ m) =
      if same_string k j
      then (k, v) ∷ m
      else if string_less k j
      then (k, v) ∷ (j, w) ∷ m
      else (j, w) ∷ assign k v m

  find-assign_here : (k : String) (v : V) (m : Dict V) → find k (assign k v m) ≡ some v
  unfolding find assign
  find-assign_here k v [] = ground (arith, same_string_refl k)
  find-assign_here k v ((j, w) ∷ m) = ground (arith, same_string_refl k, find-assign_here k v m)

  find-assign_there :
      (k j : String) (v : V) (m : Dict V)
      → same_string j k ≡ false
      → find j (assign k v m) ≡ find j m
  unfolding find assign
  find-assign_there k j v [] h = ground (arith, h)
  find-assign_there k j v ((i, w) ∷ m) h = elim (Bool-cases (same_string k i)) [
    | inl e ↦
        let n : same_string j i ≡ false = ap (same_string j) (sym (same_string→≡ k i e)) ∙ h in
        ground (arith, e, h, n)
    | inr e ↦ ground (arith, e, h, find-assign_there k j v m h)
  ]

  pub find-assign :
      (k j : String) (v : V) (m : Dict V)
      → find j (assign k v m) ≡ (if same_string j k then some v else find j m)
  find-assign k j v m = elim (Bool-cases (same_string j k)) [
    | inl e ↦ rw (e, same_string→≡ j k e) (find-assign_here k v m)
    | inr e ↦ rw (e) (find-assign_there k j v m e)
  ]
