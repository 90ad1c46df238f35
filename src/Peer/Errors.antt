-- ===== src/Peer/Errors.antt =====
-- The errors of Participant.h: each is told once for a topic, until the errors are reset.
use async_http.Prelude.{
  ℕ, zero, suc, ◌+◌, ◌/◌, true, false, ◌&&◌, Option, none, some, List, [], ◌∷◌, ◌++◌, ◌≡◌, inl, inr,
  refl, sym, ap, ◌==◌, Bool-cases, if◌then◌else◌, arith,
}
use async_http.Prelude.Strings.{String, Dict, same_string, same_string→≡, find-assign}
use async_http.Remote.{DelegateError}
use async_http.Peer.{
  Act, error_signal, posted, called, faulted, bit_is_set, set_bit, bits_of, latch, error_code,
}
use async_http.Peer.Channels.{call_acts}

pub bit_is_set-set_bit :
    (bits i j : ℕ) → bit_is_set (set_bit bits i) j ≡ (if j == i then true else bit_is_set bits j)
unfolding bit_is_set set_bit
bit_is_set-set_bit bits zero zero = ground arith
bit_is_set-set_bit bits zero (suc j) = ground arith
bit_is_set-set_bit bits (suc i) zero = ground arith
bit_is_set-set_bit bits (suc i) (suc j) = ground (arith, bit_is_set-set_bit (bits / 2) i j)

-- The bit of a topic and an error, as a number.
unfoldable pub reported : String → ℕ → Dict ℕ → ℕ
unfolding bits_of bit_is_set
reported topic code m = if bit_is_set (bits_of topic m) code then 1 else 0

-- How often an error is told for a topic.
unfoldable pub told : {V : Type 0} → String → ℕ → List (Act V) → ℕ
told topic code [] = 0
told topic code (error_signal t e ∷ acts) =
    if same_string topic t && (code == error_code e)
    then suc (told topic code acts)
    else told topic code acts
told topic code (_ ∷ acts) = told topic code acts

pub told-append :
    {V : Type 0} (topic : String) (code : ℕ) (xs ys : List (Act V))
    → told topic code (xs ++ ys) ≡ told topic code xs + told topic code ys
unfolding told
told-append topic code [] ys = omega arith
told-append topic code (error_signal t e ∷ xs) ys = ground (arith, told-append topic code xs ys)
told-append topic code (posted t i v ∷ xs) ys = told-append topic code xs ys
told-append topic code (called h v ∷ xs) ys = told-append topic code xs ys
told-append topic code (faulted ∷ xs) ys = told-append topic code xs ys

-- An error that is latched fires as often as its bit goes up.
pub reported-latch :
    (topic t : String) (code : ℕ) (e : DelegateError) (m : Dict ℕ)
    → (if (latch false t e m).0
          then (if same_string topic t && (code == error_code e) then 1 else 0)
          else 0)
        + reported topic code m
      ≡ reported topic code (latch false t e m).1
unfolding latch reported bits_of
reported-latch topic t code e m =
    let code' = error_code e in
    let bits = set_bit (bits_of t m) code' in
    elim (Bool-cases (bit_is_set (bits_of t m) code')) [
      | inl there ↦ ground (arith, there)
      | inr absent ↦ elim (Bool-cases (same_string topic t)) [
        | inl same ↦
            let e' : bits_of t m ≡ bits_of topic m =
              ap (λ x. bits_of x m) (sym (same_string→≡ topic t same)) in
            ground (
              arith,
              absent,
              same,
              e',
              find-assign t topic bits m,
              bit_is_set-set_bit (bits_of t m) code' code,
            )
        | inr other ↦ ground (arith, absent, other, find-assign t topic bits m)
      ]
    ]

pub told-call_acts :
    {V : Type 0} (topic : String) (code : ℕ) (o : Option V) (t : Option ℕ) (ys : List (Act V))
    → told topic code (call_acts o t ++ ys) ≡ told topic code ys
unfolding told call_acts
told-call_acts topic code none t ys = refl
told-call_acts topic code (some v) none ys = refl
told-call_acts topic code (some v) (some h) ys = refl
