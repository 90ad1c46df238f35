-- ===== src/Wire/Xor.antt =====
-- The operator `^` of the C code on unsigned numbers: its laws, from the binary digits.
use Prim.Native.Nat.{
  ℕ, zero, suc, ◌+◌, ◌-◌, ◌*◌, ◌/◌, ◌%◌, ◌^◌, ◌≤◌, ◌<◌, bit_xor, digits, differ, bit_xor-bitwise,
}
use native.Mathlib.Nat.{zero-add, suc-add, pow-suc, pow-succ', one-le-pow, div-div-eq-div-mul}
use async_http.Prelude.{◌≡◌, refl, ap, sym, ◌∙◌, arith}

differ_lem : (a b : ℕ) → a < 2 → b < 2 → differ a b ≡ (a + b) % 2
differ_lem zero b p q = omega arith
differ_lem (suc zero) zero p q = refl
differ_lem (suc zero) (suc zero) p q = refl
differ_lem (suc zero) (suc (suc b)) p q = absurd (omega arith)
differ_lem (suc (suc a)) b p q = absurd (omega arith)

abbrev digit_sum : ℕ → ℕ → ℕ
digit_sum a b = (a % 2 + b % 2) % 2

-- The digits of `a ^ b` by a count of digits to go, of which one more than enough changes nothing.
abbrev counted : ℕ → ℕ → ℕ → ℕ
counted = digits (λ rest. rest) differ

spare_digit : (count a b : ℕ) → a ≤ count → counted (suc count) a b ≡ counted count a b
spare_digit zero (suc a) b h = elim h [ ]
spare_digit zero zero b h = refl
spare_digit (suc count) zero b h = refl
spare_digit (suc count) (suc a) b h =
    let halves = spare_digit count (suc a / 2) (b / 2) (omega arith) in
    ap (λ high. high * 2 + differ (suc a % 2) (b % 2)) halves

spare_digits : (k count a b : ℕ) → a ≤ count → counted (k + count) a b ≡ counted count a b
spare_digits zero count a b h = ap (λ c. counted c a b) (zero-add count)
spare_digits (suc k) count a b h =
    ap (λ c. counted c a b) (suc-add k count)
    ∙ spare_digit (k + count) a b (omega arith)
    ∙ spare_digits k count a b h

enough_digits : (count a b : ℕ) → a ≤ count → counted count a b ≡ bit_xor a b
enough_digits count a b h =
    let split : count - a + a ≡ count = omega arith in
    ap (λ c. counted c a b) (sym split)
    ∙ spare_digits (count - a) a a b (omega arith)
    ∙ sym (bit_xor-bitwise a b)

pub zero-xor : (b : ℕ) → bit_xor 0 b ≡ b
zero-xor b = sym (enough_digits 0 0 b (omega arith))

-- The lowest digit, and the others.
pub xor_step : (a b : ℕ) → bit_xor a b ≡ bit_xor (a / 2) (b / 2) * 2 + digit_sum a b
xor_step zero b = omega (arith, zero-xor b, zero-xor (b / 2))
xor_step (suc a) b =
    let low = differ_lem (suc a % 2) (b % 2) (omega arith) (omega arith) in
    let high = enough_digits a (suc a / 2) (b / 2) (omega arith) in
    bit_xor-bitwise (suc a) b ∙ omega (arith, low, high)

xor_comm_fuel : (n a b : ℕ) → a ≤ n → b ≤ n → bit_xor a b ≡ bit_xor b a
xor_comm_fuel zero zero zero p q = refl
xor_comm_fuel zero (suc a) b p q = absurd (omega arith)
xor_comm_fuel zero zero (suc b) p q = absurd (omega arith)
xor_comm_fuel (suc n) a b p q =
    omega (
      arith,
      xor_step a b,
      xor_step b a,
      xor_comm_fuel n (a / 2) (b / 2) (omega arith) (omega arith),
    )

pub xor_comm : (a b : ℕ) → bit_xor a b ≡ bit_xor b a
xor_comm a b = xor_comm_fuel (a + b) a b (omega arith) (omega arith)

xor_assoc_fuel :
    (n a b c : ℕ) → a ≤ n → b ≤ n → c ≤ n → bit_xor (bit_xor a b) c ≡ bit_xor a (bit_xor b c)
xor_assoc_fuel zero zero b c p q r =
    ap (λ x. bit_xor x c) (zero-xor b) ∙ sym (zero-xor (bit_xor b c))
xor_assoc_fuel zero (suc a) b c p q r = absurd (omega arith)
xor_assoc_fuel (suc n) a b c p q r =
    let half : (x y : ℕ) → bit_xor x y / 2 ≡ bit_xor (x / 2) (y / 2) =
      λ x y. omega (arith, xor_step x y) in
    omega (
      arith,
      xor_step (bit_xor a b) c,
      xor_step a (bit_xor b c),
      xor_step a b,
      xor_step b c,
      ap (λ x. bit_xor x (c / 2)) (half a b),
      ap (bit_xor (a / 2)) (half b c),
      xor_assoc_fuel n (a / 2) (b / 2) (c / 2) (omega arith) (omega arith) (omega arith),
    )

pub xor_assoc : (a b c : ℕ) → bit_xor (bit_xor a b) c ≡ bit_xor a (bit_xor b c)
xor_assoc a b c = xor_assoc_fuel (a + b + c) a b c (omega arith) (omega arith) (omega arith)

pub xor-half : (a b : ℕ) → bit_xor a b / 2 ≡ bit_xor (a / 2) (b / 2)
xor-half a b = omega (arith, xor_step a b)

pub xor_double : (a b : ℕ) → bit_xor (a * 2) (b * 2) ≡ bit_xor a b * 2
xor_double a b =
    xor_step (a * 2) (b * 2)
    ∙ omega (
      arith,
      ap (λ x. bit_xor x (b * 2 / 2)) (let e : a * 2 / 2 ≡ a = omega arith in e),
      ap (bit_xor a) (let e : b * 2 / 2 ≡ b = omega arith in e),
    )

module _ (m : ℕ) (pos : 0 < m) where
  mod_double : (a : ℕ) → a % (m * 2) ≡ a / 2 % m * 2 + a % 2
  mod_double a = grind arith

  mod_double_half : (a : ℕ) → a % (m * 2) / 2 ≡ a / 2 % m
  mod_double_half a = omega (arith, mod_double a)

  xor-mod_double :
      (a b : ℕ)
      → bit_xor (a / 2) (b / 2) % m ≡ bit_xor (a / 2 % m) (b / 2 % m)
      → bit_xor a b % (m * 2) ≡ bit_xor (a % (m * 2)) (b % (m * 2))
  xor-mod_double a b h = omega (
    arith,
    mod_double a,
    mod_double b,
    mod_double (bit_xor a b),
    xor_step a b,
    xor_step (a % (m * 2)) (b % (m * 2)),
    ap (λ x. bit_xor x (b % (m * 2) / 2)) (mod_double_half a),
    ap (bit_xor (a / 2 % m)) (mod_double_half b),
    ap (λ x. x % m) (xor-half a b),
    h,
  )

-- `^` keeps to a width.
pub xor-mod : (k a b : ℕ) → bit_xor a b % 2 ^ k ≡ bit_xor (a % 2 ^ k) (b % 2 ^ k)
xor-mod zero a b =
    let e : (x : ℕ) → x % 2 ^ 0 ≡ 0 = λ x. omega arith in
    omega (arith, ap (λ x. bit_xor x (b % 2 ^ 0)) (e a), ap (bit_xor 0) (e b))
xor-mod (suc k) a b =
    rw (pow-suc 2 k)
      (xor-mod_double (2 ^ k) (one-le-pow k 2 (omega arith)) a b (xor-mod k (a / 2) (b / 2)))

-- `^` shifts right with its numbers.
pub xor-div : (k a b : ℕ) → bit_xor a b / 2 ^ k ≡ bit_xor (a / 2 ^ k) (b / 2 ^ k)
xor-div zero a b =
    let e : (x : ℕ) → x / 2 ^ 0 ≡ x = λ x. omega arith in
    omega (arith, ap (λ x. bit_xor x (b / 2 ^ 0)) (e a), ap (bit_xor a) (e b))
xor-div (suc k) a b =
    let e : (x : ℕ) → x / 2 ^ suc k ≡ x / 2 / 2 ^ k =
      λ x. sym (div-div-eq-div-mul x 2 (2 ^ k) ∙ ap (λ y. x / y) (sym (pow-succ' 2 k))) in
    rw (e (bit_xor a b), e a, e b, xor-half a b) (xor-div k (a / 2) (b / 2))
