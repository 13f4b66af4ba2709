-- ===== src/Base/Bits.antt =====
-- Single bits of numbers: the test `(x >> k) & 1 != 0`, and how exclusive or acts on it.
use Prim.Native.Nat.{digits, bit_xor-bitwise, differ}
use native.Mathlib.Nat.{le_refl, div-div-eq-div-mul, pow-succ'}
use favor_x.Base.{
  ℕ, zero, suc, ◌+◌, ◌-◌, ◌*◌, ◌/◌, ◌%◌, ◌^◌, ◌≤◌, ◌<◌, ◌≡◌, refl, sym, ◌∙◌, Bool, false, not,
  arith, ◌==◌, if◌then◌else◌,
}
pub use Prim.Native.Nat.{bit_xor}

unfoldable pub testbit : ℕ → ℕ → Bool
testbit x k = x / 2 ^ k % 2 == 1

-- The digits of an exclusive or, with fuel n.
abbrev xor_digits : ℕ → ℕ → ℕ → ℕ
xor_digits = digits (λ rest. rest) differ

one_more : (n b a : ℕ) → a ≤ n → xor_digits (suc n) a b ≡ xor_digits n a b
one_more n b zero p = unused n
  where
    unused : (i : ℕ) → xor_digits (suc i) 0 b ≡ xor_digits i 0 b
    unused zero = refl
    unused (suc i) = refl
one_more zero b (suc a) p = absurd (omega arith)
one_more (suc n) b (suc a) p = rw (one_more n (b / 2) (suc a / 2) (omega arith))

spare_fuel : (n b a k : ℕ) → a ≤ n → xor_digits (n + k) a b ≡ xor_digits n a b
spare_fuel n b a zero p = let e : n + 0 ≡ n = omega arith in rw e refl
spare_fuel n b a (suc k) p =
    let e : n + suc k ≡ suc (n + k) = omega arith in
    rw e (one_more (n + k) b a (omega arith) ∙ spare_fuel n b a k p)

-- Half of a number needs no more fuel than itself.
half_fuel :
    (a b : ℕ) → xor_digits a (suc a / 2) (b / 2) ≡ xor_digits (suc a / 2) (suc a / 2) (b / 2)
half_fuel a b =
    let e : suc a / 2 + (a - suc a / 2) ≡ a = omega arith in
    let f = spare_fuel (suc a / 2) (b / 2) (suc a / 2) (a - suc a / 2) (le_refl _) in rw e at f

differ_small : (a b : ℕ) → a < 2 → b < 2 → differ a b ≡ (a + b) % 2
differ_small zero zero p q = refl
differ_small zero (suc zero) p q = refl
differ_small (suc zero) zero p q = refl
differ_small (suc zero) (suc zero) p q = refl
differ_small (suc (suc a)) b p q = absurd (omega arith)
differ_small zero (suc (suc b)) p q = absurd (omega arith)
differ_small (suc zero) (suc (suc b)) p q = absurd (omega arith)

xor_step : (a b : ℕ) → bit_xor a b ≡ bit_xor (a / 2) (b / 2) * 2 + (a % 2 + b % 2) % 2
xor_step zero b = simp bit_xor-bitwise (omega arith)
xor_step (suc a) b =
    simp bit_xor-bitwise
      (omega (arith, differ_small (suc a % 2) (b % 2) (omega arith) (omega arith), half_fuel a b))

div-pow-suc : (x k : ℕ) → x / 2 ^ suc k ≡ x / 2 / 2 ^ k
div-pow-suc x k = rw (pow-succ' 2 k) (sym (div-div-eq-div-mul x 2 (2 ^ k)))

pub testbit-zero : (x : ℕ) → testbit x 0 ≡ (x % 2 == 1)
unfolding testbit
testbit-zero x = ground arith

pub testbit-suc : (x k : ℕ) → testbit x (suc k) ≡ testbit (x / 2) k
unfolding testbit
testbit-suc x k = rw (div-pow-suc x k)

-- The bits of an exclusive or.
pub testbit-xor :
    (k a b : ℕ) → testbit (bit_xor a b) k ≡ (if testbit a k then not (testbit b k) else testbit b k)
testbit-xor zero a b =
    rw (testbit-zero (bit_xor a b), testbit-zero a, testbit-zero b) (ground (arith, xor_step a b))
testbit-xor (suc k) a b =
    let half : bit_xor a b / 2 ≡ bit_xor (a / 2) (b / 2) = omega (arith, xor_step a b) in
    rw (testbit-suc (bit_xor a b) k, testbit-suc a k, testbit-suc b k, half)
      (testbit-xor k (a / 2) (b / 2))

pub zero-testbit : (k : ℕ) → testbit 0 k ≡ false
zero-testbit zero = testbit-zero 0
zero-testbit (suc k) = testbit-suc 0 k ∙ zero-testbit k

-- The bits of a power of two.
pub testbit-pow : (i k : ℕ) → testbit (2 ^ i) k ≡ (i == k)
testbit-pow zero zero = testbit-zero 1
testbit-pow zero (suc k) = testbit-suc 1 k ∙ zero-testbit k ∙ ground arith
testbit-pow (suc i) zero = testbit-zero (2 ^ suc i) ∙ ground (arith, pow-succ' 2 i)
testbit-pow (suc i) (suc k) =
    let half : 2 ^ suc i / 2 ≡ 2 ^ i = omega (arith, pow-succ' 2 i) in
    rw (testbit-suc (2 ^ suc i) k, half, testbit-pow i k) (ground arith)

-- An exclusive or has no more bits than its arguments.
pub xor_lt : (k a b : ℕ) → a < 2 ^ k → b < 2 ^ k → bit_xor a b < 2 ^ k
xor_lt zero zero zero p q = omega arith
xor_lt zero zero (suc b) p q = absurd (omega arith)
xor_lt zero (suc a) b p q = absurd (omega arith)
xor_lt (suc k) a b p q = omega (
  arith,
  pow-succ' 2 k,
  xor_step a b,
  xor_lt k (a / 2) (b / 2) (omega (arith, pow-succ' 2 k)) (omega (arith, pow-succ' 2 k)),
)
