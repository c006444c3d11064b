-- ===== src/Base/Bits.antt =====
-- Masks, shifts and exclusive or of C as arithmetic.
use Prim.Native.Nat.{
  ℕ, zero, suc, ◌+◌, ◌*◌, ◌/◌, ◌%◌, ◌≤◌, ◌<◌, ◌^◌, min, max, bit_and, bit_or, bit_xor, digits,
  differ, bit_and-bitwise, bit_or-bitwise, bit_xor-bitwise,
}
use mathlib.Core.Path.{◌≡◌, refl, ap}
use mathlib.Core.Logic.{◌↔◌}
use mathlib.Core.Bool.{Bool, true, ◌&&◌}
use native.Mathlib.Nat.{pow-suc}
use native.Mathlib.Omega.{arith}
use native.Mathlib.Decide.{ℕ_discrete}
use ws_server.Base.Tests.{◌==◌, ==_iff}

-- A byte of C, and an unsigned 64-bit number.
abbrev pub IsByte : ℕ → Type 0
IsByte b = b < 256

-- An equation between two functions of a byte is checked at all their values.
unfoldable pub agree_below : (ℕ → ℕ) → (ℕ → ℕ) → ℕ → Bool
agree_below f g zero = true
agree_below f g (suc n) = (f n == g n) && agree_below f g n

pub agree_below-eq : (f g : ℕ → ℕ) (n : ℕ) → agree_below f g n ≡ true → (x : ℕ) → x < n → f x ≡ g x
unfolding agree_below
agree_below-eq f g zero h x lt = absurd (omega arith)
agree_below-eq f g (suc n) h x lt = elim (ℕ_discrete x n) [
  | yes e ↦ rw e (ground (arith, ==_iff (f n) (g n)))
  | no ne ↦ agree_below-eq f g n (ground arith) x (omega arith)
]

-- The recursion on digits does not depend on its bound, when that is enough.
digits_bound :
    (z : ℕ → ℕ) (f : ℕ → ℕ → ℕ) (n m a b : ℕ) → a ≤ n → a ≤ m → digits z f n a b ≡ digits z f m a b
digits_bound z f zero zero a b p q = refl
digits_bound z f zero (suc m) zero b p q = refl
digits_bound z f zero (suc m) (suc a) b p q = absurd (omega arith)
digits_bound z f (suc n) zero zero b p q = refl
digits_bound z f (suc n) zero (suc a) b p q = absurd (omega arith)
digits_bound z f (suc n) (suc m) zero b p q = refl
digits_bound z f (suc n) (suc m) (suc a) b p q =
    omega (arith, digits_bound z f n m (suc a / 2) (b / 2) (omega arith) (omega arith))

pub bit_or_digit : (a b : ℕ) → bit_or a b ≡ bit_or (a / 2) (b / 2) * 2 + max (a % 2) (b % 2)
bit_or_digit zero b = omega (arith, bit_or-bitwise 0 b, bit_or-bitwise 0 (b / 2))
bit_or_digit (suc a) b = omega (
  arith,
  bit_or-bitwise (suc a) b,
  bit_or-bitwise (suc a / 2) (b / 2),
  digits_bound (λ d. d) max a (suc a / 2) (suc a / 2) (b / 2) (omega arith) (omega arith),
)

pub bit_xor_digit : (a b : ℕ) → bit_xor a b ≡ bit_xor (a / 2) (b / 2) * 2 + differ (a % 2) (b % 2)
bit_xor_digit zero b = omega (arith, bit_xor-bitwise 0 b, bit_xor-bitwise 0 (b / 2))
bit_xor_digit (suc a) b = omega (
  arith,
  bit_xor-bitwise (suc a) b,
  bit_xor-bitwise (suc a / 2) (b / 2),
  digits_bound (λ d. d) differ a (suc a / 2) (suc a / 2) (b / 2) (omega arith) (omega arith),
)

pub bit_or-zero : (n a : ℕ) → a ≤ n → bit_or a 0 ≡ a
bit_or-zero n zero h = refl
bit_or-zero zero (suc a) h = absurd (omega arith)
bit_or-zero (suc n) (suc a) h =
    omega (arith, bit_or_digit (suc a) 0, bit_or-zero n (suc a / 2) (omega arith))

-- `(q << k) | r` is a sum where `r` has `k` digits at most.
bit_or_shift_one : (q r : ℕ) → r < 2 → bit_or (q * 2) r ≡ q * 2 + r
bit_or_shift_one q r h =
    omega
      (arith, bit_or_digit (q * 2) r, bit_or-zero (q * 2 / 2) (q * 2 / 2) (omega arith), half r h)
  where
    half : (r : ℕ) → r < 2 → bit_or (q * 2 / 2) (r / 2) ≡ bit_or (q * 2 / 2) 0
    half r h = let e : r / 2 ≡ 0 = omega arith in rw e

pub bit_or_shift : (k q r : ℕ) → r < 2 ^ k → bit_or (q * 2 ^ k) r ≡ q * 2 ^ k + r
bit_or_shift zero q r h =
    let e : r ≡ 0 = omega arith in rw e (omega (arith, bit_or-zero (q * 1) (q * 1) (omega arith)))
bit_or_shift (suc k) q r h = ground (
  arith,
  bit_or_digit (q * 2 ^ suc k) r,
  pow-suc 2 k,
  ap (λ (t : ℕ). q * t) (pow-suc 2 k),
  bit_or_shift k q (r / 2) (omega (arith, pow-suc 2 k)),
)

differ_twice : (a b : ℕ) → a < 2 → b < 2 → differ (differ a b) b ≡ a
differ_twice zero zero ha hb = refl
differ_twice zero (suc zero) ha hb = refl
differ_twice zero (suc (suc b)) ha hb = absurd (omega arith)
differ_twice (suc zero) zero ha hb = refl
differ_twice (suc zero) (suc zero) ha hb = refl
differ_twice (suc zero) (suc (suc b)) ha hb = absurd (omega arith)
differ_twice (suc (suc a)) b ha hb = absurd (omega arith)

differ-lt : (a b : ℕ) → a < 2 → b < 2 → differ a b < 2
differ-lt zero b ha hb = hb
differ-lt (suc zero) zero ha hb = omega arith
differ-lt (suc zero) (suc b) ha hb = omega arith
differ-lt (suc (suc a)) b ha hb = absurd (omega arith)

-- Exclusive or with one number, twice, gives the other back.
bit_xor_twice_bound : (n a b : ℕ) → a ≤ n → b ≤ n → bit_xor (bit_xor a b) b ≡ a
bit_xor_twice_bound zero zero zero p q = refl
bit_xor_twice_bound zero (suc a) b p q = absurd (omega arith)
bit_xor_twice_bound zero zero (suc b) p q = absurd (omega arith)
bit_xor_twice_bound (suc n) a b p q =
    let c = bit_xor a b in
    let d = differ (a % 2) (b % 2) in
    let small : d < 2 = differ-lt (a % 2) (b % 2) (omega arith) (omega arith) in
    let hi : c / 2 ≡ bit_xor (a / 2) (b / 2) = omega (arith, bit_xor_digit a b) in
    let lo : c % 2 ≡ d = omega (arith, bit_xor_digit a b) in
    omega (
      arith,
      bit_xor_digit c b,
      ap (λ (t : ℕ). bit_xor t (b / 2)) hi,
      ap (λ (t : ℕ). differ t (b % 2)) lo,
      bit_xor_twice_bound n (a / 2) (b / 2) (omega arith) (omega arith),
      differ_twice (a % 2) (b % 2) (omega arith) (omega arith),
    )

pub bit_xor_twice : (a b : ℕ) → bit_xor (bit_xor a b) b ≡ a
bit_xor_twice a b = bit_xor_twice_bound (a + b) a b (omega arith) (omega arith)

bit_xor-lt_digits : (k a b : ℕ) → a < 2 ^ k → b < 2 ^ k → bit_xor a b < 2 ^ k
bit_xor-lt_digits zero a b p q =
    let ea : a ≡ 0 = omega arith in let eb : b ≡ 0 = omega arith in rw (ea, eb) (omega arith)
bit_xor-lt_digits (suc k) a b p q = omega (
  arith,
  pow-suc 2 k,
  bit_xor_digit a b,
  differ-lt (a % 2) (b % 2) (omega arith) (omega arith),
  bit_xor-lt_digits k (a / 2) (b / 2) (omega (arith, pow-suc 2 k)) (omega (arith, pow-suc 2 k)),
)

pub bit_xor-IsByte : (a b : ℕ) → IsByte a → IsByte b → IsByte (bit_xor a b)
bit_xor-IsByte = bit_xor-lt_digits 8

pub bit_and_digit : (a b : ℕ) → bit_and a b ≡ bit_and (a / 2) (b / 2) * 2 + min (a % 2) (b % 2)
bit_and_digit zero b = omega (arith, bit_and-bitwise 0 b, bit_and-bitwise 0 (b / 2))
bit_and_digit (suc a) b = omega (
  arith,
  bit_and-bitwise (suc a) b,
  bit_and-bitwise (suc a / 2) (b / 2),
  digits_bound (λ d. 0) min a (suc a / 2) (suc a / 2) (b / 2) (omega arith) (omega arith),
)

bit_and-zero : (n a : ℕ) → a ≤ n → bit_and a 0 ≡ 0
bit_and-zero n zero h = refl
bit_and-zero zero (suc a) h = absurd (omega arith)
bit_and-zero (suc n) (suc a) h =
    omega (arith, bit_and_digit (suc a) 0, bit_and-zero n (suc a / 2) (omega arith))

-- A mask of one binary digit tells whether that digit is set.
pub bit_and_one : (a : ℕ) → bit_and a 1 ≡ a % 2
bit_and_one a = omega (arith, bit_and_digit a 1, bit_and-zero (a / 2) (a / 2) (omega arith))

pub bit_and_top : (k a : ℕ) → a < 2 ^ suc k → (bit_and a (2 ^ k) ≡ 0) ↔ (a < 2 ^ k)
bit_and_top zero a h = ground (arith, bit_and_one a)
bit_and_top (suc k) a h =
    let (there, back) = bit_and_top k (a / 2) (omega (arith, pow-suc 2 (suc k))) in
    let step : bit_and a (2 ^ suc k) ≡ bit_and (a / 2) (2 ^ k) * 2 = omega (
      arith,
      bit_and_digit a (2 ^ suc k),
      pow-suc 2 k,
      ap (λ (t : ℕ). bit_and (a / 2) t)
          (let e : 2 ^ suc k / 2 ≡ 2 ^ k = omega (arith, pow-suc 2 k) in e),
    ) in
    (
      λ z. omega (arith, pow-suc 2 k, there (omega arith)),
      λ lt. omega (arith, back (omega (arith, pow-suc 2 k))),
    )
