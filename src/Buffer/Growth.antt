-- ===== src/Buffer/Growth.antt =====
-- The capacity that `bufReserve` computes is large enough, and its doubling loop ends.
use ws_server.Base.{
  ℕ, zero, suc, ◌*◌, ◌%◌, ◌^◌, ◌≤◌, ◌<◌, ◌≡◌, ap, ltb, Bool-cases, inl, inr, ltb→lt, ltb→le, arith,
}
use native.Mathlib.Nat.{pow-suc}
use ws_server.Buffer.{grow}

double_pow : (c k : ℕ) → c * 2 ^ suc k ≡ c * 2 * 2 ^ k
double_pow c k = omega (arith, ap (λ (t : ℕ). c * t) (pow-suc 2 k))

-- With `need ≤ 2 ^ 63` no doubling wraps, and `k` doublings reach what `c * 2 ^ k` reaches.
grow_reaches :
    (k c need : ℕ) → need ≤ 2 ^ 63 → need ≤ c * 2 ^ k → (need ≤ grow k c need) × (c ≤ grow k c need)
unfolding grow
grow_reaches zero c need h fits = omega arith
grow_reaches (suc k) c need h fits = elim (Bool-cases (ltb c need)) [
  | inl small ↦
      let lt : c < need = ltb→lt c need small in
      let (reach, above) = grow_reaches k (c * 2 % 2 ^ 64) need h (doubled lt) in
      rw (small, grow) (reach, omega arith)
  | inr enough ↦ rw (enough, grow) (ltb→le c need enough, omega arith)
]
  where
    doubled : c < need → need ≤ c * 2 % 2 ^ 64 * 2 ^ k
    doubled lt =
        let e : c * 2 % 2 ^ 64 ≡ c * 2 = omega arith in rw e (omega (arith, fits, double_pow c k))

-- Sixty-four rounds of the loop are enough for every request up to 2 ^ 63 bytes: it ends with a
-- capacity that holds the request and is no smaller than before.
pub grow-enough :
    (c need : ℕ) → 0 < c → need ≤ 2 ^ 63 → (need ≤ grow 64 c need) × (c ≤ grow 64 c need)
grow-enough c need pos h = grow_reaches 64 c need h (omega arith)
