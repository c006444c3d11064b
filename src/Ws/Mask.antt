-- ===== src/Ws/Mask.antt =====
-- `wsUnmask` of src/ws.c: exclusive or of the payload with the four key bytes in turn.
use ws_server.Base.{
  ℕ, zero, suc, ◌+◌, bit_and, bit_xor, ◌≡◌, refl, ap, List, [], ◌∷◌, length, get_or, All, arith,
}
use ws_server.Base.Bits.{IsByte, bit_xor_twice, bit_xor-IsByte}
use mathlib.Core.Path.{ap₂}

-- The loop at index `i`, over the bytes from there on.
pub unmask_from : ℕ → List ℕ → List ℕ → List ℕ
unmask_from i [] key = []
unmask_from i (x ∷ xs) key = bit_xor x (get_or key (bit_and i 3) 0) ∷ unmask_from (i + 1) xs key

pub unmask : List ℕ → List ℕ → List ℕ
unmask p key = unmask_from 0 p key

unmask_from_twice : (i : ℕ) (xs key : List ℕ) → unmask_from i (unmask_from i xs key) key ≡ xs
unfolding unmask_from
unmask_from_twice i [] key = refl
unmask_from_twice i (x ∷ xs) key =
    ap₂ ◌∷◌ (bit_xor_twice x (get_or key (bit_and i 3) 0)) (unmask_from_twice (i + 1) xs key)

-- Masking is its own inverse: what a client masked comes out as it was.
pub unmask_twice : (xs key : List ℕ) → unmask (unmask xs key) key ≡ xs
unfolding unmask
unmask_twice = unmask_from_twice 0

length-unmask_from : (i : ℕ) (xs key : List ℕ) → length (unmask_from i xs key) ≡ length xs
unfolding unmask_from
length-unmask_from i [] key = refl
length-unmask_from i (x ∷ xs) key = ap suc (length-unmask_from (i + 1) xs key)

pub length-unmask : (xs key : List ℕ) → length (unmask xs key) ≡ length xs
unfolding unmask
length-unmask = length-unmask_from 0

get_or-IsByte : (xs : List ℕ) (i : ℕ) → All IsByte xs → IsByte (get_or xs i 0)
get_or-IsByte [] i h = omega arith
get_or-IsByte (x ∷ xs) zero h = h.0
get_or-IsByte (x ∷ xs) (suc i) h = get_or-IsByte xs i h.1

unmask_from-IsByte :
    (i : ℕ) (xs key : List ℕ) → All IsByte xs → All IsByte key → All IsByte (unmask_from i xs key)
unfolding unmask_from
unmask_from-IsByte i [] key h k = tt
unmask_from-IsByte i (x ∷ xs) key h k = (
  bit_xor-IsByte x _ h.0 (get_or-IsByte key (bit_and i 3) k),
  unmask_from-IsByte (i + 1) xs key h.1 k,
)

pub unmask-IsByte : (xs key : List ℕ) → All IsByte xs → All IsByte key → All IsByte (unmask xs key)
unfolding unmask
unmask-IsByte = unmask_from-IsByte 0
