-- ===== src/Base/Store.antt =====
-- Objects at addresses, and lists of addresses with what stands there.
use Prim.Native.Nat.{ℕ, suc}
use mathlib.Core.Path.{◌≡◌, refl, ap}
use mathlib.Core.Logic.{◌≢◌}
use mathlib.Core.Bool.{Bool, true, false, ◌||◌}
use mathlib.Core.Option.{Option}
use mathlib.Core.List.{List, [], ◌∷◌, ◌++◌}
use native.Mathlib.Omega.{arith}
use ws_server.Base.Tests.{◌==◌, if◌then◌else◌}
use ws_server.Base.Lists.{length}

-- An address; 0 is NULL.
abbrev pub Ptr : Type 0
Ptr = ℕ

-- What stands at an address: `none` where nothing is allocated.
abbrev pub Store : Type 0 → Type 0
Store N = Ptr → Option N

module _ {N : Type 0} where
  unfoldable pub write : Store N → Ptr → Option N → Store N
  write nodes p c a = if a == p then c else nodes a

  pub write_hit : (nodes : Store N) (p : Ptr) (c : Option N) → write nodes p c p ≡ c
  unfolding write
  write_hit nodes p c = ground arith

  pub write_miss :
      (nodes : Store N) (p : Ptr) (c : Option N) (a : Ptr) → a ≢ p → write nodes p c a ≡ nodes a
  unfolding write
  write_miss nodes p c a ne = ground arith

module _ {A : Type 0} where
  -- The address of the first and of the last of some nodes, and whether an address is among them.
  abbrev pub first : List (Ptr × A) → Ptr
  first [] = 0
  first ((p, x) ∷ cs) = p

  abbrev pub last : List (Ptr × A) → Ptr
  last [] = 0
  last ((p, x) ∷ []) = p
  last (c ∷ d ∷ cs) = last (d ∷ cs)

  abbrev pub has : Ptr → List (Ptr × A) → Bool
  has a [] = false
  has a ((p, x) ∷ cs) = (a == p) || has a cs

  abbrev pub items : List (Ptr × A) → List A
  items [] = []
  items ((p, x) ∷ cs) = x ∷ items cs

  pub ne_of_has : (a b : Ptr) (cs : List (Ptr × A)) → has a cs ≡ true → has b cs ≡ false → a ≢ b
  ne_of_has a b cs i o e = cc

  pub items-append : (cs ds : List (Ptr × A)) → items (cs ++ ds) ≡ items cs ++ items ds
  items-append [] ds = refl
  items-append ((p, x) ∷ cs) ds = ap (λ t. x ∷ t) (items-append cs ds)

  pub length-items : (cs : List (Ptr × A)) → length (items cs) ≡ length cs
  length-items [] = refl
  length-items ((p, x) ∷ cs) = ap suc (length-items cs)

  pub has-append : (a : Ptr) (cs ds : List (Ptr × A)) → has a (cs ++ ds) ≡ (has a cs || has a ds)
  has-append a [] ds = refl
  has-append a ((p, x) ∷ cs) ds = ground (arith, has-append a cs ds)

  pub has_append-false :
      (a p : Ptr) (x : A) (cs : List (Ptr × A))
      → has a (cs ++ (p, x) ∷ []) ≡ false
      → (has a cs ≡ false) × (a ≢ p)
  has_append-false a p x cs e = ground (arith, has-append a cs ((p, x) ∷ []))

  pub last-append : (p : Ptr) (x : A) (cs : List (Ptr × A)) → last (cs ++ (p, x) ∷ []) ≡ p
  last-append p x [] = refl
  last-append p x (c ∷ []) = refl
  last-append p x (c ∷ d ∷ cs) = last-append p x (d ∷ cs)

  pub has-last : (c : Ptr × A) (cs : List (Ptr × A)) → has (last (c ∷ cs)) (c ∷ cs) ≡ true
  has-last (p, x) [] = ground arith
  has-last (p, x) (d ∷ cs) = ground (arith, has-last d cs)
