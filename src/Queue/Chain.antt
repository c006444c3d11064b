-- ===== src/Queue/Chain.antt =====
-- What the nodes of a queue (src/queue.c) spell: a chain of distinct addresses from `head` to `tail`.
use ws_server.Base.{
  ◌≡◌, ◌≢◌, refl, ◌∙◌, true, false, none, some, List, [], ◌∷◌, ◌++◌, arith, length,
}
use ws_server.Base.Store.{has-last, Ptr, first, has, has-append, last}
use ws_server.Queue.Nodes.{Nodes, node, Queue}

module _ {A : Type 0} where
  -- Each of these is a node that holds its item and points at the next of them.
  abbrev pub Chain : Nodes A → List (Ptr × A) → Type 0
  Chain nodes [] = Unit {0}
  Chain nodes ((p, x) ∷ cs) =
      (p ≢ 0) × (nodes p ≡ some (node (first cs) x)) × (has p cs ≡ false) × Chain nodes cs

  -- The queue spells these nodes, and no other node is on the heap.
  pub record Spells (q : Queue A) (cs : List (Ptr × A)) : Type 0 where
    pub chain : Chain q.nodes cs
    pub head : q.head ≡ first cs
    pub tail : q.tail ≡ last cs
    pub size : q.size ≡ length cs
    pub unused : (a : Ptr) → has a cs ≡ false → q.nodes a ≡ none

  -- A chain survives any change that spares its own nodes.
  pub frame :
      (nodes nodes' : Nodes A) (cs : List (Ptr × A))
      → Chain nodes cs
      → ((a : Ptr) → has a cs ≡ true → nodes' a ≡ nodes a)
      → Chain nodes' cs
  frame nodes nodes' [] ch same = tt
  frame nodes nodes' ((p, x) ∷ cs) ch same = (
    ch.0,
    same p (ground arith) ∙ ch.1,
    ch.2,
    frame nodes nodes' cs ch.3 (λ a i. same a (ground arith)),
  )

  -- The last node of a chain is on the heap, with no next.
  pub Chain-last :
      (nodes : Nodes A) (c : Ptr × A) (cs : List (Ptr × A))
      → Chain nodes (c ∷ cs)
      → (last (c ∷ cs) ≢ 0) × ((x : A) × (nodes (last (c ∷ cs)) ≡ some (node 0 x)))
  Chain-last nodes (p, x) [] ch = (ch.0, (x, ch.1))
  Chain-last nodes (p, x) (d ∷ cs) ch = Chain-last nodes d cs ch.3

  -- A new node behind the last one, which now points at it.
  pub Chain-append :
      (nodes nodes' : Nodes A) (p : Ptr) (x y : A) (c : Ptr × A) (cs : List (Ptr × A))
      → Chain nodes (c ∷ cs)
      → p ≢ 0
      → has p (c ∷ cs) ≡ false
      → nodes (last (c ∷ cs)) ≡ some (node 0 y)
      → nodes' (last (c ∷ cs)) ≡ some (node p y)
      → nodes' p ≡ some (node 0 x)
      → ((a : Ptr) → has a (c ∷ cs) ≡ true → a ≢ last (c ∷ cs) → nodes' a ≡ nodes a)
      → Chain nodes' (c ∷ cs ++ (p, x) ∷ [])
  Chain-append nodes nodes' p x y (q, z) [] ch nz out was now new same =
      (ch.0, cc, ground arith, (nz, new, refl, tt))
  Chain-append nodes nodes' p x y (q, z) (d ∷ cs) ch nz out was now new same =
      let inner : has (last (d ∷ cs)) (d ∷ cs) ≡ true = has-last d cs in
      let other : q ≢ last (d ∷ cs) = λ e. cc in
      (
        ch.0,
        same q (ground arith) other ∙ ch.1,
        ground (arith, has-append q (d ∷ cs) ((p, x) ∷ [])),
        Chain-append nodes nodes' p x y d cs ch.3 nz (ground arith) was now new
            (λ a i. same a (ground arith)),
      )

  -- An unused address is not that of one of the nodes.
  pub has-none :
      (a : Ptr) (nodes : Nodes A) (cs : List (Ptr × A))
      → Chain nodes cs
      → nodes a ≡ none
      → has a cs ≡ false
  has-none a nodes [] ch free = refl
  has-none a nodes ((p, x) ∷ cs) ch free =
      let rest : has a cs ≡ false = has-none a nodes cs ch.3 free in ground arith
