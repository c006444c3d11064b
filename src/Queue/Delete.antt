-- ===== src/Queue/Delete.antt =====
-- `deleteQueueWith` of src/queue.c frees every node once.
use ws_server.Base.{
  ℕ, zero, suc, ◌+◌, ◌<◌, ◌≡◌, refl, ap, ◌∙◌, none, some, List, [], ◌∷◌, arith, length, Bool-cases,
  inl, inr, ◌==◌, true, false,
}
use ws_server.Base.Store.{Ptr, first, has, items, ne_of_has, write, write_hit, write_miss}
use ws_server.Queue.Nodes.{Nodes, Queue, free_nodes, delete_queue_with}
use ws_server.Queue.Chain.{Chain, Spells, frame}

module _ {A : Type 0} where
  -- The loop frees the nodes of a chain, and no other.
  free_nodes-Chain :
      (fuel : ℕ) (nodes : Nodes A) (cs : List (Ptr × A))
      → Chain nodes cs
      → length cs < fuel
      → (left : Nodes A) × (free_nodes fuel (first cs) nodes ≡ some (items cs, left))
        × ((a : Ptr) → has a cs ≡ true → left a ≡ none)
        × ((a : Ptr) → has a cs ≡ false → left a ≡ nodes a)
  unfolding free_nodes
  free_nodes-Chain zero nodes cs ch h = absurd (omega arith)
  free_nodes-Chain (suc fuel) nodes [] ch h = (nodes, refl, (λ a i. cc), λ a o. refl)
  free_nodes-Chain (suc fuel) nodes ((p, x) ∷ cs) (nz, holds, out, rest) h =
      let less = write nodes p none in
      let kept : Chain less cs =
        frame nodes less cs rest (λ a i. write_miss nodes p none a (ne_of_has a p cs i out)) in
      let (left, ran, gone, same) = free_nodes-Chain fuel less cs kept (omega arith) in
      let here : (p == 0) ≡ false = ground arith in
      (
        left,
        rw here (rw (holds, free_nodes) (rw ran refl)),
        (λ a i. elim (Bool-cases (has a cs)) [
          | inl inside ↦ gone a inside
          | inr outside ↦
              same a outside ∙ (let e : a ≡ p = ground arith in ap less e) ∙ write_hit nodes p none
        ]),
        λ a o. same a (ground arith) ∙ write_miss nodes p none a (λ e. ground arith),
      )

  -- `deleteQueueWith` on a queue whose nodes spell its items: the loop ends without a fault, calls
  -- `freeItem` with each item once, first to last, and leaves no node on the heap.
  pub delete_queue_with_lem :
      (q : Queue A) (cs : List (Ptr × A))
      → Spells q cs
      → (left : Nodes A) × (delete_queue_with q ≡ some (items cs, left))
        × ((a : Ptr) → left a ≡ none)
  unfolding delete_queue_with
  delete_queue_with_lem q cs v =
      let (left, ran, gone, same) =
        free_nodes-Chain (q.size + 1) q.nodes cs v.chain (omega (arith, v.size)) in
      (
        left,
        ap (λ p. free_nodes (q.size + 1) p q.nodes) v.head ∙ ran,
        λ a. elim (Bool-cases (has a cs)) [
          | inl inside ↦ gone a inside
          | inr outside ↦ same a outside ∙ v.unused a outside
        ],
      )
