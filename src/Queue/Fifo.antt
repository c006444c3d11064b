-- ===== src/Queue/Fifo.antt =====
-- `push`, `pop` and `trypop` of src/queue.c against the list of the items.
use ws_server.Base.{
  ℕ, ◌+◌, ◌-◌, ◌≡◌, ◌≢◌, refl, sym, ap, ◌∙◌, Bool, true, false, Option, none, some, List, [], ◌∷◌,
  ◌++◌, arith, ◌==◌, if◌then◌else◌, length-append, ==_iff, Bool-cases, inl, inr,
}
use ws_server.Base.Store.{
  Ptr, first, has, has-last, has_append-false, last, last-append, ne_of_has, write, write_hit,
  write_miss,
}
use ws_server.Queue.Nodes.{Nodes, node, Queue, notify, set_next, link, push, pop_head_locked}
use ws_server.Queue.Chain.{Chain, Spells, has-none, frame, Chain-last, Chain-append}

abbrev pub is_set : Option ℕ → Bool
is_set none = false
is_set (some fd) = true

module _ {A : Type 0} where
  abbrev appended : Queue A → Ptr → A → A → Queue A
  appended q fresh x y = record q {
    nodes = write (write q.nodes fresh (some (node 0 x))) q.tail (some (node fresh y));
    tail = fresh;
    size = q.size + 1;
  }

  -- The queue behind the last node of which the new one is linked.
  appended-Spells :
      (q : Queue A) (fresh : Ptr) (x y : A) (c : Ptr × A) (cs : List (Ptr × A))
      → Spells q (c ∷ cs)
      → fresh ≢ 0
      → q.nodes fresh ≡ none
      → q.nodes (last (c ∷ cs)) ≡ some (node 0 y)
      → Spells (appended q fresh x y) (c ∷ cs ++ (fresh, x) ∷ [])
  appended-Spells q fresh x y c cs v nz free was =
      let out : has fresh (c ∷ cs) ≡ false = has-none fresh q.nodes (c ∷ cs) v.chain free in
      let inner : has (last (c ∷ cs)) (c ∷ cs) ≡ true = has-last c cs in
      let at_tail : q.tail ≡ last (c ∷ cs) = v.tail in
      let apart : fresh ≢ q.tail = λ e. ne_of_has _ _ (c ∷ cs) inner out (sym (e ∙ at_tail)) in
      let with_new = write q.nodes fresh (some (node 0 x)) in
      let with_both = write with_new q.tail (some (node fresh y)) in
      let spared : (a : Ptr) → a ≢ q.tail → a ≢ fresh → with_both a ≡ q.nodes a =
        λ a n m. write_miss with_new q.tail _ a n ∙ write_miss q.nodes fresh _ a m in
      record {
        chain =
            Chain-append q.nodes with_both fresh x y c cs v.chain nz out was
              (ap with_both (sym at_tail) ∙ write_hit with_new q.tail _)
              (write_miss with_new q.tail _ fresh apart ∙ write_hit q.nodes fresh _)
              (λ a i ne. spared a (λ e. ne (e ∙ at_tail)) (ne_of_has a fresh (c ∷ cs) i out));
        head = v.head;
        tail = sym (last-append fresh x (c ∷ cs));
        size = omega (arith, length-append (c ∷ cs) ((fresh, x) ∷ []), v.size);
        unused = λ a e.
            let (old, other) = has_append-false a fresh x (c ∷ cs) e in
            spared a (λ i. ne_of_has _ _ (c ∷ cs) inner old (sym (i ∙ at_tail))) other
            ∙ v.unused a old;
      }

  link_behind :
      (q : Queue A) (fresh : Ptr) (x y : A)
      → q.tail ≢ 0
      → q.tail ≢ fresh
      → q.nodes q.tail ≡ some (node 0 y)
      → link fresh (record q { nodes = write q.nodes fresh (some (node 0 x)) })
        ≡ some (appended q fresh x y)
  unfolding link write set_next
  link_behind q fresh x y nz apart was = ground arith

  -- `notify` writes where there is a descriptor, and changes nothing else.
  pub notify_lem :
      (q : Queue A)
      → ((notify q).shutdown ≡ q.shutdown)
        × ((notify q).notify_fd ≡ q.notify_fd)
        × ((notify q).writes ≡ (if is_set q.notify_fd then q.writes + 1 else q.writes))
  unfolding notify
  notify_lem q = (ground arith, ground arith, ground arith)

  pub notify-Spells : (q : Queue A) {cs : List (Ptr × A)} → Spells q cs → Spells (notify q) cs
  unfolding notify
  notify-Spells q {cs} v =
      elim q.notify_fd
        as (λ f. Spells (elim f [ none ↦ q | some fd ↦ record q { writes = q.writes + 1 } ]) cs) [
          | none ↦ v
          | some fd ↦ record {
            chain = v.chain;
            head = v.head;
            tail = v.tail;
            size = v.size;
            unused = v.unused;
          }
        ]

  -- `push` of the first node and of a further one.
  pub push_cases :
      (q : Queue A) (fresh : Ptr) (x : A) (cs : List (Ptr × A))
      → Spells q cs
      → fresh ≢ 0
      → q.nodes fresh ≡ none
      → (q' : Queue A) × (push fresh x q ≡ some (true, notify q'))
        × Spells q' (cs ++ (fresh, x) ∷ [])
        × ((q'.shutdown ≡ q.shutdown) × (q'.notify_fd ≡ q.notify_fd) × (q'.writes ≡ q.writes))
  unfolding push link write
  push_cases q fresh x [] v nz free =
      let at_tail : q.tail ≡ 0 = v.tail in
      (
        record q {
          nodes = write q.nodes fresh (some (node 0 x));
          head = fresh;
          tail = fresh;
          size = q.size + 1;
        },
        ground arith,
        record {
          chain = (nz, ground arith, refl, tt);
          head = refl;
          tail = refl;
          size = omega (arith, v.size);
          unused = λ a e. ground (arith, v.unused a);
        },
        (refl, refl, refl),
      )
  push_cases q fresh x (c ∷ cs) v nz free =
      let (ne, (y, was)) = Chain-last q.nodes c cs v.chain in
      let at_tail : q.tail ≡ last (c ∷ cs) = v.tail in
      let apart : q.tail ≢ fresh = λ e. cc in
      let is =
        link_behind q fresh x y (λ e. ne (sym at_tail ∙ e)) apart (ap q.nodes at_tail ∙ was) in
      (
        appended q fresh x y,
        ground (arith, is),
        appended-Spells q fresh x y c cs v nz free was,
        (refl, refl, refl),
      )

  abbrev pub taken : Queue A → Ptr → Queue A
  taken q next = record q {
    nodes = write q.nodes q.head none;
    head = next;
    tail = if next == 0 then 0 else q.tail;
    size = q.size - 1;
  }

  first-ne :
      (nodes : Nodes A) (c : Ptr × A) (cs : List (Ptr × A))
      → Chain nodes (c ∷ cs)
      → (first (c ∷ cs) == 0) ≡ false
  first-ne nodes (p, x) cs ch = ground arith

  taken_tail :
      (q : Queue A) (p : Ptr) (x : A) (cs : List (Ptr × A))
      → Spells q ((p, x) ∷ cs)
      → (if first cs == 0 then 0 else q.tail) ≡ last cs
  taken_tail q p x [] v = refl
  taken_tail q p x (c ∷ cs) v = rw (first-ne q.nodes c cs v.chain.3) v.tail

  -- The first item comes off, and its node is freed.
  pub pop_head_lem :
      (q : Queue A) (p : Ptr) (x : A) (cs : List (Ptr × A))
      → Spells q ((p, x) ∷ cs)
      → (pop_head_locked q ≡ some (x, taken q (first cs))) × Spells (taken q (first cs)) cs
  unfolding pop_head_locked
  pop_head_lem q p x cs v =
      let at_head : q.head ≡ p = v.head in
      let (nz, holds, out, rest) = v.chain in
      (
        ground (arith, ap q.nodes at_head),
        record {
          chain =
              frame q.nodes (write q.nodes q.head none) cs rest (λ a i.
                write_miss q.nodes q.head none a (λ e. ne_of_has a p cs i out (e ∙ at_head)));
          head = refl;
          tail = taken_tail q p x cs v;
          size = omega (arith, v.size);
          unused = λ a e. elim (Bool-cases (a == q.head)) [
            | inl hit ↦
                ap (write q.nodes q.head none) ((==_iff a q.head).0 hit)
                ∙ write_hit q.nodes q.head none
            | inr miss ↦
                write_miss q.nodes q.head none a (λ i. ground arith) ∙ v.unused a (ground arith)
          ];
        },
      )
