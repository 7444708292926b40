-- ===== src/Bistree/Lookup.antt =====
-- bistree_lookup, bistree_insert and bistree_remove against one another.
use sweet_clib.Prelude.{
  ◌+◌, ◌≡◌, ◌≢◌, ◌⊎◌, refl, sym, ap, subst, ◌∙◌, Bool, true, false, Option, none, some, List, arith,
  if◌then◌else◌, ltb,
}
use sweet_clib.Linked.{Status, success, failure, duplicate}
use sweet_clib.Bistree.{
  Sign, negative, zero_sign, positive, by_sign, Tree, eob, node, BisTree, Outcome, insert,
  insert_root, bistree_insert, hide, bistree_remove, bistree_lookup,
}
use sweet_clib.Bistree.Shape.{flatten, node_count}
use sweet_clib.Bistree.Order.{IsOrder, put_seq, find_seq, Sorted}
use sweet_clib.Bistree.Sequence.{
  hidden, Sorted-put_seq, put_seq-failed, find_seq-put_seq, find_seq-hide_seq, Sorted-hide_seq,
}
use sweet_clib.Bistree.Left.{Inserts}
use sweet_clib.Bistree.Insert.{insert-Returns}
use sweet_clib.Bistree.Search.{
  visible, IsValid, status_of, put_seq-status, lookup-find_seq, hide-hide_seq, hide-IsAvl,
  hidden_or_absent,
}

module _ {ℓ} {D : Type ℓ} (compare : D → D → Sign) where
  -- The return codes of an insertion, by what lookup finds under its key.
  abbrev pub Allowed : Bool → Option D → Status → Type 0
  Allowed alloc (some y) s = s ≡ duplicate
  Allowed true none s = s ≡ success
  Allowed false none s = s ≢ duplicate

  abbrev pub stored : Status → Bool
  stored success = true
  stored _ = false

  module _ (order : IsOrder compare) where
    -- The tree after an insertion of `x` into `t` that returned `s` and destroyed `p`.
    pub record Inserted (alloc : Bool) (t : BisTree D) (x : D) (s : Status) (t' : BisTree D)
        : Type ℓ where
      pub valid : IsValid compare t'
      pub returned : Allowed alloc (bistree_lookup compare t x) s
      pub view :
          (q : D)
          → bistree_lookup compare t' q ≡ (
              if stored s
              then by_sign
                  (compare q x)
                  (bistree_lookup compare t q)
                  (some x)
                  (bistree_lookup compare t q)
              else bistree_lookup compare t q)

    visible-by_sign :
        (s : Sign) (x : D) (o : Option (D × Bool))
        → visible (by_sign s o (some (x, false)) o) ≡ by_sign s (visible o) (some x) (visible o)
    visible-by_sign negative x o = refl
    visible-by_sign zero_sign x o = refl
    visible-by_sign positive x o = refl

    status_of-Allowed : (a : Bool) (o : Option (D × Bool)) → Allowed a (visible o) (status_of a o)
    status_of-Allowed true none = refl
    status_of-Allowed false none = λ e. cc
    status_of-Allowed true (some (z, true)) = refl
    status_of-Allowed false (some (z, true)) = λ e. cc
    status_of-Allowed a (some (z, false)) = refl

    seen :
        (alloc d : Bool) (x q : D) (ns : List (D × Bool)) (s : Status)
        → s ≡ (put_seq compare alloc d x ns).0
        → visible (find_seq compare q (put_seq compare alloc d x ns).1) ≡ (
            if stored s
            then by_sign
                (compare q x)
                (visible (find_seq compare q ns))
                (some x)
                (visible (find_seq compare q ns))
            else visible (find_seq compare q ns))
    seen alloc d x q ns success e =
        rw (find_seq-put_seq compare order alloc d q x ns (sym e))
          (visible-by_sign (compare q x) x (find_seq compare q ns))
    seen alloc d x q ns failure e = rw (put_seq-failed compare order alloc d x ns (λ f. cc))
    seen alloc d x q ns duplicate e = rw (put_seq-failed compare order alloc d x ns (λ f. cc))

    insert-Inserted :
        (alloc : Bool) (t : BisTree D) (x : D) (o : Outcome D)
        → IsValid compare t
        → Inserts compare alloc t.destroys x t.root o
        → Inserted alloc t x o.status (record t { size = t.size + o.added; root = o.tree })
    unfolding bistree_lookup
    insert-Inserted alloc t x o v i =
        let ns = flatten t.root in
        let put = put_seq compare alloc t.destroys x ns in
        let status : o.status ≡ put.0 = ap (λ w. w.0) i.spec in
        let nodes : flatten o.tree ≡ put.1 = ap (λ w. w.1) i.spec in
        let code : o.status ≡ status_of alloc (find_seq compare x ns) =
          status ∙ put_seq-status compare alloc t.destroys x ns order v.sorted in
        let sorted : Sorted compare (flatten o.tree) =
          rw nodes (Sorted-put_seq compare order alloc t.destroys x ns v.sorted) in
        record {
          valid = record {
            shape = i.shape;
            sorted = sorted;
            counted = omega (arith, v.counted, i.nodes);
          };
          returned =
              rw (code, lookup-find_seq compare order x t.root v.sorted)
                (status_of-Allowed alloc (find_seq compare x ns));
          view = λ q.
              rw
                (
                  lookup-find_seq compare order q o.tree sorted,
                  lookup-find_seq compare order q t.root v.sorted,
                  nodes,
                )
                (seen alloc t.destroys x q ns o.status status);
        }

    insert_cases :
        (alloc : Bool) (t : BisTree D) (x : D) (u : Tree D)
        → t.root ≡ u
        → IsValid compare t
        → (s : Status) × (t' : BisTree D) × (p : List D) × (insert_root compare alloc t x u
            ≡ some (s, t', p))
          × Inserted alloc t x s t'
    unfolding insert_root
    insert_cases alloc t x eob e v =
        let (o, run, i) = insert-Returns compare order alloc t.destroys x t.root v.shape v.sorted in
        let none_left : t.size ≡ 0 = v.counted ∙ ap node_count e in
        let idle : ltb 0 t.size ≡ false = ground arith in
        (
          o.status,
          _,
          o.passed,
          rw (idle, subst (λ w. insert compare alloc t.destroys x w ≡ some o) e run),
          insert-Inserted alloc t x o v i,
        )
    insert_cases alloc t x (node y h f l r) e v =
        let (o, run, i) = insert-Returns compare order alloc t.destroys x t.root v.shape v.sorted in
        (
          o.status,
          _,
          o.passed,
          rw (subst (λ w. insert compare alloc t.destroys x w ≡ some o) e run),
          insert-Inserted alloc t x o v i,
        )

    -- bistree_insert on a valid tree never reads through NULL and leaves a valid tree (balanced,
    -- with increasing keys, its size the number of its nodes). It returns 1 when a lookup finds the
    -- key, 0 when it does not and malloc succeeds, and 0 or -1 when malloc fails. When it returns
    -- 0, a lookup finds the new datum exactly under the keys equal to its own and what it found
    -- before under the others; when it does not, every lookup finds what it found before.
    pub bistree_insert-Inserted :
        (alloc : Bool) (t : BisTree D) (x : D)
        → IsValid compare t
        → (s : Status) × (t' : BisTree D) × (p : List D) × (bistree_insert compare alloc t x
            ≡ some (s, t', p))
          × Inserted alloc t x s t'
    unfolding bistree_insert
    bistree_insert-Inserted alloc t x v = insert_cases alloc t x t.root refl v

    hidden-by_sign :
        (s : Sign) (o : Option (D × Bool))
        → visible (by_sign s o (hidden o) o) ≡ by_sign s (visible o) none (visible o)
    hidden-by_sign negative o = refl
    hidden-by_sign zero_sign none = refl
    hidden-by_sign zero_sign (some (y, h)) = refl
    hidden-by_sign positive o = refl

    -- bistree_remove on a valid tree leaves a valid tree of the same size, returns 0 unless a lookup
    -- finds nothing under the key, and a lookup then finds nothing exactly under the keys equal to the removed one and what it
    -- found before under the others.
    pub bistree_remove-lookup :
        (t : BisTree D) (x : D)
        → IsValid compare t
        → IsValid compare (bistree_remove compare t x).1
          × ((bistree_remove compare t x).1.size ≡ t.size)
          × (((bistree_remove compare t x).0 ≡ success) ⊎ (bistree_lookup compare t x ≡ none))
          × ((q : D)
              → bistree_lookup compare (bistree_remove compare t x).1 q
                ≡ by_sign
                    (compare q x)
                    (bistree_lookup compare t q)
                    none
                    (bistree_lookup compare t q))
    unfolding bistree_remove bistree_lookup
    bistree_remove-lookup t x v =
        let (shape, _, nodes) = hide-IsAvl compare x t.root v.shape in
        let ns = flatten t.root in
        let flat = hide-hide_seq compare order x t.root v.sorted in
        let sorted : Sorted compare (flatten (hide compare x t.root).1) =
          rw flat (Sorted-hide_seq compare order x ns v.sorted) in
        (
          record { shape = shape; sorted = sorted; counted = rw nodes v.counted },
          refl,
          hidden_or_absent compare x t.root _ refl,
          λ q.
              rw
                (
                  lookup-find_seq compare order q _ sorted,
                  lookup-find_seq compare order q t.root v.sorted,
                  flat,
                  find_seq-hide_seq compare order q x ns,
                )
                (hidden-by_sign (compare q x) (find_seq compare q ns)),
        )
