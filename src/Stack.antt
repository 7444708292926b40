-- ===== src/Stack.antt =====
-- lib/_structs/stack.c and stack.h: a stack on the linked list.
use sweet_clib.Prelude.{◌≡◌, ◌≢◌, Option, none, some, List, ◌∷◌, ◌==◌, if◌then◌else◌, ◌∙◌}
use sweet_clib.Linked.{
  Ptr, null, Status, ListHead, Heap, Run, ok, success, load, ◌>>=◌, list_ins_next, list_rem_next,
}
use sweet_clib.Linked.Cells.{IsList, eqb_false, load-ok}
use sweet_clib.Linked.Insert.{SameOutside, list_ins_next-insert_after}
use sweet_clib.Linked.Remove.{list_rem_next-remove_after}

module _ {ℓ} {D : Type ℓ} where
  -- stack_push
  pub stack_push : Ptr → Heap D → ListHead → D → Run (Status × ListHead × Heap D)
  stack_push fresh h s x = list_ins_next fresh h s null x

  -- stack_pop
  pub stack_pop : Heap D → ListHead → Run (Status × Option D × ListHead × Heap D)
  stack_pop h s = list_rem_next h s null

  -- stack_peek; `none` for NULL.
  pub stack_peek : Heap D → ListHead → Run (Option D)
  stack_peek h s = if s.head == null then ok none else (load h s.head >>= λ e. ok (some e.datum))

  -- After a push with a fresh node, stack_peek reads the pushed datum, and a pop hands it out, frees
  -- the node of the push and leaves the same stack of cells, no node outside being written.
  pub stack_pop-push :
      (fresh : Ptr) (x : D) (h : Heap D) (s : ListHead) (cs : List (Ptr × D))
      → IsList h s cs
      → h fresh ≡ none
      → fresh ≢ null
      → (r : Status × ListHead × Heap D) × (t : Status × Option D × ListHead × Heap D) × (stack_push
            fresh h s x
          ≡ ok r)
        × (stack_peek r.2 r.1 ≡ ok (some x))
        × (stack_pop r.2 r.1 ≡ ok t)
        × (t.0 ≡ success)
        × (t.1 ≡ some x)
        × IsList t.3 t.2 cs
        × (t.3 fresh ≡ none)
        × SameOutside ((fresh, x) ∷ cs) h t.3
  unfolding stack_push stack_pop stack_peek
  stack_pop-push fresh x h s cs v e n =
      let (r, run, i) = list_ins_next-insert_after fresh x h s cs none v tt e n in
      let (t, run', d) = list_rem_next-remove_after r.2 r.1 ((fresh, x) ∷ cs) none i.listed tt in
      (
        r,
        t,
        run,
        rw (i.listed.starts, eqb_false n, load-ok r.2 fresh _ n i.listed.chained.0),
        run',
        d.status,
        d.taken,
        d.listed,
        d.freed,
        λ a o. d.same a o ∙ i.same a o,
      )
