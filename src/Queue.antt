-- ===== src/Queue.antt =====
-- lib/_structs/queue.c and queue.h (the same as in lib/threadpool): a queue on the linked list.
use sweet_clib.Prelude.{
  ℕ, ◌≡◌, refl, ◌≢◌, Option, none, some, List, [], ◌∷◌, ◌++◌, ap, ◌∙◌, arith, ◌==◌, if◌then◌else◌,
  length, subst, sym,
}
use sweet_clib.Linked.{
  Ptr, null, Status, ListHead, Heap, Run, ok, success, load, ◌>>=◌, list_ins_next, list_rem_next,
}
use sweet_clib.Linked.Cells.{final, IsList, eqb_false, load-ok}
use sweet_clib.Linked.Insert.{insert_after, Within, addr, SameOutside, list_ins_next-insert_after}
use sweet_clib.Linked.Remove.{Removes, remove_after, list_rem_next-remove_after}

abbrev pub last_position {ℓ} : {A : Type ℓ} → List A → Option ℕ
last_position [] = none
last_position (c ∷ cs) = some (length cs)

-- What the queue hands out: the front cell and the rest.
abbrev pub front {ℓ} : {A : Type ℓ} → List A → Option (A × List A)
front [] = none
front (c ∷ cs) = some (c, cs)

pub insert_after-last {ℓ} :
    {A : Type ℓ} (cs : List A) (c : A) → insert_after cs (last_position cs) c ≡ cs ++ c ∷ []
insert_after-last [] c = refl
insert_after-last (d ∷ []) c = refl
insert_after-last (d ∷ e ∷ cs) c = ap (λ ds. d ∷ ds) (insert_after-last (e ∷ cs) c)

module _ {ℓ} {D : Type ℓ} where
  -- queue_enqueue: behind list_tail(queue).
  pub queue_enqueue : Ptr → Heap D → ListHead → D → Run (Status × ListHead × Heap D)
  queue_enqueue fresh h q x = list_ins_next fresh h q q.tail x

  -- queue_dequeue
  pub queue_dequeue : Heap D → ListHead → Run (Status × Option D × ListHead × Heap D)
  queue_dequeue h q = list_rem_next h q null

  -- queue_peek; `none` for NULL.
  pub queue_peek : Heap D → ListHead → Run (Option D)
  queue_peek h q = if q.head == null then ok none else (load h q.head >>= λ e. ok (some e.datum))

  Within-last : (cs : List (Ptr × D)) → Within cs (last_position cs)
  Within-last [] = tt
  Within-last (c ∷ cs) = omega arith

  addr-last : (cs : List (Ptr × D)) → addr cs (last_position cs) ≡ final cs
  addr-last [] = refl
  addr-last (c ∷ []) = refl
  addr-last (c ∷ d ∷ cs) = addr-last (d ∷ cs)

  -- queue_enqueue with a fresh node succeeds, puts the datum at the back of the queue, keeps the
  -- representation well formed and writes no node outside of it.
  pub queue_enqueue-append :
      (fresh : Ptr) (x : D) (h : Heap D) (q : ListHead) (cs : List (Ptr × D))
      → IsList h q cs
      → h fresh ≡ none
      → fresh ≢ null
      → (r : Status × ListHead × Heap D) × (queue_enqueue fresh h q x ≡ ok r)
        × (r.0 ≡ success)
        × IsList r.2 r.1 (cs ++ (fresh, x) ∷ [])
        × SameOutside ((fresh, x) ∷ cs) h r.2
  unfolding queue_enqueue
  queue_enqueue-append fresh x h q cs v e n =
      let (r, run, i) =
        list_ins_next-insert_after fresh x h q cs (last_position cs) v (Within-last cs) e n in
      (
        r,
        subst (λ p. list_ins_next fresh h q p x ≡ ok r) (addr-last cs ∙ sym v.ends) run,
        i.status,
        subst (λ ds. IsList r.2 r.1 ds) (insert_after-last cs (fresh, x)) i.listed,
        i.same,
      )

  -- What stands at the front.
  abbrev pub front_datum : List (Ptr × D) → Option D
  front_datum [] = none
  front_datum (c ∷ cs) = some c.1

  front-remove_after : (cs : List (Ptr × D)) → remove_after cs none ≡ front cs
  front-remove_after [] = refl
  front-remove_after (c ∷ cs) = refl

  -- On a well-formed queue, queue_peek reads the front datum (NULL when empty), and queue_dequeue
  -- hands out that same datum, frees its node and leaves the rest; on the empty queue it fails and
  -- changes nothing.
  pub queue_dequeue-front :
      (h : Heap D) (q : ListHead) (cs : List (Ptr × D))
      → IsList h q cs
      → (queue_peek h q ≡ ok (front_datum cs)) × Removes (front cs) h q cs (queue_dequeue h q)
  unfolding queue_dequeue queue_peek
  queue_dequeue-front h q cs v = (
    peek cs v,
    subst (λ o. Removes o h q cs (list_rem_next h q null)) (front-remove_after cs)
        (list_rem_next-remove_after h q cs none v tt),
  )
    where
      peek :
          (ds : List (Ptr × D))
          → IsList h q ds
          → (if q.head == null then ok none else (load h q.head >>= λ e. ok (some e.datum)))
            ≡ ok (front_datum ds)
      peek [] w = rw w.starts
      peek ((a, x) ∷ ds) w =
          rw (w.starts, eqb_false w.chained.1, load-ok h a _ w.chained.1 w.chained.0)

  -- On a well-formed queue, queue_peek reads the front datum (NULL when empty), and queue_dequeue hands
  -- out that same datum, frees its node and leaves the rest; on the empty queue it fails and changes
  -- nothing. queue_enqueue with a fresh node succeeds, puts the datum at the back, keeps the
  -- representation well formed and writes no node outside of it; behind it queue_peek and queue_dequeue
  -- treat the front of the longer queue in the same way.
  pub queue_dequeue-enqueue :
      (fresh : Ptr) (x : D) (h : Heap D) (q : ListHead) (cs : List (Ptr × D))
      → IsList h q cs
      → h fresh ≡ none
      → fresh ≢ null
      → (r : Status × ListHead × Heap D) × (queue_peek h q ≡ ok (front_datum cs))
        × Removes (front cs) h q cs (queue_dequeue h q)
        × (queue_enqueue fresh h q x ≡ ok r)
        × (r.0 ≡ success)
        × IsList r.2 r.1 (cs ++ (fresh, x) ∷ [])
        × SameOutside ((fresh, x) ∷ cs) h r.2
        × (queue_peek r.2 r.1 ≡ ok (front_datum (cs ++ (fresh, x) ∷ [])))
        × Removes
            (front (cs ++ (fresh, x) ∷ []))
            r.2
            r.1
            (cs ++ (fresh, x) ∷ [])
            (queue_dequeue r.2 r.1)
  queue_dequeue-enqueue fresh x h q cs v e n =
      let (peeked, removed) = queue_dequeue-front h q cs v in
      let (r, run, status, listed, same) = queue_enqueue-append fresh x h q cs v e n in
      let (peeked_then, removed_then) =
        queue_dequeue-front r.2 r.1 (cs ++ (fresh, x) ∷ []) listed in
      (r, peeked, removed, run, status, listed, same, peeked_then, removed_then)
