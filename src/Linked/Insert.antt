-- ===== src/Linked/Insert.antt =====
-- list_ins_next: an insertion in memory is an insertion in the sequence of cells.
use sweet_clib.Prelude.{
  ℕ, zero, suc, ◌+◌, ◌<◌, ◌≡◌, refl, sym, ◌∙◌, if◌then◌else◌, ◌≢◌, false, true, Option, none, some,
  List, [], ◌∷◌, arith, ◌==◌, length,
}
use sweet_clib.Linked.{Ptr, null, Status, ListHead, Heap, ok, success, elmt, write, list_ins_next}
use sweet_clib.Linked.Cells.{
  first, final, has, Chain, IsList, has_of_free, Chain-write, eqb_false, load-ok, write_self,
  write_ne, ne_of_has,
}

-- A position: `none` for the argument NULL, `some i` for the node of cell `i`.
module _ {ℓ} {A : Type ℓ} where
  abbrev pub insert_after : List A → Option ℕ → A → List A
  insert_after cs none c = c ∷ cs
  insert_after [] (some i) c = []
  insert_after (d ∷ cs) (some zero) c = d ∷ c ∷ cs
  insert_after (d ∷ cs) (some (suc i)) c = d ∷ insert_after cs (some i) c

  -- There is such a position.
  abbrev pub Within : List A → Option ℕ → Type 0
  Within cs none = Unit
  Within cs (some i) = i < length cs

module _ {ℓ} {D : Type ℓ} where
  abbrev pub addr : List (Ptr × D) → Option ℕ → Ptr
  addr cs none = null
  addr [] (some i) = null
  addr ((a, x) ∷ cs) (some zero) = a
  addr ((a, x) ∷ cs) (some (suc i)) = addr cs (some i)

  first-insert_after :
      (cs : List (Ptr × D)) (i : ℕ) (c : Ptr × D) → first (insert_after cs (some i) c) ≡ first cs
  first-insert_after [] i c = refl
  first-insert_after (d ∷ cs) zero c = refl
  first-insert_after (d ∷ cs) (suc i) c = refl

  length-insert_after :
      (cs : List (Ptr × D)) (i : ℕ) (c : Ptr × D)
      → i < length cs
      → length (insert_after cs (some i) c) ≡ length cs + 1
  length-insert_after [] i c h = absurd (omega arith)
  length-insert_after (d ∷ cs) zero c h = omega arith
  length-insert_after (d ∷ cs) (suc i) c h = omega (arith, length-insert_after cs i c (omega arith))

  has-insert_after :
      (a : Ptr) (cs : List (Ptr × D)) (i : ℕ) (c : Ptr × D)
      → has a cs ≡ false
      → (a == c.0) ≡ false
      → has a (insert_after cs (some i) c) ≡ false
  has-insert_after a [] i c o n = refl
  has-insert_after a (d ∷ cs) zero c o n = ground arith
  has-insert_after a (d ∷ cs) (suc i) c o n = ground (arith, has-insert_after a cs i c)

  -- What the node of cell `i` points to.
  abbrev pub next_of : List (Ptr × D) → ℕ → Ptr
  next_of [] i = null
  next_of (c ∷ cs) zero = first cs
  next_of (c ∷ cs) (suc i) = next_of cs i

  pub has-addr : (cs : List (Ptr × D)) (i : ℕ) → i < length cs → has (addr cs (some i)) cs ≡ true
  has-addr [] i h = absurd (omega arith)
  has-addr (d ∷ cs) zero h = ground arith
  has-addr (d ∷ cs) (suc i) h = ground (arith, has-addr cs i (omega arith))

  pub apart :
      (cs : List (Ptr × D)) (i : ℕ) (a : Ptr)
      → has a cs ≡ false
      → i < length cs
      → a ≢ addr cs (some i)
  apart cs i a o m = ne_of_has a _ cs o (has-addr cs i m)

  pub node_at :
      (h : Heap D) (cs : List (Ptr × D)) (i : ℕ)
      → Chain h cs
      → i < length cs
      → (x : D) × (h (addr cs (some i)) ≡ some (elmt x (next_of cs i))) × (addr cs (some i) ≢ null)
  node_at h [] i c m = absurd (omega arith)
  node_at h ((a, x) ∷ cs) zero c m = (x, c.0, c.1)
  node_at h (d ∷ cs) (suc i) c m = node_at h cs i c.3 (omega arith)

  final-insert_after :
      (h : Heap D) (cs : List (Ptr × D)) (i : ℕ) (c : Ptr × D)
      → Chain h cs
      → i < length cs
      → final (insert_after cs (some i) c) ≡ (if next_of cs i == null then c.0 else final cs)
  final-insert_after h [] i c k m = absurd (omega arith)
  final-insert_after h (d ∷ []) zero c k m = refl
  final-insert_after h (d ∷ []) (suc i) c k m = absurd (omega arith)
  final-insert_after h (d ∷ e ∷ cs) zero c k m = ground arith
  final-insert_after h (d ∷ e ∷ cs) (suc zero) c k m =
      final-insert_after h (e ∷ cs) zero c k.3 (omega arith)
  final-insert_after h (d ∷ e ∷ cs) (suc (suc i)) c k m =
      final-insert_after h (e ∷ cs) (suc i) c k.3 (omega arith)

  Chain-insert_after :
      (h : Heap D) (fresh : Ptr) (x y : D) (cs : List (Ptr × D)) (i : ℕ)
      → Chain h cs
      → i < length cs
      → has fresh cs ≡ false
      → fresh ≢ null
      → h (addr cs (some i)) ≡ some (elmt y (next_of cs i))
      → Chain
          (write
            (write h fresh (some (elmt x (next_of cs i))))
            (addr cs (some i))
            (some (elmt y fresh)))
          (insert_after cs (some i) (fresh, x))
  Chain-insert_after h fresh x y [] i c m o n e = absurd (omega arith)
  Chain-insert_after h fresh x y ((a, z) ∷ cs) zero c m o n e = (
    rw (write_self _ a _) (ground arith),
    c.1,
    ground arith,
    (
      rw (write_ne _ a _ fresh (ground arith), write_self h fresh _),
      n,
      ground arith,
      Chain-write _ a _ cs c.2 (Chain-write h fresh _ cs (ground arith) c.3),
    ),
  )
  Chain-insert_after h fresh x y ((a, z) ∷ cs) (suc i) c m o n e = (
    rw
        (
          first-insert_after cs i (fresh, x),
          write_ne _ _ _ a (apart cs i a c.2 (omega arith)),
          write_ne h fresh _ a (ground arith),
        )
        c.0,
    c.1,
    has-insert_after a cs i (fresh, x) c.2 (ground arith),
    Chain-insert_after h fresh x y cs i c.3 (omega arith) (ground arith) n e,
  )

  -- The memory outside `fresh` and the nodes of `cs` is as it was.
  abbrev pub SameOutside : List (Ptr × D) → Heap D → Heap D → Type ℓ
  SameOutside cs h h' = (a : Ptr) → has a cs ≡ false → h' a ≡ h a

  pub record Inserted (fresh : Ptr) (x : D) (h : Heap D) (l : ListHead) (cs : List (Ptr × D))
      (pos : Option ℕ) (r : Status × ListHead × Heap D) : Type ℓ where
    pub status : r.0 ≡ success
    pub listed : IsList r.2 r.1 (insert_after cs pos (fresh, x))
    pub kept : r.1.destroys ≡ l.destroys
    pub same : SameOutside ((fresh, x) ∷ cs) h r.2

  insert-after :
      (fresh : Ptr) (x : D) (h : Heap D) (l : ListHead) (cs : List (Ptr × D)) (i : ℕ)
      → IsList h l cs
      → i < length cs
      → h fresh ≡ none
      → fresh ≢ null
      → (r : Status × ListHead × Heap D) × (list_ins_next fresh h l (addr cs (some i)) x ≡ ok r)
        × Inserted fresh x h l cs (some i) r
  unfolding list_ins_next
  insert-after fresh x h l cs i v m e n =
      let (y, at, ne) = node_at h cs i v.chained m in
      let out = has_of_free h fresh cs v.chained e in
      (
        (
          success,
          record l { tail = if next_of cs i == null then fresh else l.tail; size = l.size + 1 },
          write (write h fresh (some (elmt x (next_of cs i)))) (addr cs (some i))
              (some (elmt y fresh)),
        ),
        rw (eqb_false n, eqb_false ne, load-ok h _ _ ne at),
        record {
          status = refl;
          listed = record {
            starts = v.starts ∙ sym (first-insert_after cs i (fresh, x));
            ends = rw (final-insert_after h cs i (fresh, x) v.chained m, v.ends);
            counted = omega (arith, length-insert_after cs i (fresh, x) m, v.counted);
            chained = Chain-insert_after h fresh x y cs i v.chained m out n at;
          };
          kept = refl;
          same = λ a o. rw (
            write_ne _ _ _ a (apart cs i a (ground arith) m),
            write_ne h fresh _ a (ground arith),
          );
        },
      )

  insert-front :
      (fresh : Ptr) (x : D) (h : Heap D) (l : ListHead) (cs : List (Ptr × D))
      → IsList h l cs
      → h fresh ≡ none
      → fresh ≢ null
      → (r : Status × ListHead × Heap D) × (list_ins_next fresh h l null x ≡ ok r)
        × Inserted fresh x h l cs none r
  unfolding list_ins_next
  insert-front fresh x h l cs v e n =
      let out = has_of_free h fresh cs v.chained e in
      (
        (
          success,
          record l {
            head = fresh;
            tail = if l.size == 0 then fresh else l.tail;
            size = l.size + 1;
          },
          write h fresh (some (elmt x l.head)),
        ),
        rw (eqb_false n),
        record {
          status = refl;
          listed = record {
            starts = refl;
            ends = final_front cs v;
            counted = omega (arith, v.counted);
            chained = (
              rw (write_self h fresh _, v.starts),
              n,
              out,
              Chain-write h fresh _ cs out v.chained,
            );
          };
          kept = refl;
          same = λ a o. write_ne h fresh _ a (ground arith);
        },
      )
    where
      final_front :
          (ds : List (Ptr × D))
          → IsList h l ds
          → (if l.size == 0 then fresh else l.tail) ≡ final ((fresh, x) ∷ ds)
      final_front [] w = ground (arith, w.counted)
      final_front (d ∷ ds) w = ground (arith, w.counted, w.ends)

  -- In memory that holds the list `cs`, with a fresh node from malloc, list_ins_next at a position
  -- of the list (NULL, or any of its nodes) succeeds, the memory then holds `cs` with the datum
  -- behind that position, with head, tail and size to match, and no node outside is written.
  pub list_ins_next-insert_after :
      (fresh : Ptr) (x : D) (h : Heap D) (l : ListHead) (cs : List (Ptr × D)) (pos : Option ℕ)
      → IsList h l cs
      → Within cs pos
      → h fresh ≡ none
      → fresh ≢ null
      → (r : Status × ListHead × Heap D) × (list_ins_next fresh h l (addr cs pos) x ≡ ok r)
        × Inserted fresh x h l cs pos r
  list_ins_next-insert_after fresh x h l cs none v m = insert-front fresh x h l cs v
  list_ins_next-insert_after fresh x h l cs (some i) v m = insert-after fresh x h l cs i v m
