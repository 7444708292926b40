-- ===== src/Linked/Remove.antt =====
-- list_rem_next: a removal in memory is a removal from the sequence of cells.
use sweet_clib.Prelude.{
  ℕ, zero, suc, ◌+◌, ◌-◌, ◌<◌, ◌≡◌, refl, sym, ◌∙◌, if◌then◌else◌, ◌≢◌, ◌⊎◌, inl, inr, false, true,
  Option, none, some, List, [], ◌∷◌, arith, ◌==◌, length, ap,
}
use sweet_clib.Linked.{
  Ptr, null, Status, ListHead, Heap, Run, ok, success, failure, elmt, write, list_rem_next,
  unlink_next,
}
use sweet_clib.Linked.Cells.{
  first, final, has, Chain, IsList, Chain-write, eqb_false, load-ok, write_self, write_ne,
  ne_of_has, ne_head, has_tail,
}
use sweet_clib.Linked.Insert.{addr, Within, next_of, node_at, apart, SameOutside}

module _ {ℓ} {A : Type ℓ} where
  abbrev pub put_back : A → Option (A × List A) → Option (A × List A)
  put_back x none = none
  put_back x (some (y, ys)) = some (y, x ∷ ys)

  -- The element behind a position, and the list without it.
  abbrev pub remove_after : List A → Option ℕ → Option (A × List A)
  remove_after [] pos = none
  remove_after (x ∷ xs) none = some (x, xs)
  remove_after (x ∷ []) (some zero) = none
  remove_after (x ∷ y ∷ xs) (some zero) = some (y, x ∷ xs)
  remove_after (x ∷ xs) (some (suc i)) = put_back x (remove_after xs (some i))

module _ {ℓ} {D : Type ℓ} where
  -- What unlinking the node `c` behind cell `i` does to a chain.
  record Unlinks (h : Heap D) (cs : List (Ptr × D)) (i : ℕ) (c : Ptr × D) (ds : List (Ptr × D))
      : Type ℓ where
    before : D
    after : Ptr
    removed : remove_after cs (some i) ≡ some (c, ds)
    at : h (addr cs (some i)) ≡ some (elmt before c.0)
    behind : h c.0 ≡ some (elmt c.1 after)
    nonnull : c.0 ≢ null
    chained : Chain (write (write h (addr cs (some i)) (some (elmt before after))) c.0 none) ds
    starts : first ds ≡ first cs
    ends : final ds ≡ (if after == null then addr cs (some i) else final cs)
    counted : length ds + 1 ≡ length cs
    inside : has c.0 cs ≡ true
    subset : (a : Ptr) → has a cs ≡ false → has a ds ≡ false

  unlink-cons :
      (h : Heap D) (a : Ptr) (x : D) (cs : List (Ptr × D)) (i : ℕ) (c : Ptr × D)
      (ds : List (Ptr × D))
      → Chain h ((a, x) ∷ cs)
      → i < length cs
      → Unlinks h cs i c ds
      → Unlinks h ((a, x) ∷ cs) (suc i) c ((a, x) ∷ ds)
  unlink-cons h a x [] i c ds k m u = absurd (omega arith)
  unlink-cons h a x (e ∷ cs) i c ds k m u = record {
    before = u.before;
    after = u.after;
    removed = ap (put_back (a, x)) u.removed;
    at = u.at;
    behind = u.behind;
    nonnull = u.nonnull;
    chained = (
      rw
          (
            write_ne _ c.0 _ a (ne_of_has a c.0 (e ∷ cs) k.2 u.inside),
            write_ne h _ _ a (apart (e ∷ cs) i a k.2 m),
            u.starts,
          )
          k.0,
      k.1,
      u.subset a k.2,
      u.chained,
    );
    starts = refl;
    ends = final_cons ds u.starts ∙ u.ends;
    counted = omega (arith, u.counted);
    inside = ground (arith, u.inside);
    subset = λ b o. ground (arith, u.subset b);
  }
    where
      final_cons :
          (fs : List (Ptr × D)) → first fs ≡ first (e ∷ cs) → final ((a, x) ∷ fs) ≡ final fs
      final_cons [] w = absurd (k.3.1 (sym w))
      final_cons (f ∷ fs) w = refl

  unlink-head :
      (h : Heap D) (a b : Ptr) (x y : D) (cs : List (Ptr × D))
      → Chain h ((a, x) ∷ (b, y) ∷ cs)
      → Unlinks h ((a, x) ∷ (b, y) ∷ cs) zero (b, y) ((a, x) ∷ cs)
  unlink-head h a b x y cs k = record {
    before = x;
    after = first cs;
    removed = refl;
    at = k.0;
    behind = k.3.0;
    nonnull = k.3.1;
    chained = (
      rw (write_ne _ b _ a (ne_head a b y cs k.2), write_self h a _),
      k.1,
      has_tail a b y cs k.2,
      Chain-write _ b _ cs k.3.2 (Chain-write h a _ cs (has_tail a b y cs k.2) k.3.3),
    );
    starts = refl;
    ends = final_skip cs k.3.3;
    counted = omega arith;
    inside = ground arith;
    subset = λ d o. ground arith;
  }
    where
      final_skip :
          (fs : List (Ptr × D))
          → Chain h fs
          → final ((a, x) ∷ fs) ≡ (if first fs == null then a else final ((b, y) ∷ fs))
      final_skip [] c = refl
      final_skip (f ∷ fs) c = rw (eqb_false c.1)

  -- Behind the last cell there is nothing; behind any other the next one is unlinked.
  unlink_cases :
      (h : Heap D) (cs : List (Ptr × D)) (i : ℕ)
      → Chain h cs
      → i < length cs
      → ((next_of cs i ≡ null) × (remove_after cs (some i) ≡ none))
        ⊎ ((c : Ptr × D) × (ds : List (Ptr × D)) × Unlinks h cs i c ds)
  unlink_cases h [] i k m = absurd (omega arith)
  unlink_cases h ((a, x) ∷ []) zero k m = inl (refl, refl)
  unlink_cases h ((a, x) ∷ (b, y) ∷ cs) zero k m = inr (_, _, unlink-head h a b x y cs k)
  unlink_cases h ((a, x) ∷ []) (suc i) k m = absurd (omega arith)
  unlink_cases h ((a, x) ∷ e ∷ cs) (suc i) k m =
      elim (unlink_cases h (e ∷ cs) i k.3 (omega arith)) [
        | inl n ↦ inl (n.0, ap (put_back (a, x)) n.1)
        | inr (c, ds, u) ↦ inr (c, _, unlink-cons h a x (e ∷ cs) i c ds k (omega arith) u)
      ]

  -- The state after the node `c` was removed and `ds` are left.
  pub record Removed (h : Heap D) (l : ListHead) (cs : List (Ptr × D)) (c : Ptr × D)
      (ds : List (Ptr × D)) (r : Status × Option D × ListHead × Heap D) : Type ℓ where
    pub status : r.0 ≡ success
    pub taken : r.1 ≡ some c.1
    pub listed : IsList r.3 r.2 ds
    pub kept : r.2.destroys ≡ l.destroys
    pub freed : r.3 c.0 ≡ none
    pub same : SameOutside cs h r.3

  -- What list_rem_next has to do, by what stands behind the position.
  abbrev pub Removes :
      Option ((Ptr × D) × List (Ptr × D))
      → Heap D
      → ListHead
      → List (Ptr × D)
      → Run (Status × Option D × ListHead × Heap D)
      → Type ℓ
  Removes none h l cs run = run ≡ ok (failure, none, l, h)
  Removes (some (c, ds)) h l cs run =
      (r : Status × Option D × ListHead × Heap D) × (run ≡ ok r) × Removed h l cs c ds r

  remove-none :
      (h : Heap D) (l : ListHead) (cs : List (Ptr × D))
      → IsList h l cs
      → Removes (remove_after cs none) h l cs (list_rem_next h l null)
  unfolding list_rem_next
  remove-none h l [] v = rw v.counted
  remove-none h l ((a, x) ∷ cs) v =
      let busy : (l.size == 0) ≡ false = ground (arith, v.counted) in
      (
        (
          success,
          some x,
          record l {
            head = first cs;
            tail = if l.size == 1 then null else l.tail;
            size = l.size - 1;
          },
          write h l.head none,
        ),
        rw (
          busy,
          load-ok h l.head (elmt x (first cs)) (rw v.starts v.chained.1) (rw v.starts v.chained.0),
        ),
        record {
          status = refl;
          taken = refl;
          listed = record {
            starts = refl;
            ends = ends_tail cs v;
            counted = omega (arith, v.counted);
            chained = Chain-write h _ _ cs (rw v.starts v.chained.2) v.chained.3;
          };
          kept = refl;
          freed = rw (← v.starts) (write_self h l.head none);
          same = λ b o. write_ne h _ _ b (rw v.starts (ground arith));
        },
      )
    where
      ends_tail :
          (ds : List (Ptr × D))
          → IsList h l ((a, x) ∷ ds)
          → (if l.size == 1 then null else l.tail) ≡ final ds
      ends_tail [] w = rw w.counted
      ends_tail (d ∷ ds) w =
          let more : (l.size == 1) ≡ false = ground (arith, w.counted) in rw (more, w.ends)

  remove-some :
      (h : Heap D) (l : ListHead) (cs : List (Ptr × D)) (i : ℕ)
      → IsList h l cs
      → i < length cs
      → Removes (remove_after cs (some i)) h l cs (list_rem_next h l (addr cs (some i)))
  unfolding list_rem_next unlink_next
  remove-some h l cs i v m =
      let busy : (l.size == 0) ≡ false = ground (arith, v.counted) in
      let (x, at, ne) = node_at h cs i v.chained m in
      elim (unlink_cases h cs i v.chained m) [
        | inl (last, gone) ↦ rw (gone, busy, eqb_false ne, load-ok h _ _ ne at, last)
        | inr (c, ds, u) ↦ rw u.removed (
          (
            success,
            some c.1,
            record l {
              tail = if u.after == null then addr cs (some i) else l.tail;
              size = l.size - 1;
            },
            write (write h (addr cs (some i)) (some (elmt u.before u.after))) c.0 none,
          ),
          rw (
            busy,
            eqb_false ne,
            load-ok h _ _ ne u.at,
            eqb_false u.nonnull,
            load-ok h c.0 _ u.nonnull u.behind,
          ),
          record {
            status = refl;
            taken = refl;
            listed = record {
              starts = v.starts ∙ sym u.starts;
              ends = rw (u.ends, v.ends);
              counted = omega (arith, u.counted, v.counted);
              chained = u.chained;
            };
            kept = refl;
            freed = write_self _ c.0 none;
            same = λ b o.
                rw (write_ne _ c.0 _ b (ne_of_has b c.0 cs o u.inside))
                  (write_ne h _ _ b (apart cs i b o m));
          },
        )
      ]

  -- In memory that holds the list `cs`, list_rem_next at a position of the list removes the node
  -- behind it, if there is one: it hands out that node's datum, frees exactly that node, leaves the
  -- list without it with head, tail and size to match, and writes no node outside. Where there is
  -- none (an empty list, or the last node) it fails and changes nothing.
  pub list_rem_next-remove_after :
      (h : Heap D) (l : ListHead) (cs : List (Ptr × D)) (pos : Option ℕ)
      → IsList h l cs
      → Within cs pos
      → Removes (remove_after cs pos) h l cs (list_rem_next h l (addr cs pos))
  list_rem_next-remove_after h l cs none v m = remove-none h l cs v
  list_rem_next-remove_after h l cs (some i) v m = remove-some h l cs i v m
