-- ===== src/Linked/Destroy.antt =====
-- list_destroy: every node is freed once, and every datum handed to `destroy` once, in order.
use sweet_clib.Prelude.{
  ℕ, zero, suc, ◌+◌, ◌<◌, ◌≡◌, refl, sym, ap, ◌∙◌, Option, true, false, Bool, none, some, List, [],
  ◌∷◌, ◌++◌, arith, length, if◌then◌else◌, ltb,
}
use sweet_clib.Linked.{
  Ptr, null, Status, ListHead, Heap, ok, success, failure, duplicate, destroyed, destroy_loop,
  list_destroy,
}
use sweet_clib.Linked.Cells.{has, contents, IsList}
use sweet_clib.Linked.Remove.{list_rem_next-remove_after}

module _ {ℓ} {D : Type ℓ} where
  abbrev pub handed_over : Bool → List D → List D
  handed_over true xs = xs
  handed_over false xs = []

  -- The memory is as it was, less the nodes of `cs`.
  abbrev pub Without : List (Ptr × D) → Heap D → Heap D → Type ℓ
  Without cs h h' = (a : Ptr) → h' a ≡ (if has a cs then none else h a)

  pub record Emptied (h : Heap D) (l : ListHead) (cs : List (Ptr × D))
      (r : List D × ListHead × Heap D) : Type ℓ where
    pub passed : r.0 ≡ handed_over l.destroys (contents cs)
    pub listed : IsList r.2 r.1 []
    pub gone : Without cs h r.2

  handed_nil : (b : Bool) → ◌≡◌ {A = List D} (handed_over b []) []
  handed_nil true = refl
  handed_nil false = refl

  passed_step :
      (b : Bool) (x : D) (xs ys : List D) (s : Status) (t : Option D)
      → s ≡ success
      → t ≡ some x
      → ys ≡ handed_over b xs
      → destroyed b s t ++ ys ≡ handed_over b (x ∷ xs)
  unfolding destroyed
  passed_step true x xs ys s t e f g = rw (e, f) (ap (λ zs. x ∷ zs) g)
  passed_step false x xs ys success t e f g = g
  passed_step false x xs ys failure t e f g = g
  passed_step false x xs ys duplicate t e f g = g

  gone_step :
      (a b : Ptr) (x : D) (cs : List (Ptr × D)) (h h' : Heap D)
      → h' a ≡ none
      → (has b ((a, x) ∷ cs) ≡ false → h' b ≡ h b)
      → (if has b cs then none else h' b) ≡ (if has b ((a, x) ∷ cs) then none else h b)
  gone_step a b x cs h h' f same = ground arith

  destroy_loop-Emptied :
      (fuel : ℕ) (h : Heap D) (l : ListHead) (cs : List (Ptr × D))
      → IsList h l cs
      → length cs < fuel
      → (r : List D × ListHead × Heap D) × (destroy_loop fuel h l ≡ ok r) × Emptied h l cs r
  unfolding destroy_loop destroyed
  destroy_loop-Emptied zero h l cs v m = absurd (omega arith)
  destroy_loop-Emptied (suc fuel) h l [] v m =
      let idle : ltb 0 l.size ≡ false = ground (arith, v.counted) in
      (
        ([], l, h),
        rw idle,
        record { passed = sym (handed_nil l.destroys); listed = v; gone = λ a. refl },
      )
  destroy_loop-Emptied (suc fuel) h l ((a, x) ∷ cs) v m =
      let busy : ltb 0 l.size ≡ true = ground (arith, v.counted) in
      let (r, run, step) = list_rem_next-remove_after h l ((a, x) ∷ cs) none v tt in
      let (r', run', rest) = destroy_loop-Emptied fuel r.3 r.2 cs step.listed (omega arith) in
      (
        (destroyed l.destroys r.0 r.1 ++ r'.0, r'.1, r'.2),
        rw (busy, run, run'),
        record {
          passed =
              passed_step l.destroys x (contents cs) r'.0 r.0 r.1 step.status step.taken
                (rest.passed ∙ ap (λ b. handed_over b (contents cs)) step.kept);
          listed = rest.listed;
          gone = λ b. rest.gone b ∙ gone_step a b x cs h r.3 step.freed (step.same b);
        },
      )

  -- list_destroy on a list in memory terminates without a fault, hands each datum once and in order
  -- to `destroy` (none when `destroy` is NULL), frees exactly the nodes of the list, and leaves the
  -- header as an empty list.
  pub list_destroy-Emptied :
      (h : Heap D) (l : ListHead) (cs : List (Ptr × D))
      → IsList h l cs
      → (r : List D × ListHead × Heap D) × (list_destroy h l ≡ ok r) × Emptied h l cs r
  unfolding list_destroy
  list_destroy-Emptied h l cs v =
      let (r, run, e) = destroy_loop-Emptied (l.size + 1) h l cs v (omega (arith, v.counted)) in
      (
        (r.0, record { size = 0; destroys = false; head = null; tail = null }, r.2),
        rw run,
        record {
          passed = e.passed;
          listed = record { starts = refl; ends = refl; counted = refl; chained = tt };
          gone = e.gone;
        },
      )
