-- ===== src/Linked/View.antt =====
-- What list.c promises to its clients: its operations on the sequence of data alone, where a node
-- is named by its position. The hash table and the traversals are written over this interface.
use sweet_clib.Prelude.{
  ℕ, zero, suc, ◌≡◌, refl, ap, Bool, true, false, Option, none, some, List, [], ◌∷◌, ◌∙◌, arith,
}
use sweet_clib.Linked.{
  Ptr, Status, ListHead, Heap, Run, ok, success, failure, list_ins_next, list_rem_next,
}
use sweet_clib.Linked.Cells.{contents, IsList}
use sweet_clib.Linked.Insert.{insert_after, Within, addr, list_ins_next-insert_after}
use sweet_clib.Linked.Remove.{remove_after, put_back, Removes, list_rem_next-remove_after}

-- malloc returned a node.
abbrev pub allocated : Ptr → Bool
allocated zero = false
allocated (suc p) = true

module _ {ℓ} {A : Type ℓ} where
  -- list_ins_next, where `alloc` says whether malloc returned a node.
  abbrev pub ins_next : Bool → List A → Option ℕ → A → Status × List A
  ins_next true xs pos x = (success, insert_after xs pos x)
  ins_next false xs pos x = (failure, xs)

  abbrev pub removal : List A → Option (A × List A) → Status × Option A × List A
  removal xs none = (failure, none, xs)
  removal xs (some (x, ys)) = (success, some x, ys)

  -- list_rem_next
  abbrev pub rem_next : List A → Option ℕ → Status × Option A × List A
  rem_next xs pos = removal xs (remove_after xs pos)

module _ {ℓ} {D : Type ℓ} where
  contents-insert_after :
      (cs : List (Ptr × D)) (pos : Option ℕ) (c : Ptr × D)
      → contents (insert_after cs pos c) ≡ insert_after (contents cs) pos c.1
  contents-insert_after cs none c = refl
  contents-insert_after [] (some i) c = refl
  contents-insert_after (d ∷ cs) (some zero) c = refl
  contents-insert_after (d ∷ cs) (some (suc i)) c =
      ap (λ xs. d.1 ∷ xs) (contents-insert_after cs (some i) c)

  abbrev pub data_of : Option ((Ptr × D) × List (Ptr × D)) → Option (D × List D)
  data_of none = none
  data_of (some (c, ds)) = some (c.1, contents ds)

  data_of-put_back :
      (c : Ptr × D) (o : Option ((Ptr × D) × List (Ptr × D)))
      → data_of (put_back c o) ≡ put_back c.1 (data_of o)
  data_of-put_back c none = refl
  data_of-put_back c (some (d, ds)) = refl

  data_of-remove_after :
      (cs : List (Ptr × D)) (pos : Option ℕ)
      → data_of (remove_after cs pos) ≡ remove_after (contents cs) pos
  data_of-remove_after [] pos = refl
  data_of-remove_after (c ∷ cs) none = refl
  data_of-remove_after (c ∷ []) (some zero) = refl
  data_of-remove_after (c ∷ d ∷ cs) (some zero) = refl
  data_of-remove_after (c ∷ []) (some (suc i)) = refl
  data_of-remove_after (c ∷ d ∷ cs) (some (suc i)) =
      data_of-put_back c (remove_after (d ∷ cs) (some i))
      ∙ ap (put_back c.1) (data_of-remove_after (d ∷ cs) (some i))

  -- The memory and header hold some list whose data are `xs`.
  abbrev pub Holds : Heap D → ListHead → List D → Type ℓ
  Holds h l xs = (cs : List (Ptr × D)) × IsList h l cs × (contents cs ≡ xs)

  -- list_ins_next in memory does what the interface says at every position of the list, when
  -- malloc returns a fresh node and when it returns NULL; the outcome is again a list in memory.
  pub list_ins_next-ins_next :
      (fresh : Ptr) (x : D) (h : Heap D) (l : ListHead) (cs : List (Ptr × D)) (pos : Option ℕ)
      → IsList h l cs
      → Within cs pos
      → h fresh ≡ none
      → (r : Status × ListHead × Heap D) × (list_ins_next fresh h l (addr cs pos) x ≡ ok r)
        × (r.0 ≡ (ins_next (allocated fresh) (contents cs) pos x).0)
        × Holds r.2 r.1 (ins_next (allocated fresh) (contents cs) pos x).1
  unfolding list_ins_next
  list_ins_next-ins_next zero x h l cs pos v m e = ((failure, l, h), refl, refl, (cs, v, refl))
  list_ins_next-ins_next (suc p) x h l cs pos v m e =
      let (r, run, i) = list_ins_next-insert_after (suc p) x h l cs pos v m e (omega arith) in
      (r, run, i.status, (_, i.listed, contents-insert_after cs pos (suc p, x)))

  rem_next_of :
      (o : Option ((Ptr × D) × List (Ptr × D))) (h : Heap D) (l : ListHead) (cs : List (Ptr × D))
      (run : Run (Status × Option D × ListHead × Heap D))
      → IsList h l cs
      → Removes o h l cs run
      → (r : Status × Option D × ListHead × Heap D) × (run ≡ ok r)
        × (r.0 ≡ (removal (contents cs) (data_of o)).0)
        × (r.1 ≡ (removal (contents cs) (data_of o)).1)
        × Holds r.3 r.2 (removal (contents cs) (data_of o)).2
  rem_next_of none h l cs run v w = (_, w, refl, refl, (cs, v, refl))
  rem_next_of (some (c, ds)) h l cs run v (r, w, d) =
      (r, w, d.status, d.taken, (ds, d.listed, refl))

  -- list_rem_next in memory does what the interface says at every position of the list.
  pub list_rem_next-rem_next :
      (h : Heap D) (l : ListHead) (cs : List (Ptr × D)) (pos : Option ℕ)
      → IsList h l cs
      → Within cs pos
      → (r : Status × Option D × ListHead × Heap D) × (list_rem_next h l (addr cs pos) ≡ ok r)
        × (r.0 ≡ (rem_next (contents cs) pos).0)
        × (r.1 ≡ (rem_next (contents cs) pos).1)
        × Holds r.3 r.2 (rem_next (contents cs) pos).2
  list_rem_next-rem_next h l cs pos v m =
      rw (← data_of-remove_after cs pos)
        (rem_next_of (remove_after cs pos) h l cs _ v (list_rem_next-remove_after h l cs pos v m))
