-- ===== src/ThreadPool/Safety.antt =====
-- What every reachable state of the pool keeps.
use mathlib.Core.List.{append_assoc}
use sweet_clib.Prelude.{
  ℕ, suc, ◌+◌, ◌-◌, ◌<◌, ◌≡◌, ◌≢◌, refl, sym, ap, ◌∙◌, subst, inl, inr, Bool, true, false, not,
  ◌&&◌, ◌||◌, Option, none, some, List, [], ◌∷◌, ◌++◌, if◌then◌else◌, ◌==◌, ltb, arith, length,
  Bool-cases,
}
use sweet_clib.Queue.{insert_after-last}
use sweet_clib.ThreadPool.{
  Phase, at_lock, testing, going_to_wait, waiting, woken, past_loop, taking, working, exited, Pool,
  threadpool_init, goes, peek, must_wait, tested, checked, took, threadpool_add_worker, Step, lock,
  test, wait, wake, relock, check, take, finish, add, shut, Reachable, start, next, holds,
  is_taking, is_none, assertion_fails,
}

some_index : {a b : ℕ} → some a ≡ some b → a ≡ b
some_index q = cc

length-snoc {ℓ} : {A : Type ℓ} (xs : List A) (x : A) → length (xs ++ x ∷ []) ≡ length xs + 1
length-snoc [] x = refl
length-snoc (y ∷ xs) x = omega (arith, length-snoc xs x)

free_alone : (o : Option ℕ) (i : ℕ) → o ≡ none → (j : ℕ) → j ≢ i → o ≢ some j
free_alone o i e j n f = cc

held_alone : (o : Option ℕ) (i : ℕ) → o ≡ some i → (j : ℕ) → j ≢ i → o ≢ some j
held_alone o i e j n f = n (some_index (sym f ∙ e))

module _ {ℓ} {T : Type ℓ} where
  -- What a worker at a point of threadpool_handle can rely on.
  abbrev Good : Bool → ℕ → Option ℕ → ℕ → Phase T → Type 0
  Good sh n o i testing = o ≡ some i
  Good sh n o i going_to_wait = o ≡ some i
  Good sh n o i past_loop = (o ≡ some i) × ((sh || ltb 0 n) ≡ true)
  Good sh n o i taking = (o ≡ some i) × (0 < n)
  Good sh n o i _ = Unit

  -- A worker that does not hold the lock relies on nothing.
  Good-other :
      (sh sh' : Bool) (n n' : ℕ) (o o' : Option ℕ) (i : ℕ) (p : Phase T)
      → o ≢ some i
      → Good sh n o i p
      → Good sh' n' o' i p
  Good-other sh sh' n n' o o' i at_lock h g = tt
  Good-other sh sh' n n' o o' i testing h g = absurd (h g)
  Good-other sh sh' n n' o o' i going_to_wait h g = absurd (h g)
  Good-other sh sh' n n' o o' i waiting h g = tt
  Good-other sh sh' n n' o o' i woken h g = tt
  Good-other sh sh' n n' o o' i past_loop h g = absurd (h g.0)
  Good-other sh sh' n n' o o' i taking h g = absurd (h g.0)
  Good-other sh sh' n n' o o' i (working t) h g = tt
  Good-other sh sh' n n' o o' i exited h g = tt

  Good-shut :
      (n : ℕ) (o : Option ℕ) (i : ℕ) (p : Phase T) (sh : Bool) → Good sh n o i p → Good true n o i p
  Good-shut n o i at_lock sh g = tt
  Good-shut n o i testing sh g = g
  Good-shut n o i going_to_wait sh g = g
  Good-shut n o i waiting sh g = tt
  Good-shut n o i woken sh g = tt
  Good-shut n o i past_loop sh g = (g.0, refl)
  Good-shut n o i taking sh g = g
  Good-shut n o i (working t) sh g = tt
  Good-shut n o i exited sh g = tt

  record Invariant (s : Pool T) : Type ℓ where
    counted : s.cur_queue_size ≡ length s.work_queue
    ordered : s.added ≡ s.taken ++ s.work_queue
    good : (i : ℕ) → Good s.shutdown s.cur_queue_size s.owner i (s.phase i)

  -- Worker `i` moves, and no other worker holds the lock.
  moved :
      (s : Pool T) (sh : Bool) (n : ℕ) (i : ℕ) (p : Phase T) (o : Option ℕ)
      → ((j : ℕ) → Good s.shutdown s.cur_queue_size s.owner j (s.phase j))
      → ((j : ℕ) → j ≢ i → s.owner ≢ some j)
      → Good sh n o i p
      → (j : ℕ) → Good sh n o j (if j == i then p else s.phase j)
  moved s sh n i p o g alone h j = elim (Bool-cases (j == i)) [
    | inl e ↦ rw e (subst (λ k. Good sh n o k p) (ground arith) h)
    | inr e ↦ rw e (
        Good-other s.shutdown sh s.cur_queue_size n s.owner o j (s.phase j) (alone j (ground arith))
          (g j))
  ]

  -- Worker `i` moves without the lock.
  moved_free :
      (s : Pool T) (i : ℕ) (p : Phase T)
      → ((j : ℕ) → Good s.shutdown s.cur_queue_size s.owner j (s.phase j))
      → Good s.shutdown s.cur_queue_size s.owner i p
      → (j : ℕ) → Good s.shutdown s.cur_queue_size s.owner j (if j == i then p else s.phase j)
  moved_free s i p g h j = elim (Bool-cases (j == i)) [
    | inl e ↦ rw e (subst (λ k. Good s.shutdown s.cur_queue_size s.owner k p) (ground arith) h)
    | inr e ↦ rw e (g j)
  ]

  take_step :
      (s : Pool T) (i : ℕ) (ts : List T)
      → s.work_queue ≡ ts
      → s.phase i ≡ taking
      → Invariant s
      → Invariant (took s i (peek ts))
  unfolding took peek goes
  take_step s i [] q e v = v
  take_step s i (t ∷ ts) q e v =
      let mine : Good s.shutdown s.cur_queue_size s.owner i taking =
        subst (Good s.shutdown s.cur_queue_size s.owner i) e (v.good i) in
      rw q (record {
        counted = omega (arith, v.counted, ap length q);
        ordered = v.ordered ∙ ap (λ r. s.taken ++ r) q ∙ sym (append_assoc s.taken (t ∷ []) ts);
        good =
            moved s s.shutdown (s.cur_queue_size - 1) i (working t) none v.good
              (held_alone s.owner i mine.0) tt;
      })

  check_step :
      (s : Pool T) (i : ℕ) (b : Bool)
      → s.shutdown ≡ b
      → s.phase i ≡ past_loop
      → Invariant s
      → Invariant (if b then goes s i exited none else goes s i taking (some i))
  unfolding goes
  check_step s i b q e v = cases b q
    where
      mine : Good s.shutdown s.cur_queue_size s.owner i past_loop
      mine = subst (Good s.shutdown s.cur_queue_size s.owner i) e (v.good i)

      waiting_task :
          s.shutdown ≡ false → (s.shutdown || ltb 0 s.cur_queue_size) ≡ true → 0 < s.cur_queue_size
      waiting_task r m = ground arith

      cases :
          (c : Bool)
          → s.shutdown ≡ c
          → Invariant (if c then goes s i exited none else goes s i taking (some i))
      cases true r = record {
        counted = v.counted;
        ordered = v.ordered;
        good =
            moved s s.shutdown s.cur_queue_size i exited none v.good (held_alone s.owner i mine.0)
              tt;
      }
      cases false r = record {
        counted = v.counted;
        ordered = v.ordered;
        good =
            moved s s.shutdown s.cur_queue_size i taking (some i) v.good
              (held_alone s.owner i mine.0) (refl, waiting_task r mine.1);
      }

  test_step :
      (s : Pool T) (i : ℕ) (b : Bool)
      → must_wait s ≡ b
      → s.phase i ≡ testing
      → Invariant s
      → Invariant (goes s i (if b then going_to_wait else past_loop) (some i))
  unfolding goes must_wait
  test_step s i b q e v = record {
    counted = v.counted;
    ordered = v.ordered;
    good =
        moved s s.shutdown s.cur_queue_size i (if b then going_to_wait else past_loop) (some i)
          v.good
          (held_alone s.owner i (subst (Good s.shutdown s.cur_queue_size s.owner i) e (v.good i)))
          (outcome b q);
  }
    where
      outcome :
          (c : Bool)
          → (s.cur_queue_size == 0 && not s.shutdown) ≡ c
          → Good s.shutdown s.cur_queue_size (some i) i (if c then going_to_wait else past_loop)
      outcome true r = refl
      outcome false r = (refl, ground arith)

  step-Invariant : {s t : Pool T} → Invariant s → Step true s t → Invariant t
  unfolding goes tested checked threadpool_add_worker
  step-Invariant {s} v (lock i e f) = record {
    counted = v.counted;
    ordered = v.ordered;
    good =
        moved s s.shutdown s.cur_queue_size i testing (some i) v.good (free_alone s.owner i f) refl;
  }
  step-Invariant {s} v (test i e) = test_step s i _ refl e v
  step-Invariant {s} v (wait i e) = record {
    counted = v.counted;
    ordered = v.ordered;
    good =
        moved s s.shutdown s.cur_queue_size i waiting none v.good
          (held_alone s.owner i (subst (Good s.shutdown s.cur_queue_size s.owner i) e (v.good i)))
          tt;
  }
  step-Invariant {s} v (wake i e) = record {
    counted = v.counted;
    ordered = v.ordered;
    good = moved_free s i woken v.good tt;
  }
  step-Invariant {s} v (relock i e f) = record {
    counted = v.counted;
    ordered = v.ordered;
    good =
        moved s s.shutdown s.cur_queue_size i testing (some i) v.good (free_alone s.owner i f) refl;
  }
  step-Invariant {s} v (check i e) = check_step s i _ refl e v
  step-Invariant {s} v (take i e) = take_step s i _ refl e v
  step-Invariant {s} v (finish i t e) = record {
    counted = v.counted;
    ordered = v.ordered;
    good = moved_free s i at_lock v.good tt;
  }
  step-Invariant {s} v (add t f) = rw (insert_after-last s.work_queue t) (record {
    counted = omega (arith, v.counted, length-snoc s.work_queue t);
    ordered = ap (λ r. r ++ t ∷ []) v.ordered ∙ append_assoc s.taken s.work_queue (t ∷ []);
    good = λ j.
        Good-other s.shutdown s.shutdown s.cur_queue_size (s.cur_queue_size + 1) s.owner s.owner j
          (s.phase j) (free_alone s.owner (suc j) f j (omega arith)) (v.good j);
  })
  step-Invariant {s} v (shut e) = record {
    counted = v.counted;
    ordered = v.ordered;
    good = λ j. Good-shut s.cur_queue_size s.owner j (s.phase j) s.shutdown (v.good j);
  }

  Reachable-Invariant : (s : Pool T) → Reachable true s → Invariant s
  unfolding threadpool_init
  Reachable-Invariant _ start = record { counted = refl; ordered = refl; good = λ i. tt }
  Reachable-Invariant _ (next {s} {t} r k) = step-Invariant (Reachable-Invariant s r) k

  holds-owner :
      (sh : Bool) (n : ℕ) (o : Option ℕ) (i : ℕ) (p : Phase T)
      → Good sh n o i p
      → holds p ≡ true
      → o ≡ some i
  holds-owner sh n o i at_lock g h = cc
  holds-owner sh n o i testing g h = g
  holds-owner sh n o i going_to_wait g h = g
  holds-owner sh n o i waiting g h = cc
  holds-owner sh n o i woken g h = cc
  holds-owner sh n o i past_loop g h = g.0
  holds-owner sh n o i taking g h = g.0
  holds-owner sh n o i (working t) g h = cc
  holds-owner sh n o i exited g h = cc

  assertions-Good :
      (sh : Bool) (n : ℕ) (o : Option ℕ) (i : ℕ) (p : Phase T) (q : List T)
      → n ≡ length q
      → Good sh n o i p
      → (is_taking p && (n == 0 || is_none (peek q))) ≡ false
  unfolding peek
  assertions-Good sh n o i at_lock q c g = refl
  assertions-Good sh n o i testing q c g = refl
  assertions-Good sh n o i going_to_wait q c g = refl
  assertions-Good sh n o i waiting q c g = refl
  assertions-Good sh n o i woken q c g = refl
  assertions-Good sh n o i past_loop q c g = refl
  assertions-Good sh n o i taking [] c g = absurd (omega (arith, g.1))
  assertions-Good sh n o i taking (t ∷ q) c g = ground (arith, g.1)
  assertions-Good sh n o i (working t) q c g = refl
  assertions-Good sh n o i exited q c g = refl

  -- In every state that the adding threads, the workers and threadpool_destroy reach, the last of these
  -- up to its broadcast and not behind it, malloc never failing: cur_queue_size is the length of the
  -- queue, the tasks taken and the tasks queued are together those added, in order, neither assertion of
  -- threadpool_handle fails at any worker, and no two workers hold the lock.
  pub threadpool-Safe :
      (s : Pool T)
      → Reachable true s
      → (s.cur_queue_size ≡ length s.work_queue)
        × (s.added ≡ s.taken ++ s.work_queue)
        × ((i : ℕ) → assertion_fails s i ≡ false)
        × ((i j : ℕ) → (holds (s.phase i) && holds (s.phase j) && not (i == j)) ≡ false)
  unfolding assertion_fails
  threadpool-Safe s r =
      let v = Reachable-Invariant s r in
      (
        v.counted,
        v.ordered,
        λ i.
            assertions-Good s.shutdown s.cur_queue_size s.owner i (s.phase i) s.work_queue v.counted
              (v.good i),
        λ i j. elim (Bool-cases (holds (s.phase i))) [
          | inr a ↦ rw a
          | inl a ↦ elim (Bool-cases (holds (s.phase j))) [
            | inr b ↦ rw (a, b)
            | inl b ↦
                let same : i ≡ j = some_index (
                  sym (holds-owner s.shutdown s.cur_queue_size s.owner i (s.phase i) (v.good i) a)
                  ∙ holds-owner s.shutdown s.cur_queue_size s.owner j (s.phase j) (v.good j) b) in
                ground arith
          ]
        ],
      )
