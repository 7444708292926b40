-- ===== src/Tests/Lists.antt =====
-- Runs of the list, the queue and the stack at concrete inputs.
use sweet_clib.Prelude.{
  ℕ, ◌≡◌, refl, ◌++◌, true, Option, none, some, List, [], ◌∷◌, arith, if◌then◌else◌, ◌==◌,
}
use sweet_clib.Linked.{
  Ptr, null, Status, success, ListHead, Heap, ok, elmt, list_ins_next, list_rem_next, list_destroy,
}
use sweet_clib.Linked.Cells.{IsList}
use sweet_clib.Linked.Insert.{SameOutside}
use sweet_clib.Linked.Remove.{Removes}
use sweet_clib.Linked.Destroy.{Emptied, list_destroy-Emptied}
use sweet_clib.Linked.View.{Holds, list_ins_next-ins_next, list_rem_next-rem_next}
use sweet_clib.Queue.{queue_enqueue, queue_dequeue, queue_peek, queue_dequeue-enqueue}
use sweet_clib.Stack.{stack_push, stack_pop, stack_peek, stack_pop-push}

-- Two nodes, 10 and 20, that hold 100 and 200.
abbrev memory : Heap ℕ
memory a = if a == 10 then some (elmt 100 20) else if a == 20 then some (elmt 200 null) else none

abbrev two : ListHead
two = record { size = 2; destroys = true; head = 10; tail = 20 }

abbrev cells : List (Ptr × ℕ)
cells = (10, 100) ∷ (20, 200) ∷ []

two-IsList : IsList memory two cells
two-IsList = record {
  starts = refl;
  ends = refl;
  counted = refl;
  chained = (refl, omega arith, refl, (refl, omega arith, refl, tt));
}

list_destroy-Emptied_example :
    (r : List ℕ × ListHead × Heap ℕ) × (list_destroy memory two ≡ ok r) × Emptied memory two cells r
list_destroy-Emptied_example = list_destroy-Emptied memory two cells two-IsList

list_ins_next-ins_next_example :
    (r : Status × ListHead × Heap ℕ) × (list_ins_next 30 memory two 10 300 ≡ ok r)
    × (r.0 ≡ success)
    × Holds r.2 r.1 (100 ∷ 300 ∷ 200 ∷ [])
list_ins_next-ins_next_example =
    list_ins_next-ins_next 30 300 memory two cells (some 0) two-IsList (omega arith) refl

list_rem_next-rem_next_example :
    (r : Status × Option ℕ × ListHead × Heap ℕ) × (list_rem_next memory two 10 ≡ ok r)
    × (r.0 ≡ success)
    × (r.1 ≡ some 200)
    × Holds r.3 r.2 (100 ∷ [])
list_rem_next-rem_next_example =
    list_rem_next-rem_next memory two cells (some 0) two-IsList (omega arith)

queue_dequeue-enqueue_example :
    (r : Status × ListHead × Heap ℕ) × (queue_peek memory two ≡ ok (some 100))
    × Removes (some ((10, 100), (20, 200) ∷ [])) memory two cells (queue_dequeue memory two)
    × (queue_enqueue 30 memory two 300 ≡ ok r)
    × (r.0 ≡ success)
    × IsList r.2 r.1 (cells ++ (30, 300) ∷ [])
    × SameOutside ((30, 300) ∷ cells) memory r.2
    × (queue_peek r.2 r.1 ≡ ok (some 100))
    × Removes
        (some ((10, 100), (20, 200) ∷ (30, 300) ∷ []))
        r.2
        r.1
        (cells ++ (30, 300) ∷ [])
        (queue_dequeue r.2 r.1)
queue_dequeue-enqueue_example =
    queue_dequeue-enqueue 30 300 memory two cells two-IsList refl (omega arith)

stack_pop-push_example :
    (r : Status × ListHead × Heap ℕ) × (t : Status × Option ℕ × ListHead × Heap ℕ) × (stack_push 30
        memory two 300
      ≡ ok r)
    × (stack_peek r.2 r.1 ≡ ok (some 300))
    × (stack_pop r.2 r.1 ≡ ok t)
    × (t.0 ≡ success)
    × (t.1 ≡ some 300)
    × IsList t.3 t.2 cells
    × (t.3 30 ≡ none)
    × SameOutside ((30, 300) ∷ cells) memory t.3
stack_pop-push_example = stack_pop-push 30 300 memory two cells two-IsList refl (omega arith)
