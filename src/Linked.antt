-- ===== src/Linked.antt =====
-- lib/_structs/list.c and list.h over an explicit memory: the list of ListElmt nodes that the
-- queue, the stack, the hash table and the tree traversals share. A pointer is a number and 0 is
-- NULL. The `match` member of List is left out, since no function of list.c reads or writes it.
pub mod Cells
pub mod Insert
pub mod Remove
pub mod Destroy
pub mod View
use sweet_clib.Prelude.{
  ℕ, zero, suc, ◌+◌, ◌-◌, Bool, true, false, Option, none, some, List, [], ◌∷◌, ◌++◌, ◌==◌, ltb,
  if◌then◌else◌,
}

abbrev pub Ptr : Type 0
Ptr = ℕ

abbrev pub null : Ptr
null = 0

-- The return codes 0, -1 and 1.
pub data Status : Type 0 where
  success : Status
  failure : Status
  duplicate : Status

-- ListElmt
pub record ListElmt {ℓ} (D : Type ℓ) : Type ℓ where
  pub datum : D
  pub next : Ptr

-- List, with `destroys` for `destroy != NULL`.
pub record ListHead : Type 0 where
  pub size : ℕ
  pub destroys : Bool
  pub head : Ptr
  pub tail : Ptr

abbrev pub Heap {ℓ} : Type ℓ → Type ℓ
Heap D = Ptr → Option (ListElmt D)

-- `fault` is a read or a write through NULL or through an address that holds no node.
pub data Run {ℓ} (A : Type ℓ) : Type ℓ where
  ok : A → Run A
  fault : Run A
  out_of_fuel : Run A

infixl 5 ◌>>=◌
abbrev pub ◌>>=◌ {ℓ κ} : {A : Type ℓ} {B : Type κ} → Run A → (A → Run B) → Run B
ok a >>= k = k a
fault >>= k = fault
out_of_fuel >>= k = out_of_fuel

-- list_init
abbrev list_init : Bool → ListHead
list_init destroys = record { size = 0; destroys = destroys; head = null; tail = null }

module _ {ℓ} {D : Type ℓ} where
  abbrev pub elmt : D → Ptr → ListElmt D
  elmt x q = record { datum = x; next = q }

  pub write : Heap D → Ptr → Option (ListElmt D) → Heap D
  write h p c a = if a == p then c else h a

  pub load : Heap D → Ptr → Run (ListElmt D)
  load h p = if p == null then fault else elim (h p) [ none ↦ fault | some n ↦ ok n ]

  -- list_ins_next; `fresh` is what malloc returned.
  pub list_ins_next : Ptr → Heap D → ListHead → Ptr → D → Run (Status × ListHead × Heap D)
  list_ins_next fresh h l element x =
      if fresh == null
      then ok (failure, l, h)
      else if element == null
      then ok (
        success,
        record l { head = fresh; tail = if l.size == 0 then fresh else l.tail; size = l.size + 1 },
        write h fresh (some (elmt x l.head)),
      )
      else do
        e ← load h element
        ok (
          success,
          record l { tail = if e.next == null then fresh else l.tail; size = l.size + 1 },
          write (write h fresh (some (elmt x e.next))) element (some (elmt e.datum fresh)),
        )

  -- The part of list_rem_next that has read `element`, the node `e`.
  pub unlink_next :
      Heap D → ListHead → Ptr → ListElmt D → Run (Status × Option D × ListHead × Heap D)
  unlink_next h l element e =
      if e.next == null
      then ok (failure, none, l, h)
      else load h e.next >>= λ old. ok (
        success,
        some old.datum,
        record l { tail = if old.next == null then element else l.tail; size = l.size - 1 },
        write (write h element (some (elmt e.datum old.next))) e.next none,
      )

  -- list_rem_next; the datum is what `*data` is set to, and stays `none` on failure.
  pub list_rem_next : Heap D → ListHead → Ptr → Run (Status × Option D × ListHead × Heap D)
  list_rem_next h l element =
      if l.size == 0
      then ok (failure, none, l, h)
      else if element == null
      then (do
        e ← load h l.head
        ok (
          success,
          some e.datum,
          record l {
            head = e.next;
            tail = if l.size == 1 then null else l.tail;
            size = l.size - 1;
          },
          write h l.head none,
        ))
      else do e ← load h element; unlink_next h l element e

  -- What one round of the loop hands to `destroy`.
  pub destroyed : Bool → Status → Option D → List D
  destroyed true success (some x) = x ∷ []
  destroyed _ _ _ = []

  -- The loop of list_destroy, with the data passed to `destroy`, in order.
  pub destroy_loop : ℕ → Heap D → ListHead → Run (List D × ListHead × Heap D)
  destroy_loop zero h l = out_of_fuel
  destroy_loop (suc fuel) h l =
      let round = list_rem_next h l null >>= λ (s, x, l', h').
      destroy_loop fuel h' l' >>= λ (xs, l'', h''). ok (destroyed l.destroys s x ++ xs, l'', h'') in
      if ltb 0 l.size then round else ok ([], l, h)

  -- list_destroy; the memset clears every member.
  pub list_destroy : Heap D → ListHead → Run (List D × ListHead × Heap D)
  list_destroy h l = destroy_loop (l.size + 1) h l >>= λ (xs, l', h').
      ok (xs, record { size = 0; destroys = false; head = null; tail = null }, h')
