-- ===== src/Sort.antt =====
-- lib/sort/issort.c: insertion sort in place. The array is the sequence of its elements of `esize`
-- bytes, each memcpy moving one element; `greater a b` is `compare(a, b) > 0`.
pub mod Correct
use sweet_clib.Prelude.{
  ℕ, zero, suc, ◌+◌, ◌-◌, Bool, true, false, List, [], ◌∷◌, ◌&&◌, ◌≤◌, if◌then◌else◌, get_or, set,
  length,
}
use sweet_clib.Linked.{Status, success, failure}

module _ {ℓ} {A : Type ℓ} (greater : A → A → Bool) where
  -- The inner loop and the memcpy behind it; the argument is i + 1, so 0 stands for i = -1.
  pub shift : A → ℕ → List A → List A
  shift key zero a = set a zero key
  shift key (suc i) a =
      let moved = shift key i (set a (suc i) (get_or a i key)) in
      if greater (get_or a i key) key then moved else set a (suc i) key

  -- The outer loop, from j on, with the rounds that are left.
  pub rounds : ℕ → ℕ → A → List A → List A
  rounds zero j d a = a
  rounds (suc n) j d a = rounds n (suc j) d (shift (get_or a j d) j a)

  -- issort, where `alloc` says whether malloc returned room for the key; an array with no element
  -- makes no round.
  pub issort : Bool → List A → Status × List A
  issort false a = (failure, a)
  issort true [] = (success, [])
  issort true (x ∷ xs) = (success, rounds (length xs) 1 x (x ∷ xs))
