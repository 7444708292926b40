-- ===== src/Sort/Correct.antt =====
-- issort sorts: a permutation of the array, in order.
use mathlib.Core.List.{Perm, perm_middle, perm_append_singleton, append-nil}
use mathlib.Core.List.Perm
use sweet_clib.Prelude.{
  ℕ, suc, ◌+◌, ◌≡◌, refl, sym, ap, ◌∙◌, subst, Bool, true, false, List, [], ◌∷◌, ◌++◌, arith,
  if◌then◌else◌, get_or, set, length, Bool-cases, inl, inr,
}
use sweet_clib.Linked.{success}
use sweet_clib.Sort.{shift, rounds, issort}

-- The elements of `rp`, which is given backwards, in front of `ys`.
pub shunt {ℓ} : {A : Type ℓ} → List A → List A → List A
shunt [] ys = ys
shunt (x ∷ rp) ys = shunt rp (x ∷ ys)

module _ {ℓ} {A : Type ℓ} where
  get_or-shunt :
      (rp ws : List A) (k : ℕ) (d : A) → get_or (shunt rp ws) (length rp + k) d ≡ get_or ws k d
  unfolding shunt
  get_or-shunt [] ws k d = ap (λ i. get_or ws i d) (omega arith)
  get_or-shunt (x ∷ rp) ws k d =
      ap (λ i. get_or (shunt rp (x ∷ ws)) i d) (omega arith) ∙ get_or-shunt rp (x ∷ ws) (suc k) d

  get_or-length :
      (rp : List A) (y : A) (ys : List A) (d : A) → get_or (shunt rp (y ∷ ys)) (length rp) d ≡ y
  get_or-length rp y ys d =
      ap (λ i. get_or (shunt rp (y ∷ ys)) i d) (omega arith) ∙ get_or-shunt rp (y ∷ ys) 0 d

  set-shunt :
      (rp ws : List A) (k : ℕ) (v : A) → set (shunt rp ws) (length rp + k) v ≡ shunt rp (set ws k v)
  unfolding shunt
  set-shunt [] ws k v = ap (λ i. set ws i v) (omega arith)
  set-shunt (x ∷ rp) ws k v =
      ap (λ i. set (shunt rp (x ∷ ws)) i v) (omega arith) ∙ set-shunt rp (x ∷ ws) (suc k) v

  set-length :
      (rp : List A) (y v : A) (ys : List A)
      → set (shunt rp (y ∷ ys)) (length rp) v ≡ shunt rp (v ∷ ys)
  set-length rp y v ys =
      ap (λ i. set (shunt rp (y ∷ ys)) i v) (omega arith) ∙ set-shunt rp (y ∷ ys) 0 v

  shunt-perm : (rp ys : List A) → Perm (shunt rp ys) (rp ++ ys)
  unfolding shunt
  shunt-perm [] ys = Perm.refl ys
  shunt-perm (x ∷ rp) ys = Perm.trans (shunt-perm rp (x ∷ ys)) (perm_middle rp ys)

module _ {ℓ} {A : Type ℓ} (greater : A → A → Bool) where
  -- Insertion into a sequence that is given backwards.
  pub insert_back : A → List A → List A
  insert_back key [] = key ∷ []
  insert_back key (x ∷ xs) = if greater x key then x ∷ insert_back key xs else key ∷ (x ∷ xs)

  pub insert_all : List A → List A → List A
  insert_all rp [] = rp
  insert_all rp (y ∷ ys) = insert_all (insert_back y rp) ys

  length-insert_back : (key : A) (rp : List A) → length (insert_back key rp) ≡ suc (length rp)
  unfolding insert_back
  length-insert_back key [] = refl
  length-insert_back key (x ∷ rp) = ground (arith, length-insert_back key rp)

  shift-insert_back :
      (key : A) (rp : List A) (z : A) (ys : List A)
      → shift greater key (length rp) (shunt rp (z ∷ ys)) ≡ shunt (insert_back key rp) ys
  unfolding shift insert_back shunt
  shift-insert_back key [] z ys = refl
  shift-insert_back key (x ∷ rp) z ys = elim (Bool-cases (greater x key)) [
    | inl e ↦
        rw (get_or-length rp x (z ∷ ys) key, e)
          (ap (shift greater key (length rp)) (set-length (x ∷ rp) z x ys)
            ∙ shift-insert_back key rp x (x ∷ ys))
    | inr e ↦ rw (get_or-length rp x (z ∷ ys) key, e) (set-length (x ∷ rp) z key ys)
  ]

  rounds-insert_all :
      (rp ys : List A) (d : A)
      → rounds greater (length ys) (length rp) d (shunt rp ys) ≡ shunt (insert_all rp ys) []
  unfolding rounds insert_all
  rounds-insert_all rp [] d = refl
  rounds-insert_all rp (y ∷ ys) d =
      ap
        (λ key.
          rounds greater (length ys) (suc (length rp)) d
            (shift greater key (length rp) (shunt rp (y ∷ ys))))
        (get_or-length rp y ys d)
      ∙ (ap (rounds greater (length ys) (suc (length rp)) d) (shift-insert_back y rp y ys)
          ∙ (ap (λ j. rounds greater (length ys) j d (shunt (insert_back y rp) ys))
                (sym (length-insert_back y rp))
              ∙ rounds-insert_all (insert_back y rp) ys d))

  insert_back-perm : (key : A) (rp : List A) → Perm (insert_back key rp) (key ∷ rp)
  unfolding insert_back
  insert_back-perm key [] = Perm.refl (key ∷ [])
  insert_back-perm key (x ∷ rp) = elim (Bool-cases (greater x key)) [
    | inl e ↦ rw e (Perm.trans (Perm.cons x (insert_back-perm key rp)) (Perm.swap key x rp))
    | inr e ↦ rw e (Perm.refl (key ∷ x ∷ rp))
  ]

  insert_all-perm : (rp ys : List A) → Perm (insert_all rp ys) (ys ++ rp)
  unfolding insert_all
  insert_all-perm rp [] = Perm.refl rp
  insert_all-perm rp (y ∷ ys) =
      Perm.trans (insert_all-perm (insert_back y rp) ys)
        (Perm.trans (Perm.append_left ys (insert_back-perm y rp)) (perm_middle ys rp))

  -- `a` may stand before `b`.
  abbrev pub Before : A → A → Type 0
  Before a b = greater a b ≡ false

  -- What issort asks of `compare`.
  pub record IsTotal : Type ℓ where
    pub total : (a b : A) → greater a b ≡ true → Before b a
    pub chain : (a b c : A) → Before a b → Before b c → Before a c

  abbrev pub AllBefore : List A → A → Type 0
  AllBefore [] b = Unit
  AllBefore (a ∷ xs) b = Before a b × AllBefore xs b

  abbrev pub AllAfter : A → List A → Type 0
  AllAfter a [] = Unit
  AllAfter a (b ∷ ys) = Before a b × AllAfter a ys

  abbrev pub Ascending : List A → Type 0
  Ascending [] = Unit
  Ascending (a ∷ ys) = AllAfter a ys × Ascending ys

  -- The same of a sequence given backwards.
  abbrev Descending : List A → Type 0
  Descending [] = Unit
  Descending (b ∷ rp) = AllBefore rp b × Descending rp

  abbrev Apart : List A → List A → Type 0
  Apart [] ys = Unit
  Apart (a ∷ rp) ys = AllAfter a ys × Apart rp ys

  Apart-cons :
      (rp : List A) (b : A) (ys : List A) → AllBefore rp b → Apart rp ys → Apart rp (b ∷ ys)
  Apart-cons [] b ys h k = tt
  Apart-cons (a ∷ rp) b ys h k = ((h.0, k.0), Apart-cons rp b ys h.1 k.1)

  Ascending-shunt :
      (rp ys : List A) → Descending rp → Ascending ys → Apart rp ys → Ascending (shunt rp ys)
  unfolding shunt
  Ascending-shunt [] ys d a k = a
  Ascending-shunt (b ∷ rp) ys d a k =
      Ascending-shunt rp (b ∷ ys) d.1 (k.0, a) (Apart-cons rp b ys d.0 k.1)

  Apart-nil : (rp : List A) → Apart rp []
  Apart-nil [] = tt
  Apart-nil (a ∷ rp) = (tt, Apart-nil rp)

  module _ (t : IsTotal) where
    AllBefore-trans : (rp : List A) (a b : A) → AllBefore rp a → Before a b → AllBefore rp b
    AllBefore-trans [] a b h k = tt
    AllBefore-trans (c ∷ rp) a b h k = (t.chain c a b h.0 k, AllBefore-trans rp a b h.1 k)

    AllBefore-insert_back :
        (key b : A) (rp : List A) → Before key b → AllBefore rp b → AllBefore (insert_back key rp) b
    unfolding insert_back
    AllBefore-insert_back key b [] k h = (k, tt)
    AllBefore-insert_back key b (x ∷ rp) k h = elim (Bool-cases (greater x key)) [
      | inl e ↦ rw e (h.0, AllBefore-insert_back key b rp k h.1)
      | inr e ↦ rw e (k, h)
    ]

    Descending-insert_back :
        (key : A) (rp : List A) → Descending rp → Descending (insert_back key rp)
    unfolding insert_back
    Descending-insert_back key [] d = (tt, tt)
    Descending-insert_back key (x ∷ rp) d = elim (Bool-cases (greater x key)) [
      | inl e ↦
          rw e (
            AllBefore-insert_back key x rp (t.total x key e) d.0,
            Descending-insert_back key rp d.1,
          )
      | inr e ↦ rw e ((e, AllBefore-trans rp x key d.0 e), d)
    ]

    Descending-insert_all : (rp ys : List A) → Descending rp → Descending (insert_all rp ys)
    unfolding insert_all
    Descending-insert_all rp [] d = d
    Descending-insert_all rp (y ∷ ys) d =
        Descending-insert_all (insert_back y rp) ys (Descending-insert_back y rp d)

    -- When malloc succeeds and `compare` is a total order, issort returns 0 and leaves the elements
    -- of the array in ascending order: the same elements, as often.
    pub issort-Ascending :
        (a : List A)
        → ((issort greater true a).0 ≡ success)
          × Ascending (issort greater true a).1
          × Perm (issort greater true a).1 a
    unfolding issort shunt
    issort-Ascending [] = (refl, tt, Perm.refl [])
    issort-Ascending (x ∷ xs) =
        let done = rounds-insert_all (x ∷ []) xs x in
        let rp = insert_all (x ∷ []) xs in
        (
          refl,
          subst Ascending (sym done) (
              Ascending-shunt rp [] (Descending-insert_all (x ∷ []) xs (tt, tt)) tt (Apart-nil rp)),
          subst (λ r. Perm r (x ∷ xs)) (sym done)
              (Perm.trans (shunt-perm rp []) (
                Perm.trans (subst (λ r. Perm r rp) (sym (append-nil rp)) (Perm.refl rp))
                  (Perm.trans (insert_all-perm (x ∷ []) xs) (perm_append_singleton x xs)))),
        )
