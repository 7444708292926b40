-- ===== src/Linked/Cells.antt =====
-- What a list in memory stands for: the addresses and the data of its nodes, in order.
use sweet_clib.Prelude.{
  ◌≡◌, refl, ◌≢◌, Bool, true, false, ◌||◌, Option, none, some, List, [], ◌∷◌, arith, ◌==◌, length,
}
use sweet_clib.Linked.{Ptr, null, ListElmt, ListHead, Heap, ok, elmt, write, load}

pub eqb_false : {a b : Ptr} → a ≢ b → (a == b) ≡ false
eqb_false n = ground arith

module _ {ℓ} {D : Type ℓ} where
  pub load-ok : (h : Heap D) (a : Ptr) (e : ListElmt D) → a ≢ null → h a ≡ some e → load h a ≡ ok e
  unfolding load
  load-ok h a e n at = rw (eqb_false n, at)

  pub write_self : (h : Heap D) (a : Ptr) (v : Option (ListElmt D)) → write h a v a ≡ v
  unfolding write
  write_self h a v = ground arith

  pub write_ne :
      (h : Heap D) (a : Ptr) (v : Option (ListElmt D)) (b : Ptr) → b ≢ a → write h a v b ≡ h b
  unfolding write
  write_ne h a v b n = rw (eqb_false n)

  abbrev pub first : List (Ptr × D) → Ptr
  first [] = null
  first ((a, x) ∷ cs) = a

  abbrev pub final : List (Ptr × D) → Ptr
  final [] = null
  final ((a, x) ∷ []) = a
  final (c ∷ d ∷ cs) = final (d ∷ cs)

  abbrev pub has : Ptr → List (Ptr × D) → Bool
  has a [] = false
  has a ((b, x) ∷ cs) = (a == b) || has a cs

  pub has_tail :
      (a b : Ptr) (y : D) (cs : List (Ptr × D)) → has a ((b, y) ∷ cs) ≡ false → has a cs ≡ false
  has_tail a b y cs o = ground arith

  pub ne_head : (a b : Ptr) (y : D) (cs : List (Ptr × D)) → has a ((b, y) ∷ cs) ≡ false → a ≢ b
  ne_head a b y cs o = ground arith

  pub ne_of_has : (a b : Ptr) (cs : List (Ptr × D)) → has a cs ≡ false → has b cs ≡ true → a ≢ b
  ne_of_has a b cs p q e = cc

  -- Each cell is stored at its address, points to the next one, and stands there once.
  abbrev pub Chain : Heap D → List (Ptr × D) → Type ℓ
  Chain h [] = Unit
  Chain h ((a, x) ∷ cs) =
      (h a ≡ some (elmt x (first cs))) × (a ≢ null) × (has a cs ≡ false) × Chain h cs

  -- The well-formedness invariant: head, tail and size agree with the chain.
  pub record IsList (h : Heap D) (l : ListHead) (cs : List (Ptr × D)) : Type ℓ where
    pub starts : l.head ≡ first cs
    pub ends : l.tail ≡ final cs
    pub counted : l.size ≡ length cs
    pub chained : Chain h cs

  pub has_of_free :
      (h : Heap D) (a : Ptr) (cs : List (Ptr × D)) → Chain h cs → h a ≡ none → has a cs ≡ false
  has_of_free h a [] c e = refl
  has_of_free h a ((b, x) ∷ cs) c e = ground (arith, has_of_free h a cs c.3)

  -- A write elsewhere leaves a chain alone.
  pub Chain-write :
      (h : Heap D) (a : Ptr) (v : Option (ListElmt D)) (cs : List (Ptr × D))
      → has a cs ≡ false
      → Chain h cs
      → Chain (write h a v) cs
  unfolding write
  Chain-write h a v [] o c = tt
  Chain-write h a v ((b, x) ∷ cs) o c =
      (ground arith, c.1, c.2, Chain-write h a v cs (ground arith) c.3)

  -- The data that a list holds.
  abbrev pub contents : List (Ptr × D) → List D
  contents [] = []
  contents ((a, x) ∷ cs) = x ∷ contents cs
