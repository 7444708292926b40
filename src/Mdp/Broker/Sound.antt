-- ===== src/Mdp/Broker/Sound.antt =====
-- The invariant of the broker's objects, tables and lists.
use sweet_clib.Prelude.{
  ◌≡◌, ◌≢◌, refl, ap, Bool, true, false, not, ◌&&◌, ◌||◌, Option, none, some, List, [], ◌∷◌, arith,
  ◌==◌, Bool-cases, inl, inr,
}
use sweet_clib.Text.{Bytes, strcmp_eq}
use sweet_clib.Linked.{Ptr}
use sweet_clib.Czmq.{remove_first}
use sweet_clib.Mdp.Broker.{World, Worker, Service, same_ptr, is_some}
use sweet_clib.Mdp.Broker.Objects.{Broker}

-- The link is to this object.
abbrev pub points : Option Ptr → Ptr → Bool
points none p = false
points (some q) p = q == p

abbrev pub all_of : (Ptr → Bool) → List Ptr → Bool
all_of f [] = true
all_of f (p ∷ ps) = f p && all_of f ps

abbrev pub has : Ptr → List Ptr → Bool
has p [] = false
has p (q ∷ qs) = p == q || has p qs

abbrev pub distinct : List Ptr → Bool
distinct [] = true
distinct (p ∷ ps) = not (has p ps) && distinct ps

pub all_of_mono :
    (f g : Ptr → Bool) (ps : List Ptr)
    → ((p : Ptr) → f p ≡ true → g p ≡ true)
    → all_of f ps ≡ true
    → all_of g ps ≡ true
all_of_mono f g [] h a = refl
all_of_mono f g (p ∷ ps) h a =
    let here = h p (ground arith) in let there = all_of_mono f g ps h (ground arith) in ground arith

pub all_of-mono_ne :
    (f g : Ptr → Bool) (w : Ptr) (ps : List Ptr)
    → ((p : Ptr) → (p == w) ≡ false → f p ≡ true → g p ≡ true)
    → has w ps ≡ false
    → all_of f ps ≡ true
    → all_of g ps ≡ true
all_of-mono_ne f g w [] h n a = refl
all_of-mono_ne f g w (p ∷ ps) h n a =
    let here = h p (ground arith) (ground arith) in
    let there = all_of-mono_ne f g w ps h (ground arith) (ground arith) in ground arith

pub all_of-remove_first :
    (f : Ptr → Bool) (w : Ptr) (ps : List Ptr)
    → all_of f ps ≡ true
    → all_of f (remove_first same_ptr w ps) ≡ true
all_of-remove_first f w [] a = refl
all_of-remove_first f w (p ∷ ps) a =
    let later = all_of-remove_first f w ps (ground arith) in ground arith

pub has-all_of :
    (f : Ptr → Bool) (w : Ptr) (ps : List Ptr) → all_of f ps ≡ true → f w ≡ false → has w ps ≡ false
has-all_of f w [] a n = refl
has-all_of f w (p ∷ ps) a n = elim (Bool-cases (w == p)) [
  | inl e ↦ absurd (clash (same e))
  | inr e ↦ rw e (has-all_of f w ps (ground arith) n)
]
  where
    holds : f p ≡ true
    holds = ground arith

    same : (w == p) ≡ true → w ≡ p
    same e = ground arith

    clash : w ≢ p
    clash e = cc (ap f e, holds)

pub has-remove_first_other :
    (p w : Ptr) (ps : List Ptr) → has p ps ≡ false → has p (remove_first same_ptr w ps) ≡ false
has-remove_first_other p w [] n = refl
has-remove_first_other p w (q ∷ qs) n =
    let later = has-remove_first_other p w qs (ground arith) in ground arith

pub has-remove_first :
    (w : Ptr) (ps : List Ptr) → distinct ps ≡ true → has w (remove_first same_ptr w ps) ≡ false
has-remove_first w [] d = refl
has-remove_first w (p ∷ ps) d = elim (Bool-cases (w == p)) [
  | inl e ↦ let same : w ≡ p = ground arith in rw e (rw same (ground arith))
  | inr e ↦ let later = has-remove_first w ps (ground arith) in rw (e, e) later
]

pub distinct-remove_first :
    (w : Ptr) (ps : List Ptr) → distinct ps ≡ true → distinct (remove_first same_ptr w ps) ≡ true
distinct-remove_first w [] d = refl
distinct-remove_first w (p ∷ ps) d =
    let later = distinct-remove_first w ps (ground arith) in
    let apart = has-remove_first_other p w ps (ground arith) in ground arith

module _ (W : World) where
  open W use {zhash, pointers}
  open zhash use {Hash, zhash_lookup}
  open pointers use {items}

  -- The worker's service is this one.
  abbrev pub serves : Option Worker → Ptr → Bool
  serves none s = false
  serves (some x) s = points x.service s

  -- The table of workers leads to the object.
  abbrev pub registered : Hash → Ptr → Option Worker → Bool
  registered t p none = true
  registered t p (some x) = points (zhash_lookup t x.id_string) p

  -- The link to a service leads to an object.
  abbrev pub linked : (Ptr → Option (Service W)) → Option Ptr → Bool
  linked at none = true
  linked at (some s) = is_some (at s)

  abbrev pub placed : (Ptr → Option (Service W)) → Option Worker → Bool
  placed at none = true
  placed at (some x) = linked at x.service

  -- The workers that wait at a service are its own, and each waits once.
  abbrev pub queued : (Ptr → Option Worker) → Ptr → Option (Service W) → Bool
  queued at s none = true
  queued at s (some service) =
      all_of (λ p. serves (at p) s) (items service.waiting) && distinct (items service.waiting)

  -- The table of workers leads to a worker of this name, if to any.
  abbrev pub named : Bytes → Option Worker → Bool
  named n none = false
  named n (some x) = strcmp_eq x.id_string n

  abbrev pub entered : (Ptr → Option Worker) → Bytes → Option Ptr → Bool
  entered at n none = true
  entered at n (some p) = named n (at p)

  -- Every worker is registered under its name, nothing else is, and its service exists; the workers that wait exist and
  -- wait once; the table of services leads to objects.
  pub record IsSound (b : Broker W) : Type 0 where
    pub known : (p : Ptr) → registered b.workers p (b.worker_at p) ≡ true
    pub employed : (p : Ptr) → placed b.service_at (b.worker_at p) ≡ true
    pub alive : all_of (λ p. is_some (b.worker_at p)) (items b.waiting) ≡ true
    pub once : distinct (items b.waiting) ≡ true
    pub own : (s : Ptr) → queued b.worker_at s (b.service_at s) ≡ true
    pub enrolled : (n : Bytes) → entered b.worker_at n (zhash_lookup b.workers n) ≡ true
    pub listed : (n : Bytes) → linked b.service_at (zhash_lookup b.services n) ≡ true
