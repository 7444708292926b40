-- ===== src/Mdp/Broker/Enrolled.antt =====
-- Changes of a worker, s_worker_require and the invariant.
use sweet_clib.Prelude.{
  ◌≡◌, refl, sym, ap, ◌∙◌, Bool, true, false, Option, none, some, List, [], ◌∷◌, ◌++◌, arith,
  if◌then◌else◌, ◌==◌, Bool-cases, inl, inr,
}
use sweet_clib.Linked.{Ptr}
use sweet_clib.Text.{Bytes, strcmp_eq}
use sweet_clib.Text.Hash.{eq_of_strcmp, strcmp_eq_self}
use sweet_clib.Mdp.Broker.{World, Worker, Service, is_some}
use sweet_clib.Mdp.Broker.Objects.{Broker, set_worker}
use sweet_clib.Mdp.Broker.Handlers.{worker_require}
use sweet_clib.Mdp.Broker.Sound.{
  points, all_of, has, distinct, all_of_mono, serves, registered, linked, queued, IsSound, named,
  entered,
}

pub all_of-snoc :
    (f : Ptr → Bool) (ps : List Ptr) (w : Ptr)
    → all_of f ps ≡ true
    → f w ≡ true
    → all_of f (ps ++ w ∷ []) ≡ true
all_of-snoc f [] w a e = rw e refl
all_of-snoc f (p ∷ ps) w a e = let later = all_of-snoc f ps w (ground arith) e in ground arith

has-snoc :
    (p : Ptr) (ps : List Ptr) (w : Ptr)
    → has p ps ≡ false
    → (p == w) ≡ false
    → has p (ps ++ w ∷ []) ≡ false
has-snoc p [] w h e = rw e refl
has-snoc p (q ∷ ps) w h e = let later = has-snoc p ps w (ground arith) e in ground arith

pub distinct-snoc :
    (ps : List Ptr) (w : Ptr)
    → distinct ps ≡ true
    → has w ps ≡ false
    → distinct (ps ++ w ∷ []) ≡ true
distinct-snoc [] w d h = refl
distinct-snoc (p ∷ ps) w d h =
    let apart = has-snoc p ps w (ground arith) (ground arith) in
    let later = distinct-snoc ps w (ground arith) (ground arith) in ground arith

module _ (W : World) where
  open W use {zhash, pointers, queues, strhex}
  open zhash use {Hash, zhash_lookup, zhash_insert, lookup-insert}
  open pointers use {items, zlist_new, items-new}

  -- A list of a service under a change of the workers that keeps whom they serve.
  queued_mono :
      (at at' : Ptr → Option Worker) (s : Ptr) (o : Option (Service W))
      → ((p : Ptr) → serves W (at p) s ≡ true → serves W (at' p) s ≡ true)
      → queued W at s o ≡ true
      → queued W at' s o ≡ true
  queued_mono at at' s none h q = refl
  queued_mono at at' s (some service) h q =
      let own =
        all_of_mono (λ p. serves W (at p) s) (λ p. serves W (at' p) s) (items service.waiting) h
          (ground arith) in
      ground arith

  -- A worker changes, but for its name and for a service that it already has.
  pub set_worker-IsSound :
      (b : Broker W) (w : Ptr) (x x' : Worker)
      → b.worker_at w ≡ some x
      → x'.id_string ≡ x.id_string
      → linked W b.service_at x'.service ≡ true
      → ((s : Ptr) → points x.service s ≡ true → points x'.service s ≡ true)
      → IsSound W b
      → IsSound W (set_worker W b w (some x'))
  unfolding set_worker
  set_worker-IsSound b w x x' e n l h v = record {
    known = λ p. elim (Bool-cases (p == w)) [
      | inl a ↦
          let same : p ≡ w = ground arith in
          rw a (rw (n, same) (ap (registered W b.workers w) (sym e) ∙ v.known w))
      | inr a ↦ rw a (v.known p)
    ];
    employed = λ p. elim (Bool-cases (p == w)) [ inl a ↦ rw a l | inr a ↦ rw a (v.employed p) ];
    alive =
        all_of_mono (λ p. is_some (b.worker_at p)) _ (items b.waiting)
          (λ p f. elim (Bool-cases (p == w)) [ inl a ↦ rw a refl | inr a ↦ rw a f ]) v.alive;
    once = v.once;
    own = λ s.
        queued_mono b.worker_at (λ p. if p == w then some x' else b.worker_at p) s (b.service_at s)
          (λ p f. elim (Bool-cases (p == w)) [
            | inl a ↦
                let same : p ≡ w = ground arith in
                rw a (h s (ap (λ o. serves W o s) (sym (ap b.worker_at same ∙ e)) ∙ f))
            | inr a ↦ rw a f
          ])
          (v.own s);
    enrolled = λ q. entered_as q (zhash_lookup b.workers q) (v.enrolled q);
    listed = v.listed;
  }
    where
      entered_as :
          (q : Bytes) (o : Option Ptr)
          → entered W b.worker_at q o ≡ true
          → entered W (λ p. if p == w then some x' else b.worker_at p) q o ≡ true
      entered_as q none k = refl
      entered_as q (some p) k = elim (Bool-cases (p == w)) [
        | inl a ↦
            let same : p ≡ w = ground arith in
            rw (a, n) (sym (ap (λ i. named W q (b.worker_at i)) same ∙ ap (named W q) e) ∙ k)
        | inr a ↦ rw a k
      ]

  -- s_worker_require for a worker that is not known, at a fresh address.
  pub worker_require-IsSound :
      (b : Broker W) (fresh : Ptr) (identity : Bytes)
      → b.worker_at fresh ≡ none
      → zhash_lookup b.workers (strhex identity) ≡ none
      → IsSound W b
      → IsSound W (worker_require W b fresh identity none).1
  unfolding worker_require set_worker
  worker_require-IsSound b fresh identity e n v = record {
    known = λ p. elim (Bool-cases (p == fresh)) [
      | inl a ↦ rw a (
          rw
            (
              lookup-insert b.workers (strhex identity) (strhex identity) fresh n,
              strcmp_eq_self (strhex identity),
            )
            (ground arith))
      | inr a ↦ rw a (still p (b.worker_at p) (v.known p))
    ];
    employed =
        λ p. elim (Bool-cases (p == fresh)) [ inl a ↦ rw a refl | inr a ↦ rw a (v.employed p) ];
    alive =
        all_of_mono (λ p. is_some (b.worker_at p)) _ (items b.waiting)
          (λ p f. elim (Bool-cases (p == fresh)) [ inl a ↦ rw a refl | inr a ↦ rw a f ]) v.alive;
    once = v.once;
    own = λ s.
        queued_mono b.worker_at _ s (b.service_at s)
          (λ p f. elim (Bool-cases (p == fresh)) [
            | inl a ↦
                let same : p ≡ fresh = ground arith in
                absurd (idle s (ap (λ o. serves W o s) (sym (ap b.worker_at same ∙ e)) ∙ f))
            | inr a ↦ rw a f
          ])
          (v.own s);
    enrolled = λ q. elim (Bool-cases (strcmp_eq q (strhex identity))) [
      | inl a ↦
          let own : strcmp_eq (strhex identity) q ≡ true =
            ap (strcmp_eq (strhex identity)) (eq_of_strcmp q (strhex identity) a)
            ∙ strcmp_eq_self (strhex identity) in
          let self : (fresh == fresh) ≡ true = ground arith in
          rw (lookup-insert b.workers (strhex identity) q fresh n, a, self) own
      | inr a ↦
          rw (lookup-insert b.workers (strhex identity) q fresh n, a)
            (entered_still q (zhash_lookup b.workers q) (v.enrolled q))
    ];
    listed = v.listed;
  }
    where
      idle : (s : Ptr) → ¬ (serves W none s ≡ true)
      idle s f = cc

      nameless : (q : Bytes) → ¬ (named W q none ≡ true)
      nameless q k = cc

      entered_still :
          (q : Bytes) (o : Option Ptr)
          → entered W b.worker_at q o ≡ true
          → entered W
              (λ p.
                if p == fresh
                then some (record {
                  id_string = strhex identity;
                  identity = identity;
                  service = none;
                  expiry = 0;
                })
                else b.worker_at p)
              q
              o
            ≡ true
      entered_still q none k = refl
      entered_still q (some p) k = elim (Bool-cases (p == fresh)) [
        | inl a ↦
            let same : p ≡ fresh = ground arith in
            absurd
              (nameless q (sym (ap (λ i. named W q (b.worker_at i)) same ∙ ap (named W q) e) ∙ k))
        | inr a ↦ rw a k
      ]

      no_pointer : (p : Ptr) → ¬ (points none p ≡ true)
      no_pointer p k = cc

      missing : (p : Ptr) → ¬ (points (zhash_lookup b.workers (strhex identity)) p ≡ true)
      missing p k = no_pointer p (ap (λ o. points o p) (sym n) ∙ k)

      still :
          (p : Ptr) (o : Option Worker)
          → registered W b.workers p o ≡ true
          → registered W (zhash_insert b.workers (strhex identity) fresh) p o ≡ true
      still p none k = refl
      still p (some y) k = elim (Bool-cases (strcmp_eq y.id_string (strhex identity))) [
        | inl a ↦ absurd (
            missing p (
              ap (λ i. points (zhash_lookup b.workers i) p)
                (sym (eq_of_strcmp y.id_string (strhex identity) a))
              ∙ k))
        | inr a ↦ rw (lookup-insert b.workers (strhex identity) y.id_string fresh n, a) k
      ]
