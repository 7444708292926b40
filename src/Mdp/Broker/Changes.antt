-- ===== src/Mdp/Broker/Changes.antt =====
-- s_service_require and the invariant.
use sweet_clib.Prelude.{
  ◌≡◌, refl, sym, ap, ◌∙◌, true, Option, none, some, arith, if◌then◌else◌, ◌==◌, Bool-cases, inl,
  inr,
}
use sweet_clib.Linked.{Ptr}
use sweet_clib.Text.{Bytes, strcmp_eq}
use sweet_clib.Czmq.{Zlist}
use sweet_clib.Mdp.Broker.{World, Worker, Service, is_some}
use sweet_clib.Mdp.Broker.Objects.{Broker, set_service}
use sweet_clib.Mdp.Broker.Handlers.{service_require}
use sweet_clib.Mdp.Broker.Sound.{linked, placed, IsSound}

module _ (W : World) where
  open W use {zhash, pointers, queues, strhex}
  open zhash use {Hash, zhash_lookup, zhash_insert, lookup-insert}
  open pointers use {items, zlist_new, items-new}

  linked-more :
      (at at' : Ptr → Option (Service W)) (o : Option Ptr)
      → ((s : Ptr) → is_some (at s) ≡ true → is_some (at' s) ≡ true)
      → linked W at o ≡ true
      → linked W at' o ≡ true
  linked-more at at' none h l = refl
  linked-more at at' (some s) h l = h s l

  placed-more :
      (at at' : Ptr → Option (Service W)) (o : Option Worker)
      → ((s : Ptr) → is_some (at s) ≡ true → is_some (at' s) ≡ true)
      → placed W at o ≡ true
      → placed W at' o ≡ true
  placed-more at at' none h l = refl
  placed-more at at' (some x) h l = linked-more at at' x.service h l

  -- s_service_require, at a fresh address when the service is not known.
  pub service_require-IsSound :
      (b : Broker W) (fresh : Ptr) (name : Bytes) (o : Option Ptr)
      → b.service_at fresh ≡ none
      → zhash_lookup b.services name ≡ o
      → IsSound W b
      → IsSound W (service_require W b fresh name o).1
        × (is_some
              ((service_require W b fresh name o).1.service_at (service_require W b fresh name o).0)
            ≡ true)
  unfolding service_require set_service
  service_require-IsSound b fresh name (some s) e n v =
      (v, ap (linked W b.service_at) (sym n) ∙ v.listed name)
  service_require-IsSound b fresh name none e n v =
      let self : (fresh == fresh) ≡ true = ground arith in
      (
        record {
          known = v.known;
          employed = λ p. placed-more b.service_at _ (b.worker_at p) more (v.employed p);
          alive = v.alive;
          once = v.once;
          own = λ s. elim (Bool-cases (s == fresh)) [
            | inl a ↦ rw (a, items-new) refl
            | inr a ↦ rw a (v.own s)
          ];
          enrolled = v.enrolled;
          listed = λ q. elim (Bool-cases (strcmp_eq q name)) [
            | inl a ↦ rw (lookup-insert b.services name q fresh n, a, self) refl
            | inr a ↦
                rw (lookup-insert b.services name q fresh n, a)
                  (linked-more b.service_at _ (zhash_lookup b.services q) more (v.listed q))
          ];
        },
        rw self refl,
      )
    where
      more :
          (s : Ptr)
          → is_some (b.service_at s) ≡ true
          → is_some (
              if s == fresh
              then some (record {
                name = name;
                requests = Zlist.zlist_new queues;
                waiting = zlist_new;
                workers = 0;
              })
              else b.service_at s)
            ≡ true
      more s h = elim (Bool-cases (s == fresh)) [ inl a ↦ rw a refl | inr a ↦ rw a h ]
