-- ===== src/Mdp/Broker/Mmi.antt =====
-- What the broker answers for the services of mmi.
use sweet_clib.Prelude.{
  ◌≡◌, refl, sym, ap, ◌∙◌, Bool, true, false, not, Option, none, some, List, [], ◌∷◌, arith,
  if◌then◌else◌, ◌==◌, Bool-cases, inl, inr,
}
use sweet_clib.Linked.{Ptr, ok, ◌>>=◌}
use sweet_clib.Text.{Bytes, strcmp_eq}
use sweet_clib.Text.Hash.{eq_of_strcmp}
use sweet_clib.Czmq.{Zlist, first_of, rest_of_list, last_of, with_last, drop_empty}
use sweet_clib.Mdp.{mdpc_client}
use sweet_clib.Mdp.Broker.{World, Service, is_some, mmi_service, code_200, code_404, code_501}
use sweet_clib.Mdp.Broker.Objects.{Broker, at_object, set_service}
use sweet_clib.Mdp.Broker.Handlers.{
  service_require, to_client, send_msg, service_code, return_code, answer_mmi,
}
use sweet_clib.Mdp.Broker.Sound.{linked, IsSound}

module _ (W : World) where
  open W use {zmsg, zhash}
  open zmsg use {
    Msg, frames, zmsg_wrap, zmsg_push, zmsg_pop, zmsg_unwrap, zmsg_last, reset_last, zmsg_size,
    popped, frames-pop, zmsg_size-frames, frames-wrap, frames-push, zmsg_last-frames,
    frames-reset_last, unwrapped, frames-unwrap,
  }
  open zhash use {zhash_lookup, zhash_insert, lookup-insert}

  -- A service of this name has workers.
  abbrev pub staffed : Option (Service W) → Bool
  staffed none = false
  staffed (some service) = not (service.workers == 0)

  abbrev pub staffed_at : (Ptr → Option (Service W)) → Option Ptr → Bool
  staffed_at at none = false
  staffed_at at (some s) = staffed (at s)

  abbrev pub offers : Broker W → Bytes → Bool
  offers b name = staffed_at b.service_at (zhash_lookup b.services name)

  -- The code that the service `name` of mmi answers when asked for `asked`.
  abbrev pub mmi_code : Bool → Bool → Bytes
  mmi_code false there = code_501
  mmi_code true false = code_404
  mmi_code true true = code_200

  pub frames-to_client :
      (client name : Bytes) (m : Msg)
      → frames (to_client W client name m) ≡ client ∷ [] ∷ mdpc_client ∷ name ∷ frames m
  unfolding to_client
  frames-to_client client name m = rw (frames-wrap, frames-push, frames-push)

  pub offers-service_require :
      (b : Broker W) (fresh : Ptr) (name q : Bytes) (o : Option Ptr)
      → b.service_at fresh ≡ none
      → zhash_lookup b.services name ≡ o
      → offers (service_require W b fresh name o).1 q ≡ offers b q
  unfolding service_require set_service
  offers-service_require b fresh name q (some s) e n = refl
  offers-service_require b fresh name q none e n = elim (Bool-cases (strcmp_eq q name)) [
    | inl a ↦
        let missing : zhash_lookup b.services q ≡ none =
          ap (zhash_lookup b.services) (eq_of_strcmp q name a) ∙ n in
        let self : (fresh == fresh) ≡ true = ground arith in
        rw (lookup-insert b.services name q fresh n, a, missing, self) refl
    | inr a ↦
        rw (lookup-insert b.services name q fresh n, a) (unchanged (zhash_lookup b.services q))
  ]
    where
      unchanged :
          (r : Option Ptr)
          → staffed_at
              (λ p.
                if p == fresh
                then some (record {
                  name = name;
                  requests = Zlist.zlist_new W.queues;
                  waiting = Zlist.zlist_new W.pointers;
                  workers = 0;
                })
                else b.service_at p)
              r
            ≡ staffed_at b.service_at r
      unchanged none = refl
      unchanged (some p) = elim (Bool-cases (p == fresh)) [
        | inl a ↦
            let same : p ≡ fresh = ground arith in
            rw a (sym (ap staffed (ap b.service_at same ∙ e)))
        | inr a ↦ rw a refl
      ]

  pub sent-service_require :
      (b : Broker W) (fresh : Ptr) (name : Bytes) (o : Option Ptr)
      → (service_require W b fresh name o).1.sent ≡ b.sent
  unfolding service_require set_service
  sent-service_require b fresh name none = refl
  sent-service_require b fresh name (some s) = refl

  return_code-mmi_code :
      (b : Broker W) (name asked : Bytes)
      → IsSound W b
      → return_code W b name asked ≡ ok (mmi_code (strcmp_eq name mmi_service) (offers b asked))
  unfolding return_code service_code
  return_code-mmi_code b name asked v = elim (Bool-cases (strcmp_eq name mmi_service)) [
    | inr a ↦ rw a refl
    | inl a ↦ rw a (looked_up (zhash_lookup b.services asked) (v.listed asked))
  ]
    where
      counted :
          (service : Service W)
          → service_code W (some service) ≡ mmi_code true (staffed (some service))
      counted service = elim (Bool-cases (service.workers == 0)) [
        | inl a ↦ rw a refl
        | inr a ↦ rw a refl
      ]

      found :
          (o : Option (Service W))
          → is_some o ≡ true
          → (at_object W o >>= λ service. ok (service_code W (some service)))
            ≡ ok (mmi_code true (staffed o))
      found none h = cc
      found (some service) h = ap (λ (c : Bytes). ok c) (counted service)

      looked_up :
          (o : Option Ptr)
          → linked W b.service_at o ≡ true
          → (elim o [
            | none ↦ ok code_404
            | some s ↦
                at_object W (b.service_at s) >>= λ service. ok (service_code W (some service))
          ])
            ≡ ok (mmi_code true (staffed_at b.service_at o))
      looked_up none h = refl
      looked_up (some s) h = found (b.service_at s) h

  abbrev pub last_frame : Bytes → List Bytes → Bytes
  last_frame f [] = f
  last_frame f (g ∷ fs) = last_frame g fs

  last_of-last_frame : (f : Bytes) (fs : List Bytes) → last_of (f ∷ fs) ≡ some (last_frame f fs)
  last_of-last_frame f [] = refl
  last_of-last_frame f (g ∷ fs) = last_of-last_frame g fs

  pub send_msg-IsSound : (b : Broker W) (a : Msg) → IsSound W b → IsSound W (send_msg W b a)
  send_msg-IsSound b a v = record {
    known = v.known;
    employed = v.employed;
    alive = v.alive;
    once = v.once;
    own = v.own;
    enrolled = v.enrolled;
    listed = v.listed;
  }

  -- What the broker answers, once the message holds the sender.
  pub answer_mmi-sent :
      (b : Broker W) (name sender : Bytes) (m : Msg) (f : Bytes) (fs : List Bytes)
      → frames m ≡ sender ∷ [] ∷ f ∷ fs
      → IsSound W b
      → (a : Msg) × (answer_mmi W b name m (zmsg_last m) ≡ ok (send_msg W b a))
        × (frames a
            ≡ sender
              ∷ []
              ∷ mdpc_client
              ∷ name
              ∷ with_last
                  (mmi_code (strcmp_eq name mmi_service) (offers b (last_frame f fs)))
                  (f ∷ fs))
  unfolding answer_mmi
  answer_mmi-sent b name sender m f fs e v =
      let code = mmi_code (strcmp_eq name mmi_service) (offers b (last_frame f fs)) in
      let m1 = reset_last m code in
      let whole : frames m1 ≡ sender ∷ [] ∷ with_last code (f ∷ fs) =
        frames-reset_last m code ∙ ap (with_last code) e in
      let last : zmsg_last m ≡ some (last_frame f fs) =
        zmsg_last-frames m ∙ ap last_of e ∙ last_of-last_frame f fs in
      let first : (zmsg_unwrap m1).0 ≡ some sender = unwrapped m1 ∙ ap first_of whole in
      let body : frames (zmsg_unwrap m1).1 ≡ with_last code (f ∷ fs) =
        frames-unwrap m1 ∙ ap (λ x. drop_empty (rest_of_list x)) whole in
      (
        to_client W sender name (zmsg_unwrap m1).1,
        rw (last, return_code-mmi_code b name (last_frame f fs) v, first) refl,
        rw (frames-to_client sender name (zmsg_unwrap m1).1, body) refl,
      )
