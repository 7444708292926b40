-- ===== src/Mdp/Broker/Workers.antt =====
-- s_broker_worker_msg as a whole.
use sweet_clib.Prelude.{
  ◌+◌, ◌≡◌, refl, sym, ap, ◌∙◌, true, false, Option, none, some, List, ◌∷◌, arith, ◌==◌, ltb,
  length, Bool-cases, inl, inr,
}
use sweet_clib.Linked.{Ptr}
use sweet_clib.Text.{Bytes, strcmp_eq}
use sweet_clib.Czmq.{first_of, rest_of_list}
use sweet_clib.Mdp.{mdpw_ready, mdpw_reply, mdpw_heartbeat, mdpw_disconnect}
use sweet_clib.Mdp.Broker.{World, Worker, is_some, heartbeat_expiry, is_mmi}
use sweet_clib.Mdp.Broker.Objects.{Broker, set_worker, zclock_time, read_clock}
use sweet_clib.Mdp.Broker.Handlers.{worker_require, obey_worker, broker_worker_msg}
use sweet_clib.Mdp.Broker.Sound.{has, has-all_of, IsSound, named, entered}
use sweet_clib.Mdp.Broker.Enrolled.{worker_require-IsSound}
use sweet_clib.Mdp.Broker.Handling.{EndsSound}
use sweet_clib.Mdp.Broker.Branches.{
  deleted_sound, enlist_sound, forward_sound, refreshed-IsSound, IsResting, IsPolite,
}

module _ (W : World) where
  open W use {zmsg, zhash, pointers, strhex, clock}
  open zmsg use {
    Msg, frames, zmsg_pop, zmsg_unwrap, zmsg_size, popped, frames-pop, zmsg_size-frames, unwrapped,
  }
  open zhash use {zhash_lookup}
  open pointers use {items}

  -- The branches for a known worker.
  obey_known :
      (b : Broker W) (sender command : Bytes) (w : Ptr) (x : Worker) (m : Msg) (fresh : Ptr)
      → b.worker_at w ≡ some x
      → (strcmp_eq command mdpw_reply ≡ true
          → IsResting W b w × (f : Bytes) × (fs : List Bytes) × (frames m ≡ f ∷ fs))
      → IsSound W b
      → EndsSound W (obey_worker W b sender w true (some command) m fresh)
  unfolding obey_worker
  obey_known b sender command w x m fresh e polite v =
      elim (Bool-cases (strcmp_eq command mdpw_ready)) [
        | inl a ↦ let (b', run, u) = deleted_sound W b w x true e v in (b', rw (e, a) run, u)
        | inr a ↦ elim (Bool-cases (strcmp_eq command mdpw_reply)) [
          | inl c ↦
              let (resting, f, fs, i) = polite c in
              let first : (zmsg_unwrap m).0 ≡ some f = unwrapped m ∙ ap first_of i in
              let (b', run, u) = forward_sound W b w x f (zmsg_unwrap m).1 e resting v in
              (b', rw (e, a, c, first) run, u)
          | inr c ↦ elim (Bool-cases (strcmp_eq command mdpw_heartbeat)) [
            | inl d ↦ (
              read_clock W (
                  set_worker W b w
                    (some (record x { expiry = zclock_time W b + heartbeat_expiry }))),
              rw (e, a, c, d) refl,
              refreshed-IsSound W b w x _ e v,
            )
            | inr d ↦ elim (Bool-cases (strcmp_eq command mdpw_disconnect)) [
              | inl g ↦
                  let (b', run, u) = deleted_sound W b w x false e v in
                  (b', rw (e, a, c, d, g) run, u)
              | inr g ↦ (b, rw (e, a, c, d, g) refl, v)
            ]
          ]
        ]
      ]

  -- The branches for a worker that was not known.
  obey_new :
      (b : Broker W) (sender command : Bytes) (w : Ptr) (x : Worker) (m : Msg) (fresh : Ptr)
      → b.worker_at w ≡ some x
      → x.service ≡ none
      → b.service_at fresh ≡ none
      → has w (items b.waiting) ≡ false
      → (strcmp_eq command mdpw_ready ≡ true
          → is_mmi sender ≡ false
          → (f : Bytes) × (fs : List Bytes) × (frames m ≡ f ∷ fs))
      → IsSound W b
      → EndsSound W (obey_worker W b sender w false (some command) m fresh)
  unfolding obey_worker
  obey_new b sender command w x m fresh e n g h polite v =
      let (b', run, u) = deleted_sound W b w x true e v in
      elim (Bool-cases (strcmp_eq command mdpw_ready)) [
        | inl a ↦ elim (Bool-cases (is_mmi sender)) [
          | inl c ↦ (b', rw (e, a, c) run, u)
          | inr c ↦
              let (f, fs, i) = polite a c in
              let first : (zmsg_pop m).0 ≡ some f = popped m ∙ ap first_of i in
              let (b2, run2, u2) = enlist_sound W b w x fresh f e n g h v in
              (b2, rw (e, a, c, first) run2, u2)
        ]
        | inr a ↦ elim (Bool-cases (strcmp_eq command mdpw_reply)) [
          | inl c ↦ (b', rw (e, a, c) run, u)
          | inr c ↦ elim (Bool-cases (strcmp_eq command mdpw_heartbeat)) [
            | inl d ↦ (b', rw (e, a, c, d) run, u)
            | inr d ↦ elim (Bool-cases (strcmp_eq command mdpw_disconnect)) [
              | inl k ↦
                  let (b2, run2, u2) = deleted_sound W b w x false e v in
                  (b2, rw (e, a, c, d, k) run2, u2)
              | inr k ↦ (b, rw (e, a, c, d, k) refl, v)
            ]
          ]
        ]
      ]

  worker_of :
      (b : Broker W) (q : Bytes) (w : Ptr)
      → entered W b.worker_at q (some w) ≡ true
      → (x : Worker) × (b.worker_at w ≡ some x)
  worker_of b q w h = object (b.worker_at w) h
    where
      object : (o : Option Worker) → named W q o ≡ true → (x : Worker) × (o ≡ some x)
      object none k = cc
      object (some x) k = (x, refl)

  -- The worker message, up to its command.
  worker_msg-obey :
      (b : Broker W) (sender command : Bytes) (m : Msg) (rest : List Bytes) (fw fs : Ptr)
      (o : Option Ptr)
      → frames m ≡ command ∷ rest
      → zhash_lookup b.workers (strhex sender) ≡ o
      → broker_worker_msg W b sender m fw fs
        ≡ obey_worker W
            (worker_require W b fw sender o).1
            sender
            (worker_require W b fw sender o).0
            (is_some o)
            (some command)
            (zmsg_pop m).1
            fs
  unfolding broker_worker_msg
  worker_msg-obey b sender command m rest fw fs o e n =
      let size : zmsg_size m ≡ length (command ∷ rest) = zmsg_size-frames m ∙ ap length e in
      let long : ltb (zmsg_size m) 1 ≡ false = rw size (ground arith) in
      let first : (zmsg_pop m).0 ≡ some command = popped m ∙ ap first_of e in
      rw (long, first, n) refl

  -- On a worker's message that follows the protocol (it has a command; READY of a worker that is not
  -- known, and whose name is not reserved, names a service; REPLY of a known worker names a client and
  -- comes from a worker that has a service and waits nowhere), in a sound state and with fresh
  -- addresses for a new worker and a new service, s_broker_worker_msg never faults, terminates, and
  -- leaves a sound state, whatever the command is.
  pub broker_worker_msg-EndsSound :
      (b : Broker W) (sender command : Bytes) (m : Msg) (rest : List Bytes) (fw fs : Ptr)
      → frames m ≡ command ∷ rest
      → b.worker_at fw ≡ none
      → b.service_at fs ≡ none
      → IsSound W b
      → IsPolite W b sender command rest
      → EndsSound W (broker_worker_msg W b sender m fw fs)
  unfolding worker_require set_worker
  broker_worker_msg-EndsSound b sender command m rest fw fs e g h v polite =
      looked_up (zhash_lookup b.workers (strhex sender)) refl
    where
      body : frames (zmsg_pop m).1 ≡ rest
      body = frames-pop m ∙ ap rest_of_list e

      looked_up :
          (o : Option Ptr)
          → zhash_lookup b.workers (strhex sender) ≡ o
          → EndsSound W (broker_worker_msg W b sender m fw fs)
      looked_up (some w) n =
          let (x, at) =
            worker_of b (strhex sender) w
              (ap (entered W b.worker_at (strhex sender)) (sym n) ∙ v.enrolled (strhex sender)) in
          let (b', run, u) =
            obey_known b sender command w x (zmsg_pop m).1 fs at
              (λ a. let (resting, f, gs, i) = polite.reply a w n in (resting, f, gs, body ∙ i)) v in
          (b', worker_msg-obey b sender command m rest fw fs (some w) e n ∙ run, u)
      looked_up none n =
          let self : (fw == fw) ≡ true = ground arith in
          let new : Worker = record {
            id_string = strhex sender;
            identity = sender;
            service = none;
            expiry = 0;
          } in
          let apart : has fw (items b.waiting) ≡ false =
            has-all_of (λ p. is_some (b.worker_at p)) fw (items b.waiting) v.alive (ap is_some g) in
          let (b', run, u) =
            obey_new (worker_require W b fw sender none).1 sender command fw new (zmsg_pop m).1 fs
              (rw self refl) refl h apart
              (λ a c. let (f, gs, i) = polite.ready a n c in (f, gs, body ∙ i))
              (worker_require-IsSound W b fw sender g n v) in
          (b', worker_msg-obey b sender command m rest fw fs none e n ∙ run, u)
