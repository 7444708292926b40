-- ===== src/Mdp/Broker/Clients.antt =====
-- s_broker_client_msg as a whole.
use sweet_clib.Prelude.{
  ◌≡◌, refl, ap, ◌∙◌, true, false, none, some, List, [], ◌∷◌, ◌++◌, arith, ltb, length, Bool-cases,
  inl, inr,
}
use sweet_clib.Linked.{Ptr, ok}
use sweet_clib.Text.{Bytes, strcmp_eq}
use sweet_clib.Czmq.{first_of, rest_of_list, with_last}
use sweet_clib.Mdp.{mdpc_client}
use sweet_clib.Mdp.Broker.{World, is_mmi, mmi_service}
use sweet_clib.Mdp.Broker.Objects.{Broker}
use sweet_clib.Mdp.Broker.Handlers.{
  service_require, service_dispatch, send_msg, answer_mmi, serve, broker_client_msg,
}
use sweet_clib.Mdp.Broker.Sound.{IsSound}
use sweet_clib.Mdp.Broker.Delete.{some_of}
use sweet_clib.Mdp.Broker.Changes.{service_require-IsSound}
use sweet_clib.Mdp.Broker.Handling.{EndsSound, dispatch_sound}
use sweet_clib.Mdp.Broker.Mmi.{
  offers, mmi_code, offers-service_require, sent-service_require, last_frame, send_msg-IsSound,
  answer_mmi-sent,
}

module _ (W : World) where
  open W use {zmsg, zhash}
  open zmsg use {
    Msg, frames, zmsg_wrap, zmsg_push, zmsg_pop, zmsg_unwrap, zmsg_last, reset_last, zmsg_size,
    popped, frames-pop, zmsg_size-frames, frames-wrap, frames-push, zmsg_last-frames,
    frames-reset_last, unwrapped, frames-unwrap,
  }
  open zhash use {zhash_lookup, zhash_insert, lookup-insert}

  -- What the handler serves, with the frames as they came in.
  client_msg-serve :
      (b : Broker W) (sender name : Bytes) (m : Msg) (f : Bytes) (fs : List Bytes) (fresh : Ptr)
      → frames m ≡ name ∷ f ∷ fs
      → broker_client_msg W b sender m fresh ≡ serve W b sender (zmsg_pop m).1 fresh (some name)
  unfolding broker_client_msg
  client_msg-serve b sender name m f fs fresh e =
      let size : zmsg_size m ≡ length (name ∷ f ∷ fs) = zmsg_size-frames m ∙ ap length e in
      let long : ltb (zmsg_size m) 2 ≡ false = rw size (ground arith) in
      let first : (zmsg_pop m).0 ≡ some name = popped m ∙ ap first_of e in rw (long, first) refl

  served_mmi :
      (b : Broker W) (sender name : Bytes) (m : Msg) (fresh : Ptr)
      → is_mmi name ≡ true
      → serve W b sender m fresh (some name)
        ≡ answer_mmi W
            (service_require W b fresh name (zhash_lookup b.services name)).1
            name
            (zmsg_wrap m sender)
            (zmsg_last (zmsg_wrap m sender))
  unfolding serve
  served_mmi b sender name m fresh h = rw h refl

  served_other :
      (b : Broker W) (sender name : Bytes) (m : Msg) (fresh : Ptr)
      → is_mmi name ≡ false
      → serve W b sender m fresh (some name)
        ≡ service_dispatch W
            (service_require W b fresh name (zhash_lookup b.services name)).1
            (service_require W b fresh name (zhash_lookup b.services name)).0
            (some (zmsg_wrap m sender))
  unfolding serve
  served_other b sender name m fresh h = rw h refl

  -- A client's message for a service of mmi, the service name and at least one frame, in a sound state
  -- and with a fresh address for the new service: one message goes out, to the sender, through an
  -- empty frame, with the client header and the service name in front of the frames that came in, the
  -- last of which has become the code: 501 for any service of mmi but mmi.service, 200 where the
  -- service that the last frame names has workers, and 404 where it has none or is not known.
  pub broker_client_msg-mmi :
      (b : Broker W) (sender name : Bytes) (m : Msg) (f : Bytes) (fs : List Bytes) (fresh : Ptr)
      → frames m ≡ name ∷ f ∷ fs
      → b.service_at fresh ≡ none
      → IsSound W b
      → is_mmi name ≡ true
      → (b' : Broker W) × (a : Msg) × (broker_client_msg W b sender m fresh ≡ ok b')
        × (b'.sent ≡ b.sent ++ a ∷ [])
        × (frames a
            ≡ sender
              ∷ []
              ∷ mdpc_client
              ∷ name
              ∷ with_last
                  (mmi_code W (strcmp_eq name mmi_service) (offers W b (last_frame W f fs)))
                  (f ∷ fs))
        × IsSound W b'
  broker_client_msg-mmi b sender name m f fs fresh e n v h =
      let o = zhash_lookup b.services name in
      let b1 = (service_require W b fresh name o).1 in
      let sound : IsSound W b1 = (service_require-IsSound W b fresh name o n refl v).0 in
      let body : frames (zmsg_pop m).1 ≡ f ∷ fs = frames-pop m ∙ ap rest_of_list e in
      let wrapped : frames (zmsg_wrap (zmsg_pop m).1 sender) ≡ sender ∷ [] ∷ f ∷ fs =
        frames-wrap (zmsg_pop m).1 sender ∙ ap (λ x. sender ∷ [] ∷ x) body in
      let (a, run, said) =
        answer_mmi-sent W b1 name sender (zmsg_wrap (zmsg_pop m).1 sender) f fs wrapped sound in
      (
        send_msg W b1 a,
        a,
        client_msg-serve b sender name m f fs fresh e
            ∙ served_mmi b sender name (zmsg_pop m).1 fresh h
            ∙ run,
        ap (λ l. l ++ a ∷ []) (sent-service_require W b fresh name o),
        said
            ∙ ap
                (λ c.
                  sender
                  ∷ []
                  ∷ mdpc_client
                  ∷ name
                  ∷ with_last (mmi_code W (strcmp_eq name mmi_service) c) (f ∷ fs))
                (offers-service_require W b fresh name (last_frame W f fs) o n refl),
        send_msg-IsSound W b1 a sound,
      )

  -- On a client's message of a service name and at least one frame, in a sound state and with a fresh
  -- address for a new service, s_broker_client_msg never faults, terminates, and leaves a sound state.
  pub broker_client_msg-EndsSound :
      (b : Broker W) (sender name : Bytes) (m : Msg) (f : Bytes) (fs : List Bytes) (fresh : Ptr)
      → frames m ≡ name ∷ f ∷ fs
      → b.service_at fresh ≡ none
      → IsSound W b
      → EndsSound W (broker_client_msg W b sender m fresh)
  broker_client_msg-EndsSound b sender name m f fs fresh e n v = elim (Bool-cases (is_mmi name)) [
    | inl h ↦
        let (b', a, run, sent, said, u) =
          broker_client_msg-mmi b sender name m f fs fresh e n v h in
        (b', run, u)
    | inr h ↦
        let o = zhash_lookup b.services name in
        let (sound, there) = service_require-IsSound W b fresh name o n refl v in
        let (service, at) =
          some_of W
            ((service_require W b fresh name o).1.service_at (service_require W b fresh name o).0)
            there in
        let (b', run, u) =
          dispatch_sound W (service_require W b fresh name o).1 (service_require W b fresh name o).0
            service (some (zmsg_wrap (zmsg_pop m).1 sender)) at sound in
        (
          b',
          client_msg-serve b sender name m f fs fresh e
              ∙ served_other b sender name (zmsg_pop m).1 fresh h
              ∙ run,
          u,
        )
  ]
