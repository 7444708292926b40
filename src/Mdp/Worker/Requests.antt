-- ===== src/Mdp/Worker/Requests.antt =====
-- A request that reaches a worker, and the reply to it.
use sweet_clib.Prelude.{
  ℕ, ◌≡◌, refl, ap, ◌∙◌, true, false, none, some, List, [], ◌∷◌, arith, ltb, length,
}
use sweet_clib.Text.{Bytes}
use sweet_clib.Text.Hash.{strcmp_eq_self}
use sweet_clib.Czmq.{Zmsg, first_of, rest_of_list, drop_empty}
use sweet_clib.Mdp.{mdpw_worker, mdpw_reply, mdpw_request}
use sweet_clib.Mdp.Client.{Poll, readable, send}
use sweet_clib.Mdp.Worker.{
  Mdwrk, Round, goes_on, request, with_option, to_broker, obey, receive, ended, round, recv_loop,
  answer, mdwrk_recv,
}
use sweet_clib.Mdp.Worker.Kept.{frames-to_broker}

module _ (Z : Zmsg) where
  open Z use {
    Msg, frames, zmsg_pop, zmsg_unwrap, zmsg_wrap, zmsg_size, popped, frames-pop, unwrapped,
    frames-unwrap, frames-wrap, zmsg_size-frames,
  }

  -- The frames of a request for a worker: the client's address and the body.
  abbrev pub request_frames : Bytes → List Bytes → List Bytes
  request_frames client body = [] ∷ mdpw_worker ∷ mdpw_request ∷ client ∷ [] ∷ body

  receive-request :
      (self : Mdwrk) (m : Msg) (client : Bytes) (body : List Bytes) (now : ℕ)
      → frames m ≡ request_frames client body
      → (q : Msg) × (receive Z self m now
          ≡ (record self { liveness = 3; reply_to = some client }, [], request q))
        × (frames q ≡ body)
  unfolding receive obey
  receive-request self m client body now e =
      let m1 = (zmsg_pop m).1 in
      let m2 = (zmsg_pop m1).1 in
      let m3 = (zmsg_pop m2).1 in
      let f1 : frames m1 ≡ mdpw_worker ∷ mdpw_request ∷ client ∷ [] ∷ body =
        frames-pop m ∙ ap rest_of_list e in
      let f2 : frames m2 ≡ mdpw_request ∷ client ∷ [] ∷ body = frames-pop m1 ∙ ap rest_of_list f1 in
      let f3 : frames m3 ≡ client ∷ [] ∷ body = frames-pop m2 ∙ ap rest_of_list f2 in
      let p0 : (zmsg_pop m).0 ≡ some [] = popped m ∙ ap first_of e in
      let p1 : (zmsg_pop m1).0 ≡ some mdpw_worker = popped m1 ∙ ap first_of f1 in
      let p2 : (zmsg_pop m2).0 ≡ some mdpw_request = popped m2 ∙ ap first_of f2 in
      let p3 : (zmsg_unwrap m3).0 ≡ some client = unwrapped m3 ∙ ap first_of f3 in
      let long : ltb (zmsg_size m) 3 ≡ false = ground (arith, zmsg_size-frames m ∙ ap length e) in
      (
        (zmsg_unwrap m3).1,
        simp
            (
              long,
              p0,
              p1,
              p2,
              p3,
              strcmp_eq_self [],
              strcmp_eq_self mdpw_worker,
              strcmp_eq_self mdpw_request,
            )
            refl,
        frames-unwrap m3 ∙ ap (λ fs. drop_empty (rest_of_list fs)) f3,
      )

  round-request :
      (self : Mdwrk) (r : Round Msg) (o : Poll Msg) (m : Msg) (client : Bytes) (body : List Bytes)
      → o ≡ readable m
      → frames m ≡ request_frames client body
      → (q : Msg) × (round Z self r o
          ≡ (record self { liveness = 3; reply_to = some client }, [], request q))
        × (frames q ≡ body)
  unfolding round ended
  round-request self r o m client body h e =
      let (q, run, fs) = receive-request self m client body r.connected_at e in (q, rw (h, run), fs)

  -- When a worker that owes no answer asks for a request and a round reads one, mdwrk_recv returns
  -- its body and sends nothing; the next call with a reply sends exactly one message, the reply
  -- addressed to the client of that request, and then waits.
  pub mdwrk_recv-request :
      (self : Mdwrk) (r : Round Msg) (rs : List (Round Msg)) (m reply : Msg) (client : Bytes)
      (body : List Bytes)
      → self.expect_reply ≡ false
      → r.polled ≡ readable m
      → frames m ≡ request_frames client body
      → (s : Mdwrk) × (q : Msg) × (a : Msg) × (mdwrk_recv Z self none (r ∷ rs) ≡ (s, [], request q))
        × (frames q ≡ body)
        × ((mdwrk_recv Z s (some reply) []).1 ≡ send a ∷ [])
        × ((mdwrk_recv Z s (some reply) []).2 ≡ goes_on)
        × (frames a ≡ [] ∷ mdpw_worker ∷ mdpw_reply ∷ client ∷ [] ∷ frames reply)
  unfolding mdwrk_recv answer recv_loop with_option
  mdwrk_recv-request self r rs m reply client body h o e =
      let ready = record self { expect_reply = true } in
      let (q, run, fs) = round-request ready r r.polled m client body o e in
      (
        record ready { liveness = 3; reply_to = some client },
        q,
        to_broker Z mdpw_reply none (zmsg_wrap reply client),
        simp (h, run) refl,
        fs,
        refl,
        refl,
        frames-to_broker Z mdpw_reply none (zmsg_wrap reply client)
            ∙ ap (λ gs. [] ∷ mdpw_worker ∷ mdpw_reply ∷ gs) (frames-wrap reply client),
      )
