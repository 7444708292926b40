-- ===== src/Mdp/Worker/Kept.antt =====
-- The countdown and the messages of a worker, whatever arrives.
use sweet_clib.Prelude.{
  ℕ, zero, suc, ◌+◌, ◌≤◌, ◌<◌, ◌≡◌, refl, true, false, ◌||◌, Option, none, some, List, [], ◌∷◌,
  ◌++◌, arith, if◌then◌else◌, ltb, ◌==◌, Bool-cases, inl, inr,
}
use sweet_clib.Text.{Bytes}
use sweet_clib.Czmq.{Zmsg}
use sweet_clib.Mdp.{mdpw_worker, mdpw_heartbeat, mdpw_request, mdpw_disconnect}
use sweet_clib.Mdp.Client.{
  Poll, poll_error, readable, timed_out, Action, connect, send, frame_streq,
}
use sweet_clib.Mdp.Client.Retry.{connects}
use sweet_clib.Mdp.Worker.{
  Mdwrk, Round, Outcome, goes_on, request, null_request, aborted, decremented, with_option,
  to_broker, connect_to_broker, obey, receive, missed, beat, ended, round, continued, recv_loop,
  answer, mdwrk_recv,
}

pub zero_of : (n : ℕ) → (n == 0) ≡ true → n ≡ 0
zero_of n e = ground arith

pub nonzero_of : (n : ℕ) → (n == 0) ≡ false → 0 < n
nonzero_of n e = ground arith

-- The countdown has not run out.
pub record IsAlive (self : Mdwrk) : Type 0 where
  pub left : 0 < self.liveness
  pub most : self.liveness ≤ 3

pub connects-append :
    {M : Type 0} (xs ys : List (Action M)) → connects (xs ++ ys) ≡ connects xs + connects ys
connects-append [] ys = omega arith
connects-append (connect ∷ xs) ys = omega (arith, connects-append xs ys)
connects-append (send m ∷ xs) ys = connects-append xs ys

module _ (Z : Zmsg) where
  open Z use {Msg, frames, zmsg_new, zmsg_push, zmsg_pop, zmsg_unwrap, zmsg_size, frames-push}

  -- A message of the protocol that a worker may send.
  abbrev pub IsFramed : Msg → Type 0
  IsFramed m =
      (c : ℕ) × (fs : List Bytes) × (frames m ≡ [] ∷ mdpw_worker ∷ (c ∷ []) ∷ fs)
      × ((c == 1 || (c == 3 || c == 4)) ≡ true)

  abbrev pub AllFramed : List (Action Msg) → Type 0
  AllFramed [] = Unit
  AllFramed (connect ∷ xs) = AllFramed xs
  AllFramed (send m ∷ xs) = IsFramed m × AllFramed xs

  AllFramed-append :
      (xs ys : List (Action Msg)) → AllFramed xs → AllFramed ys → AllFramed (xs ++ ys)
  AllFramed-append [] ys a b = b
  AllFramed-append (connect ∷ xs) ys a b = AllFramed-append xs ys a b
  AllFramed-append (send m ∷ xs) ys a b = (a.0, AllFramed-append xs ys a.1 b)

  pub frames-to_broker :
      (command : Bytes) (o : Option Bytes) (m : Msg)
      → frames (to_broker Z command o m) ≡ [] ∷ mdpw_worker ∷ command ∷ frames (with_option Z o m)
  unfolding to_broker
  frames-to_broker command o m = rw (frames-push, frames-push, frames-push)

  to_broker-IsFramed :
      (c : ℕ) (o : Option Bytes) (m : Msg)
      → (c == 1 || (c == 3 || c == 4)) ≡ true
      → IsFramed (to_broker Z (c ∷ []) o m)
  to_broker-IsFramed c o m e = (c, frames (with_option Z o m), frames-to_broker (c ∷ []) o m, e)

  -- What every step of the loop keeps.
  abbrev Kept : Mdwrk × List (Action Msg) → Type 0
  Kept (self, xs) = IsAlive self × AllFramed xs

  connect_to_broker-Kept : (self : Mdwrk) (now : ℕ) → Kept (connect_to_broker Z self now)
  unfolding connect_to_broker
  connect_to_broker-Kept self now = (
    record { left = omega arith; most = omega arith },
    (to_broker-IsFramed 1 (some self.service) zmsg_new refl, tt),
  )

  obey-Kept :
      (self : Mdwrk) (command : Option Bytes) (m : Msg) (now : ℕ)
      → IsAlive self
      → IsAlive (obey Z self command m now).0 × AllFramed (obey Z self command m now).1
  unfolding obey
  obey-Kept self command m now v = elim (Bool-cases (frame_streq command mdpw_request)) [
    | inl a ↦ rw a (record { left = v.left; most = v.most }, tt)
    | inr a ↦ elim (Bool-cases (frame_streq command mdpw_heartbeat)) [
      | inl b ↦ rw (a, b) (v, tt)
      | inr b ↦ elim (Bool-cases (frame_streq command mdpw_disconnect)) [
        | inl c ↦ rw (a, b, c) (connect_to_broker-Kept self now)
        | inr c ↦ rw (a, b, c) (v, tt)
      ]
    ]
  ]

  receive-Kept :
      (self : Mdwrk) (m : Msg) (now : ℕ)
      → IsAlive (receive Z self m now).0 × AllFramed (receive Z self m now).1
  unfolding receive
  receive-Kept self m now =
      let m1 = (zmsg_pop m).1 in
      let m2 = (zmsg_pop m1).1 in
      let alive : IsAlive (record self { liveness = 3 }) = record {
        left = omega arith;
        most = omega arith;
      } in
      elim (Bool-cases (ltb (zmsg_size m) 3)) [
        | inl a ↦ rw a (alive, tt)
        | inr a ↦ elim (Bool-cases (frame_streq (zmsg_pop m).0 [])) [
          | inr b ↦ rw (a, b) (alive, tt)
          | inl b ↦ elim (Bool-cases (frame_streq (zmsg_pop m1).0 mdpw_worker)) [
            | inr c ↦ rw (a, b, c) (alive, tt)
            | inl c ↦
                rw (a, b, c)
                  (obey-Kept (record self { liveness = 3 }) (zmsg_pop m2).0 (zmsg_pop m2).1 now
                    alive)
          ]
        ]
      ]

  beat-Kept : (self : Mdwrk) (now later : ℕ) → IsAlive self → Kept (beat Z self now later)
  unfolding beat
  beat-Kept self now later v = elim (Bool-cases (ltb self.heartbeat_at now)) [
    | inl a ↦
        rw a
          (record { left = v.left; most = v.most }, (to_broker-IsFramed 4 none zmsg_new refl, tt))
    | inr a ↦ rw a (v, tt)
  ]

  missed-Kept : (self : Mdwrk) (now : ℕ) → IsAlive self → Kept (missed Z self now)
  unfolding missed
  missed-Kept self now v = counted self.liveness refl
    where
      positive : (n : ℕ) → (suc n == 0) ≡ false
      positive n = ground arith

      counted :
          (n : ℕ)
          → self.liveness ≡ n
          → Kept (
              if decremented n == 0
              then connect_to_broker Z (record self { liveness = decremented n }) now
              else (record self { liveness = decremented n }, []))
      counted zero e = absurd (omega (arith, v.left, e))
      counted (suc zero) e = connect_to_broker-Kept (record self { liveness = 0 }) now
      counted (suc (suc n)) e =
          rw (positive n) (record { left = omega arith; most = omega (arith, v.most, e) }, tt)

  ended-Kept :
      (r : Round Msg) (self : Mdwrk) (xs : List (Action Msg)) (o : Outcome Msg)
      → IsAlive self
      → AllFramed xs
      → IsAlive (ended Z r (self, xs, o)).0 × AllFramed (ended Z r (self, xs, o)).1
  unfolding ended
  ended-Kept r self xs goes_on v a =
      let (w, b) = beat-Kept self r.tested_at r.beat_at v in (w, AllFramed-append xs _ a b)
  ended-Kept r self xs (request m) v a = (v, a)
  ended-Kept r self xs null_request v a = (v, a)
  ended-Kept r self xs aborted v a = (v, a)

  round-Kept :
      (self : Mdwrk) (r : Round Msg) (o : Poll Msg)
      → IsAlive self
      → IsAlive (round Z self r o).0 × AllFramed (round Z self r o).1
  unfolding round
  round-Kept self r poll_error v = (v, tt)
  round-Kept self r (readable m) v =
      let (w, a) = receive-Kept self m r.connected_at in ended-Kept r _ _ _ w a
  round-Kept self r timed_out v =
      let (w, a) = missed-Kept self r.connected_at v in ended-Kept r _ _ _ w a

  continued-Kept :
      (self : Mdwrk) (xs : List (Action Msg)) (o : Outcome Msg)
      (k : Mdwrk → Mdwrk × List (Action Msg) × Outcome Msg)
      → IsAlive self
      → AllFramed xs
      → ((s : Mdwrk) → IsAlive s → IsAlive (k s).0 × AllFramed (k s).1)
      → IsAlive (continued Z (self, xs, o) k).0 × AllFramed (continued Z (self, xs, o) k).1
  continued-Kept self xs goes_on k v a h = let (w, b) = h self v in (w, AllFramed-append xs _ a b)
  continued-Kept self xs (request m) k v a h = (v, a)
  continued-Kept self xs null_request k v a h = (v, a)
  continued-Kept self xs aborted k v a h = (v, a)

  recv_loop-Kept :
      (self : Mdwrk) (rs : List (Round Msg))
      → IsAlive self
      → IsAlive (recv_loop Z self rs).0 × AllFramed (recv_loop Z self rs).1
  unfolding recv_loop
  recv_loop-Kept self [] v = (v, tt)
  recv_loop-Kept self (r ∷ rs) v =
      let (w, a) = round-Kept self r r.polled v in
      continued-Kept _ _ _ (λ s. recv_loop Z s rs) w a (λ s u. recv_loop-Kept s rs u)

  answer-Kept :
      (self : Mdwrk) (reply : Option Msg) (client : Option Bytes)
      → IsAlive self
      → IsAlive (answer Z self reply client).0 × AllFramed (answer Z self reply client).1
  unfolding answer
  answer-Kept self none client v = elim (Bool-cases self.expect_reply) [
    | inl e ↦ simp e (v, tt)
    | inr e ↦ simp e (record { left = v.left; most = v.most }, tt)
  ]
  answer-Kept self (some reply) none v = (v, tt)
  answer-Kept self (some reply) (some client) v =
      (record { left = v.left; most = v.most }, (to_broker-IsFramed 3 none _ refl, tt))

  -- Whatever arrives, mdwrk_recv keeps the countdown of a worker between 1 and HEARTBEAT_LIVENESS, and
  -- every message it sends is an empty frame, MDPW_WORKER, and one of the commands READY, REPLY and
  -- HEARTBEAT.
  pub mdwrk_recv-Kept :
      (self : Mdwrk) (reply : Option Msg) (rs : List (Round Msg))
      → IsAlive self
      → IsAlive (mdwrk_recv Z self reply rs).0 × AllFramed (mdwrk_recv Z self reply rs).1
  unfolding mdwrk_recv
  mdwrk_recv-Kept self reply rs v =
      let (w, a) = answer-Kept self reply self.reply_to v in
      continued-Kept _ _ _ (λ s. recv_loop Z s rs) w a (λ s u. recv_loop-Kept s rs u)
