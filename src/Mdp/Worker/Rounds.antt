-- ===== src/Mdp/Worker/Rounds.antt =====
-- A run of timeouts in mdwrk_recv: when the worker connects anew.
use sweet_clib.Prelude.{
  ℕ, suc, ◌+◌, ◌-◌, ◌/◌, ◌≤◌, ◌≡◌, refl, ap, ◌∙◌, true, false, none, List, [], ◌∷◌, arith,
  if◌then◌else◌, ltb, ◌==◌, length, Bool-cases, inl, inr,
}
use sweet_clib.Czmq.{Zmsg}
use sweet_clib.Mdp.Client.{Poll, poll_error, readable, timed_out, Action}
use sweet_clib.Mdp.Client.Retry.{connects}
use sweet_clib.Mdp.Worker.{
  Mdwrk, Round, goes_on, connect_to_broker, missed, beat, ended, round, recv_loop, answer,
  mdwrk_recv,
}
use sweet_clib.Mdp.Worker.Kept.{zero_of, nonzero_of, connects-append, IsAlive}

module _ (Z : Zmsg) where
  open Z use {Msg, frames, zmsg_new, zmsg_push, zmsg_pop, zmsg_unwrap, zmsg_size, frames-push}

  -- Every round times out.
  abbrev pub AllSilent : List (Round Msg) → Type 0
  AllSilent [] = Unit
  AllSilent (r ∷ rs) = (r.polled ≡ timed_out) × AllSilent rs

  beat-silent :
      (self : Mdwrk) (now later : ℕ)
      → ((beat Z self now later).0.liveness ≡ self.liveness)
        × (connects (beat Z self now later).1 ≡ 0)
  unfolding beat
  beat-silent self now later = elim (Bool-cases (ltb self.heartbeat_at now)) [
    | inl a ↦ rw a (refl, refl)
    | inr a ↦ rw a (refl, refl)
  ]

  -- A timeout counts down, and connects anew when the countdown ends.
  missed-silent :
      (self : Mdwrk) (now n : ℕ)
      → self.liveness ≡ suc n
      → ((missed Z self now).0.liveness ≡ (if n == 0 then 3 else n))
        × (connects (missed Z self now).1 ≡ (if n == 0 then 1 else 0))
  unfolding missed connect_to_broker
  missed-silent self now n e = elim (Bool-cases (n == 0)) [
    | inl a ↦ rw (e, a) (refl, refl)
    | inr a ↦ rw (e, a) (refl, refl)
  ]

  round-silent :
      (self : Mdwrk) (r : Round Msg) (n : ℕ) (o : Poll Msg)
      → o ≡ timed_out
      → self.liveness ≡ suc n
      → (s : Mdwrk) × (xs : List (Action Msg)) × (round Z self r o ≡ (s, xs, goes_on))
        × (s.liveness ≡ (if n == 0 then 3 else n))
        × (connects xs ≡ (if n == 0 then 1 else 0))
  unfolding round ended
  round-silent self r n poll_error q e = cc
  round-silent self r n (readable m) q e = cc
  round-silent self r n timed_out q e =
      let (count, anew) = missed-silent self r.connected_at n e in
      let (still, none_new) = beat-silent (missed Z self r.connected_at).0 r.tested_at r.beat_at in
      (
        _,
        _,
        refl,
        still ∙ count,
        connects-append {M = Msg} ((missed Z self r.connected_at).1)
              ((beat Z (missed Z self r.connected_at).0 r.tested_at r.beat_at).1)
            ∙ omega (arith, anew, none_new),
      )

  recv_loop-silent :
      (self : Mdwrk) (rs : List (Round Msg))
      → IsAlive self
      → AllSilent rs
      → ((recv_loop Z self rs).2 ≡ goes_on)
        × (connects (recv_loop Z self rs).1 ≡ (length rs + (3 - self.liveness)) / 3)
  unfolding recv_loop
  recv_loop-silent self [] v q = (refl, omega (arith, v.left, v.most))
  recv_loop-silent self (r ∷ rs) v q =
      let n = self.liveness - 1 in
      let (s, xs, run, count, anew) = round-silent self r n r.polled q.0 (omega (arith, v.left)) in
      let bounds : (1 ≤ (if n == 0 then 3 else n)) × ((if n == 0 then 3 else n) ≤ 3) =
        ground (arith, v.left, v.most) in
      let w : IsAlive s = record {
        left = omega (arith, count, bounds.0);
        most = omega (arith, count, bounds.1);
      } in
      let (waits, often) = recv_loop-silent s rs w q.1 in
      rw run (
        waits,
        connects-append xs (recv_loop Z s rs).1
            ∙ total n s.liveness (length rs) _ _ count anew often (omega (arith, v.left)) v.most,
      )
    where
      total :
          (m l k a b : ℕ)
          → l ≡ (if m == 0 then 3 else m)
          → a ≡ (if m == 0 then 1 else 0)
          → b ≡ (k + (3 - l)) / 3
          → self.liveness ≡ suc m
          → self.liveness ≤ 3
          → a + b ≡ (suc k + (3 - self.liveness)) / 3
      total m l k a b f g h e u = elim (Bool-cases (m == 0)) [
        | inl z ↦ omega (
          arith,
          f ∙ ap (λ c. if c then 3 else m) z,
          g ∙ ap (λ c. if c then 1 else 0) z,
          zero_of m z,
          h,
          e,
        )
        | inr z ↦ omega (
          arith,
          f ∙ ap (λ c. if c then 3 else m) z,
          g ∙ ap (λ c. if c then 1 else 0) z,
          h,
          e,
          u,
          nonzero_of m z,
        )
      ]

  -- When a worker that waits for no answer asks for a request and n rounds in a row time out, the call
  -- still waits, and the worker connected anew once for every HEARTBEAT_LIVENESS timeouts, counted
  -- from when its countdown was last full.
  pub mdwrk_recv-silent :
      (self : Mdwrk) (rs : List (Round Msg))
      → IsAlive self
      → self.expect_reply ≡ false
      → AllSilent rs
      → ((mdwrk_recv Z self none rs).2 ≡ goes_on)
        × (connects (mdwrk_recv Z self none rs).1 ≡ (length rs + (3 - self.liveness)) / 3)
  unfolding mdwrk_recv answer
  mdwrk_recv-silent self rs v e q = simp e (
      recv_loop-silent (record self { expect_reply = true }) rs
        (record { left = v.left; most = v.most }) q)
