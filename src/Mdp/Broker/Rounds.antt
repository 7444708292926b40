-- ===== src/Mdp/Broker/Rounds.antt =====
-- The rounds of the main loop: the heartbeats, the message that arrives, and a whole session.
use sweet_clib.Prelude.{
  ℕ, ◌+◌, ◌≡◌, refl, sym, ap, subst, ◌∙◌, true, false, Option, none, some, List, [], ◌∷◌, ◌++◌,
  arith, ltb, Bool-cases, inl, inr,
}
use mathlib.Core.List.{append_assoc, append-nil}
use sweet_clib.Linked.{Ptr, Run, ok, fault, out_of_fuel, ◌>>=◌}
use sweet_clib.Text.{Bytes, strcmp_eq}
use sweet_clib.Czmq.{first_of, rest_of_list}
use sweet_clib.Mdp.{mdpc_client, mdpw_worker, mdpw_heartbeat}
use sweet_clib.Mdp.Broker.{World, Worker, is_some, heartbeat_interval}
use sweet_clib.Mdp.Broker.Objects.{
  Broker, zclock_time, read_clock, to_worker, worker_send, broker_new,
}
use sweet_clib.Mdp.Broker.Handlers.{broker_msg, beat_all, broker_beat, broker_round}
use sweet_clib.Mdp.Broker.Sound.{all_of, IsSound}
use sweet_clib.Mdp.Broker.Delete.{some_of}
use sweet_clib.Mdp.Broker.Purge.{Purged, broker_purge-Purged, read_clock-IsSound}
use sweet_clib.Mdp.Broker.Handling.{EndsSound}
use sweet_clib.Mdp.Broker.Clients.{broker_client_msg-EndsSound}
use sweet_clib.Mdp.Broker.Branches.{IsPolite}
use sweet_clib.Mdp.Broker.Workers.{broker_worker_msg-EndsSound}

module _ (W : World) where
  open W use {zmsg, zhash, pointers, clock}
  open zmsg use {Msg, frames, zmsg_new, zmsg_pop, popped, frames-pop}
  open zhash use {lookup-new}
  open pointers use {items, items-new}

  -- The heartbeats to these workers, in order.
  abbrev pub beats : (Ptr → Option Worker) → List Ptr → List Msg
  beats at [] = []
  beats at (w ∷ ws) =
      elim (at w) [ none ↦ [] | some x ↦ to_worker W x mdpw_heartbeat zmsg_new ∷ [] ] ++ beats at ws

  broker_new-IsSound : IsSound W (broker_new W)
  unfolding broker_new
  broker_new-IsSound = record {
    known = λ p. refl;
    employed = λ p. refl;
    alive = rw items-new refl;
    once = rw items-new refl;
    own = λ s. refl;
    enrolled = λ n. rw (lookup-new n) refl;
    listed = λ n. rw (lookup-new n) refl;
  }

  beat_all-beats :
      (b : Broker W) (ws : List Ptr)
      → all_of (λ p. is_some (b.worker_at p)) ws ≡ true
      → beat_all W b ws ≡ ok (record b { sent = b.sent ++ beats b.worker_at ws })
  unfolding beat_all worker_send
  beat_all-beats b [] h = simp (append-nil b.sent)
  beat_all-beats b (w ∷ ws) h =
      let (x, e) = some_of W (b.worker_at w) (ground arith) in
      let later =
        beat_all-beats (record b { sent = b.sent ++ to_worker W x mdpw_heartbeat zmsg_new ∷ [] }) ws
          (ground arith) in
      rw e (
        later
        ∙ ap (λ l. ok (record b { sent = l }))
            (append_assoc b.sent (to_worker W x mdpw_heartbeat zmsg_new ∷ [])
              (beats b.worker_at ws)))

  sent-IsSound :
      (b : Broker W) (l : List Msg) (n k : ℕ)
      → IsSound W b
      → IsSound W (record b { sent = l; heartbeat_at = n; readings = k })
  sent-IsSound b l n k v = record {
    known = v.known;
    employed = v.employed;
    alive = v.alive;
    once = v.once;
    own = v.own;
    enrolled = v.enrolled;
    listed = v.listed;
  }

  -- What a round in which a heartbeat is due leaves.
  pub record Beaten (b b' : Broker W) : Type 0 where
    pub sound : IsSound W b'
    pub kept : Broker W
    pub purged : Purged W (read_clock W b) kept
    pub alive : (b'.waiting ≡ kept.waiting) × (b'.worker_at ≡ kept.worker_at)
    pub sent : b'.sent ≡ b.sent ++ beats b'.worker_at (items b'.waiting)
    pub next : b'.heartbeat_at ≡ clock kept.readings + heartbeat_interval

  -- Once a heartbeat is due, in a sound state, the end of a round never faults and terminates: it
  -- purges the workers at the front of the waiting list that have expired, sends one heartbeat to each
  -- worker that still waits, in their order, and nothing else, sets the time of the next heartbeat to an
  -- interval after now, and leaves a sound state.
  pub broker_beat-Beaten :
      (b : Broker W)
      → IsSound W b
      → ltb b.heartbeat_at (zclock_time W b) ≡ true
      → (b' : Broker W) × (broker_beat W b ≡ ok b') × Beaten b b'
  unfolding broker_beat
  broker_beat-Beaten b v due =
      let (b2, run, r) = broker_purge-Purged W (read_clock W b) (read_clock-IsSound W b v) in
      let sending = beat_all-beats b2 (items b2.waiting) r.sound.alive in
      (
        record b2 {
          sent = b2.sent ++ beats b2.worker_at (items b2.waiting);
          heartbeat_at = clock b2.readings + heartbeat_interval;
          readings = b2.readings + 1;
        },
        rw (due, run, sending) refl,
        record {
          sound = sent-IsSound b2 _ _ _ r.sound;
          kept = b2;
          purged = r;
          alive = (refl, refl);
          sent = ap (λ l. l ++ beats b2.worker_at (items b2.waiting)) r.told;
          next = refl;
        },
      )

  beat_sound : (b : Broker W) → IsSound W b → EndsSound W (broker_beat W b)
  unfolding broker_beat
  beat_sound b v = elim (Bool-cases (ltb b.heartbeat_at (zclock_time W b))) [
    | inl due ↦ let (b', run, r) = broker_beat-Beaten b v due in (b', run, r.sound)
    | inr early ↦ (read_clock W b, quiet early, read_clock-IsSound W b v)
  ]
    where
      quiet : ltb b.heartbeat_at (zclock_time W b) ≡ false → broker_beat W b ≡ ok (read_clock W b)
      quiet early = rw early refl

  -- What the main loop may get: frames for the sender, the empty frame and the header, and behind the
  -- header of a client or of a worker what that handler needs.
  pub record IsProper (b : Broker W) (m : Msg) : Type 0 where
    pub sender : Bytes
    pub empty : Bytes
    pub header : Bytes
    pub body : List Bytes
    pub whole : frames m ≡ sender ∷ empty ∷ header ∷ body
    pub of_client :
        strcmp_eq header mdpc_client ≡ true
        → (name : Bytes) × (f : Bytes) × (fs : List Bytes) × (body ≡ name ∷ f ∷ fs)
    pub of_worker :
        strcmp_eq header mdpw_worker ≡ true
        → (command : Bytes) × (rest : List Bytes) × (body ≡ command ∷ rest)
          × IsPolite W b sender command rest

  -- Nothing arrived, or a proper message.
  abbrev pub IsArrival : Broker W → Option Msg → Type 0
  IsArrival b none = true ≡ true
  IsArrival b (some m) = IsProper b m

  msg_sound :
      (b : Broker W) (m : Msg) (fw fs : Ptr)
      → b.worker_at fw ≡ none
      → b.service_at fs ≡ none
      → IsProper b m
      → IsSound W b
      → EndsSound W (broker_msg W b m fw fs)
  unfolding broker_msg
  msg_sound b m fw fs g h r v =
      let m1 = (zmsg_pop m).1 in
      let m2 = (zmsg_pop m1).1 in
      let m3 = (zmsg_pop m2).1 in
      let i1 : frames m1 ≡ r.empty ∷ r.header ∷ r.body = frames-pop m ∙ ap rest_of_list r.whole in
      let i2 : frames m2 ≡ r.header ∷ r.body = frames-pop m1 ∙ ap rest_of_list i1 in
      let i3 : frames m3 ≡ r.body = frames-pop m2 ∙ ap rest_of_list i2 in
      let first : (zmsg_pop m).0 ≡ some r.sender = popped m ∙ ap first_of r.whole in
      let third : (zmsg_pop m2).0 ≡ some r.header = popped m2 ∙ ap first_of i2 in
      elim (Bool-cases (strcmp_eq r.header mdpc_client)) [
        | inl a ↦
            let (name, f, gs, i) = r.of_client a in
            let (b', run, u) =
              broker_client_msg-EndsSound W b r.sender name m3 f gs fs (i3 ∙ i) h v in
            (b', rw (first, third, a) run, u)
        | inr a ↦ elim (Bool-cases (strcmp_eq r.header mdpw_worker)) [
          | inl c ↦
              let (command, rest, i, polite) = r.of_worker c in
              let (b', run, u) =
                broker_worker_msg-EndsSound W b r.sender command m3 rest fw fs (i3 ∙ i) g h v
                  polite in
              (b', rw (first, third, a, c) run, u)
          | inr c ↦ (b, rw (first, third, a, c) refl, v)
        ]
      ]

  -- A round of the main loop, in which nothing arrived or a proper message, in a sound state and with
  -- fresh addresses for a new worker and a new service, never faults, terminates, and leaves a sound
  -- state.
  broker_round-EndsSound :
      (b : Broker W) (o : Option Msg) (fw fs : Ptr)
      → b.worker_at fw ≡ none
      → b.service_at fs ≡ none
      → IsArrival b o
      → IsSound W b
      → EndsSound W (broker_round W b o fw fs)
  unfolding broker_round
  broker_round-EndsSound b none fw fs g h r v = beat_sound b v
  broker_round-EndsSound b (some m) fw fs g h r v =
      let (b1, run1, u1) = msg_sound b m fw fs g h r v in
      let (b2, run2, u2) = beat_sound b1 u1 in (b2, ap (λ x. x >>= broker_beat W) run1 ∙ run2, u2)

  -- The states that the rounds of the main loop lead to from the new broker.
  pub data Session : Broker W → Type 0 where
    started : Session (broker_new W)
    next :
        (b b' : Broker W) (o : Option Msg) (fw fs : Ptr)
        → Session b
        → b.worker_at fw ≡ none
        → b.service_at fs ≡ none
        → IsArrival b o
        → broker_round W b o fw fs ≡ ok b'
        → Session b'

  -- In every state that rounds with proper messages lead to from a new broker, the invariant holds.
  Session-IsSound : (b : Broker W) → Session b → IsSound W b
  Session-IsSound _ started = broker_new-IsSound
  Session-IsSound _ (next b b' o fw fs before g h r run) =
      let (b2, run2, u) = broker_round-EndsSound b o fw fs g h r (Session-IsSound b before) in
      subst (IsSound W) (same b2 (sym run ∙ run2)) u
    where
      result : Run (Broker W) → Broker W
      result (ok x) = x
      result fault = b'
      result out_of_fuel = b'

      same : (b2 : Broker W) → ok b' ≡ ok b2 → b2 ≡ b'
      same b2 e = sym (ap result e)

  -- In every state that rounds with proper messages lead to from a new broker, the next round, in which
  -- nothing arrives or a proper message, with fresh addresses for a new worker and a new service, never
  -- faults, terminates, and leaves a state in which the invariant of the broker (IsSound) holds. A message
  -- is proper when it has a sender, an empty frame and a header and, from a client, a service and one more
  -- frame or, from a worker, a command, where READY of a worker that is neither known nor reserved names a
  -- service, and REPLY of a known worker names a client and comes from a worker that has a service and
  -- waits nowhere.
  pub Session-broker_round :
      (b : Broker W) (o : Option Msg) (fw fs : Ptr)
      → Session b
      → b.worker_at fw ≡ none
      → b.service_at fs ≡ none
      → IsArrival b o
      → EndsSound W (broker_round W b o fw fs)
  Session-broker_round b o fw fs s g h r =
      broker_round-EndsSound b o fw fs g h r (Session-IsSound b s)
