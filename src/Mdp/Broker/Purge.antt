-- ===== src/Mdp/Broker/Purge.antt =====
-- s_broker_purge and its loop.
use mathlib.Core.Path.{fun_ext}
use sweet_clib.Prelude.{
  ℕ, zero, suc, ◌+◌, ◌≤◌, ◌≡◌, refl, sym, ap, subst, ◌∙◌, Bool, true, false, not, ◌&&◌, ◌||◌,
  Option, none, some, List, [], ◌∷◌, ◌++◌, arith, if◌then◌else◌, ◌==◌, ltb, length, Bool-cases, inl,
  inr,
}
use sweet_clib.Linked.{Ptr, ok}
use sweet_clib.Czmq.{remove_first, first_of}
use sweet_clib.Mdp.Broker.{World, Worker, same_ptr, is_some}
use sweet_clib.Mdp.Broker.Objects.{
  Broker, read_clock, worker_delete, purge_round, purge_loop, broker_purge,
}
use sweet_clib.Mdp.Broker.Sound.{all_of, has, distinct, IsSound}
use sweet_clib.Mdp.Broker.Leaving.{SameServices, backlog, without_worker}
use sweet_clib.Mdp.Broker.Delete.{Deleted, worker_delete-Deleted, some_of}

-- The worker has expired at this time.
abbrev pub expired : ℕ → Option Worker → Bool
expired now none = false
expired now (some x) = not (ltb now x.expiry)

module _ (W : World) where
  open W use {pointers, clock}
  open pointers use {items, zlist_first, zlist_size, zlist_first-items, zlist_size-items}

  -- Each of these workers had expired when the clock was read for it, from reading k on.
  abbrev pub expired_from : (Ptr → Option Worker) → ℕ → List Ptr → Bool
  expired_from at k [] = true
  expired_from at k (p ∷ ps) = expired (clock k) (at p) && expired_from at (suc k) ps

  -- The worker at the front had not when the clock was read for it.
  abbrev pub front_expired : (Ptr → Option Worker) → ℕ → List Ptr → Bool
  front_expired at k [] = false
  front_expired at k (p ∷ ps) = expired (clock k) (at p)

  expired_from-without :
      (at : Ptr → Option Worker) (w : Ptr) (k : ℕ) (ps : List Ptr)
      → has w ps ≡ false
      → expired_from (without_worker W at w) k ps ≡ expired_from at k ps
  expired_from-without at w k [] n = refl
  expired_from-without at w k (p ∷ ps) n =
      let other : (p == w) ≡ false = ground arith in
      rw (other, expired_from-without at w (suc k) ps (ground arith))

  front_expired-without :
      (at : Ptr → Option Worker) (w : Ptr) (k : ℕ) (ps qs : List Ptr)
      → has w (ps ++ qs) ≡ false
      → front_expired (without_worker W at w) k qs ≡ front_expired at k qs
  front_expired-without at w k [] [] n = refl
  front_expired-without at w k [] (q ∷ qs) n =
      let other : (q == w) ≡ false = ground arith in rw other
  front_expired-without at w k (p ∷ ps) qs n = front_expired-without at w k ps qs (ground arith)

  has-append : (w : Ptr) (ps qs : List Ptr) → has w (ps ++ qs) ≡ (has w ps || has w qs)
  has-append w [] qs = refl
  has-append w (p ∷ ps) qs = let later = has-append w ps qs in ground arith

  -- What s_broker_purge leaves: the workers `gone` at the front are freed, all had expired, and the one
  -- behind them had not.
  pub record Purged (b : Broker W) (b' : Broker W) : Type 0 where
    pub sound : IsSound W b'
    pub gone : List Ptr
    pub split : items b.waiting ≡ gone ++ items b'.waiting
    pub due : expired_from b.worker_at b.readings gone ≡ true
    pub fresh : front_expired b.worker_at (b.readings + length gone) (items b'.waiting) ≡ false
    pub freed : (p : Ptr) → b'.worker_at p ≡ (if has p gone then none else b.worker_at p)
    pub told : b'.sent ≡ b.sent
    pub kept : SameServices W b.service_at b'.service_at
    pub names : b'.services ≡ b.services

  pub read_clock-IsSound : (b : Broker W) → IsSound W b → IsSound W (read_clock W b)
  read_clock-IsSound b v = record {
    known = v.known;
    employed = v.employed;
    alive = v.alive;
    once = v.once;
    own = v.own;
    enrolled = v.enrolled;
    listed = v.listed;
  }

  -- The loop stops at the front.
  stopped :
      (b b' : Broker W)
      → IsSound W b'
      → items b'.waiting ≡ items b.waiting
      → front_expired b.worker_at b.readings (items b.waiting) ≡ false
      → b'.worker_at ≡ b.worker_at
      → b'.sent ≡ b.sent
      → b'.service_at ≡ b.service_at
      → b'.services ≡ b.services
      → Purged b b'
  stopped b b' v i f a t s n = record {
    sound = v;
    gone = [];
    split = sym i;
    due = refl;
    fresh =
        rw i (subst (λ k. front_expired b.worker_at k (items b.waiting) ≡ false) (omega arith) f);
    freed = λ p. ap (λ g. g p) a;
    told = t;
    kept = λ q. ap (λ g. backlog W (g q)) s;
    names = n;
  }

  -- A worker at the front is deleted, and the loop goes on.
  gone_on :
      (b b1 b' : Broker W) (w : Ptr) (x : Worker) (ps : List Ptr)
      → items b.waiting ≡ w ∷ ps
      → b.worker_at w ≡ some x
      → ltb (clock b.readings) x.expiry ≡ false
      → distinct (w ∷ ps) ≡ true
      → Deleted W (read_clock W b) w x false b1
      → Purged b1 b'
      → Purged b b'
  gone_on b b1 b' w x ps i e late d a r =
      let rest : items b1.waiting ≡ ps = a.left ∙ ap (remove_first same_ptr w) i ∙ front w ps in
      let split : ps ≡ r.gone ++ items b'.waiting = sym rest ∙ r.split in
      let apart : has w (r.gone ++ items b'.waiting) ≡ false = rw (← split) (ground arith) in
      let apart_gone : has w r.gone ≡ false =
        left_part (has w r.gone) (has w (items b'.waiting))
          (sym (has-append w r.gone (items b'.waiting)) ∙ apart) in
      let same : b1.worker_at ≡ without_worker W b.worker_at w = fun_ext a.freed in
      let tick : b1.readings ≡ suc b.readings = a.read ∙ omega arith in
      record {
        sound = r.sound;
        gone = w ∷ r.gone;
        split = i ∙ ap (λ qs. w ∷ qs) split;
        due =
            rw (e, late)
              (sym (expired_from-without b.worker_at w (suc b.readings) r.gone apart_gone)
                ∙ (rw (← same, ← tick) r.due));
        fresh =
            sym (
              front_expired-without b.worker_at w (b.readings + suc (length r.gone)) r.gone
                (items b'.waiting) apart)
            ∙ rw (← same) (
                subst (λ k. front_expired b1.worker_at k (items b'.waiting) ≡ false)
                  (omega (arith, tick)) r.fresh);
        freed = λ p.
            r.freed p
            ∙ ap (λ o. if has p r.gone then none else o) (a.freed p)
            ∙ joined (p == w) (has p r.gone) (b.worker_at p);
        told = r.told ∙ a.told;
        kept = λ s. r.kept s ∙ a.kept s;
        names = r.names ∙ a.names;
      }
    where
      front : (p : Ptr) (qs : List Ptr) → remove_first same_ptr p (p ∷ qs) ≡ qs
      front p qs = ground arith

      left_part : (s t : Bool) → (s || t) ≡ false → s ≡ false
      left_part true t h = h
      left_part false t h = refl

      joined :
          (s t : Bool) (o : Option Worker)
          → (if t then none else (if s then none else o)) ≡ (if s || t then none else o)
      joined true true o = refl
      joined true false o = refl
      joined false t o = refl

  purge_step :
      (n : ℕ) (b b1 b' : Broker W) (w : Ptr) (x : Worker) (ps : List Ptr)
      → b.worker_at w ≡ some x
      → ltb (clock b.readings) x.expiry ≡ false
      → worker_delete W (read_clock W b) w false ≡ ok b1
      → items b1.waiting ≡ ps
      → purge_loop W n b1 (first_of ps) ≡ ok b'
      → purge_loop W (suc n) b (some w) ≡ ok b'
  unfolding purge_loop purge_round
  purge_step n b b1 b' w x ps e late run rest run' =
      rw (e, late, run)
        (ap (purge_loop W n b1) (zlist_first-items b1.waiting ∙ ap first_of rest) ∙ run')

  purge_loop-Purged :
      (n : ℕ) (b : Broker W) (ps : List Ptr)
      → items b.waiting ≡ ps
      → length ps ≤ n
      → IsSound W b
      → (b' : Broker W) × (purge_loop W n b (first_of ps) ≡ ok b') × Purged b b'
  unfolding purge_loop purge_round
  purge_loop-Purged n b [] i h v = (
    b,
    refl,
    stopped b b v refl (ap (front_expired b.worker_at b.readings) i) refl refl refl refl,
  )
  purge_loop-Purged zero b (w ∷ ps) i h v = absurd (omega arith)
  purge_loop-Purged (suc n) b (w ∷ ps) i h v =
      let (x, e) =
        some_of W (b.worker_at w)
          (first_alive (ap (all_of (λ p. is_some (b.worker_at p))) (sym i) ∙ v.alive)) in
      elim (Bool-cases (ltb (clock b.readings) x.expiry)) [
        | inl late ↦ (
          read_clock W b,
          rw (e, late),
          stopped b (read_clock W b) (read_clock-IsSound b v) refl
              (ap (front_expired b.worker_at b.readings) i ∙ rw (e, late) refl) refl refl refl refl,
        )
        | inr late ↦
            let (b1, run, a) =
              worker_delete-Deleted W (read_clock W b) w x e (read_clock-IsSound b v) false in
            let rest : items b1.waiting ≡ ps =
              a.left ∙ ap (remove_first same_ptr w) i ∙ ground arith in
            let (b', run', r) = purge_loop-Purged n b1 ps rest (omega arith) a.sound in
            (
              b',
              purge_step n b b1 b' w x ps e late run rest run',
              gone_on b b1 b' w x ps i e late (ap distinct (sym i) ∙ v.once) a r,
            )
      ]
    where
      first_alive :
          all_of (λ p. is_some (b.worker_at p)) (w ∷ ps) ≡ true → is_some (b.worker_at w) ≡ true
      first_alive a = ground arith

  -- In a sound state, s_broker_purge never faults and terminates: it deletes the workers at the front
  -- of the waiting list, each of which had expired when the clock was read for it, up to the first one
  -- that had not; it leaves a sound state, frees no other worker and sends nothing.
  pub broker_purge-Purged :
      (b : Broker W) → IsSound W b → (b' : Broker W) × (broker_purge W b ≡ ok b') × Purged b b'
  unfolding broker_purge
  broker_purge-Purged b v = rw (zlist_first-items b.waiting) (
      purge_loop-Purged (zlist_size b.waiting) b (items b.waiting) refl
        (omega (arith, zlist_size-items b.waiting)) v)
