-- ===== src/Processpool/Child/Turns.antt =====
-- The turns of each connection of a child process.
use sweet_clib.Prelude.{
  ℕ, ◌≡◌, refl, sym, ap, ◌∙◌, Bool, true, false, ◌&&◌, ◌||◌, Option, none, some, List, [], ◌∷◌,
  ◌++◌, arith, if◌then◌else◌, ltb, ◌==◌, Bool-cases, inl, inr,
}
use mathlib.Core.List.{append_assoc, append-nil}
use sweet_clib.Linked.{Run, ok, ◌>>=◌}
use sweet_clib.Processpool.Child.{
  user_per_process, ChildEvent, notice, child_signals, request, unread, stop_signal, Child, put,
  on_notice, on_client, on_child_event, on_child_events, run_child,
}
use sweet_clib.Processpool.Child.Events.{
  in_range, stops, connections, handled, in_range-append, stops-append, connections-append,
  stop_signal-asks_stop,
}

module _ {U : Type 0} (init : ℕ → U → U) (process : U → U) where
  -- What the events of one descriptor make of its object.
  abbrev pub turns : ℕ → List ChildEvent → U → U
  turns q [] u = u
  turns q (notice true (some fd) ∷ es) u = turns q es (if q == fd then init fd u else u)
  turns q (notice true none ∷ es) u = turns q es u
  turns q (notice false client ∷ es) u = turns q es u
  turns q (child_signals xs ∷ es) u = turns q es u
  turns q (request fd ∷ es) u = turns q es (if q == fd then process u else u)
  turns q (unread ∷ es) u = turns q es u

  turns-append :
      (q : ℕ) (es fs : List ChildEvent) (u : U) → turns q (es ++ fs) u ≡ turns q fs (turns q es u)
  turns-append q [] fs u = refl
  turns-append q (notice true (some fd) ∷ es) fs u =
      turns-append q es fs (if q == fd then init fd u else u)
  turns-append q (notice true none ∷ es) fs u = turns-append q es fs u
  turns-append q (notice false client ∷ es) fs u = turns-append q es fs u
  turns-append q (child_signals xs ∷ es) fs u = turns-append q es fs u
  turns-append q (request fd ∷ es) fs u = turns-append q es fs (if q == fd then process u else u)
  turns-append q (unread ∷ es) fs u = turns-append q es fs u

  -- What a run over events leaves behind a child.
  pub record Turned (r : Run (Child init process)) (c : Child init process) (es : List ChildEvent)
      : Type 0 where
    pub child : Child init process
    pub returns : r ≡ ok child
    pub users : (q : ℕ) → child.users q ≡ turns q es (c.users q)
    pub added : child.added ≡ c.added ++ connections es
    pub stopped : child.m_stop ≡ (c.m_stop || stops es)

  -- The object that is put is the one of its descriptor.
  put-itself :
      (users : ℕ → U) (fd q : ℕ) (f : U → U)
      → put init process users fd (f (users fd)) q ≡ (if q == fd then f (users q) else users q)
  put-itself users fd q f = elim (Bool-cases (q == fd)) [
    | inl a ↦ let same : q ≡ fd = ground (arith, a) in simp a (ap (λ x. f (users x)) (sym same))
    | inr a ↦ simp a refl
  ]

  -- An event whose descriptor has an object, and what follows.
  turned_step :
      (c c1 : Child init process) (fd : ℕ) (f : U → U) (es : List ChildEvent)
      → c1.users ≡ put init process c.users fd (f (c.users fd))
      → (q : ℕ)
      → turns q es (c1.users q) ≡ turns q es (if q == fd then f (c.users q) else c.users q)
  turned_step c c1 fd f es e q =
      ap (turns q es) (ap (λ (g : ℕ → U). g q) e ∙ put-itself c.users fd q f)

  on_child_events-Turned :
      (c : Child init process) (es : List ChildEvent)
      → in_range es ≡ true
      → Turned (on_child_events init process c es) c es
  unfolding on_child_events on_child_event on_notice on_client
  on_child_events-Turned c [] h = record {
    child = c;
    returns = refl;
    users = λ q. refl;
    added = sym (append-nil c.added);
    stopped = ground arith;
  }
  on_child_events-Turned c (notice false client ∷ es) h =
      let later = on_child_events-Turned c es (ranged client h) in
      record {
        child = later.child;
        returns = later.returns;
        users = later.users;
        added = later.added;
        stopped = later.stopped;
      }
    where
      ranged : (o : Option ℕ) → in_range (notice false o ∷ es) ≡ true → in_range es ≡ true
      ranged none h = h
      ranged (some fd) h = ground (arith, h)
  on_child_events-Turned c (notice true none ∷ es) h =
      let later = on_child_events-Turned c es h in
      record {
        child = later.child;
        returns = later.returns;
        users = later.users;
        added = later.added;
        stopped = later.stopped;
      }
  on_child_events-Turned c (notice true (some fd) ∷ es) h =
      let inside : ltb fd user_per_process ≡ true = ground (arith, h) in
      let c1 : Child init process = record c {
        added = c.added ++ fd ∷ [];
        users = put init process c.users fd (init fd (c.users fd));
      } in
      let later = on_child_events-Turned c1 es (ground (arith, h)) in
      record {
        child = later.child;
        returns = simp inside later.returns;
        users = λ q. later.users q ∙ turned_step c c1 fd (init fd) es refl q;
        added = later.added ∙ append_assoc c.added (fd ∷ []) (connections es);
        stopped = later.stopped;
      }
  on_child_events-Turned c (child_signals xs ∷ es) h =
      let c1 : Child init process = record c { m_stop = stop_signal c.m_stop xs } in
      let later = on_child_events-Turned c1 es h in
      record {
        child = later.child;
        returns = later.returns;
        users = later.users;
        added = later.added;
        stopped = later.stopped ∙ ground (arith, stop_signal-asks_stop c.m_stop xs);
      }
  on_child_events-Turned c (request fd ∷ es) h =
      let inside : ltb fd user_per_process ≡ true = ground (arith, h) in
      let c1 : Child init process = record c {
        users = put init process c.users fd (process (c.users fd));
      } in
      let later = on_child_events-Turned c1 es (ground (arith, h)) in
      record {
        child = later.child;
        returns = simp inside later.returns;
        users = λ q. later.users q ∙ turned_step c c1 fd process es refl q;
        added = later.added;
        stopped = later.stopped;
      }
  on_child_events-Turned c (unread ∷ es) h =
      let later = on_child_events-Turned c es h in
      record {
        child = later.child;
        returns = later.returns;
        users = later.users;
        added = later.added;
        stopped = later.stopped;
      }

  -- A child that is stopped reads no further round.
  halted :
      (c : Child init process) (rounds : List (List ChildEvent))
      → c.m_stop ≡ true
      → run_child init process c rounds ≡ ok c
  unfolding run_child
  halted c [] h = refl
  halted c (es ∷ rounds) h = simp h refl

  Turned-none : (r : Run (Child init process)) (c : Child init process) → r ≡ ok c → Turned r c []
  Turned-none r c e = record {
    child = c;
    returns = e;
    users = λ q. refl;
    added = sym (append-nil c.added);
    stopped = ground arith;
  }

  -- The rounds behind one that stopped the child or did not.
  next_rounds :
      (c : Child init process) (rounds : List (List ChildEvent)) (b : Bool)
      → c.m_stop ≡ b
      → (b ≡ false → Turned (run_child init process c rounds) c (handled rounds))
      → Turned (run_child init process c rounds) c (if b then [] else handled rounds)
  next_rounds c rounds true h f =
      Turned-none (run_child init process c rounds) c (halted c rounds h)
  next_rounds c rounds false h f = f refl

  Turned-append :
      (r : Run (Child init process)) (c : Child init process) (es fs : List ChildEvent)
      (later : Child init process → Run (Child init process)) (now : Turned r c es)
      → Turned (later now.child) now.child fs
      → Turned (r >>= later) c (es ++ fs)
  Turned-append r c es fs later now after = record {
    child = after.child;
    returns = ap (λ x. x >>= later) now.returns ∙ after.returns;
    users =
        λ q. after.users q ∙ ap (turns q fs) (now.users q) ∙ sym (turns-append q es fs (c.users q));
    added =
        after.added
        ∙ ap (◌++ connections fs) now.added
        ∙ append_assoc c.added (connections es) (connections fs)
        ∙ ap (c.added ++◌) (sym (connections-append es fs));
    stopped = ground (arith, after.stopped, now.stopped, stops-append es fs);
  }

  -- A child that was not stopped, over rounds whose descriptors lie in the array of objects: it handles
  -- every round up to the first with SIGTERM or SIGINT, that one included, and no later one. The object
  -- of each descriptor is then what its own events alone make of it, init for each connection accepted
  -- under it and process for each request, in order; the connections added to epoll are those accepted, in
  -- order; and m_stop is set exactly when such a signal arrived.
  pub run_child-Turned :
      (c : Child init process) (rounds : List (List ChildEvent))
      → c.m_stop ≡ false
      → in_range (handled rounds) ≡ true
      → Turned (run_child init process c rounds) c (handled rounds)
  unfolding run_child
  run_child-Turned c [] h r = Turned-none (ok c) c refl
  run_child-Turned c (es ∷ rounds) h r =
      let fs : List ChildEvent = if stops es then [] else handled rounds in
      let both : (in_range es && in_range fs) ≡ true = sym (in_range-append es fs) ∙ r in
      let now = on_child_events-Turned c es (ground (arith, both)) in
      let asked : now.child.m_stop ≡ stops es = now.stopped ∙ ap (◌|| stops es) h in
      simp h (
        Turned-append (on_child_events init process c es) c es fs
          (λ c1. run_child init process c1 rounds) now
          (next_rounds now.child rounds (stops es) asked
            (λ n. run_child-Turned now.child rounds (asked ∙ n) (ground (arith, both, n)))))
