-- ===== src/Echo/Stream.antt =====
-- A connection over all the events of it.
use sweet_clib.Prelude.{
  ℕ, ◌+◌, ◌<◌, ◌≡◌, refl, sym, ap, subst, ◌∙◌, true, false, List, [], ◌∷◌, ◌++◌, arith, length,
  length-append, Bool-cases, inl, inr, ◌⊎◌,
}
use mathlib.Core.List.{append_assoc, append-nil}
use sweet_clib.Linked.{Run, ok}
use sweet_clib.Echo.{
  FdState, max_line, Sent, Conn, accepted, do_read, Event, readable, writable, on_event, event_loop,
}
use sweet_clib.Echo.Slices.{no_newline}
use sweet_clib.Echo.Reading.{pending, Serving, Serving-alloc, concat, Serving-do_read}
use sweet_clib.Echo.Writing.{Takes, Serving-do_write}

-- All that the calls of recv give.
abbrev pub received : List Event → List ℕ
received [] = []
received (readable bufs last ∷ es) = concat bufs ++ received es
received (writable ∷ es) = received es

-- What the events leave behind a connection.
pub record Served (r : Run Conn) (c : Conn) (bytes : List ℕ) : Type 0 where
  pub result : Conn
  pub returns : r ≡ ok result
  pub kept : Serving result.state result.read result.written
  pub whole : (result.allocated ≡ false) ⊎ (result.read ≡ c.read ++ bytes)
  pub complete : (result.state.writing ≡ true) ⊎ (no_newline (pending result.state) ≡ true)

-- While nothing waits for the socket, there is no complete line that is not written.
complete_lines :
    (s : FdState) (read written : List ℕ)
    → Serving s read written
    → (s.writing ≡ true) ⊎ (no_newline (pending s) ≡ true)
complete_lines s read written v = elim (Bool-cases s.writing) [
  | inl a ↦ inl a
  | inr a ↦
      let same : s.n_written ≡ s.write_upto = ground (arith, a, v.added) in inr (rw same v.lines)
]

module _ (send : ℕ → ℕ → Sent)
    (takes : (k asked : ℕ) → 0 < asked → Takes (send k asked) asked) where
  freed : (c : Conn) (es : List Event) → c.allocated ≡ false → event_loop send c es ≡ ok c
  unfolding event_loop on_event
  freed c [] h = refl
  freed c (readable bufs last ∷ es) h = simp h (freed c es h)
  freed c (writable ∷ es) h = simp h (freed c es h)

  -- An event of a connection that is allocated.
  one_event :
      (c : Conn) (e : Event)
      → Serving c.state c.read c.written
      → length c.read + length (received (e ∷ [])) < max_line
      → c.allocated ≡ true
      → (c1 : Conn) × (on_event send c e ≡ ok c1)
        × Serving c1.state c1.read c1.written
        × (c1.read ≡ c.read ++ received (e ∷ []))
  unfolding on_event
  one_event c (readable bufs last) v h a =
      let (kept, all) =
        Serving-do_read c bufs last v
          (omega (arith, h, length-append (concat bufs) (received []))) in
      (
        do_read c bufs last,
        simp a refl,
        kept,
        all ∙ ap (c.read ++◌) (sym (append-nil (concat bufs))),
      )
  one_event c writable v h a = elim (Bool-cases c.state.writing) [
    | inl w ↦
        let r = Serving-do_write send takes c v w in
        let kept : Serving r.result.state r.result.read r.result.written =
          subst (λ x. Serving r.result.state x r.result.written) (sym r.same_read) r.kept in
        (r.result, simp (a, w) r.returns, kept, r.same_read ∙ sym (append-nil c.read))
    | inr w ↦ (c, simp (a, w) refl, v, sym (append-nil c.read))
  ]

  received_head :
      (e : Event) (es : List Event) → received (e ∷ es) ≡ received (e ∷ []) ++ received es
  received_head (readable bufs last) es = ap (◌++ received es) (sym (append-nil (concat bufs)))
  received_head writable es = refl

  Served-event_loop :
      (c : Conn) (es : List Event)
      → Serving c.state c.read c.written
      → length c.read + length (received es) < max_line
      → Served (event_loop send c es) c (received es)
  unfolding event_loop
  Served-event_loop c [] v h = record {
    result = c;
    returns = refl;
    kept = v;
    whole = inr (sym (append-nil c.read));
    complete = complete_lines c.state c.read c.written v;
  }
  Served-event_loop c (e ∷ es) v h = elim (Bool-cases c.allocated) [
    | inl a ↦
        let head = received_head e es in
        let size : length (received (e ∷ es)) ≡ length (received (e ∷ [])) + length (received es) =
          ap length head ∙ length-append (received (e ∷ [])) (received es) in
        let (c1, step, kept, all) = one_event c e v (omega (arith, h, size)) a in
        let longer : length c1.read ≡ length c.read + length (received (e ∷ [])) =
          ap length all ∙ length-append c.read (received (e ∷ [])) in
        let later = Served-event_loop c1 es kept (omega (arith, h, size, longer)) in
        let joined : c1.read ++ received es ≡ c.read ++ received (e ∷ es) =
          ap (◌++ received es) all
          ∙ append_assoc c.read (received (e ∷ [])) (received es)
          ∙ ap (c.read ++◌) (sym head) in
        record {
          result = later.result;
          returns = rw step later.returns;
          kept = later.kept;
          whole = elim later.whole [ inl x ↦ inl x | inr x ↦ inr (x ∙ joined) ];
          complete = later.complete;
        }
    | inr a ↦ record {
      result = c;
      returns = freed c (e ∷ es) a;
      kept = v;
      whole = inl a;
      complete = complete_lines c.state c.read c.written v;
    }
  ]

  -- A connection whose calls of recv give fewer bytes together than the buffer holds: over any
  -- sequence of events, and whatever each send takes of what it is given, no assertion fails and the loop of
  -- do_write comes to its end. Then the positions of the buffer are in order and inside it; the bytes
  -- written, followed by those stored and not written, are the bytes read, in order; these are all that
  -- arrived, unless the connection was freed; and unless write_event is added, what is not written has no
  -- complete line.
  pub event_loop-Served :
      (buffer : List ℕ) (es : List Event)
      → length buffer ≡ max_line
      → length (received es) < max_line
      → Served (event_loop send (accepted buffer) es) (accepted buffer) (received es)
  event_loop-Served buffer es h b =
      Served-event_loop (accepted buffer) es (Serving-alloc buffer h) (omega (arith, b))
