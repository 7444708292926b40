-- ===== src/Echo/Writing.antt =====
-- do_write: what a connection holds while its bytes go out.
use sweet_clib.Prelude.{
  ℕ, zero, suc, ◌+◌, ◌-◌, ◌<◌, ◌≤◌, ◌≡◌, refl, sym, ap, ◌∙◌, true, false, List, [], ◌++◌, arith,
  ◌==◌, ltb, take, drop, Bool-cases, inl, inr,
}
use mathlib.Core.List.{append_assoc}
use sweet_clib.Linked.{Run, ok}
use sweet_clib.Echo.{
  FdState, Sent, sent, again, fails, Conn, finished, on_send, write_loop, do_write,
}
use sweet_clib.Echo.Slices.{slice, slice_empty, slice_split, no_newline}
use sweet_clib.Echo.Reading.{pending, Serving}

-- What send documents of its result: a success takes a byte or more, and no more than it is given.
abbrev pub Takes : Sent → ℕ → Type 0
Takes (sent n) asked = (0 < n) × (n ≤ asked)
Takes again asked = Unit
Takes fails asked = Unit

-- The end of do_write: everything ready is written.
Serving-finished :
    (s : FdState) (read written : List ℕ)
    → Serving s read written
    → s.n_written ≡ s.write_upto
    → Serving (finished s) read written
unfolding finished
Serving-finished s read written v e = elim (Bool-cases (s.n_written == s.buffer_used)) [
  | inl a ↦
      let same : s.n_written ≡ s.buffer_used = ground (arith, a) in
      let nothing : pending s ≡ [] = rw same (slice_empty s.buffer_used s.buffer) in
      rw a (record {
        size = v.size;
        sent = omega arith;
        ready = omega arith;
        room = omega arith;
        few = omega arith;
        lines = ap no_newline (slice_empty 1 s.buffer);
        added = refl;
        echoed = ap (written ++◌) (slice_empty 1 s.buffer ∙ sym nothing) ∙ v.echoed;
      })
  | inr a ↦ rw a (record {
    size = v.size;
    sent = v.sent;
    ready = v.ready;
    room = v.room;
    few = v.few;
    lines = v.lines;
    added = ground (arith, e);
    echoed = v.echoed;
  })
]

-- A send that takes n bytes.
Serving-sent :
    (s : FdState) (n : ℕ) (read written : List ℕ)
    → Serving s read written
    → s.n_written + n ≤ s.write_upto
    → s.writing ≡ true
    → Serving
        (record s { n_written = s.n_written + n })
        read
        (written ++ take n (drop s.n_written s.buffer))
Serving-sent s n read written v h w = record {
  size = v.size;
  sent = h;
  ready = v.ready;
  room = v.room;
  few = v.few;
  lines = v.lines;
  added = rw w refl;
  echoed =
      append_assoc written (take n (drop s.n_written s.buffer))
        (slice (s.n_written + n) s.buffer_used s.buffer)
      ∙ ap (written ++◌)
          (sym (slice_split s.n_written n s.buffer_used s.buffer (omega (arith, h, v.ready))))
      ∙ v.echoed;
}

-- What do_write leaves, behind a connection.
pub record Wrote (r : Run Conn) (c : Conn) : Type 0 where
  pub result : Conn
  pub returns : r ≡ ok result
  pub kept : Serving result.state c.read result.written
  pub same_read : result.read ≡ c.read

-- A send, when what the loop does after it keeps the connection so.
Serving-on_send :
    (c : Conn) (o : Sent) (later : Conn → Run Conn)
    → Serving c.state c.read c.written
    → c.state.writing ≡ true
    → Takes o (c.state.write_upto - c.state.n_written)
    → ((c1 : Conn)
        → Serving c1.state c1.read c1.written
        → c1.state.writing ≡ true
        → c1.state.write_upto - c1.state.n_written < c.state.write_upto - c.state.n_written
        → Wrote (later c1) c1)
    → Wrote (on_send c o later) c
unfolding on_send
Serving-on_send c again later v w t f = record {
  result = record c { sends = c.sends + 1 };
  returns = refl;
  kept = v;
  same_read = refl;
}
Serving-on_send c fails later v w t f = record {
  result = record c { allocated = false; sends = c.sends + 1 };
  returns = refl;
  kept = v;
  same_read = refl;
}
Serving-on_send c (sent n) later v w (some_bytes, most) f =
    let positive : (n == 0) ≡ false = ground (arith, some_bytes) in
    let next : Conn = record c {
      state = record c.state { n_written = c.state.n_written + n };
      written = c.written ++ take n (drop c.state.n_written c.state.buffer);
      sends = c.sends + 1;
    } in
    let after =
      f next (Serving-sent c.state n c.read c.written v (omega (arith, most, v.sent, some_bytes)) w)
        w (omega (arith, some_bytes, most)) in
    rw positive (record {
      result = after.result;
      returns = after.returns;
      kept = after.kept;
      same_read = after.same_read;
    })

module _ (send : ℕ → ℕ → Sent)
    (takes : (k asked : ℕ) → 0 < asked → Takes (send k asked) asked) where
  -- Fuel beyond the bytes that are ready is enough.
  Serving-write_loop :
      (fuel : ℕ) (c : Conn)
      → Serving c.state c.read c.written
      → c.state.writing ≡ true
      → c.state.write_upto - c.state.n_written < fuel
      → Wrote (write_loop send fuel c) c
  unfolding write_loop
  Serving-write_loop zero c v w h = absurd (omega (arith, h))
  Serving-write_loop (suc fuel) c v w h =
      elim (Bool-cases (ltb c.state.n_written c.state.write_upto)) [
        | inl a ↦
            let asked : ℕ = c.state.write_upto - c.state.n_written in
            rw a (
              Serving-on_send c (send c.sends asked) (λ c1. write_loop send fuel c1) v w
                (takes c.sends asked (ground (arith, a)))
                (λ c1 v1 w1 h1. Serving-write_loop fuel c1 v1 w1 (omega (arith, h, h1))))
        | inr a ↦ rw a (record {
          result = record c { state = finished c.state };
          returns = refl;
          kept = Serving-finished c.state c.read c.written v (ground (arith, a, v.sent));
          same_read = refl;
        })
      ]

  pub Serving-do_write :
      (c : Conn)
      → Serving c.state c.read c.written
      → c.state.writing ≡ true
      → Wrote (do_write send c) c
  unfolding do_write
  Serving-do_write c v w =
      Serving-write_loop (suc (c.state.write_upto - c.state.n_written)) c v w (omega arith)
