-- ===== src/Echo/Reading.antt =====
-- do_read: what a connection holds while characters arrive.
use sweet_clib.Prelude.{
  ℕ, ◌+◌, ◌<◌, ◌≤◌, ◌≡◌, refl, sym, ap, ◌∙◌, true, ◌||◌, List, [], ◌∷◌, ◌++◌, arith, length, ◌==◌,
  ltb, set, length-set, length-append, Bool-cases, inl, inr,
}
use mathlib.Core.List.{append_assoc, append-nil}
use sweet_clib.Echo.{
  FdState, max_line, alloc_fd_state, stored_char, after_char, read_chars, Conn, Last, closed,
  negative, do_read,
}
use sweet_clib.Echo.Slices.{slice, slice_empty, slice-set, no_newline, no_newline-append}

-- What is stored and not written.
abbrev pub pending : FdState → List ℕ
pending s = slice s.n_written s.buffer_used s.buffer

-- The positions of the buffer are in order; what is stored behind write_upto has no newline; write_event
-- is added when anything is ready; and what was written, followed by what is not, is what was read.
pub record Serving (s : FdState) (read written : List ℕ) : Type 0 where
  pub size : length s.buffer ≡ max_line
  pub sent : s.n_written ≤ s.write_upto
  pub ready : s.write_upto ≤ s.buffer_used
  pub room : s.buffer_used ≤ max_line
  pub few : s.buffer_used ≤ length read + 1
  pub lines : no_newline (slice s.write_upto s.buffer_used s.buffer) ≡ true
  pub added : (s.writing || s.n_written == s.write_upto) ≡ true
  pub echoed : written ++ pending s ≡ read

pub Serving-alloc :
    (buffer : List ℕ) → length buffer ≡ max_line → Serving (alloc_fd_state buffer) [] []
Serving-alloc buffer h = record {
  size = h;
  sent = omega arith;
  ready = omega arith;
  room = omega arith;
  few = omega arith;
  lines = ap no_newline (slice_empty 0 buffer);
  added = refl;
  echoed = slice_empty 0 buffer;
}

-- A character that finds room.
Serving-char :
    (s : FdState) (c : ℕ) (read written : List ℕ)
    → Serving s read written
    → length read + 1 < max_line
    → Serving (after_char (stored_char s c) c) (read ++ c ∷ []) written
unfolding stored_char after_char
Serving-char s c read written v h =
    let space : ltb s.buffer_used max_line ≡ true = ground (arith, v.few, h) in
    let inside : s.buffer_used < length s.buffer = omega (arith, v.few, h, v.size) in
    let held : length (set s.buffer s.buffer_used c) ≡ max_line =
      length-set s.buffer s.buffer_used c ∙ v.size in
    let longer : length (read ++ c ∷ []) ≡ length read + 1 = length-append read (c ∷ []) in
    let echo : written ++ slice s.n_written (s.buffer_used + 1) (set s.buffer s.buffer_used c)
        ≡ read ++ c ∷ [] =
      ap (written ++◌)
        (slice-set s.n_written s.buffer_used c s.buffer (omega (arith, v.sent, v.ready)) inside)
      ∙ sym (append_assoc written (pending s) (c ∷ []))
      ∙ ap (◌++ (c ∷ [])) v.echoed in
    elim (Bool-cases (c == 10)) [
      | inl a ↦
          rw (space, a)
            (record {
              size = held;
              sent = omega (arith, v.sent, v.ready);
              ready = omega arith;
              room = omega (arith, v.few, h);
              few = omega (arith, v.few, longer);
              lines =
                  ap no_newline (slice_empty (s.buffer_used + 1) (set s.buffer s.buffer_used c));
              added = refl;
              echoed = echo;
            })
      | inr a ↦
          rw (space, a)
            (record {
              size = held;
              sent = v.sent;
              ready = omega (arith, v.ready);
              room = omega (arith, v.few, h);
              few = omega (arith, v.few, longer);
              lines =
                  ap no_newline (slice-set s.write_upto s.buffer_used c s.buffer v.ready inside)
                  ∙ no_newline-append (slice s.write_upto s.buffer_used s.buffer) c v.lines a;
              added = v.added;
              echoed = echo;
            })
    ]

Serving-chars :
    (s : FdState) (cs read written : List ℕ)
    → Serving s read written
    → length read + length cs < max_line
    → Serving (read_chars s cs) (read ++ cs) written
unfolding read_chars
Serving-chars s [] read written v h = rw (append-nil read) v
Serving-chars s (c ∷ cs) read written v h =
    let longer : length (read ++ c ∷ []) ≡ length read + 1 = length-append read (c ∷ []) in
    rw (sym (append_assoc read (c ∷ []) cs)) (
      Serving-chars (after_char (stored_char s c) c) cs (read ++ c ∷ []) written
        (Serving-char s c read written v (omega (arith, h))) (omega (arith, h, longer)))

abbrev pub concat : List (List ℕ) → List ℕ
concat [] = []
concat (xs ∷ xss) = xs ++ concat xss

pub Serving-do_read :
    (c : Conn) (bufs : List (List ℕ)) (last : Last)
    → Serving c.state c.read c.written
    → length c.read + length (concat bufs) < max_line
    → Serving (do_read c bufs last).state (do_read c bufs last).read (do_read c bufs last).written
      × ((do_read c bufs last).read ≡ c.read ++ concat bufs)
unfolding do_read
Serving-do_read c [] closed v h = (v, sym (append-nil c.read))
Serving-do_read c [] negative v h = (v, sym (append-nil c.read))
Serving-do_read c (buf ∷ bufs) last v h =
    let all : length (buf ++ concat bufs) ≡ length buf + length (concat bufs) =
      length-append buf (concat bufs) in
    let longer : length (c.read ++ buf) ≡ length c.read + length buf = length-append c.read buf in
    let (w, e) =
      Serving-do_read (record c { state = read_chars c.state buf; read = c.read ++ buf }) bufs last
        (Serving-chars c.state buf c.read c.written v (omega (arith, h, all)))
        (omega (arith, h, all, longer)) in
    (w, e ∙ append_assoc c.read buf (concat bufs))
