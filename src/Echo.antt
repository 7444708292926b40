-- ===== src/Echo.antt =====
-- lib/libevent/lowlevel_libevent_server.c: the buffer of a connection, what do_read and do_write make of
-- it, and the calls of the two by the event loop. What recv reports is in the events; what send reports
-- is an argument, by the number of the call and the bytes it is asked to send. alloc_fd_state is taken to
-- get its memory and its events, and the line that is printed is left out.
pub mod Slices
pub mod Reading
pub mod Writing
pub mod Stream
use sweet_clib.Prelude.{
  ℕ, zero, suc, ◌+◌, ◌-◌, Bool, true, false, List, [], ◌∷◌, ◌++◌, if◌then◌else◌, ltb, ◌==◌, set,
  take, drop,
}
use sweet_clib.Linked.{Run, ok, fault, out_of_fuel, ◌>>=◌}

-- MAX_LINE
abbrev pub max_line : ℕ
max_line = 80

-- struct fd_state; `writing` is whether write_event is added.
pub record FdState : Type 0 where
  pub buffer : List ℕ
  pub buffer_used : ℕ
  pub n_written : ℕ
  pub write_upto : ℕ
  pub writing : Bool

-- alloc_fd_state, with what malloc left in the buffer.
abbrev pub alloc_fd_state : List ℕ → FdState
alloc_fd_state buffer = record {
  buffer = buffer;
  buffer_used = 0;
  n_written = 0;
  write_upto = 0;
  writing = false;
}

-- do_read, a character: it is stored while there is room,
pub stored_char : FdState → ℕ → FdState
stored_char s c =
    if ltb s.buffer_used max_line
    then record s { buffer = set s.buffer s.buffer_used c; buffer_used = s.buffer_used + 1 }
    else s

-- and a newline makes what is stored ready to be written.
pub after_char : FdState → ℕ → FdState
after_char s c = if c == 10 then record s { writing = true; write_upto = s.buffer_used } else s

-- do_read, the inner loop.
pub read_chars : FdState → List ℕ → FdState
read_chars s [] = s
read_chars s (c ∷ cs) = read_chars (after_char (stored_char s c) c) cs

-- What send returns: a number of bytes, or -1 with EAGAIN or another error.
pub data Sent : Type 0 where
  sent : ℕ → Sent
  again : Sent
  fails : Sent

-- A connection: its state, whether it is still allocated, the bytes that recv gave, the bytes that went
-- out and the calls of send so far.
pub record Conn : Type 0 where
  pub state : FdState
  pub allocated : Bool
  pub read : List ℕ
  pub written : List ℕ
  pub sends : ℕ

abbrev pub accepted : List ℕ → Conn
accepted buffer = record {
  state = alloc_fd_state buffer;
  allocated = true;
  read = [];
  written = [];
  sends = 0;
}

-- How the last call of recv ends do_read: it returns 0 or -1.
pub data Last : Type 0 where
  closed : Last
  negative : Last

-- do_read, over what the calls of recv give. The test on errno assigns EAGAIN, which is not 0, and
-- so it is always true.
pub do_read : Conn → List (List ℕ) → Last → Conn
do_read c [] closed = record c { allocated = false }
do_read c [] negative = c
do_read c (buf ∷ bufs) last =
    do_read (record c { state = read_chars c.state buf; read = c.read ++ buf }) bufs last

-- do_write, behind its loop.
pub finished : FdState → FdState
finished s =
    let reset : FdState =
      if s.n_written == s.buffer_used
      then record s { n_written = 1; write_upto = 1; buffer_used = 1 }
      else s in
    record reset { writing = false }

-- do_write, the result of a send, with what the loop does after it; the assertion is a fault when it fails.
pub on_send : Conn → Sent → (Conn → Run Conn) → Run Conn
on_send c again later = ok (record c { sends = c.sends + 1 })
on_send c fails later = ok (record c { allocated = false; sends = c.sends + 1 })
on_send c (sent n) later =
    if n == 0
    then fault
    else later (record c {
      state = record c.state { n_written = c.state.n_written + n };
      written = c.written ++ take n (drop c.state.n_written c.state.buffer);
      sends = c.sends + 1;
    })

-- What the event loop reports of a connection.
pub data Event : Type 0 where
  readable : List (List ℕ) → Last → Event
  writable : Event

module _ (send : ℕ → ℕ → Sent) where
  -- do_write, the loop, on fuel.
  pub write_loop : ℕ → Conn → Run Conn
  write_loop zero c = out_of_fuel
  write_loop (suc fuel) c =
      if ltb c.state.n_written c.state.write_upto
      then on_send c (send c.sends (c.state.write_upto - c.state.n_written))
          (λ c1. write_loop fuel c1)
      else ok (record c { state = finished c.state })

  -- do_write: every send that succeeds takes a byte or more.
  pub do_write : Conn → Run Conn
  do_write c = write_loop (suc (c.state.write_upto - c.state.n_written)) c

  -- The event loop calls do_write only while write_event is added.
  pub on_event : Conn → Event → Run Conn
  on_event c (readable bufs last) = if c.allocated then ok (do_read c bufs last) else ok c
  on_event c writable = if c.allocated then (if c.state.writing then do_write c else ok c) else ok c

  pub event_loop : Conn → List Event → Run Conn
  event_loop c [] = ok c
  event_loop c (e ∷ es) = on_event c e >>= λ c1. event_loop c1 es
