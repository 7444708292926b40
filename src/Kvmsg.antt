-- ===== src/Kvmsg.antt =====
-- lib/zeromq/clone/kvsimple.c and kvsimple.h: the key-value message of the clone example. A ZeroMQ
-- message is the list of its bytes: zmq_msg_init_size and memcpy set it, zmq_msg_data and zmq_msg_size
-- read it. A 64-bit integer is its bit pattern, a number below 2 ^ 64.
pub mod Sequence
pub mod Wire
pub mod Clone
use sweet_clib.Prelude.{
  ℕ, zero, suc, ◌+◌, ◌*◌, ◌/◌, ◌%◌, ◌^◌, Bool, true, false, ◌&&◌, Option, none, some, List, [], ◌∷◌,
  ◌++◌, if◌then◌else◌, ◌==◌, length, take,
}
use sweet_clib.Text.{Bytes, char_at}

-- kvmsg_t: `none` is a frame that is not present; `key` is the key buffer, empty when it is zeroed.
pub record Kvmsg : Type 0 where
  pub key_frame : Option Bytes
  pub seq_frame : Option Bytes
  pub body_frame : Option Bytes
  pub key : Bytes

-- KVMSG_KEY_MAX
abbrev pub kvmsg_key_max : ℕ
kvmsg_key_max = 255

-- `(byte)((sequence >> k) & 255)`, k times 8 bits.
abbrev pub byte_of : ℕ → ℕ → ℕ
byte_of x k = x / 2 ^ k % 256

-- kvmsg_set_sequence
pub kvmsg_set_sequence : Kvmsg → ℕ → Kvmsg
kvmsg_set_sequence self x = record self {
  seq_frame = some (
      byte_of x 56
      ∷ byte_of x 48
      ∷ byte_of x 40
      ∷ byte_of x 32
      ∷ byte_of x 24
      ∷ byte_of x 16
      ∷ byte_of x 8
      ∷ byte_of x 0
      ∷ []);
}

-- kvmsg_new
abbrev pub kvmsg_new : ℕ → Kvmsg
unfolding kvmsg_set_sequence
kvmsg_new x =
    kvmsg_set_sequence (record { key_frame = none; seq_frame = none; body_frame = none; key = [] })
      x

-- The sum of the eight shifted bytes; `none` is the failed assertion on the size of the frame.
pub read_sequence : Bytes → Option ℕ
read_sequence (a ∷ b ∷ c ∷ d ∷ e ∷ f ∷ g ∷ h ∷ []) = some (
    (a * 2 ^ 56 + b * 2 ^ 48 + c * 2 ^ 40 + d * 2 ^ 32 + e * 2 ^ 24 + f * 2 ^ 26 + g * 2 ^ 8 + h)
    % 2 ^ 64)
read_sequence _ = none

-- kvmsg_sequence
pub kvmsg_sequence : Kvmsg → Option ℕ
unfolding read_sequence
kvmsg_sequence self = elim self.seq_frame [ none ↦ some 0 | some s ↦ read_sequence s ]

-- kvmsg_key, with the message whose key buffer it may have filled.
pub kvmsg_key : Kvmsg → Option Bytes × Kvmsg
kvmsg_key self = elim self.key_frame [
  | none ↦ (none, self)
  | some s ↦
      if char_at self.key == 0
      then (some (take kvmsg_key_max s), record self { key = take kvmsg_key_max s })
      else (some self.key, self)
]

-- kvmsg_set_key
pub kvmsg_set_key : Kvmsg → Bytes → Kvmsg
kvmsg_set_key self key = record self { key_frame = some key }

-- kvmsg_set_body
abbrev pub kvmsg_set_body : Kvmsg → Bytes → Kvmsg
kvmsg_set_body self body = record self { body_frame = some body }

-- kvmsg_body
abbrev pub kvmsg_body : Kvmsg → Option Bytes
kvmsg_body self = self.body_frame

-- kvmsg_size
pub kvmsg_size : Kvmsg → ℕ
kvmsg_size self = elim self.body_frame [ none ↦ 0 | some b ↦ length b ]

abbrev pub frame_or_empty : Option Bytes → Bytes
frame_or_empty none = []
frame_or_empty (some s) = s

-- A frame on the wire, with its ZMQ_SNDMORE flag.
abbrev pub Frame : Type 0
Frame = Bytes × Bool

-- kvmsg_send: a frame that is not present goes out empty.
pub kvmsg_send : Kvmsg → List Frame
kvmsg_send self =
    (frame_or_empty self.key_frame, true)
    ∷ (frame_or_empty self.seq_frame, true)
    ∷ (frame_or_empty self.body_frame, false)
    ∷ []

-- The loop of kvmsg_recv over the frames KEY, SEQ and BODY: the bytes of the frames and what is left
-- to receive. `none` is a failed zmq_msg_recv (nothing left) or a wrong ZMQ_RCVMORE.
pub recv_frames : ℕ → List Frame → Option (List Bytes × List Frame)
recv_frames zero input = some ([], input)
recv_frames (suc n) [] = none
recv_frames (suc n) ((s, more) ∷ input) =
    let later : Option (List Bytes × List Frame) = elim (recv_frames n input) [
      | none ↦ none
      | some (fs, rest) ↦ some (s ∷ fs, rest)
    ] in
    elim n [ zero ↦ if more then none else later | suc k ↦ if more then later else none ]

-- The message of three frames.
pub of_frames : List Bytes × List Frame → Option (Kvmsg × List Frame)
of_frames (k ∷ s ∷ b ∷ [], rest) =
    some (record { key_frame = some k; seq_frame = some s; body_frame = some b; key = [] }, rest)
of_frames _ = none

-- kvmsg_recv; `none` for NULL.
pub kvmsg_recv : List Frame → Option (Kvmsg × List Frame)
unfolding recv_frames of_frames
kvmsg_recv input = elim (recv_frames 3 input) [ none ↦ none | some r ↦ of_frames r ]

-- kvmsg_store: the call of zhash_update that it makes, if any, with key and message.
abbrev pub kvmsg_store : Kvmsg → Option (Option Bytes × Kvmsg)
unfolding kvmsg_key
kvmsg_store self = elim self.key_frame [
  | none ↦ none
  | some k ↦ elim self.body_frame [ none ↦ none | some b ↦ some (kvmsg_key self) ]
]
