-- ===== src/Kvmsg/Wire.antt =====
-- A message over the wire, and its key.
use sweet_clib.Prelude.{
  ◌≡◌, refl, Option, none, some, List, [], ◌++◌, if◌then◌else◌, ◌==◌, take, arith, length,
}
use sweet_clib.Text.{Bytes, char_at}
use sweet_clib.Kvmsg.{
  Kvmsg, frame_or_empty, Frame, kvmsg_send, recv_frames, of_frames, kvmsg_recv, kvmsg_key,
  kvmsg_set_key, kvmsg_key_max, kvmsg_size,
}

-- What arrives: every frame is present, and the key buffer is zeroed.
abbrev pub arrived : Kvmsg → Kvmsg
arrived m = record {
  key_frame = some (frame_or_empty m.key_frame);
  seq_frame = some (frame_or_empty m.seq_frame);
  body_frame = some (frame_or_empty m.body_frame);
  key = [];
}

-- kvmsg_recv on what kvmsg_send wrote, whatever follows it, returns the message with the frames that were
-- not present replaced by empty ones and the key buffer zeroed, and leaves what follows; the key it
-- reports is the bytes of the key frame, cut to KVMSG_KEY_MAX, and the body it reports has the size
-- of the body sent.
pub kvmsg_recv-send :
    (m : Kvmsg) (rest : List Frame)
    → (kvmsg_recv (kvmsg_send m ++ rest) ≡ some (arrived m, rest))
      × ((kvmsg_key (arrived m)).0 ≡ some (take kvmsg_key_max (frame_or_empty m.key_frame)))
      × (kvmsg_size (arrived m) ≡ kvmsg_size m)
unfolding kvmsg_recv kvmsg_send recv_frames of_frames kvmsg_key kvmsg_size
kvmsg_recv-send m rest = (refl, refl, sizes m.body_frame)
  where
    sizes : (b : Option Bytes) → length (frame_or_empty b) ≡ elim b [ none ↦ 0 | some s ↦ length s ]
    sizes none = refl
    sizes (some s) = refl

-- After kvmsg_set_key, kvmsg_key returns the new key, cut to KVMSG_KEY_MAX, when the key buffer is still
-- zeroed; when kvmsg_key filled the buffer before, it returns the key the buffer holds, not the new one.
pub kvmsg_key-set_key :
    (m : Kvmsg) (key : Bytes)
    → (kvmsg_key (kvmsg_set_key m key)).0
      ≡ some (if char_at m.key == 0 then take kvmsg_key_max key else m.key)
unfolding kvmsg_key kvmsg_set_key
kvmsg_key-set_key m key = ground arith
