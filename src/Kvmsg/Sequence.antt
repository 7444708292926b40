-- ===== src/Kvmsg/Sequence.antt =====
-- The sequence number: what is written and what is read back.
use sweet_clib.Prelude.{ℕ, ◌+◌, ◌*◌, ◌%◌, ◌^◌, ◌<◌, ◌-◌, ◌≡◌, ◌↔◌, ap, ◌∙◌, sym, some, arith}
use sweet_clib.Kvmsg.{Kvmsg, byte_of, kvmsg_set_sequence, read_sequence, kvmsg_sequence}

-- The seven bytes but the third lowest are read back where they were written.
bytes_sum :
    (x : ℕ)
    → x < 2 ^ 64
    → byte_of x 56 * 2 ^ 56
        + byte_of x 48 * 2 ^ 48
        + byte_of x 40 * 2 ^ 40
        + byte_of x 32 * 2 ^ 32
        + byte_of x 24 * 2 ^ 24
        + byte_of x 16 * 2 ^ 16
        + byte_of x 8 * 2 ^ 8
        + byte_of x 0
      ≡ x
bytes_sum x h = omega arith

-- Shifted by 26, the third lowest byte counts 2 ^ 10 times as much.
bytes_read :
    (x : ℕ)
    → x < 2 ^ 64
    → (byte_of x 56 * 2 ^ 56
          + byte_of x 48 * 2 ^ 48
          + byte_of x 40 * 2 ^ 40
          + byte_of x 32 * 2 ^ 32
          + byte_of x 24 * 2 ^ 24
          + byte_of x 16 * 2 ^ 26
          + byte_of x 8 * 2 ^ 8
          + byte_of x 0)
        % 2 ^ 64
      ≡ (x + byte_of x 16 * (2 ^ 26 - 2 ^ 16)) % 2 ^ 64
bytes_read x h = ap (λ (n : ℕ). n % 2 ^ 64) (omega (arith, bytes_sum x h))

zero_byte : (x b : ℕ) → x < 2 ^ 64 → b < 256 → (x + b * (2 ^ 26 - 2 ^ 16)) % 2 ^ 64 ≡ x → b ≡ 0
zero_byte x b h k e = omega arith

unchanged : (x b : ℕ) → x < 2 ^ 64 → b ≡ 0 → (x + b * (2 ^ 26 - 2 ^ 16)) % 2 ^ 64 ≡ x
unchanged x b h e = omega arith

some_inj : {a b : ℕ} → some a ≡ some b → a ≡ b
some_inj e = cc

-- A sequence number below 2 ^ 64 is read back as itself plus its third lowest byte times 2 ^ 26 - 2 ^ 16,
-- modulo 2 ^ 64, since kvmsg_sequence shifts that byte by 26 where kvmsg_set_sequence shifts it by 16; so
-- it is read back unchanged exactly when that byte is 0.
pub kvmsg_sequence-set_sequence :
    (self : Kvmsg) (x : ℕ)
    → x < 2 ^ 64
    → (kvmsg_sequence (kvmsg_set_sequence self x)
        ≡ some ((x + byte_of x 16 * (2 ^ 26 - 2 ^ 16)) % 2 ^ 64))
      × ((kvmsg_sequence (kvmsg_set_sequence self x) ≡ some x) ↔ (byte_of x 16 ≡ 0))
unfolding kvmsg_sequence kvmsg_set_sequence read_sequence
kvmsg_sequence-set_sequence self x h =
    let value = ap (λ (n : ℕ). some n) (bytes_read x h) in
    (
      value,
      (
        λ e. zero_byte x (byte_of x 16) h (omega arith) (some_inj (sym value ∙ e)),
        λ z. value ∙ ap (λ (n : ℕ). some n) (unchanged x (byte_of x 16) h z),
      ),
    )
