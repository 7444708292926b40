-- ===== src/Text/Buffer.antt =====
-- str_tolower and str_delchar: what they compute, and exactly when the buffer is large enough.
use sweet_clib.Prelude.{
  ℕ, zero, suc, ◌≡◌, Option, none, some, [], ◌∷◌, map, arith, if◌then◌else◌, leb, length, ◌==◌,
}
use sweet_clib.Text.{
  Bytes, res_room, char_at, tolower, tolower_loop, str_tolower, delchar_loop, str_delchar,
}

-- The string, if it fits.
abbrev pub fitting : ℕ → Bytes → Option Bytes
fitting room s = if leb (length s) room then some s else none

-- `s` without the character `d`.
pub without : ℕ → Bytes → Bytes
without d [] = []
without d (c ∷ s) = if c == d then without d s else c ∷ without d s

tolower_loop-fitting : (s : Bytes) (room : ℕ) → tolower_loop s room ≡ fitting room (map tolower s)
unfolding tolower_loop
tolower_loop-fitting [] room = ground arith
tolower_loop-fitting (c ∷ s) zero = ground arith
tolower_loop-fitting (c ∷ s) (suc room) = ground (arith, tolower_loop-fitting s room)

delchar_loop-fitting :
    (d : ℕ) (s : Bytes) (room : ℕ) → delchar_loop d s room ≡ fitting room (without d s)
unfolding delchar_loop without
delchar_loop-fitting d [] room = ground arith
delchar_loop-fitting d (c ∷ s) zero = ground (arith, delchar_loop-fitting d s zero)
delchar_loop-fitting d (c ∷ s) (suc room) =
    ground (arith, delchar_loop-fitting d s room, delchar_loop-fitting d s (suc room))

-- str_tolower lowers each character, and str_delchar drops every character equal to the first one of
-- `s2`; the result and its final 0 fit the static buffer unless it has more than 1023 characters.
pub str_functions-fitting :
    (s1 s2 : Bytes)
    → (str_tolower s1 ≡ fitting res_room (map tolower s1))
      × (str_delchar s1 s2 ≡ fitting res_room (without (char_at s2) s1))
unfolding str_tolower str_delchar
str_functions-fitting s1 s2 =
    (tolower_loop-fitting s1 res_room, delchar_loop-fitting (char_at s2) s1 res_room)
