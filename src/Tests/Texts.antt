-- ===== src/Tests/Texts.antt =====
-- Runs of the string functions, the sort and the message at concrete inputs.
use mathlib.Core.List.{Perm}
use sweet_clib.Prelude.{
  ℕ, ◌+◌, ◌*◌, ◌-◌, ◌%◌, ◌^◌, ◌≡◌, ◌↔◌, refl, Bool, true, none, some, List, [], ◌∷◌, ◌++◌, arith,
  ltb, map, take, drop,
}
use sweet_clib.Linked.{success}
use sweet_clib.Sort.{issort}
use sweet_clib.Sort.Correct.{IsTotal, Ascending, issort-Ascending}
use sweet_clib.Text.{
  Bytes, res_room, tolower, str_tolower, str_delchar, strntok, csv_fields, isspace,
}
use sweet_clib.Text.Token.{split, fitting_token, rest_of, strntok-split}
use sweet_clib.Text.Buffer.{fitting, without, str_functions-fitting}
use sweet_clib.Text.Csv.{line, IsRow, csv_fields-line}
use sweet_clib.Kvmsg.{
  Kvmsg, byte_of, kvmsg_sequence, kvmsg_set_sequence, kvmsg_recv, kvmsg_send, kvmsg_key, kvmsg_size,
  kvmsg_key_max,
}
use sweet_clib.Kvmsg.Sequence.{kvmsg_sequence-set_sequence}
use sweet_clib.Kvmsg.Wire.{arrived, kvmsg_recv-send}

abbrev above : ℕ → ℕ → Bool
above x y = ltb y x

above-IsTotal : IsTotal above
above-IsTotal = record { total = λ a b e. ground arith; chain = λ a b c p q. ground arith }

issort-Ascending_example :
    ((issort above true (3 ∷ 1 ∷ 2 ∷ [])).0 ≡ success)
    × Ascending above (issort above true (3 ∷ 1 ∷ 2 ∷ [])).1
    × Perm (issort above true (3 ∷ 1 ∷ 2 ∷ [])).1 (3 ∷ 1 ∷ 2 ∷ [])
issort-Ascending_example = issort-Ascending above above-IsTotal (3 ∷ 1 ∷ 2 ∷ [])

-- The text "a, b" and the separator ", ".
abbrev text : Bytes
text = 97 ∷ 44 ∷ 32 ∷ 98 ∷ []

abbrev separator : Bytes
separator = 44 ∷ 32 ∷ []

strntok-split_example :
    (strntok (some text) separator 2 ≡ some (fitting_token res_room (split separator 2 text)))
    × ((p : Bytes) × (text ≡ (split separator 2 text).0 ++ p)
        × ((split separator 2 text).1 ≡ rest_of (drop 2 p)))
strntok-split_example = strntok-split text separator 2 (omega arith)

str_functions-fitting_example :
    (str_tolower (65 ∷ 98 ∷ []) ≡ fitting res_room (map tolower (65 ∷ 98 ∷ [])))
    × (str_delchar (65 ∷ 98 ∷ []) (98 ∷ []) ≡ fitting res_room (without 98 (65 ∷ 98 ∷ [])))
str_functions-fitting_example = str_functions-fitting (65 ∷ 98 ∷ []) (98 ∷ [])

-- A row of three fields, the middle one empty.
abbrev row : List Bytes
row = (97 ∷ 32 ∷ []) ∷ [] ∷ (98 ∷ []) ∷ []

row-IsRow : IsRow row
unfolding isspace
row-IsRow = ((refl, (refl, tt)), (tt, ((refl, tt), λ e. cc)))

csv_fields-line_example : csv_fields 4 0 (line row) ≡ some row
csv_fields-line_example = csv_fields-line 4 0 row row-IsRow (omega arith)

abbrev message : Kvmsg
message = record { key_frame = some (107 ∷ []); seq_frame = none; body_frame = none; key = [] }

kvmsg_sequence-set_sequence_example :
    (kvmsg_sequence (kvmsg_set_sequence message 65536)
      ≡ some ((65536 + byte_of 65536 16 * (2 ^ 26 - 2 ^ 16)) % 2 ^ 64))
    × ((kvmsg_sequence (kvmsg_set_sequence message 65536) ≡ some 65536) ↔ (byte_of 65536 16 ≡ 0))
kvmsg_sequence-set_sequence_example = kvmsg_sequence-set_sequence message 65536 (omega arith)

kvmsg_recv-send_example :
    (kvmsg_recv (kvmsg_send message ++ []) ≡ some (arrived message, []))
    × ((kvmsg_key (arrived message)).0 ≡ some (take kvmsg_key_max (107 ∷ [])))
    × (kvmsg_size (arrived message) ≡ kvmsg_size message)
kvmsg_recv-send_example = kvmsg_recv-send message []
