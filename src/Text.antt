-- ===== src/Text.antt =====
-- The string functions of lib/app/bns: bns_util.c (strntok, str_tolower, str_delchar), my_csv as it
-- stands in each of the converters, and hashpjw and match_sweet_list_kv of bns_hash.c. A string is the
-- list of its bytes without the final 0.
pub mod Buffer
pub mod Token
pub mod Csv
pub mod Hash
use Prim.Native.Nat.{bit_and, bit_xor}
use sweet_clib.Prelude.{
  ℕ, zero, suc, ◌+◌, ◌-◌, ◌*◌, ◌/◌, ◌%◌, ◌^◌, Bool, true, false, not, ◌&&◌, ◌||◌, Option, none,
  some, List, [], ◌∷◌, ◌++◌, if◌then◌else◌, ltb, leb, length, ◌==◌,
}
use sweet_clib.Chtbl.{SweetListKv}

abbrev pub Bytes : Type 0
Bytes = List ℕ

-- `static char res[1024]`: so many characters fit before the final 0.
abbrev pub res_room : ℕ
res_room = 1023

-- `*s`, and `s[1]`
abbrev pub char_at : Bytes → ℕ
char_at [] = 0
char_at (c ∷ s) = c

abbrev pub second : Bytes → ℕ
second [] = 0
second (c ∷ s) = char_at s

-- `*p = c; p++;` with so much room left, in front of what is written later; `none` is a string that
-- does not fit the buffer.
abbrev pub write_char : ℕ → ℕ → (ℕ → Option Bytes) → Option Bytes
write_char zero c later = none
write_char (suc room) c later = elim (later room) [ none ↦ none | some s ↦ some (c ∷ s) ]

-- tolower of the C locale.
unfoldable pub tolower : ℕ → ℕ
tolower c = if leb b'A' c && leb c b'Z' then c + 32 else c

-- The loop of str_tolower.
pub tolower_loop : Bytes → ℕ → Option Bytes
tolower_loop [] room = some []
tolower_loop (c ∷ s) room = write_char room (tolower c) (tolower_loop s)

-- str_tolower
pub str_tolower : Bytes → Option Bytes
str_tolower s1 = tolower_loop s1 res_room

-- The loop of str_delchar; only the first character of `s2` is compared.
pub delchar_loop : ℕ → Bytes → ℕ → Option Bytes
delchar_loop d [] room = some []
delchar_loop d (c ∷ s) room =
    let kept = write_char room c (delchar_loop d s) in
    let skipped = delchar_loop d s room in if c == d then skipped else kept

-- str_delchar
pub str_delchar : Bytes → Bytes → Option Bytes
str_delchar s1 s2 = delchar_loop (char_at s2) s1 res_room

-- What strntok leaves: the token in `res`, and `__strntok` (`none` for NULL).
abbrev pub Token : Type 0
Token = Option (Bytes × Option Bytes)

abbrev pub write_token : ℕ → ℕ → (ℕ → Token) → Token
write_token zero c later = none
write_token (suc room) c later = elim (later room) [
  | none ↦ none
  | some (s, rest) ↦ some (c ∷ s, rest)
]

-- The loop of strntok. `i` counts the characters of the separator that were passed; the excursion to
-- i = -1 and back is the branch that writes `c` and stays at 0.
pub token_loop : Bytes → ℕ → Bytes → ℕ → ℕ → Token
token_loop s2 n [] i room = some ([], none)
token_loop s2 n (c ∷ s) i room =
    let counted = token_loop s2 n s (suc i) room in
    let written = write_token room c (token_loop s2 n s 0) in
    if i == n
    then some ([], some (c ∷ s))
    else if c == char_at s2 || ltb 0 i
    then if i == 0 && (not (char_at s == second s2) && ltb 1 n) then written else counted
    else written

-- strntok, which returns NULL for NULL.
pub strntok : Option Bytes → Bytes → ℕ → Option Token
strntok none s2 n = none
strntok (some s1) s2 n = some (token_loop s2 n s1 0 res_room)

-- isspace of the C locale.
unfoldable pub isspace : ℕ → Bool
isspace c = c == b' ' || (leb 9 c && leb c 13)

abbrev pub newline : ℕ
newline = 10

-- The end of my_csv: one separator is passed, but not the newline.
pub csv_end : ℕ → Bytes → Bytes
csv_end c s = if not (c == newline) && isspace c then s else c ∷ s

-- my_csv: the field and the rest of the line, where `room` is the size of the array at s2. `none` is a
-- write behind that array, or a read past the end of the string, which happens where no newline and no
-- separator follows.
pub my_csv : ℕ → Bytes → Option (Bytes × Bytes)
my_csv room [] = none
my_csv room (c ∷ s) =
    let later : Option (Bytes × Bytes) = elim room [
      | zero ↦ none
      | suc n ↦ elim (my_csv n s) [ none ↦ none | some (f, rest) ↦ some (c ∷ f, rest) ]
    ] in
    if not (c == newline) && (c == b' ' || not (isspace c)) then later else some ([], csv_end c s)

-- TITLE_BUF and the size of title
abbrev pub title_buf : ℕ
title_buf = 8192

abbrev pub title_max : ℕ
title_max = 400

-- The loop over the titles in the first line, `while (*ss1 != *enter)`, from title n on, with fuel;
-- the line is what fgets read.
-- tmp_title has TITLE_BUF + 1 bytes; a field of that length leaves no final 0, and strlen reads past it.
-- A title behind the end of the array `title` is a write outside of it.
pub csv_fields : ℕ → ℕ → Bytes → Option (List Bytes)
csv_fields zero n s = none
csv_fields (suc fuel) n s =
    let later : Option (List Bytes) = elim (my_csv (title_buf + 1) s) [
      | none ↦ none
      | some (f, rest) ↦
          let others : Option (List Bytes) = elim (csv_fields fuel (n + 1) rest) [
            | none ↦ none
            | some fs ↦ some (f ∷ fs)
          ] in
          if leb (length f) title_buf && ltb n title_max then others else none
    ] in
    if char_at s == newline then some [] else later

-- A `char` as it is added to an `unsigned int`: sign extended.
unfoldable pub extend_char : ℕ → ℕ
extend_char c = if ltb c 128 then c else c + 2 ^ 32 - 256

-- The body of the loop of hashpjw on 32-bit words.
unfoldable pub hash_step : ℕ → ℕ → ℕ
hash_step v c =
    let val = (v * 16 % 2 ^ 32 + extend_char c) % 2 ^ 32 in
    let tmp = bit_and val 0xf0000000 in
    if tmp == 0 then val else bit_xor (bit_xor val (tmp / 2 ^ 24)) tmp

unfoldable pub hash_loop : ℕ → Bytes → ℕ
hash_loop val [] = val
hash_loop val (c ∷ s) = hash_loop (hash_step val c) s

-- PRIME_TBLSIZ
abbrev pub prime_tblsiz : ℕ
prime_tblsiz = 1024

-- hashpjw
unfoldable pub hashpjw : Bytes → ℕ
hashpjw key = hash_loop 0 key % prime_tblsiz

-- `strcmp(a, b) == 0`
unfoldable pub strcmp_eq : Bytes → Bytes → Bool
strcmp_eq [] [] = true
strcmp_eq [] (d ∷ t) = false
strcmp_eq (c ∷ s) [] = false
strcmp_eq (c ∷ s) (d ∷ t) = c == d && strcmp_eq s t

-- match_sweet_list_kv
unfoldable pub match_sweet_list_kv : SweetListKv Bytes → SweetListKv Bytes → Bool
match_sweet_list_kv data1 data2 = strcmp_eq data1.key data2.key
