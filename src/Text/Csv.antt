-- ===== src/Text/Csv.antt =====
-- my_csv and the loop over a line: fields joined by tabs come back.
use sweet_clib.Prelude.{
  ℕ, zero, suc, ◌<◌, ◌≡◌, ◌≢◌, refl, Bool, true, false, not, ◌&&◌, ◌||◌, some, List, [], ◌∷◌, ◌++◌,
  arith, length, ◌==◌, Option, none, ltb, leb, if◌then◌else◌, Bool-cases, inl, inr, ◌+◌,
}
use sweet_clib.Text.{
  Bytes, char_at, isspace, newline, csv_end, my_csv, csv_fields, title_buf, title_max,
}

-- A character that belongs to a field.
abbrev pub inside : ℕ → Bool
inside c = not (c == newline) && (c == b' ' || not (isspace c))

abbrev pub Clean : Bytes → Type 0
Clean [] = Unit
Clean (c ∷ f) = (inside c ≡ true) × Clean f

-- A line: the fields with tabs between them, and a newline.
abbrev pub line : List Bytes → Bytes
line [] = newline ∷ []
line (f ∷ []) = f ++ newline ∷ []
line (f ∷ g ∷ fs) = f ++ 9 ∷ line (g ∷ fs)

-- All fields are clean, and the last one is not empty.
abbrev pub IsRow : List Bytes → Type 0
IsRow [] = Unit
IsRow (f ∷ []) = Clean f × (f ≢ [])
IsRow (f ∷ g ∷ fs) = Clean f × IsRow (g ∷ fs)

my_csv-append :
    (room : ℕ) (f : Bytes) (c : ℕ) (s : Bytes)
    → Clean f
    → inside c ≡ false
    → my_csv room (f ++ c ∷ s) ≡ (if leb (length f) room then some (f, csv_end c s) else none)
unfolding my_csv
my_csv-append room [] c s k e = let fits : leb 0 room ≡ true = ground arith in rw (e, fits) refl
my_csv-append zero (d ∷ f) c s k e =
    let full : leb (suc (length f)) 0 ≡ false = ground arith in rw (k.0, full) refl
my_csv-append (suc n) (d ∷ f) c s k e = elim (Bool-cases (leb (length f) n)) [
  | inl a ↦
      let fits : leb (suc (length f)) (suc n) ≡ true = ground (arith, a) in
      rw (k.0, my_csv-append n f c s k.1 e, a, fits) refl
  | inr a ↦
      let full : leb (suc (length f)) (suc n) ≡ false = ground (arith, a) in
      rw (k.0, my_csv-append n f c s k.1 e, a, full) refl
]

line-nonempty :
    (g : Bytes) (fs : List Bytes) → IsRow (g ∷ fs) → (char_at (line (g ∷ fs)) == newline) ≡ false
line-nonempty [] [] k = absurd (k.1 refl)
line-nonempty [] (h ∷ fs) k = refl
line-nonempty (c ∷ g) [] k = ground arith
line-nonempty (c ∷ g) (h ∷ fs) k = ground arith

-- Every field fits its buffer, and the fields from the n-th on fit the array of titles.
abbrev pub fitting : ℕ → List Bytes → Bool
fitting n [] = true
fitting n (f ∷ fs) = (leb (length f) title_buf && ltb n title_max) && fitting (n + 1) fs

abbrev returned : Bool → List Bytes → Option (List Bytes)
returned fits fs = if fits then some fs else none

-- A field in front of what is returned, when it fits itself.
returned-cons :
    (fits others : Bool) (f : Bytes) (fs : List Bytes)
    → (if fits then (elim (returned others fs) [ none ↦ none | some gs ↦ some (f ∷ gs) ]) else none)
      ≡ returned (fits && others) (f ∷ fs)
returned-cons true true f fs = refl
returned-cons true false f fs = refl
returned-cons false others f fs = refl

-- A round of the loop.
csv_fields-round :
    (fuel n c : ℕ) (f : Bytes) (s : Bytes) (fs : List Bytes)
    → Clean f
    → inside c ≡ false
    → (char_at (f ++ c ∷ s) == newline) ≡ false
    → csv_fields fuel (n + 1) (csv_end c s) ≡ returned (fitting (n + 1) fs) fs
    → csv_fields (suc fuel) n (f ++ c ∷ s) ≡ returned (fitting n (f ∷ fs)) (f ∷ fs)
unfolding csv_fields
csv_fields-round fuel n c f s fs k e h later =
    let field = my_csv-append (title_buf + 1) f c s k e in
    elim (Bool-cases (leb (length f) (title_buf + 1))) [
      | inl a ↦
          rw (h, field, a, later)
            (returned-cons (leb (length f) title_buf && ltb n title_max) (fitting (n + 1) fs) f fs)
      | inr a ↦
          let long : leb (length f) title_buf ≡ false = ground (arith, a) in
          rw (h, field, a, long) refl
    ]

-- The loop over a line of tab-separated titles (no newline and no white space but blanks inside them,
-- the last one not empty), from title n on, whenever the fuel exceeds their number: it returns the
-- titles, when each has at most 8192 characters and the last is at most the 400th, and writes or reads
-- outside of an array when one is longer or there are more.
pub csv_fields-line :
    (fuel n : ℕ) (fs : List Bytes)
    → IsRow fs
    → length fs < fuel
    → csv_fields fuel n (line fs) ≡ (if fitting n fs then some fs else none)
unfolding csv_fields csv_end isspace
csv_fields-line zero n fs k h = elim h [ ]
csv_fields-line (suc fuel) n [] k h = refl
csv_fields-line (suc fuel) n (f ∷ []) k h =
    csv_fields-round fuel n newline f [] [] k.0 (unfold isspace in refl) (line-nonempty f [] k)
      (csv_fields-line fuel (n + 1) [] tt (omega arith))
csv_fields-line (suc fuel) n (f ∷ g ∷ fs) k h =
    csv_fields-round fuel n 9 f (line (g ∷ fs)) (g ∷ fs) k.0 (unfold isspace in refl)
      (line-nonempty f (g ∷ fs) k) (csv_fields-line fuel (n + 1) (g ∷ fs) k.1 (omega arith))
