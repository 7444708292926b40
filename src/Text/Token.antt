-- ===== src/Text/Token.antt =====
-- strntok: where it splits a text, and that nothing of the text is lost.
use sweet_clib.Prelude.{
  ℕ, zero, suc, ◌-◌, ◌≤◌, ◌<◌, ◌≡◌, refl, ap, ◌∙◌, Bool, true, false, not, ◌&&◌, ◌||◌, Option, none,
  some, [], ◌∷◌, ◌++◌, arith, if◌then◌else◌, ltb, leb, length, drop, ◌==◌, Bool-cases, inl, inr,
}
use sweet_clib.Text.{Bytes, Token, res_room, char_at, second, write_token, token_loop, strntok}

-- NULL where no text is left.
abbrev pub rest_of : Bytes → Option Bytes
rest_of [] = none
rest_of (c ∷ s) = some (c ∷ s)

-- The test for the separator looks at two characters, or at one if the separator has length 1.
abbrev pub starts : Bytes → ℕ → ℕ → Bytes → Bool
starts s2 n c s = c == char_at s2 && (char_at s == second s2 || not (ltb 1 n))

-- The text before the first place where the test holds, and the text n characters behind that place.
pub split : Bytes → ℕ → Bytes → Bytes × Option Bytes
split s2 n [] = ([], none)
split s2 n (c ∷ s) =
    if starts s2 n c s
    then ([], rest_of (drop n (c ∷ s)))
    else (c ∷ (split s2 n s).0, (split s2 n s).1)

abbrev pub fitting_token : ℕ → Bytes × Option Bytes → Token
fitting_token room t = if leb (length t.0) room then some t else none

drop_nil : (n : ℕ) → drop {A = ℕ} n [] ≡ []
drop_nil zero = refl
drop_nil (suc n) = refl

drop_cons : (n c : ℕ) (s : Bytes) → 0 < n → drop n (c ∷ s) ≡ drop (n - 1) s
drop_cons zero c s h = elim h [ ]
drop_cons (suc n) c s h = ap (λ k. drop k s) (omega arith)

or_true : (b : Bool) → (b || true) ≡ true
or_true true = refl
or_true false = refl

-- The nested tests of the loop as one.
merge_tests {ℓ} :
    {A : Type ℓ} (p q r : Bool) (x y : A)
    → (if p || false then if not q && r then y else x else y) ≡ (if p && (q || not r) then x else y)
merge_tests false q r x y = refl
merge_tests true true r x y = refl
merge_tests true false true x y = refl
merge_tests true false false x y = refl

pass_separator :
    (s2 : Bytes) (n : ℕ) (s : Bytes) (i room : ℕ)
    → 0 < i
    → i ≤ n
    → token_loop s2 n s i room ≡ some ([], rest_of (drop (n - i) s))
unfolding token_loop
pass_separator s2 n [] i room h k = rw (drop_nil (n - i))
pass_separator s2 n (c ∷ s) i room h k = elim (Bool-cases (i == n)) [
  | inl e ↦ let z : n - i ≡ 0 = ground arith in rw (e, z)
  | inr e ↦
      let more : n - i ≡ suc (n - suc i) = ground arith in
      let passing : ltb 0 i ≡ true = ground arith in
      let counting : (i == 0) ≡ false = ground arith in
      rw (e, passing, counting, or_true (c == char_at s2), more)
        (pass_separator s2 n s (suc i) room (omega arith) (ground arith))
]

token_step :
    (s2 : Bytes) (n c : ℕ) (s : Bytes) (room : ℕ)
    → 0 < n
    → token_loop s2 n (c ∷ s) 0 room ≡ (
        if starts s2 n c s
        then token_loop s2 n s 1 room
        else write_token room c (token_loop s2 n s 0))
unfolding token_loop
token_step s2 n c s room h =
    let open_end : (0 == n) ≡ false = ground arith in
    rw open_end (merge_tests (c == char_at s2) (char_at s == second s2) (ltb 1 n) _ _)

token_loop-split :
    (s2 : Bytes) (n : ℕ) (s : Bytes) (room : ℕ)
    → 0 < n
    → token_loop s2 n s 0 room ≡ fitting_token room (split s2 n s)
unfolding token_loop split
token_loop-split s2 n [] room h = ground arith
token_loop-split s2 n (c ∷ s) room h =
    token_step s2 n c s room h ∙ elim (Bool-cases (starts s2 n c s)) [
      | inl e ↦
          let one : leb 0 room ≡ true = ground arith in
          let less : drop n (c ∷ s) ≡ drop (n - 1) s = drop_cons n c s h in
          rw (e, one, less) (pass_separator s2 n s 1 room (omega arith) h)
      | inr e ↦ rw e (write_rest room (λ r. token_loop-split s2 n s r h))
    ]
  where
    write_rest :
        (r : ℕ)
        → ((q : ℕ) → token_loop s2 n s 0 q ≡ fitting_token q (split s2 n s))
        → write_token r c (token_loop s2 n s 0)
          ≡ fitting_token r (c ∷ (split s2 n s).0, (split s2 n s).1)
    write_rest zero ih = ground arith
    write_rest (suc r) ih = rw (ih r, write_token) (ground arith)

split_parts :
    (s2 : Bytes) (n : ℕ) (s : Bytes)
    → (p : Bytes) × (s ≡ (split s2 n s).0 ++ p) × ((split s2 n s).1 ≡ rest_of (drop n p))
unfolding split
split_parts s2 n [] = ([], refl, rw (drop_nil n))
split_parts s2 n (c ∷ s) = elim (Bool-cases (starts s2 n c s)) [
  | inl e ↦ (c ∷ s, rw e, rw e)
  | inr e ↦
      let (p, whole, rest) = split_parts s2 n s in (p, rw e (ap (λ t. c ∷ t) whole), rw e rest)
]

-- strntok with a separator length above 0 returns the text before the first place where the first
-- character of the separator stands, followed by its second one unless the length is 1; it sets
-- `__strntok` to the text n characters behind that place (NULL where none is left), compares no further
-- character of the separator, loses nothing else of the text, and does not fit `res` exactly when the
-- token has more than 1023 characters.
pub strntok-split :
    (s1 s2 : Bytes) (n : ℕ)
    → 0 < n
    → (strntok (some s1) s2 n ≡ some (fitting_token res_room (split s2 n s1)))
      × ((p : Bytes) × (s1 ≡ (split s2 n s1).0 ++ p) × ((split s2 n s1).1 ≡ rest_of (drop n p)))
unfolding strntok
strntok-split s1 s2 n h = (ap some (token_loop-split s2 n s1 res_room h), split_parts s2 n s1)
