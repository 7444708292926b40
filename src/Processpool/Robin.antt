-- ===== src/Processpool/Robin.antt =====
-- How run_parent assigns connections to children.
use sweet_clib.Prelude.{
  ℕ, zero, suc, ◌+◌, ◌-◌, ◌%◌, ◌≤◌, ◌<◌, ◌≡◌, ◌≢◌, refl, sym, ap, subst, ◌∙◌, Bool, true, false,
  ◌&&◌, Option, none, some, List, [], ◌∷◌, ◌++◌, arith, if◌then◌else◌, ◌==◌, ltb, length, get_elem?,
  Bool-cases, inl, inr, ◌⊎◌,
}
use native.Mathlib.Nat.{mod-lt, mod-eq_of_lt, mod-add-mod, mod-eq-sub-mod, add-mod_right}
use sweet_clib.Linked.{ok}
use sweet_clib.Processpool.{Parent, looked, search, assign, on_connection, all_gone}

-- The entry is of a child that is gone.
abbrev pub is_gone : Option (Option ℕ) → Bool
is_gone none = false
is_gone (some none) = true
is_gone (some (some pid)) = false

-- The child at this place, counted round from `c`.
abbrev pub round_from : List (Option ℕ) → ℕ → ℕ → ℕ
round_from pids c j = (c + j) % length pids

-- So many children in a row are gone, counted round from place j behind `c`.
abbrev pub gone_from : List (Option ℕ) → ℕ → ℕ → ℕ → Bool
gone_from pids c j zero = true
gone_from pids c j (suc k) =
    is_gone (get_elem? pids (round_from pids c j)) && gone_from pids c (suc j) k

pub get_elem?-lt :
    {A : Type 0} (xs : List A) (i : ℕ) → i < length xs → (x : A) × (get_elem? xs i ≡ some x)
get_elem?-lt [] i h = absurd (omega arith)
get_elem?-lt (x ∷ xs) zero h = (x, refl)
get_elem?-lt (x ∷ xs) (suc i) h = get_elem?-lt xs i (omega arith)

pub next_place : (n c j : ℕ) → ((c + j) % n + 1) % n ≡ (c + suc j) % n
next_place n c j = mod-add-mod (c + j) n 1 ∙ ap (λ x. x % n) (omega arith)

pub full_round : (n c j : ℕ) → c < n → suc j ≡ n → (c + suc j) % n ≡ c
full_round n c j h e = ap (λ x. (c + x) % n) e ∙ add-mod_right c n ∙ mod-eq_of_lt h

not_yet : (n c j : ℕ) → c < n → suc j < n → (c + suc j) % n ≢ c
not_yet n c j h k = elim (Bool-cases (ltb (c + suc j) n)) [
  | inl a ↦ λ e.
      let low : c + suc j < n = ground arith in
      let same : c + suc j ≡ c = sym (mod-eq_of_lt low) ∙ e in omega arith
  | inr a ↦ λ e.
      let high : n ≤ c + suc j = ground arith in
      let low : c + suc j - n < n = omega arith in
      let same : c + suc j - n ≡ c = sym (mod-eq-sub-mod high ∙ mod-eq_of_lt low) ∙ e in omega arith
]

-- What the search finds from place j on: the first child that runs, m places on, or none.
abbrev pub Finds : List (Option ℕ) → ℕ → ℕ → ℕ → ℕ → Type 0
Finds pids c j k r =
    (m : ℕ) × (pid : ℕ) × (m < k)
    × (r ≡ round_from pids c (j + m))
    × (get_elem? pids r ≡ some (some pid))
    × (gone_from pids c j m ≡ true)

abbrev Searched : List (Option ℕ) → ℕ → ℕ → ℕ → Type 0
Searched pids c j k =
    (r : ℕ) × (search k pids c (round_from pids c j) ≡ ok r)
    × (Finds pids c j k r ⊎ (r ≡ c) × (gone_from pids c j k ≡ true))

-- A round of the search, given what the rest of it does.
search_step :
    (pids : List (Option ℕ)) (c k j : ℕ) (o : Option ℕ)
    → c < length pids
    → j + suc k ≡ length pids
    → get_elem? pids (round_from pids c j) ≡ some o
    → ((i : ℕ) → k ≡ suc i → Searched pids c (suc j) k)
    → Searched pids c j (suc k)
unfolding search looked
search_step pids c k j (some pid) h e at later = (
  round_from pids c j,
  rw at refl,
  inl (0, pid, omega arith, ap (round_from pids c) (omega arith), at, refl),
)
search_step pids c zero j none h e at later =
    let back : ((c + j) % length pids + 1) % length pids ≡ c =
      next_place (length pids) c j ∙ full_round (length pids) c j h (omega arith) in
    let stops : (((c + j) % length pids + 1) % length pids == c) ≡ true = ground arith in
    (c, rw (at, stops) (ap (λ (x : ℕ). ok x) back), inr (refl, rw at refl))
search_step pids c (suc k) j none h e at later =
    let (r, run, found) = later k refl in
    let on : ((c + j) % length pids + 1) % length pids ≡ round_from pids c (suc j) =
      next_place (length pids) c j in
    let away : round_from pids c (suc j) ≢ c = not_yet (length pids) c j h (omega arith) in
    let goes : (((c + j) % length pids + 1) % length pids == c) ≡ false = ground arith in
    (
      r,
      rw (at, goes) (ap (search (suc k) pids c) on ∙ run),
      elim found [
        | inl (m, pid, few, spot, alive, gone) ↦ inl (
          suc m,
          pid,
          omega arith,
          spot ∙ ap (round_from pids c) (omega arith),
          alive,
          rw at gone,
        )
        | inr (back, gone) ↦ inr (back, rw at gone)
      ],
    )

search-Searched :
    (pids : List (Option ℕ)) (c k j : ℕ)
    → c < length pids
    → j + suc k ≡ length pids
    → Searched pids c j (suc k)
search-Searched pids c zero j h e =
    let (o, at) = get_elem?-lt pids (round_from pids c j) (mod-lt (c + j) (omega arith)) in
    search_step pids c zero j o h e at (λ i z. absurd (omega (arith, z)))
search-Searched pids c (suc k) j h e =
    let (o, at) = get_elem?-lt pids (round_from pids c j) (mod-lt (c + j) (omega arith)) in
    search_step pids c (suc k) j o h e at (λ i z. search-Searched pids c k (suc j) h (omega arith))

-- A pool with a child, whose counter is one.
pub record IsPool (s : Parent) : Type 0 where
  pub inside : s.sub_process_counter < length s.m_pids

-- How far behind `c` the child i comes.
abbrev pub place : ℕ → ℕ → ℕ → ℕ
place n c i = if ltb i c then i + n - c else i - c

pub place-lt : (n c i : ℕ) → c < n → i < n → place n c i < n
place-lt n c i h k = ground arith

pub place_there : (n c i : ℕ) → c < n → i < n → (c + place n c i) % n ≡ i
place_there n c i h k = elim (Bool-cases (ltb i c)) [
  | inl a ↦
      let before : i < c = ground arith in
      rw a (ap (λ x. x % n) (Σe before) ∙ add-mod_right i n ∙ mod-eq_of_lt k)
  | inr a ↦
      let behind : c ≤ i = ground arith in rw a (ap (λ x. x % n) (omega arith) ∙ mod-eq_of_lt k)
]
  where
    Σe : i < c → c + (i + n - c) ≡ i + n
    Σe b = omega arith

pub place_only : (n c i q : ℕ) → c < n → q < n → (c + q) % n ≡ i → q ≡ place n c i
place_only n c i q h k e = elim (Bool-cases (ltb (c + q) n)) [
  | inl a ↦
      let low : c + q < n = ground arith in
      let same : c + q ≡ i = sym (mod-eq_of_lt low) ∙ e in ground arith
  | inr a ↦
      let high : n ≤ c + q = ground arith in
      let low : c + q - n < n = omega arith in
      let same : c + q - n ≡ i = sym (mod-eq-sub-mod high ∙ mod-eq_of_lt low) ∙ e in ground arith
]

gone_from-gone :
    (pids : List (Option ℕ)) (c j k q : ℕ)
    → gone_from pids c j k ≡ true
    → q < k
    → is_gone (get_elem? pids (round_from pids c (j + q))) ≡ true
gone_from-gone pids c j zero q g h = absurd (omega arith)
gone_from-gone pids c j (suc k) zero g h =
    let here : is_gone (get_elem? pids (round_from pids c j)) ≡ true = ground arith in
    let same : j ≡ j + 0 = omega arith in
    subst (λ x. is_gone (get_elem? pids (round_from pids c x)) ≡ true) same here
gone_from-gone pids c j (suc k) (suc q) g h =
    let same : suc j + q ≡ j + suc q = omega arith in
    subst (λ x. is_gone (get_elem? pids (round_from pids c x)) ≡ true) same
      (gone_from-gone pids c (suc j) k q (ground arith) (omega arith))

all_gone_of :
    (pids : List (Option ℕ))
    → ((i : ℕ) → i < length pids → is_gone (get_elem? pids i) ≡ true)
    → all_gone pids ≡ true
all_gone_of [] h = refl
all_gone_of (none ∷ os) h = all_gone_of os (λ i k. h (suc i) (omega arith))
all_gone_of (some pid ∷ os) h = absurd (never (h 0 (omega arith)))
  where
    never : ¬ (false ≡ true)
    never e = cc

-- With a child and a counter inside the pool, the branch for a connection never faults and terminates.
-- Either it assigns the connection to a child that runs, the first one counted round from the counter,
-- those before it being gone, moves the counter behind it, and goes on with the events; or all children
-- are gone, and it stops the loop and leaves the events.
pub on_connection-cases :
    (s : Parent)
    → IsPool s
    → (s1 : Parent) × (left : Bool) × (on_connection s ≡ ok (s1, left))
      × (((m : ℕ) × (pid : ℕ) × (m < length s.m_pids)
            × (get_elem? s.m_pids (round_from s.m_pids s.sub_process_counter m) ≡ some (some pid))
            × (gone_from s.m_pids s.sub_process_counter 0 m ≡ true)
            × (left ≡ false)
            × (s1 ≡ record s {
              sub_process_counter =
                  (round_from s.m_pids s.sub_process_counter m + 1) % length s.m_pids;
              sent = s.sent ++ round_from s.m_pids s.sub_process_counter m ∷ [];
            }))
          ⊎ (all_gone s.m_pids ≡ true) × (left ≡ true) × (s1 ≡ record s { m_stop = true }))
unfolding on_connection assign
on_connection-cases s v =
    let n = length s.m_pids in
    let c = s.sub_process_counter in
    let first : round_from s.m_pids c 0 ≡ c =
      ap (λ x. x % n) (omega arith) ∙ mod-eq_of_lt v.inside in
    let pos : suc (n - 1) ≡ n = omega (arith, v.inside) in
    let (r, run, found) = search-Searched s.m_pids c (n - 1) 0 v.inside (omega (arith, v.inside)) in
    let whole : search n s.m_pids c c ≡ ok r =
      ap (λ k. search k s.m_pids c c) (sym pos)
      ∙ ap (search (suc (n - 1)) s.m_pids c) (sym first)
      ∙ run in
    elim found [
      | inl (m, pid, few, spot, alive, gone) ↦
          let there : r ≡ round_from s.m_pids c m =
            spot ∙ ap (round_from s.m_pids c) (omega arith) in
          let at : get_elem? s.m_pids (round_from s.m_pids c m) ≡ some (some pid) =
            ap (get_elem? s.m_pids) (sym there) ∙ alive in
          (
            record s {
              sub_process_counter = (round_from s.m_pids c m + 1) % n;
              sent = s.sent ++ round_from s.m_pids c m ∷ [];
            },
            false,
            rw (whole, there, at) refl,
            inl (m, pid, omega (arith, few, pos), at, gone, refl, refl),
          )
      | inr (back, gone) ↦
          let everywhere : (i : ℕ) → i < n → is_gone (get_elem? s.m_pids i) ≡ true = λ i h.
            let spot : (c + (0 + place n c i)) % n ≡ i =
              ap (λ x. (c + x) % n) (omega arith) ∙ place_there n c i v.inside h in
            subst (λ x. is_gone (get_elem? s.m_pids x) ≡ true) spot
              (gone_from-gone s.m_pids c 0 (suc (n - 1)) (place n c i) gone
                (subst (λ k. place n c i < k) (sym pos) (place-lt n c i v.inside h))) in
          let (o, at) = get_elem?-lt s.m_pids c v.inside in
          let nobody : o ≡ none =
            entry o (subst (λ x. is_gone x ≡ true) at (everywhere c v.inside)) in
          (
            record s { m_stop = true },
            true,
            rw (whole, back, at, nobody) refl,
            inr (all_gone_of s.m_pids everywhere, refl, refl),
          )
    ]
  where
    entry : (o : Option ℕ) → is_gone (some o) ≡ true → o ≡ none
    entry none e = refl
    entry (some pid) e = cc
