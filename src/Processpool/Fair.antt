-- ===== src/Processpool/Fair.antt =====
-- A round of connections while every child runs.
use sweet_clib.Prelude.{
  ℕ, zero, suc, ◌+◌, ◌-◌, ◌%◌, ◌≤◌, ◌<◌, ◌≡◌, ◌≢◌, refl, sym, ap, ◌∙◌, Bool, true, false, ◌&&◌,
  Option, none, some, List, [], ◌∷◌, ◌++◌, arith, if◌then◌else◌, ◌==◌, ltb, leb, length, get_elem?,
  replicate, Bool-cases, inl, inr,
}
use native.Mathlib.Nat.{mod-lt, mod-eq_of_lt}
use mathlib.Core.List.{append_assoc, append-nil}
use sweet_clib.Linked.{ok}
use sweet_clib.Processpool.{Parent, connection, assign, on_connection, on_events, all_gone}
use sweet_clib.Processpool.Robin.{
  is_gone, IsPool, round_from, place, place-lt, place_there, place_only, next_place, full_round,
  on_connection-cases,
}

-- Every child runs.
abbrev pub all_run : List (Option ℕ) → Bool
all_run [] = true
all_run (none ∷ os) = false
all_run (some pid ∷ os) = all_run os

abbrev pub count : ℕ → List ℕ → ℕ
count i [] = 0
count i (x ∷ xs) = (if x == i then 1 else 0) + count i xs

-- The children in order from place j behind `c` on.
abbrev in_turn : ℕ → ℕ → ℕ → ℕ → List ℕ
in_turn n c j zero = []
in_turn n c j (suc k) = (c + j) % n ∷ in_turn n c (suc j) k

pub runs :
    (pids : List (Option ℕ)) (i : ℕ) → all_run pids ≡ true → is_gone (get_elem? pids i) ≡ false
runs [] i a = refl
runs (none ∷ os) i a = cc
runs (some pid ∷ os) zero a = refl
runs (some pid ∷ os) (suc i) a = runs os i a

-- A child comes in a run of turns once, if at all.
count-in_turn :
    (n c i j k : ℕ)
    → c < n
    → i < n
    → j + k ≤ n
    → count i (in_turn n c j k)
      ≡ (if leb j (place n c i) && ltb (place n c i) (j + k) then 1 else 0)
count-in_turn n c i j zero h u e = ground arith
count-in_turn n c i j (suc k) h u e =
    let later = count-in_turn n c i (suc j) k h u (omega arith) in
    elim (Bool-cases (j == place n c i)) [
      | inl a ↦
          let same : j ≡ place n c i = ground arith in
          let hit : ((c + j) % n == i) ≡ true =
            same_test _ _ (ap (λ x. (c + x) % n) same ∙ place_there n c i h u) in
          rw hit (turn_of j k (place n c i) _ same later)
      | inr a ↦
          let miss : ((c + j) % n == i) ≡ false =
            other_test _ _ (λ t. apart j (place n c i) a (place_only n c i j h (omega arith) t)) in
          rw miss (turn_off j k (place n c i) _ a later)
    ]
  where
    same_test : (x y : ℕ) → x ≡ y → (x == y) ≡ true
    same_test x y t = ground arith

    other_test : (x y : ℕ) → x ≢ y → (x == y) ≡ false
    other_test x y t = ground arith

    apart : (x y : ℕ) → (x == y) ≡ false → x ≢ y
    apart x y t = ground arith

    turn_of :
        (a b p m : ℕ)
        → a ≡ p
        → m ≡ (if leb (suc a) p && ltb p (suc a + b) then 1 else 0)
        → 1 + m ≡ (if leb a p && ltb p (a + suc b) then 1 else 0)
    turn_of a b p m t l = ground arith

    turn_off :
        (a b p m : ℕ)
        → (a == p) ≡ false
        → m ≡ (if leb (suc a) p && ltb p (suc a + b) then 1 else 0)
        → 0 + m ≡ (if leb a p && ltb p (a + suc b) then 1 else 0)
    turn_off a b p m t l = ground arith

-- A connection while every child runs goes to the child at the counter.
one_turn :
    (s : Parent)
    → IsPool s
    → all_run s.m_pids ≡ true
    → on_connection s
      ≡ ok (
        record s {
          sub_process_counter = (s.sub_process_counter + 1) % length s.m_pids;
          sent = s.sent ++ s.sub_process_counter ∷ [];
        },
        false,
      )
unfolding on_connection assign
one_turn s v a =
    let (s1, left, run, cases) = on_connection-cases s v in
    elim cases [
      | inl (zero, pid, few, at, gone, goes_on, next) ↦
          let here : round_from s.m_pids s.sub_process_counter 0 ≡ s.sub_process_counter =
            ap (λ x. x % length s.m_pids) (omega arith) ∙ mod-eq_of_lt v.inside in
          run ∙ rw (next, goes_on, here) refl
      | inl (suc m, pid, few, at, gone, goes_on, next) ↦ absurd (
          first (is_gone (get_elem? s.m_pids (round_from s.m_pids s.sub_process_counter 0))) _ gone
            (runs s.m_pids (round_from s.m_pids s.sub_process_counter 0) a))
      | inr (gone, stops, next) ↦ absurd (nobody s.m_pids gone a (omega (arith, v.inside)))
    ]
  where
    first : (x y : Bool) → (x && y) ≡ true → ¬ (x ≡ false)
    first true y g = λ e. cc
    first false y g = λ e. cc

    nobody : (os : List (Option ℕ)) → all_gone os ≡ true → all_run os ≡ true → ¬ (0 < length os)
    nobody [] g r = λ h. omega (arith, h)
    nobody (none ∷ os) g r = λ h. cc
    nobody (some pid ∷ os) g r = λ h. cc

turns :
    (s : Parent) (c j k : ℕ)
    → IsPool s
    → all_run s.m_pids ≡ true
    → s.sub_process_counter ≡ (c + j) % length s.m_pids
    → (s1 : Parent) × (on_events s (replicate k connection) ≡ ok s1)
      × (s1.sent ≡ s.sent ++ in_turn (length s.m_pids) c j k)
      × (s1.sub_process_counter ≡ (c + (j + k)) % length s.m_pids)
      × (s1.m_pids ≡ s.m_pids)
      × (s1.m_stop ≡ s.m_stop)
unfolding on_events
turns s c j zero v a e = (
  s,
  refl,
  sym (append-nil s.sent),
  e ∙ ap (λ x. (c + x) % length s.m_pids) (omega arith),
  refl,
  refl,
)
turns s c j (suc k) v a e =
    let n = length s.m_pids in
    let s0 : Parent = record s {
      sub_process_counter = (s.sub_process_counter + 1) % n;
      sent = s.sent ++ s.sub_process_counter ∷ [];
    } in
    let next : s0.sub_process_counter ≡ (c + suc j) % n =
      ap (λ x. (x + 1) % n) e ∙ next_place n c j in
    let w : IsPool s0 = record {
      inside = mod-lt (s.sub_process_counter + 1) (omega (arith, v.inside));
    } in
    let (s1, run, sent, counter, pids, stop) = turns s0 c (suc j) k w a next in
    (
      s1,
      rw (one_turn s v a) run,
      sent
          ∙ append_assoc s.sent (s.sub_process_counter ∷ []) (in_turn n c (suc j) k)
          ∙ ap (λ x. s.sent ++ x ∷ in_turn n c (suc j) k) e,
      counter ∙ ap (λ x. (c + x) % n) (omega arith),
      pids,
      stop,
    )

-- While all n children of a pool run, the branch for n connections in a row never faults, terminates, and
-- hands out n connections, of which each child i gets exactly one; the counter is then where it was, and
-- the children and m_stop are unchanged.
pub on_events-fair :
    (s : Parent) (i : ℕ)
    → IsPool s
    → all_run s.m_pids ≡ true
    → i < length s.m_pids
    → (s1 : Parent) × (xs : List ℕ) × (on_events s (replicate (length s.m_pids) connection) ≡ ok s1)
      × (s1.sent ≡ s.sent ++ xs)
      × (count i xs ≡ 1)
      × (length xs ≡ length s.m_pids)
      × (s1.sub_process_counter ≡ s.sub_process_counter)
      × (s1.m_pids ≡ s.m_pids)
      × (s1.m_stop ≡ s.m_stop)
on_events-fair s i v a h =
    let n = length s.m_pids in
    let c = s.sub_process_counter in
    let (s1, run, sent, counter, pids, stop) =
      turns s c 0 n v a (sym (ap (λ x. x % n) (omega arith) ∙ mod-eq_of_lt v.inside)) in
    (
      s1,
      in_turn n c 0 n,
      run,
      sent,
      count-in_turn n c i 0 n v.inside h (omega arith)
          ∙ once (place n c i) n (place-lt n c i v.inside h),
      length-in_turn n c 0 n,
      counter ∙ back n c v.inside,
      pids,
      stop,
    )
  where
    once : (p n : ℕ) → p < n → ◌≡◌ {A = ℕ} (if leb 0 p && ltb p (0 + n) then 1 else 0) 1
    once p n t = ground arith

    length-in_turn : (n c j k : ℕ) → length (in_turn n c j k) ≡ k
    length-in_turn n c j zero = refl
    length-in_turn n c j (suc k) = ap suc (length-in_turn n c (suc j) k)

    pos : (n c : ℕ) → c < n → 0 + n ≡ suc (n - 1)
    pos n c t = omega (arith, t)

    back : (n c : ℕ) → c < n → (c + (0 + n)) % n ≡ c
    back n c t = ap (λ x. (c + x) % n) (pos n c t) ∙ full_round n c (n - 1) t (omega (arith, t))
