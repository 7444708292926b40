-- ===== src/Processpool/Spawned.antt =====
-- The loop of the constructor, over forks that return processes.
use sweet_clib.Prelude.{
  ℕ, zero, suc, ◌+◌, ◌≡◌, refl, sym, ap, ◌∙◌, Bool, true, false, ◌&&◌, Option, none, some, List, [],
  ◌∷◌, ◌++◌, arith, length, set, replicate, length-append,
}
use mathlib.Core.List.{append-nil}
use sweet_clib.Linked.{ok}
use sweet_clib.Processpool.{Fork, in_parent, fork_fails, in_child, Built, forked, spawn}
use sweet_clib.Processpool.Fair.{all_run}

-- Every fork from the i-th on returns a process.
abbrev pub all_parents : (ℕ → Fork) → ℕ → ℕ → Bool
all_parents fork zero i = true
all_parents fork (suc n) i =
    elim (fork i) [ fork_fails ↦ false | in_child ↦ false | in_parent pid ↦ true ]
    && all_parents fork n (i + 1)

set-first_free :
    (ps : List (Option ℕ)) (k : ℕ) (o : Option ℕ)
    → set (ps ++ replicate (suc k) none) (length ps) o ≡ (ps ++ o ∷ []) ++ replicate k none
set-first_free [] k o = refl
set-first_free (p ∷ ps) k o = ap (λ l. p ∷ l) (set-first_free ps k o)

all_run-snoc :
    (ps : List (Option ℕ)) (pid : ℕ) → all_run ps ≡ true → all_run (ps ++ some pid ∷ []) ≡ true
all_run-snoc [] pid h = refl
all_run-snoc (none ∷ ps) pid h = cc
all_run-snoc (some p ∷ ps) pid h = all_run-snoc ps pid h

-- The loop of the constructor in the parent, from behind the children `ps` on.
abbrev pub Spawned : (ℕ → Fork) → ℕ → List (Option ℕ) → Built → Type 0
Spawned fork n ps b =
    (b1 : Built) × (spawn fork n (length ps) b ≡ ok b1)
    × (b1.m_idx ≡ b.m_idx)
    × (all_run b1.m_pids ≡ true)
    × (length b1.m_pids ≡ length ps + n)

forked_step :
    (fork : ℕ → Fork) (n : ℕ) (ps : List (Option ℕ)) (b : Built) (f : Fork)
    → fork (length ps) ≡ f
    → (elim f [ fork_fails ↦ false | in_child ↦ false | in_parent pid ↦ true ]) ≡ true
    → ((pid : ℕ)
        → Spawned fork n (ps ++ some pid ∷ []) (record b {
          m_pids = set b.m_pids (length ps) (some pid);
          closed = b.closed ++ (length ps, 1) ∷ [];
        }))
    → Spawned fork (suc n) ps b
unfolding spawn forked
forked_step fork n ps b fork_fails t g later = cc
forked_step fork n ps b in_child t g later = cc
forked_step fork n ps b (in_parent pid) t g later =
    let (b1, run, idx, alive, size) = later pid in
    let longer : length (ps ++ some pid ∷ []) ≡ length ps + 1 = length-append ps (some pid ∷ []) in
    (
      b1,
      rw t (
          ap
            (λ k. spawn fork n k (record b {
              m_pids = set b.m_pids (length ps) (some pid);
              closed = b.closed ++ (length ps, 1) ∷ [];
            }))
            (sym longer)
          ∙ run),
      idx,
      alive,
      omega (arith, size, longer),
    )

pub spawn-Spawned :
    (fork : ℕ → Fork) (n : ℕ) (ps : List (Option ℕ)) (b : Built)
    → all_parents fork n (length ps) ≡ true
    → b.m_pids ≡ ps ++ replicate n none
    → all_run ps ≡ true
    → Spawned fork n ps b
unfolding spawn
spawn-Spawned fork zero ps b h e a =
    let same : b.m_pids ≡ ps = e ∙ append-nil ps in
    (b, refl, refl, ap all_run same ∙ a, ap length same ∙ omega arith)
spawn-Spawned fork (suc n) ps b h e a =
    forked_step fork n ps b (fork (length ps)) refl (left_of _ _ h) λ pid.
      spawn-Spawned fork n (ps ++ some pid ∷ []) _
        (ap (all_parents fork n) (length-append ps (some pid ∷ [])) ∙ right_of _ _ h)
        (ap (λ l. set l (length ps) (some pid)) e ∙ set-first_free ps n (some pid))
        (all_run-snoc ps pid a)
  where
    left_of : (c d : Bool) → (c && d) ≡ true → c ≡ true
    left_of true d y = refl
    left_of false d y = y

    right_of : (c d : Bool) → (c && d) ≡ true → d ≡ true
    right_of true d y = y
    right_of false d y = cc
