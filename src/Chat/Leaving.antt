-- ===== src/Chat/Leaving.antt =====
-- What a client that leaves does to the table.
use sweet_clib.Prelude.{
  ℕ, zero, suc, ◌+◌, ◌<◌, ◌≤◌, ◌≡◌, refl, ap, ◌∙◌, Bool, true, false, Option, none, some, List, [],
  ◌∷◌, arith, length, if◌then◌else◌, ◌==◌, get_elem?, set, take, Bool-cases, inl, inr,
}
use sweet_clib.Linked.{Run, ok, fault, ◌>>=◌}
use sweet_clib.Text.{Bytes}
use sweet_clib.Chat.{max_clnt, Chat, write_all, send_msg, moved, left_at, leave}

-- The sockets of the clients, in order.
abbrev pub active : Chat → List ℕ
active s = take s.clnt_cnt s.clnt_socks

-- The clients without the one behind the client; without the last one, when that is the client or
-- there is no such client.
abbrev pub without_next : ℕ → List ℕ → List ℕ
without_next k [] = []
without_next k (x ∷ []) = []
without_next k (x ∷ y ∷ xs) = if x == k then x ∷ xs else x ∷ without_next k (y ∷ xs)

cons_to : ℕ → List ℕ → Run (List ℕ)
cons_to x ys = ok (x ∷ ys)

-- The loops walk past the first entry.
moved_past : (k i x : ℕ) (xs : List ℕ) → moved k (suc i) (x ∷ xs) ≡ (moved k i xs >>= cons_to x)
unfolding moved cons_to
moved_past zero i x xs = refl
moved_past (suc k) i x xs =
    step (get_elem? xs (suc (suc i))) (λ v. moved_past k (suc i) x (set xs (suc i) v))
  where
    step :
        (o : Option ℕ)
        → ((v : ℕ)
            → moved k (suc (suc i)) (x ∷ set xs (suc i) v)
              ≡ (moved k (suc i) (set xs (suc i) v) >>= cons_to x))
        → (elim o [ none ↦ fault | some v ↦ moved k (suc (suc i)) (x ∷ set xs (suc i) v) ])
          ≡ ((elim o [ none ↦ fault | some v ↦ moved k (suc i) (set xs (suc i) v) ]) >>= cons_to x)
    step none later = refl
    step (some v) later = later v

left_past :
    (k i c x : ℕ) (xs : List ℕ) → left_at k (suc i) c (x ∷ xs) ≡ (left_at k i c xs >>= cons_to x)
unfolding left_at cons_to
left_past zero i c x xs = refl
left_past (suc k) i c x xs = step (get_elem? xs i) (left_past k (suc i) c x xs)
  where
    choose :
        (b : Bool)
        → left_at k (suc (suc i)) c (x ∷ xs) ≡ (left_at k (suc i) c xs >>= cons_to x)
        → (if b then moved k (suc i) (x ∷ xs) else left_at k (suc (suc i)) c (x ∷ xs))
          ≡ ((if b then moved k i xs else left_at k (suc i) c xs) >>= cons_to x)
    choose true later = moved_past k i x xs
    choose false later = later

    step :
        (o : Option ℕ)
        → left_at k (suc (suc i)) c (x ∷ xs) ≡ (left_at k (suc i) c xs >>= cons_to x)
        → (elim o [
          | none ↦ fault
          | some v ↦ if v == c then moved k (suc i) (x ∷ xs) else left_at k (suc (suc i)) c (x ∷ xs)
        ])
          ≡ ((elim o [
            | none ↦ fault
            | some v ↦ if v == c then moved k i xs else left_at k (suc i) c xs
          ])
              >>= cons_to x)
    step none later = refl
    step (some v) later = choose (v == c) later

-- The inner loop at the first entry leaves that and takes the next one out.
moved_first :
    (k x y : ℕ) (xs : List ℕ)
    → k ≤ length xs
    → (zs : List ℕ) × (moved k 0 (x ∷ y ∷ xs) ≡ ok (x ∷ zs))
      × ((j : ℕ) → j ≤ k → take j zs ≡ take j xs)
      × (length zs ≡ suc (length xs))
unfolding moved cons_to
moved_first zero x y xs h = (y ∷ xs, refl, λ j b. none_taken j b, refl)
  where
    none_taken : (j : ℕ) → j ≤ 0 → take j (y ∷ xs) ≡ take j xs
    none_taken zero b = refl
    none_taken (suc j) b = absurd (omega (arith, b))
moved_first (suc k) x y [] h = absurd (omega (arith, h))
moved_first (suc k) x y (w ∷ ws) h =
    let (zs, run, same, size) = moved_first k w w ws (omega (arith, h)) in
    (
      w ∷ zs,
      moved_past k 0 x (w ∷ w ∷ ws) ∙ ap (λ r. r >>= cons_to x) run,
      λ j b. taken zs same j b,
      ap suc size,
    )
  where
    taken :
        (zs : List ℕ)
        → ((j : ℕ) → j ≤ k → take j zs ≡ take j ws)
        → (j : ℕ) → j ≤ suc k
        → take j (w ∷ zs) ≡ take j (w ∷ ws)
    taken zs same zero b = refl
    taken zs same (suc j) b = ap (w ∷◌) (same j (omega (arith, b)))

found_rest :
    (k m x y c : ℕ) (xs zs : List ℕ)
    → (x == c) ≡ true
    → ((j : ℕ) → j ≤ k → take j zs ≡ take j xs)
    → suc k ≡ suc m
    → take m (x ∷ zs) ≡ without_next c (x ∷ take k (y ∷ xs))
found_rest zero zero x y c xs zs a same e = refl
found_rest zero (suc m) x y c xs zs a same e = absurd (omega (arith, e))
found_rest (suc k) zero x y c xs zs a same e = absurd (omega (arith, e))
found_rest (suc k) (suc m) x y c xs zs a same e =
    let n : m ≡ k = omega (arith, e) in
    simp a (ap (x ∷◌) (same m (omega (arith, n)) ∙ ap (λ j. take j xs) n))

past_rest :
    (k m x y c : ℕ) (xs ys : List ℕ)
    → (x == c) ≡ false
    → ((j : ℕ) → k ≡ suc j → take j ys ≡ without_next c (take k (y ∷ xs)))
    → suc k ≡ suc m
    → take m (x ∷ ys) ≡ without_next c (x ∷ take k (y ∷ xs))
past_rest zero zero x y c xs ys a later e = refl
past_rest zero (suc m) x y c xs ys a later e = absurd (omega (arith, e))
past_rest (suc k) zero x y c xs ys a later e = absurd (omega (arith, e))
past_rest (suc k) (suc m) x y c xs ys a later e = simp a (ap (x ∷◌) (later m (omega (arith, e))))

-- What the loops leave of the table.
record Left (n c : ℕ) (socks : List ℕ) : Type 0 where
  ys : List ℕ
  run : left_at n 0 c socks ≡ ok ys
  rest : (m : ℕ) → n ≡ suc m → take m ys ≡ without_next c (take n socks)
  size : length ys ≡ length socks

walk_all : (n c : ℕ) (socks : List ℕ) → n < length socks → Left n c socks
unfolding left_at cons_to
walk_all zero c socks h = record {
  ys = socks;
  run = refl;
  rest = λ m e. absurd (omega (arith, e));
  size = refl;
}
walk_all (suc k) c [] h = absurd (omega (arith, h))
walk_all (suc k) c (x ∷ []) h = absurd (omega (arith, h))
walk_all (suc k) c (x ∷ y ∷ xs) h = elim (Bool-cases (x == c)) [
  | inl a ↦
      let (zs, run, same, size) = moved_first k x y xs (omega (arith, h)) in
      record {
        ys = x ∷ zs;
        run = simp a run;
        rest = λ m e. found_rest k m x y c xs zs a same e;
        size = ap suc size;
      }
  | inr a ↦
      let later = walk_all k c (y ∷ xs) (omega (arith, h)) in
      record {
        ys = x ∷ later.ys;
        run = simp a (left_past k 0 c x (y ∷ xs) ∙ ap (λ r. r >>= cons_to x) later.run);
        rest = λ m e. past_rest k m x y c xs later.ys a later.rest e;
        size = ap suc later.size;
      }
]

leave_count :
    (socks : List ℕ) (n c : ℕ)
    → length socks ≡ max_clnt
    → 0 < n
    → n < max_clnt
    → (t : Chat) × (leave (record { clnt_socks = socks; clnt_cnt = n }) c ≡ ok t)
      × (t.clnt_cnt + 1 ≡ n)
      × (active t ≡ without_next c (take n socks))
      × (length t.clnt_socks ≡ max_clnt)
unfolding leave
leave_count socks zero c l p h = absurd (omega (arith, p))
leave_count socks (suc n) c l p h =
    let r = walk_all (suc n) c socks (omega (arith, h, l)) in
    (
      record { clnt_socks = r.ys; clnt_cnt = n },
      rw (r.run) refl,
      omega arith,
      r.rest n refl,
      r.size ∙ l,
    )

write_all_past :
    (k i x : ℕ) (xs : List ℕ) (msg : Bytes)
    → write_all k (suc i) (x ∷ xs) msg ≡ write_all k i xs msg
unfolding write_all
write_all_past zero i x xs msg = refl
write_all_past (suc k) i x xs msg = step (get_elem? xs i) (write_all_past k (suc i) x xs msg)
  where
    step :
        (o : Option ℕ)
        → write_all k (suc (suc i)) (x ∷ xs) msg ≡ write_all k (suc i) xs msg
        → (elim o [
          | none ↦ fault
          | some sock ↦ write_all k (suc (suc i)) (x ∷ xs) msg >>= λ later. ok ((sock, msg) ∷ later)
        ])
          ≡ (elim o [
            | none ↦ fault
            | some sock ↦ write_all k (suc i) xs msg >>= λ later. ok ((sock, msg) ∷ later)
          ])
    step none later = refl
    step (some sock) later = ap (λ r. r >>= λ l. ok ((sock, msg) ∷ l)) later

abbrev pub sent_to : List ℕ → Bytes → List (ℕ × Bytes)
sent_to [] msg = []
sent_to (sock ∷ socks) msg = (sock, msg) ∷ sent_to socks msg

-- The loop of send_msg writes to each client once, in order.
write_all-take :
    (n : ℕ) (socks : List ℕ) (msg : Bytes)
    → n ≤ length socks
    → write_all n 0 socks msg ≡ ok (sent_to (take n socks) msg)
unfolding write_all
write_all-take zero socks msg h = refl
write_all-take (suc n) [] msg h = absurd (omega (arith, h))
write_all-take (suc n) (x ∷ xs) msg h =
    rw (write_all_past n 0 x xs msg, write_all-take n xs msg (omega (arith, h))) refl

-- While the table has room for one more client, the loops of handle_clnt read inside it and one client
-- fewer is left: the sockets that remain, in order, are all but the one behind the client that leaves; all
-- but the last one, when that client is the last or is not in the table. A message of another client then
-- goes out to each of these sockets once, in order.
pub send_msg-leave :
    (s : Chat) (clnt_sock : ℕ) (msg : Bytes)
    → length s.clnt_socks ≡ max_clnt
    → 0 < s.clnt_cnt
    → s.clnt_cnt < max_clnt
    → (t : Chat) × (leave s clnt_sock ≡ ok t)
      × (t.clnt_cnt + 1 ≡ s.clnt_cnt)
      × (active t ≡ without_next clnt_sock (active s))
      × (length t.clnt_socks ≡ max_clnt)
      × (send_msg t msg ≡ ok (sent_to (without_next clnt_sock (active s)) msg))
unfolding send_msg
send_msg-leave s c msg l p h =
    let (t, run, count, same, size) = leave_count s.clnt_socks s.clnt_cnt c l p h in
    (
      t,
      run,
      count,
      same,
      size,
      write_all-take t.clnt_cnt t.clnt_socks msg (omega (arith, count, h, size))
          ∙ ap (λ socks. ok (sent_to socks msg)) same,
    )
