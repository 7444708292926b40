-- ===== src/Spqueue/Served.antt =====
-- The order in which spqueue.c gives requests to workers.
use sweet_clib.Prelude.{
  ℕ, ◌≡◌, refl, sym, ap, ◌∙◌, false, Option, none, some, List, [], ◌∷◌, ◌++◌, if◌then◌else◌, ◌==◌,
  Bool-cases, inl, inr, arith, length,
}
use mathlib.Core.List.{append_assoc, append-nil}
use sweet_clib.Linked.{ok, ◌>>=◌}
use sweet_clib.Text.{Bytes}
use sweet_clib.Czmq.{Zmsg, Zlist, first_of, rest_of_list, drop_empty}
use sweet_clib.Spqueue.{
  Spqueue, unmatched, spqueue_new, passed_on, of_backend, of_frontend, round, loop,
}

module _ (Z : Zmsg) (L : Zlist Bytes unmatched) where
  open Z use {
    Msg, frames, zmsg_wrap, zmsg_unwrap, zmsg_first, unwrapped, frames-unwrap, frames-wrap,
    zmsg_first-frames,
  }
  open L use {
    Items, items, zlist_append, zlist_pop, zlist_size, items-append, popped_item, items-pop,
    items-new, zlist_size-items,
  }

  -- A message from a worker: its identity, an empty frame, and a frame that is not empty.
  pub record IsSigned (m : Msg) : Type 0 where
    pub identity : Bytes
    pub c : ℕ
    pub f : Bytes
    pub fs : List Bytes
    pub whole : frames m ≡ identity ∷ [] ∷ (c ∷ f) ∷ fs

  abbrev pub AllSigned : List (Option Msg × Option Msg) → Type 0
  AllSigned [] = Unit
  AllSigned ((none, o) ∷ rs) = AllSigned rs
  AllSigned ((some m, o) ∷ rs) = IsSigned m × AllSigned rs

  -- Whom the messages are from or for: their first frames.
  abbrev pub first_frame : List Bytes → List Bytes
  first_frame [] = []
  first_frame (f ∷ fs) = f ∷ []

  abbrev pub addressees : List Msg → List Bytes
  addressees [] = []
  addressees (m ∷ ms) = first_frame (frames m) ++ addressees ms

  abbrev pub signed : Option Msg → List Bytes
  signed none = []
  signed (some m) = first_frame (frames m)

  abbrev pub enrolled : List (Option Msg × Option Msg) → List Bytes
  enrolled [] = []
  enrolled ((o, p) ∷ rs) = signed o ++ enrolled rs

  -- The workers that got a request, and behind them those that wait.
  abbrev pub line : Spqueue Z L → List Bytes
  line s = addressees s.to_backend ++ items s.workers

  addressees-append :
      (xs : List Msg) (m : Msg) (w : Bytes) (fs : List Bytes)
      → frames m ≡ w ∷ fs
      → addressees (xs ++ m ∷ []) ≡ addressees xs ++ w ∷ []
  addressees-append [] m w fs e = rw e refl
  addressees-append (x ∷ xs) m w fs e =
      ap (λ l. first_frame (frames x) ++ l) (addressees-append xs m w fs e)
      ∙ sym (append_assoc (first_frame (frames x)) (addressees xs) (w ∷ []))

  -- The part for the backend: the worker goes to the end.
  of_backend-line :
      (s : Spqueue Z L) (m : Msg)
      → IsSigned m
      → (s' : Spqueue Z L) × (of_backend Z L s (some m) ≡ ok s')
        × (line s' ≡ line s ++ signed (some m))
        × (items s'.workers ≡ items s.workers ++ signed (some m))
  unfolding of_backend passed_on
  of_backend-line s m r =
      let from : (zmsg_unwrap m).0 ≡ some r.identity = unwrapped m ∙ ap first_of r.whole in
      let rest : zmsg_first (zmsg_unwrap m).1 ≡ some (r.c ∷ r.f) =
        zmsg_first-frames (zmsg_unwrap m).1
        ∙ ap first_of (frames-unwrap m ∙ ap (λ x. drop_empty (rest_of_list x)) r.whole) in
      let behind : items (zlist_append s.workers r.identity)
          ≡ items s.workers ++ first_frame (frames m) =
        items-append s.workers r.identity
        ∙ ap (λ x. items s.workers ++ first_frame x) (sym r.whole) in
      let lined : addressees s.to_backend ++ items (zlist_append s.workers r.identity)
          ≡ line s ++ first_frame (frames m) =
        ap (λ l. addressees s.to_backend ++ l) behind
        ∙ sym (append_assoc (addressees s.to_backend) (items s.workers) (first_frame (frames m))) in
      elim (Bool-cases (r.c == 1)) [
        | inl a ↦ (
          record s { workers = zlist_append s.workers r.identity },
          rw (from, rest, a) refl,
          lined,
          behind,
        )
        | inr a ↦ (
          record s {
            workers = zlist_append s.workers r.identity;
            to_frontend = s.to_frontend ++ (zmsg_unwrap m).1 ∷ [];
          },
          rw (from, rest, a) refl,
          lined,
          behind,
        )
      ]

  -- The part for the frontend: the first of the line that waits gets the request.
  of_frontend-line :
      (s : Spqueue Z L) (m : Msg) (w : Bytes) (ws : List Bytes)
      → items s.workers ≡ w ∷ ws
      → (s' : Spqueue Z L) × (of_frontend Z L s (some m) ≡ ok s') × (line s' ≡ line s)
  unfolding of_frontend
  of_frontend-line s m w ws i =
      let first : (zlist_pop s.workers).0 ≡ some w = popped_item s.workers ∙ ap first_of i in
      let rest : items (zlist_pop s.workers).1 ≡ ws = items-pop s.workers ∙ ap rest_of_list i in
      let next : Spqueue Z L = record s {
        workers = (zlist_pop s.workers).1;
        to_backend = s.to_backend ++ zmsg_wrap m w ∷ [];
      } in
      (
        next,
        rw first refl,
        ap (λ l. l ++ items (zlist_pop s.workers).1)
              (addressees-append s.to_backend (zmsg_wrap m w) w ([] ∷ frames m) (frames-wrap m w))
            ∙ append_assoc (addressees s.to_backend) (w ∷ []) (items (zlist_pop s.workers).1)
            ∙ ap (λ l. addressees s.to_backend ++ w ∷ l) rest
            ∙ ap (λ l. addressees s.to_backend ++ l) (sym i),
      )

  frontend_step :
      (s s1 : Spqueue Z L) (p : Option Msg) (extra l : List Bytes)
      → items s.workers ≡ l
      → items s1.workers ≡ items s.workers ++ extra
      → (s' : Spqueue Z L) × (of_frontend Z L s1 (if zlist_size s.workers == 0 then none else p)
          ≡ ok s')
        × (line s' ≡ line s1)
  unfolding of_frontend
  frontend_step s s1 p extra [] i e =
      let empty : zlist_size s.workers ≡ 0 = zlist_size-items s.workers ∙ ap length i in
      (s1, rw empty refl, refl)
  frontend_step s s1 none extra (w ∷ ws) i e =
      let busy : (zlist_size s.workers == 0) ≡ false =
        ground (arith, zlist_size-items s.workers ∙ ap length i) in
      (s1, rw busy refl, refl)
  frontend_step s s1 (some m) extra (w ∷ ws) i e =
      let busy : (zlist_size s.workers == 0) ≡ false =
        ground (arith, zlist_size-items s.workers ∙ ap length i) in
      let (s', run, same) = of_frontend-line s1 m w (ws ++ extra) (e ∙ ap (λ l. l ++ extra) i) in
      (s', rw busy run, same)

  round-line :
      (s : Spqueue Z L) (o p : Option Msg) (rs : List (Option Msg × Option Msg))
      → AllSigned ((o, p) ∷ rs)
      → (s' : Spqueue Z L) × (round Z L s o p ≡ ok s')
        × (line s' ≡ line s ++ signed o)
        × AllSigned rs
  unfolding round of_backend of_frontend
  round-line s none p rs a =
      let (s', run, same) =
        frontend_step s s p [] (items s.workers) refl (sym (append-nil (items s.workers))) in
      (s', run, same ∙ sym (append-nil (line s)), a)
  round-line s (some m) p rs a =
      let (s1, run1, lined, behind) = of_backend-line s m a.0 in
      let (s', run, same) = frontend_step s s1 p (signed (some m)) (items s.workers) refl behind in
      (
        s',
        ap (λ x. x >>= λ t. of_frontend Z L t (if zlist_size s.workers == 0 then none else p)) run1
            ∙ run,
        same ∙ lined,
        a.1,
      )

  loop-line :
      (s : Spqueue Z L) (rs : List (Option Msg × Option Msg))
      → AllSigned rs
      → (s' : Spqueue Z L) × (loop Z L s rs ≡ ok s') × (line s' ≡ line s ++ enrolled rs)
  unfolding loop
  loop-line s [] a = (s, refl, sym (append-nil (line s)))
  loop-line s ((o, p) ∷ rs) a =
      let (s1, run1, one, b) = round-line s o p rs a in
      let (s', run, all) = loop-line s1 rs b in
      (
        s',
        ap (λ x. x >>= λ t. loop Z L t rs) run1 ∙ run,
        all ∙ ap (λ l. l ++ enrolled rs) one ∙ append_assoc (line s) (signed o) (enrolled rs),
      )

  -- Over any rounds in which every message from a worker has its identity, an empty frame and a frame
  -- that is not empty, the loop, started with no workers, never faults, so that no request finds the
  -- list empty. The workers that requests went to, in the order of the requests, and behind
  -- them those that wait are the senders of the workers' messages in the order of arrival: the worker
  -- that waited longest is served first, and each message of a worker earns it one request.
  pub loop-enrolled :
      (rs : List (Option Msg × Option Msg))
      → AllSigned rs
      → (s : Spqueue Z L) × (loop Z L (spqueue_new Z L) rs ≡ ok s)
        × (addressees s.to_backend ++ items s.workers ≡ enrolled rs)
  unfolding spqueue_new
  loop-enrolled rs a =
      let (s, run, lined) = loop-line (spqueue_new Z L) rs a in
      (s, run, lined ∙ ap (λ l. l ++ enrolled rs) items-new)
