-- ===== src/Mdp/Client/Retry.antt =====
-- The retries of mdcli_send, and what a client accepts.
use sweet_clib.Prelude.{
  ℕ, zero, suc, ◌+◌, ◌-◌, ◌≤◌, ◌<◌, ◌≡◌, refl, ap, subst, ◌∙◌, Bool, true, false, some, List, [],
  ◌∷◌, arith, ltb, length,
}
use sweet_clib.Text.{Bytes}
use sweet_clib.Text.Hash.{strcmp_eq_self}
use sweet_clib.Czmq.{Zmsg, first_of, rest_of_list}
use sweet_clib.Mdp.{mdpc_client}
use sweet_clib.Mdp.Client.{
  Poll, poll_error, readable, timed_out, Returned, message, null_message, Action, connect, send,
  Mdcli, addressed, opened, attempt, send_loop, mdcli_send,
}

-- How often a message is sent, and how often the client connects anew.
abbrev pub sends : {M : Type 0} → List (Action M) → ℕ
sends [] = 0
sends (connect ∷ xs) = sends xs
sends (send m ∷ xs) = suc (sends xs)

abbrev pub connects : {M : Type 0} → List (Action M) → ℕ
connects [] = 0
connects (connect ∷ xs) = suc (connects xs)
connects (send m ∷ xs) = connects xs

module _ (Z : Zmsg) where
  open Z use {
    Msg, frames, zmsg_push, zmsg_pop, zmsg_size, frames-push, popped, frames-pop, zmsg_size-frames,
  }

  -- Every message sent has these frames.
  abbrev pub AllSend : List Bytes → List (Action Msg) → Type 0
  AllSend fs [] = Unit
  AllSend fs (connect ∷ xs) = AllSend fs xs
  AllSend fs (send m ∷ xs) = (frames m ≡ fs) × AllSend fs xs

  -- An action with the frames of what it sends.
  abbrev pub framed : List (Action Msg) → List (Action (List Bytes))
  framed [] = []
  framed (connect ∷ xs) = connect ∷ framed xs
  framed (send m ∷ xs) = send (frames m) ∷ framed xs

  -- So many attempts: the frames go out, and before each further attempt the client connects anew.
  abbrev pub attempts : List Bytes → ℕ → List (Action (List Bytes))
  attempts fs zero = []
  attempts fs (suc zero) = send fs ∷ []
  attempts fs (suc (suc n)) = send fs ∷ connect ∷ attempts fs (suc n)

  frames-addressed :
      (service : Bytes) (m : Msg)
      → frames (addressed Z service m) ≡ mdpc_client ∷ service ∷ frames m
  unfolding addressed
  frames-addressed service m =
      frames-push (zmsg_push m service) mdpc_client
      ∙ ap (λ fs. mdpc_client ∷ fs) (frames-push m service)

  -- A reply of the service with a body is opened to its body.
  pub opened-reply :
      (service b : Bytes) (body : List Bytes) (m : Msg)
      → frames m ≡ mdpc_client ∷ service ∷ b ∷ body
      → (r : Msg) × (opened Z service m ≡ message r) × (frames r ≡ b ∷ body)
  unfolding opened
  opened-reply service b body m e =
      let m1 = (zmsg_pop m).1 in
      let fs1 : frames m1 ≡ service ∷ b ∷ body = frames-pop m ∙ ap rest_of_list e in
      let header : (zmsg_pop m).0 ≡ some mdpc_client = popped m ∙ ap first_of e in
      let name : (zmsg_pop m1).0 ≡ some service = popped m1 ∙ ap first_of fs1 in
      let long : ltb (zmsg_size m) 3 ≡ false = ground (arith, zmsg_size-frames m ∙ ap length e) in
      (
        (zmsg_pop m1).1,
        rw (long, header, name, strcmp_eq_self mdpc_client, strcmp_eq_self service),
        frames-pop m1 ∙ ap rest_of_list fs1,
      )

  abbrev Bounded : Msg → ℕ → List (Action Msg) × Returned Msg → Type 0
  Bounded request left (xs, r) =
      (sends xs ≤ left) × (connects xs ≤ left - 1) × AllSend (frames request) xs

  attempt-Bounded :
      (service : Bytes) (request : Msg) (left : ℕ) (b : Bool) (o : Poll Msg)
      (later : List (Action Msg) × Returned Msg)
      → Bounded request left later
      → Bounded request (suc left) (attempt Z service request left b o later)
  unfolding attempt
  attempt-Bounded service request left true o later v = (omega arith, omega arith, tt)
  attempt-Bounded service request left false poll_error later v =
      (omega arith, omega arith, (refl, tt))
  attempt-Bounded service request left false (readable m) later v =
      (omega arith, omega arith, (refl, tt))
  attempt-Bounded service request zero false timed_out later v =
      (omega arith, omega arith, (refl, tt))
  attempt-Bounded service request (suc n) false timed_out later v =
      (omega (arith, v.0), omega (arith, v.1), (refl, v.2))

  module _ (interrupted : ℕ → Bool) (polled : ℕ → Poll Msg) where
    send_loop-Bounded :
        (service : Bytes) (request : Msg) (k left : ℕ)
        → Bounded request left (send_loop Z interrupted polled service request k left)
    unfolding send_loop
    send_loop-Bounded service request k zero = (omega arith, omega arith, tt)
    send_loop-Bounded service request k (suc left) =
        attempt-Bounded service request left (interrupted k) (polled k) _
          (send_loop-Bounded service request (suc k) left)

    -- Whatever the socket does, mdcli_send returns; it sends the request at most `retries` times, each
    -- time as the frames MDPC_CLIENT, the service and those of the request, and connects anew less
    -- than `retries` times.
    pub mdcli_send-bounded :
        (self : Mdcli) (service : Bytes) (request : Msg)
        → (xs : List (Action Msg)) × (r : Returned Msg) × (mdcli_send Z interrupted polled self
              service request
            ≡ (xs, r))
          × (sends xs ≤ self.retries)
          × (connects xs ≤ self.retries - 1)
          × AllSend (mdpc_client ∷ service ∷ frames request) xs
    unfolding mdcli_send
    mdcli_send-bounded self service request =
        let (few, rare, same) =
          send_loop-Bounded service (addressed Z service request) 0 self.retries in
        (_, _, refl, few, rare, rw (← frames-addressed service request) same)

    -- So many attempts from the k-th on time out, without an interruption.
    abbrev pub Silent : ℕ → ℕ → Type 0
    Silent k zero = Unit
    Silent k (suc n) = (interrupted k ≡ false) × (polled k ≡ timed_out) × Silent (suc k) n

    send_loop-answered :
        (service : Bytes) (request m : Msg) (k n left : ℕ)
        → Silent k n
        → n < left
        → interrupted (n + k) ≡ false
        → polled (n + k) ≡ readable m
        → ((send_loop Z interrupted polled service request k left).1 ≡ opened Z service m)
          × (framed (send_loop Z interrupted polled service request k left).0
              ≡ attempts (frames request) (suc n))
    unfolding send_loop attempt
    send_loop-answered service request m k n zero q h i o = absurd (omega arith)
    send_loop-answered service request m k zero (suc left) q h i o =
        let alive : interrupted k ≡ false = subst (λ j. interrupted j ≡ false) (omega arith) i in
        let found : polled k ≡ readable m = subst (λ j. polled j ≡ readable m) (omega arith) o in
        rw (alive, found) (refl, refl)
    send_loop-answered service request m k (suc n) (suc zero) q h i o = absurd (omega arith)
    send_loop-answered service request m k (suc n) (suc (suc left)) q h i o =
        let later =
          send_loop-answered service request m (suc k) n (suc left) q.2 (omega arith)
            (subst (λ j. interrupted j ≡ false) (omega arith) i)
            (subst (λ j. polled j ≡ readable m) (omega arith) o) in
        rw (q.0, q.1) (later.0, ap (λ xs. send (frames request) ∷ connect ∷ xs) later.1)

    send_loop-Silent :
        (service : Bytes) (request : Msg) (k left : ℕ)
        → Silent k left
        → ((send_loop Z interrupted polled service request k left).1 ≡ null_message)
          × (framed (send_loop Z interrupted polled service request k left).0
              ≡ attempts (frames request) left)
    unfolding send_loop attempt
    send_loop-Silent service request k zero q = (refl, refl)
    send_loop-Silent service request k (suc zero) q = rw (q.0, q.1) (refl, refl)
    send_loop-Silent service request k (suc (suc left)) q =
        let later = send_loop-Silent service request (suc k) (suc left) q.2 in
        rw (q.0, q.1) (later.0, ap (λ xs. send (frames request) ∷ connect ∷ xs) later.1)

    -- When the first n attempts time out, n below `retries`, and the next one reads a reply of the
    -- service with at least one frame of body, mdcli_send sends n + 1 times, each time the frames
    -- MDPC_CLIENT, the service and those of the request, connects anew between two of these and at no
    -- other time, and returns the body.
    pub mdcli_send-answered :
        (self : Mdcli) (service b : Bytes) (body : List Bytes) (request m : Msg) (n : ℕ)
        → Silent 0 n
        → n < self.retries
        → interrupted n ≡ false
        → polled n ≡ readable m
        → frames m ≡ mdpc_client ∷ service ∷ b ∷ body
        → (framed (mdcli_send Z interrupted polled self service request).0
            ≡ attempts (mdpc_client ∷ service ∷ frames request) (suc n))
          × ((r : Msg) × ((mdcli_send Z interrupted polled self service request).1 ≡ message r)
              × (frames r ≡ b ∷ body))
    unfolding mdcli_send
    mdcli_send-answered self service b body request m n q h i o e =
        let (r, run, fs) = opened-reply service b body m e in
        let (back, out) =
          send_loop-answered service (addressed Z service request) m 0 n self.retries q h
            (subst (λ j. interrupted j ≡ false) (omega arith) i)
            (subst (λ j. polled j ≡ readable m) (omega arith) o) in
        (
          out ∙ ap (λ gs. attempts gs (suc n)) (frames-addressed service request),
          (r, back ∙ run, fs),
        )

    -- When every attempt times out, mdcli_send sends `retries` times, each time the frames MDPC_CLIENT,
    -- the service and those of the request, connects anew between two of these and at no other time,
    -- and returns NULL.
    pub mdcli_send-Silent :
        (self : Mdcli) (service : Bytes) (request : Msg)
        → Silent 0 self.retries
        → (framed (mdcli_send Z interrupted polled self service request).0
            ≡ attempts (mdpc_client ∷ service ∷ frames request) self.retries)
          × ((mdcli_send Z interrupted polled self service request).1 ≡ null_message)
    unfolding mdcli_send
    mdcli_send-Silent self service request q =
        let (back, out) = send_loop-Silent service (addressed Z service request) 0 self.retries q in
        (out ∙ ap (λ gs. attempts gs self.retries) (frames-addressed service request), back)
