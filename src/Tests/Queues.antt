-- ===== src/Tests/Queues.antt =====
-- Runs of the simple pirate queue.
use sweet_clib.Prelude.{ℕ, ◌≡◌, refl, Option, none, some, List, [], ◌∷◌, ◌++◌}
use sweet_clib.Linked.{ok}
use sweet_clib.Text.{Bytes}
use sweet_clib.Spqueue.{Spqueue, unmatched, spqueue_new, loop}
use sweet_clib.Spqueue.Served.{AllSigned, addressees, loop-enrolled}
use sweet_clib.Tests.Messages.{plain_zmsg, plain_zlist}

abbrev ready : ℕ → List Bytes
ready w = (w ∷ []) ∷ [] ∷ (1 ∷ []) ∷ []

abbrev asking : List Bytes
asking = (7 ∷ []) ∷ [] ∷ (b'h' ∷ b'i' ∷ []) ∷ []

-- Two workers get ready, a client asks while a request cannot be served yet, and then one is served.
abbrev rounds_of_two : List (Option (List Bytes) × Option (List Bytes))
rounds_of_two =
    (some (ready 8), some asking) ∷ (some (ready 9), some asking) ∷ (none, some asking) ∷ []

rounds_of_two-AllSigned : AllSigned plain_zmsg (plain_zlist Bytes unmatched) rounds_of_two
rounds_of_two-AllSigned = (
  record { identity = 8 ∷ []; c = 1; f = []; fs = []; whole = refl },
  (record { identity = 9 ∷ []; c = 1; f = []; fs = []; whole = refl }, tt),
)

loop-enrolled_example :
    (s : Spqueue plain_zmsg (plain_zlist Bytes unmatched)) × (loop plain_zmsg
        (plain_zlist Bytes unmatched)
        (spqueue_new plain_zmsg (plain_zlist Bytes unmatched))
        rounds_of_two
      ≡ ok s)
    × (addressees plain_zmsg (plain_zlist Bytes unmatched) s.to_backend ++ s.workers
        ≡ (8 ∷ []) ∷ (9 ∷ []) ∷ [])
loop-enrolled_example =
    loop-enrolled plain_zmsg (plain_zlist Bytes unmatched) rounds_of_two rounds_of_two-AllSigned
