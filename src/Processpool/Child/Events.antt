-- ===== src/Processpool/Child/Events.antt =====
-- The events of a child process: what they accept, and whether they stop it.
use sweet_clib.Prelude.{
  ℕ, ◌≡◌, refl, ap, ◌∙◌, Bool, true, false, ◌&&◌, ◌||◌, none, some, List, [], ◌∷◌, ◌++◌, arith,
  if◌then◌else◌, ltb,
}
use sweet_clib.Processpool.{Signal, sigchld, sigterm, other_signal}
use sweet_clib.Processpool.Child.{
  user_per_process, ChildEvent, notice, child_signals, request, unread, stop_signal,
}

-- Every descriptor that is accepted or read has its object.
abbrev pub in_range : List ChildEvent → Bool
in_range [] = true
in_range (notice got none ∷ es) = in_range es
in_range (notice got (some fd) ∷ es) = ltb fd user_per_process && in_range es
in_range (request fd ∷ es) = ltb fd user_per_process && in_range es
in_range (child_signals xs ∷ es) = in_range es
in_range (unread ∷ es) = in_range es

abbrev pub asks_stop : List Signal → Bool
asks_stop [] = false
asks_stop (sigchld pids ∷ xs) = asks_stop xs
asks_stop (sigterm ∷ xs) = true
asks_stop (other_signal ∷ xs) = asks_stop xs

-- Whether the events have a signal that stops the child, and the connections that they accept.
abbrev pub stops : List ChildEvent → Bool
stops [] = false
stops (child_signals xs ∷ es) = asks_stop xs || stops es
stops (notice got client ∷ es) = stops es
stops (request fd ∷ es) = stops es
stops (unread ∷ es) = stops es

abbrev pub connections : List ChildEvent → List ℕ
connections [] = []
connections (notice true (some fd) ∷ es) = fd ∷ connections es
connections (notice true none ∷ es) = connections es
connections (notice false client ∷ es) = connections es
connections (child_signals xs ∷ es) = connections es
connections (request fd ∷ es) = connections es
connections (unread ∷ es) = connections es

-- The rounds up to the first that stops the child, itself included.
abbrev pub handled : List (List ChildEvent) → List ChildEvent
handled [] = []
handled (es ∷ rounds) = es ++ (if stops es then [] else handled rounds)

pub in_range-append : (es fs : List ChildEvent) → in_range (es ++ fs) ≡ (in_range es && in_range fs)
in_range-append [] fs = refl
in_range-append (notice got none ∷ es) fs = in_range-append es fs
in_range-append (notice got (some fd) ∷ es) fs = ground (arith, in_range-append es fs)
in_range-append (request fd ∷ es) fs = ground (arith, in_range-append es fs)
in_range-append (child_signals xs ∷ es) fs = in_range-append es fs
in_range-append (unread ∷ es) fs = in_range-append es fs

pub stops-append : (es fs : List ChildEvent) → stops (es ++ fs) ≡ (stops es || stops fs)
stops-append [] fs = refl
stops-append (child_signals xs ∷ es) fs = ground (arith, stops-append es fs)
stops-append (notice got client ∷ es) fs = stops-append es fs
stops-append (request fd ∷ es) fs = stops-append es fs
stops-append (unread ∷ es) fs = stops-append es fs

pub connections-append :
    (es fs : List ChildEvent) → connections (es ++ fs) ≡ connections es ++ connections fs
connections-append [] fs = refl
connections-append (notice true (some fd) ∷ es) fs = ap (fd ∷◌) (connections-append es fs)
connections-append (notice true none ∷ es) fs = connections-append es fs
connections-append (notice false client ∷ es) fs = connections-append es fs
connections-append (child_signals xs ∷ es) fs = connections-append es fs
connections-append (request fd ∷ es) fs = connections-append es fs
connections-append (unread ∷ es) fs = connections-append es fs

pub stop_signal-asks_stop : (b : Bool) (xs : List Signal) → stop_signal b xs ≡ (b || asks_stop xs)
unfolding stop_signal
stop_signal-asks_stop b [] = ground arith
stop_signal-asks_stop b (sigchld pids ∷ xs) = stop_signal-asks_stop b xs
stop_signal-asks_stop b (sigterm ∷ xs) = stop_signal-asks_stop true xs ∙ ground arith
stop_signal-asks_stop b (other_signal ∷ xs) = stop_signal-asks_stop b xs
