-- ===== src/Chat.antt =====
-- lib/pthread/chat_server.c: the table of the clients' sockets, and what main, handle_clnt and send_msg do
-- with it while they hold the mutex. The sockets and the mutex are left out, and what is written to a
-- socket goes to a list.
pub mod Leaving
use sweet_clib.Prelude.{
  ℕ, zero, suc, ◌+◌, Bool, true, false, Option, none, some, List, [], ◌∷◌, ◌++◌, if◌then◌else◌, ltb,
  ◌==◌, get_elem?, set,
}
use sweet_clib.Linked.{Run, ok, fault, ◌>>=◌}
use sweet_clib.Text.{Bytes}

-- MAX_CLNT
abbrev pub max_clnt : ℕ
max_clnt = 256

-- clnt_socks and clnt_cnt.
pub record Chat : Type 0 where
  pub clnt_socks : List ℕ
  pub clnt_cnt : ℕ

-- main, a client that is accepted; a write behind the array is a fault.
join : Chat → ℕ → Run Chat
join s clnt_sock =
    if ltb s.clnt_cnt max_clnt
    then ok
        (record { clnt_socks = set s.clnt_socks s.clnt_cnt clnt_sock; clnt_cnt = s.clnt_cnt + 1 })
    else fault

-- send_msg, the loop from client i on, over the clients that are left.
pub write_all : ℕ → ℕ → List ℕ → Bytes → Run (List (ℕ × Bytes))
write_all zero i socks msg = ok []
write_all (suc k) i socks msg = elim (get_elem? socks i) [
  | none ↦ fault
  | some sock ↦ write_all k (suc i) socks msg >>= λ later. ok ((sock, msg) ∷ later)
]

-- send_msg
pub send_msg : Chat → Bytes → Run (List (ℕ × Bytes))
send_msg s msg = write_all s.clnt_cnt 0 s.clnt_socks msg

-- handle_clnt, the inner loop behind the test at i, over the rounds that are left: its test counts i up.
-- A read behind the array is a fault.
pub moved : ℕ → ℕ → List ℕ → Run (List ℕ)
moved zero i socks = ok socks
moved (suc k) i socks = elim (get_elem? socks (suc (suc i))) [
  | none ↦ fault
  | some v ↦ moved k (suc i) (set socks (suc i) v)
]

-- handle_clnt, the loop over the clients from i on.
pub left_at : ℕ → ℕ → ℕ → List ℕ → Run (List ℕ)
left_at zero i clnt_sock socks = ok socks
left_at (suc k) i clnt_sock socks = elim (get_elem? socks i) [
  | none ↦ fault
  | some sock ↦ if sock == clnt_sock then moved k i socks else left_at k (suc i) clnt_sock socks
]

-- handle_clnt, when a client leaves; a count that would fall below 0 is a fault.
pub leave : Chat → ℕ → Run Chat
leave s clnt_sock = elim s.clnt_cnt [
  | zero ↦ fault
  | suc n ↦ left_at (suc n) 0 clnt_sock s.clnt_socks >>= λ socks.
      ok (record { clnt_socks = socks; clnt_cnt = n })
]
