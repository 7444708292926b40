-- ===== src/Mdp.antt =====
-- lib/zeromq/MDP/mdp.h: the constants of the Majordomo protocol.
pub mod Client
pub mod Worker
pub mod Broker
pub mod Exchange
use sweet_clib.Prelude.{ℕ, Bool, true, false, List, [], ◌∷◌}
use sweet_clib.Text.{Bytes, strcmp_eq}

-- MDPC_CLIENT and MDPW_WORKER
abbrev pub mdpc_client : Bytes
mdpc_client = b'M' ∷ b'D' ∷ b'P' ∷ b'C' ∷ b'0' ∷ b'1' ∷ []

abbrev pub mdpw_worker : Bytes
mdpw_worker = b'M' ∷ b'D' ∷ b'P' ∷ b'W' ∷ b'0' ∷ b'1' ∷ []

-- The commands MDPW_READY to MDPW_DISCONNECT.
abbrev pub mdpw_ready : Bytes
mdpw_ready = 1 ∷ []

abbrev pub mdpw_request : Bytes
mdpw_request = 2 ∷ []

abbrev pub mdpw_reply : Bytes
mdpw_reply = 3 ∷ []

abbrev pub mdpw_heartbeat : Bytes
mdpw_heartbeat = 4 ∷ []

abbrev pub mdpw_disconnect : Bytes
mdpw_disconnect = 5 ∷ []
