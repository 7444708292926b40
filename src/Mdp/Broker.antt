-- ===== src/Mdp/Broker.antt =====
-- lib/zeromq/MDP/mdbroker.c: the broker, over the interfaces of Czmq. Workers and services are objects
-- in memory that the tables and lists point to; `fault` is an access through NULL or to a freed object,
-- or a failed assertion. Logging is left out, and so is the release of the messages.
pub mod Objects
pub mod Handlers
pub mod Sound
pub mod Leaving
pub mod Delete
pub mod Purge
pub mod Pairing
pub mod Dispatch
pub mod Enrolled
pub mod Changes
pub mod Handling
pub mod Mmi
pub mod Clients
pub mod Branches
pub mod Workers
pub mod Rounds
use sweet_clib.Prelude.{
  ℕ, zero, suc, ◌+◌, ◌*◌, Bool, true, false, not, ◌&&◌, Option, none, some, List, [], ◌∷◌, ◌++◌,
  if◌then◌else◌, ltb, leb, ◌==◌, length, take,
}
use sweet_clib.Text.{Bytes, strcmp_eq}
use sweet_clib.Linked.{Run, ok, fault, out_of_fuel, ◌>>=◌, Ptr}
use sweet_clib.Czmq.{Zmsg, Zhash, Zlist}
use sweet_clib.Mdp.{
  mdpc_client, mdpw_worker, mdpw_ready, mdpw_request, mdpw_reply, mdpw_heartbeat, mdpw_disconnect,
}
use sweet_clib.Mdp.Client.{frame_streq}
use sweet_clib.Mdp.Worker.{decremented}

-- HEARTBEAT_INTERVAL and HEARTBEAT_EXPIRY
abbrev pub heartbeat_interval : ℕ
heartbeat_interval = 2500

abbrev pub heartbeat_expiry : ℕ
heartbeat_expiry = heartbeat_interval * 3

-- "mmi.", "mmi.service" and the codes of mmi.
abbrev pub mmi : Bytes
mmi = b'm' ∷ b'm' ∷ b'i' ∷ b'.' ∷ []

abbrev pub mmi_service : Bytes
mmi_service = b'm' ∷ b'm' ∷ b'i' ∷ b'.' ∷ b's' ∷ b'e' ∷ b'r' ∷ b'v' ∷ b'i' ∷ b'c' ∷ b'e' ∷ []

abbrev pub code_200 : Bytes
code_200 = b'2' ∷ b'0' ∷ b'0' ∷ []

abbrev pub code_404 : Bytes
code_404 = b'4' ∷ b'0' ∷ b'4' ∷ []

abbrev pub code_501 : Bytes
code_501 = b'5' ∷ b'0' ∷ b'1' ∷ []

-- `zframe_size(frame) >= 4 && memcmp(zframe_data(frame), "mmi.", 4) == 0`
abbrev pub is_mmi : Bytes → Bool
is_mmi f = leb 4 (length f) && strcmp_eq (take 4 f) mmi

abbrev pub is_some {ℓ} : {A : Type ℓ} → Option A → Bool
is_some none = false
is_some (some a) = true

-- worker_t; `service` is `none` for NULL.
pub record Worker : Type 0 where
  pub id_string : Bytes
  pub identity : Bytes
  pub service : Option Ptr
  pub expiry : ℕ

-- Pointers as zlist_remove compares them.
abbrev pub same_ptr : Ptr → Ptr → Bool
same_ptr p q = p == q

-- The parameters: messages, tables, lists of pointers and of messages, the hexadecimal print of a
-- frame, the test of zlist_remove on messages (never called), and the readings of zclock_time.
pub record World : Type 1 where
  pub zmsg : Zmsg
  pub zhash : Zhash
  pub pointers : Zlist Ptr same_ptr
  pub queues : Zlist (Zmsg.Msg zmsg) (λ p q. false)
  pub strhex : Bytes → Bytes
  pub clock : ℕ → ℕ

module _ (W : World) where
  open W use {zmsg, zhash, pointers, queues, strhex, clock}
  open zmsg use {
    Msg, zmsg_new, zmsg_push, zmsg_wrap, zmsg_pop, zmsg_unwrap, zmsg_size, zmsg_last, reset_last,
  }
  open zhash use {Hash, zhash_new, zhash_lookup, zhash_insert, zhash_delete}
  open pointers use {
    Items, zlist_new, zlist_append, zlist_pop, zlist_remove, zlist_first, zlist_size,
  }

  -- service_t
  pub record Service : Type 0 where
    pub name : Bytes
    pub requests : Zlist.Items queues
    pub waiting : Items
    pub workers : ℕ
