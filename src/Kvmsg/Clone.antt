-- ===== src/Kvmsg/Clone.antt =====
-- lib/zeromq/clone/clonesrv1.c, clonecli1.c, clonesrv2.c and clonecli2.c: the loops of the clone servers
-- and clients, over the messages of Kvmsg and a table of Czmq. A message is the list of its frames; a
-- list of messages ends where a receive returns NULL. The keys and bodies that the servers draw at random
-- are arguments, and the misspelled calls of clonesrv2.c are read as what they stand for.

pub mod Replay
pub mod Entries
pub mod Snapshot
pub mod Converge
use sweet_clib.Prelude.{
  ℕ, zero, suc, ◌+◌, Bool, true, false, not, Option, none, some, List, [], ◌∷◌, ◌++◌, if◌then◌else◌,
  ltb, map,
}
use sweet_clib.Linked.{Run, ok, fault, ◌>>=◌}
use sweet_clib.Text.{Bytes, strcmp_eq}
use sweet_clib.Czmq.{Zupdates}
use sweet_clib.Kvmsg.{
  Kvmsg, Frame, kvmsg_new, kvmsg_set_key, kvmsg_set_body, kvmsg_key, kvmsg_sequence, kvmsg_send,
  kvmsg_recv, kvmsg_store,
}

-- "KTHXBAI" and "ICANHAZ?"
abbrev pub kthxbai : Bytes
kthxbai = b'K' ∷ b'T' ∷ b'H' ∷ b'X' ∷ b'B' ∷ b'A' ∷ b'I' ∷ []

abbrev pub icanhaz : Bytes
icanhaz = b'I' ∷ b'C' ∷ b'A' ∷ b'N' ∷ b'H' ∷ b'A' ∷ b'Z' ∷ b'?' ∷ []

-- The message of a round of the servers' main loops.
pub update_message : ℕ → Bytes × Bytes → Kvmsg
update_message sequence (key, body) = kvmsg_set_body (kvmsg_set_key (kvmsg_new sequence) key) body

-- What the main loop publishes over the rounds that happen, from behind a sequence number on.
pub publish : ℕ → List (Bytes × Bytes) → List (List Frame)
publish sequence [] = []
publish sequence (kv ∷ kvs) =
    kvmsg_send (update_message (sequence + 1) kv) ∷ publish (sequence + 1) kvs

-- What a message is read as by one of its functions; a failed assertion is a fault.
abbrev pub asserted {ℓ} : {A : Type ℓ} → Option A → Run A
asserted none = fault
asserted (some a) = ok a

module _ (Z : Zupdates Kvmsg) where
  open Z use {Table, zhash_new, zhash_update, zhash_foreach}

  -- kvmsg_store on the table.
  pub stored_under : Table → Option (Option Bytes × Kvmsg) → Table
  stored_under t none = t
  stored_under t (some (none, m)) = t
  stored_under t (some (some key, m)) = zhash_update t key m

  pub store : Table → Kvmsg → Table
  store t m = stored_under t (kvmsg_store m)

  -- The sequence number and the table of a server or a client.
  pub record Clone : Type 0 where
    pub sequence : ℕ
    pub kvmap : Table

  abbrev pub clone_new : Clone
  clone_new = record { sequence = 0; kvmap = zhash_new }

  -- clonesrv1: the loop over the rounds that happen.
  pub clonesrv1 : Clone → List (Bytes × Bytes) → Clone
  clonesrv1 s [] = s
  clonesrv1 s (kv ∷ kvs) =
      clonesrv1
        (record {
          sequence = s.sequence + 1;
          kvmap = store s.kvmap (update_message (s.sequence + 1) kv);
        })
        kvs

  -- clonecli1, a round of the loop, which a message that kvmsg_recv refuses ends.
  pub counted : Clone → Option (Kvmsg × List Frame) → (Clone → Clone) → Clone
  counted s none later = s
  counted s (some (m, rest)) later =
      later (record { sequence = s.sequence + 1; kvmap = store s.kvmap m })

  -- clonecli1
  pub clonecli1 : Clone → List (List Frame) → Clone
  clonecli1 s [] = s
  clonecli1 s (fs ∷ input) = counted s (kvmsg_recv fs) λ s1. clonecli1 s1 input

  -- clonesrv2, the part of state_manager for an update, with what the loop does after it.
  pub on_update : Clone → Option (Kvmsg × List Frame) → (Clone → Run Clone) → Run Clone
  on_update s none later = ok s
  on_update s (some (m, rest)) later =
      asserted (kvmsg_sequence m) >>= λ n. later (record { sequence = n; kvmap = store s.kvmap m })

  -- state_manager over the updates that arrive.
  pub state_manager : Clone → List (List Frame) → Run Clone
  state_manager s [] = ok s
  state_manager s (fs ∷ input) = on_update s (kvmsg_recv fs) λ s1. state_manager s1 input

  abbrev pub sent_entry : Bytes × Kvmsg → List Frame
  sent_entry (key, m) = kvmsg_send m

  -- state_manager, the part for a request: what the snapshot socket sends, behind the identity; `none`
  -- for a bad request, which ends the loop.
  pub on_request : Clone → Bytes → Option (List (List Frame))
  on_request s request =
      if strcmp_eq request icanhaz
      then some (
          map sent_entry (zhash_foreach s.kvmap)
          ++ kvmsg_send (kvmsg_set_body (kvmsg_set_key (kvmsg_new s.sequence) kthxbai) []) ∷ [])
      else none

  -- clonecli2, a message of the snapshot, with what the loop does after it; a key that is NULL would be
  -- read by streq.
  pub on_snapshot : Table → Option Bytes × Kvmsg → (Table → Run Clone) → Run Clone
  on_snapshot t (none, m) later = fault
  on_snapshot t (some key, m) later =
      if strcmp_eq key kthxbai
      then (asserted (kvmsg_sequence m) >>= λ n. ok (record { sequence = n; kvmap = t }))
      else later (store t m)

  -- clonecli2, a round of the first loop.
  pub on_received : Table → Option (Kvmsg × List Frame) → (Table → Run Clone) → Run Clone
  on_received t none later = ok (record { sequence = 0; kvmap = t })
  on_received t (some (m, rest)) later = on_snapshot t (kvmsg_key m) later

  -- clonecli2, the first loop.
  pub receive_snapshot : Table → List (List Frame) → Run Clone
  receive_snapshot t [] = ok (record { sequence = 0; kvmap = t })
  receive_snapshot t (fs ∷ input) = on_received t (kvmsg_recv fs) λ t1. receive_snapshot t1 input

  -- clonecli2, a message of the second loop: an update that the snapshot covers is dropped.
  pub newer : Clone → Kvmsg → ℕ → Clone
  newer s m n = if ltb s.sequence n then record { sequence = n; kvmap = store s.kvmap m } else s

  -- clonecli2, a round of the second loop, with what the loop does after it.
  pub on_newer : Clone → Option (Kvmsg × List Frame) → (Clone → Run Clone) → Run Clone
  on_newer s none later = ok s
  on_newer s (some (m, rest)) later = asserted (kvmsg_sequence m) >>= λ n. later (newer s m n)

  -- clonecli2, the second loop.
  pub receive_updates : Clone → List (List Frame) → Run Clone
  receive_updates s [] = ok s
  receive_updates s (fs ∷ input) = on_newer s (kvmsg_recv fs) λ s1. receive_updates s1 input

  pub clonecli2 : List (List Frame) → List (List Frame) → Run Clone
  clonecli2 snapshot updates =
      receive_snapshot zhash_new snapshot >>= λ s. receive_updates s updates
