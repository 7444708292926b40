-- ===== src/Tests/Brokers.antt =====
-- Runs of the broker of lib/zeromq/MDP: one service with one worker.
use sweet_clib.Prelude.{
  ℕ, ◌≡◌, refl, ap, ◌∙◌, none, some, List, [], ◌∷◌, ◌++◌, if◌then◌else◌, ◌==◌, arith, Bool-cases,
  inl, inr,
}
use sweet_clib.Linked.{Run, ok, fault, out_of_fuel}
use sweet_clib.Text.{Bytes, strcmp_eq}
use sweet_clib.Text.Hash.{eq_of_strcmp, strcmp_eq_self}
use sweet_clib.Czmq.{with_last}
use sweet_clib.Mdp.{mdpc_client, mdpw_worker, mdpw_ready}
use sweet_clib.Mdp.Broker.{Worker, Service, mmi_service}
use sweet_clib.Mdp.Broker.Objects.{
  Broker, broker_new, broker_purge, set_service, set_worker, purge_loop, purge_round, worker_send,
  to_worker,
}
use sweet_clib.Mdp.Broker.Handlers.{
  broker_round, broker_beat, broker_client_msg, broker_worker_msg, broker_msg, service_dispatch,
  with_request, dispatch_loop, deliver, worker_waiting, put_waiting, hired, enlist, obey_worker,
  service_require, worker_require, beat_all,
}
use sweet_clib.Mdp.Broker.Sound.{IsSound}
use sweet_clib.Mdp.Broker.Purge.{Purged, broker_purge-Purged}
use sweet_clib.Mdp.Broker.Handling.{EndsSound}
use sweet_clib.Mdp.Broker.Mmi.{mmi_code, offers}
use sweet_clib.Mdp.Broker.Clients.{broker_client_msg-mmi}
use sweet_clib.Mdp.Broker.Rounds.{
  Session, started, next, IsProper, Beaten, broker_beat-Beaten, Session-broker_round,
}
use sweet_clib.Tests.Messages.{plain_world}

abbrev echo : Bytes
echo = b'e' ∷ b'c' ∷ b'h' ∷ b'o' ∷ []

abbrev echo_service : Service plain_world
echo_service = record { name = echo; requests = []; waiting = 2 ∷ []; workers = 1 }

abbrev echo_worker : ℕ → Worker
echo_worker expiry = record {
  id_string = 9 ∷ [];
  identity = 9 ∷ [];
  service = some 1;
  expiry = expiry;
}

-- The service is at 1 and its worker at 2, which waits.
abbrev staffed : ℕ → Broker plain_world
staffed expiry = record {
  services = λ q. if strcmp_eq q echo then some 1 else none;
  workers = λ q. if strcmp_eq q (9 ∷ []) then some 2 else none;
  waiting = 2 ∷ [];
  heartbeat_at = 2500;
  service_at = λ p. if p == 1 then some echo_service else none;
  worker_at = λ p. if p == 2 then some (echo_worker expiry) else none;
  sent = [];
  readings = 3;
}

staffed-IsSound : (expiry : ℕ) → IsSound plain_world (staffed expiry)
staffed-IsSound expiry = record {
  known = λ p. elim (Bool-cases (p == 2)) [
    | inl a ↦ rw (a, strcmp_eq_self (9 ∷ [])) (ground arith)
    | inr a ↦ rw a refl
  ];
  employed = λ p. elim (Bool-cases (p == 2)) [ inl a ↦ rw a refl | inr a ↦ rw a refl ];
  alive = refl;
  once = refl;
  own = λ s. elim (Bool-cases (s == 1)) [
    | inl a ↦ let same : s ≡ 1 = ground arith in rw same refl
    | inr a ↦ rw a refl
  ];
  enrolled = λ q. elim (Bool-cases (strcmp_eq q (9 ∷ []))) [
    | inl a ↦ rw a (ap (strcmp_eq (9 ∷ [])) (eq_of_strcmp q (9 ∷ []) a) ∙ strcmp_eq_self (9 ∷ []))
    | inr a ↦ rw a refl
  ];
  listed = λ n. elim (Bool-cases (strcmp_eq n echo)) [ inl a ↦ rw a refl | inr a ↦ rw a refl ];
}

-- The worker's expiry is past.
broker_purge-Purged_example :
    (b' : Broker plain_world) × (broker_purge plain_world (staffed 100) ≡ ok b')
    × Purged plain_world (staffed 100) b'
broker_purge-Purged_example = broker_purge-Purged plain_world (staffed 100) (staffed-IsSound 100)

broker_beat-Beaten_example :
    (b' : Broker plain_world) × (broker_beat plain_world (staffed 9000) ≡ ok b')
    × Beaten plain_world (staffed 9000) b'
broker_beat-Beaten_example =
    broker_beat-Beaten plain_world (staffed 9000) (staffed-IsSound 9000) refl

broker_client_msg-mmi_example :
    (b' : Broker plain_world) × (a : List Bytes) × (broker_client_msg plain_world
        (staffed 9000)
        (7 ∷ [])
        (mmi_service ∷ echo ∷ [])
        5
      ≡ ok b')
    × (b'.sent ≡ [] ++ a ∷ [])
    × (a
        ≡ (7 ∷ [])
          ∷ []
          ∷ mdpc_client
          ∷ mmi_service
          ∷ with_last
              (mmi_code plain_world
                (strcmp_eq mmi_service mmi_service)
                (offers plain_world (staffed 9000) echo))
              (echo ∷ []))
    × IsSound plain_world b'
unfolding strcmp_eq
broker_client_msg-mmi_example =
    broker_client_msg-mmi plain_world (staffed 9000) (7 ∷ []) mmi_service (mmi_service ∷ echo ∷ [])
      echo [] 5 refl refl (staffed-IsSound 9000) refl

abbrev ready_message : List Bytes
ready_message = (9 ∷ []) ∷ [] ∷ mdpw_worker ∷ mdpw_ready ∷ echo ∷ []

abbrev state_of : Run (Broker plain_world) → Broker plain_world
state_of (ok b) = b
state_of fault = staffed 0
state_of out_of_fuel = staffed 0

abbrev enlisted : Broker plain_world
enlisted = state_of (broker_round plain_world (broker_new plain_world) (some ready_message) 2 1)

ready-IsProper : IsProper plain_world (broker_new plain_world) ready_message
unfolding strcmp_eq broker_new
ready-IsProper = record {
  sender = 9 ∷ [];
  empty = [];
  header = mdpw_worker;
  body = mdpw_ready ∷ echo ∷ [];
  whole = refl;
  of_client = λ e. cc;
  of_worker = λ e. (
    mdpw_ready,
    echo ∷ [],
    refl,
    record { ready = λ a c d. (echo, [], refl); reply = λ a w i. cc },
  );
}

enlisted_run :
    broker_round plain_world (broker_new plain_world) (some ready_message) 2 1 ≡ ok enlisted
unfolding strcmp_eq broker_new broker_purge set_service set_worker purge_loop purge_round
    worker_send to_worker broker_round broker_beat broker_worker_msg broker_msg service_dispatch
    with_request dispatch_loop deliver worker_waiting put_waiting hired enlist obey_worker
    service_require worker_require beat_all
enlisted_run = refl

abbrev client_message : List Bytes
client_message = (7 ∷ []) ∷ [] ∷ mdpc_client ∷ echo ∷ (b'h' ∷ b'i' ∷ []) ∷ []

client-IsProper : IsProper plain_world enlisted client_message
unfolding strcmp_eq
client-IsProper = record {
  sender = 7 ∷ [];
  empty = [];
  header = mdpc_client;
  body = echo ∷ (b'h' ∷ b'i' ∷ []) ∷ [];
  whole = refl;
  of_client = λ e. (echo, b'h' ∷ b'i' ∷ [], [], refl);
  of_worker = λ e. cc;
}

enlisted-Session : Session plain_world enlisted
unfolding broker_new
enlisted-Session =
    next (broker_new plain_world) enlisted (some ready_message) 2 1 started refl refl ready-IsProper
      enlisted_run

vacant_worker : enlisted.worker_at 4 ≡ none
unfolding strcmp_eq broker_new broker_purge set_service set_worker purge_loop purge_round
    worker_send to_worker broker_round broker_beat broker_worker_msg broker_msg service_dispatch
    with_request dispatch_loop deliver worker_waiting put_waiting hired enlist obey_worker
    service_require worker_require beat_all
vacant_worker = refl

vacant_service : enlisted.service_at 3 ≡ none
unfolding strcmp_eq broker_new broker_purge set_service set_worker purge_loop purge_round
    worker_send to_worker broker_round broker_beat broker_worker_msg broker_msg service_dispatch
    with_request dispatch_loop deliver worker_waiting put_waiting hired enlist obey_worker
    service_require worker_require beat_all
vacant_service = refl

-- The worker is ready, and a client asks.
Session-broker_round_example :
    EndsSound plain_world (broker_round plain_world enlisted (some client_message) 4 3)
Session-broker_round_example =
    Session-broker_round plain_world enlisted (some client_message) 4 3 enlisted-Session
      vacant_worker vacant_service client-IsProper
