-- ===== src/Tests/Exchanges.antt =====
-- A request and a reply through the broker: service 1 has the worker 2.
use sweet_clib.Prelude.{◌≡◌, refl, false, none, some, [], ◌∷◌, if◌then◌else◌, ◌==◌}
use sweet_clib.Text.{Bytes, strcmp_eq}
use sweet_clib.Mdp.Client.{addressed, mdcli2_send}
use sweet_clib.Mdp.Worker.{Mdwrk}
use sweet_clib.Mdp.Broker.{Worker, Service}
use sweet_clib.Mdp.Broker.Objects.{Broker}
use sweet_clib.Mdp.Exchange.{Exchanged, opened-mdwrk_recv}
use sweet_clib.Tests.Messages.{plain_zmsg, plain_world}

abbrev echo : Bytes
echo = b'e' ∷ b'c' ∷ b'h' ∷ b'o' ∷ []

abbrev hello : Bytes
hello = b'h' ∷ b'i' ∷ []

abbrev worker : Mdwrk
worker = record {
  service = echo;
  heartbeat_at = 2500;
  liveness = 2;
  heartbeat = 2500;
  reconnect = 2500;
  expect_reply = false;
  reply_to = none;
}

abbrev served : Service plain_world
served = record { name = echo; requests = []; waiting = 2 ∷ []; workers = 1 }

abbrev hired_worker : Worker
hired_worker = record { id_string = 9 ∷ []; identity = 9 ∷ []; service = some 1; expiry = 9000 }

abbrev broker : Broker plain_world
broker = record {
  services = λ q. if strcmp_eq q echo then some 1 else none;
  workers = λ q. if strcmp_eq q (9 ∷ []) then some 2 else none;
  waiting = 2 ∷ [];
  heartbeat_at = 2500;
  service_at = λ p. if p == 1 then some served else none;
  worker_at = λ p. if p == 2 then some hired_worker else none;
  sent = [];
  readings = 3;
}

opened-mdwrk_recv_example :
    Exchanged plain_world broker broker broker worker hired_worker 2 1 served [] [] 3 4 0 0 0 []
      (7 ∷ [])
      echo
      (hello ∷ [])
      (hello ∷ [])
    × (mdcli2_send plain_zmsg echo (hello ∷ []) ≡ [] ∷ addressed plain_zmsg echo (hello ∷ []))
unfolding strcmp_eq
opened-mdwrk_recv_example =
    opened-mdwrk_recv plain_world broker broker broker worker hired_worker hired_worker 2 1 1 served
      served [] [] 3 4 0 0 0 [] (7 ∷ []) echo hello hello [] [] (hello ∷ []) (hello ∷ []) refl refl
      refl refl refl refl refl refl refl refl
