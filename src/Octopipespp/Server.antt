-- ===== src/Octopipespp/Server.antt =====
-- liboctopipespp/src/server.cpp: the class Server around OctopipesServer.
--
-- What the constructor throws is the error BAD_ALLOC.
pub mod Sessions
pub mod Starting
use liboctopipes.Prelude.{
  ℕ, zero, suc, ◌+◌, Bool, true, false, Option, none, some, List, [], ◌∷◌, ◌++◌, length,
}
use liboctopipes.Types
use liboctopipes.Types.{Outcome, ok, err, fault, dangling, pending, ◌>>=◌, handle, Bytes, Heap}
use liboctopipes.Memory.{terminated}
use liboctopipes.Server
use liboctopipes.Server.{Server, Worker}
use liboctopipes.Server.Workers
use liboctopipes.Server.Workers.{WorkerScript}
use liboctopipes.Server.Lifecycle
use liboctopipes.Server.Lifecycle.{StartScript}
use liboctopipes.Server.Dispatch
use liboctopipes.Server.Dispatch.{Sending, Session, Processed}
use liboctopipes.Server.CommonPipe.{CapScript}
use liboctopipes.Server.CommonPipe.Process
use liboctopipes.Server.CommonPipe.Process.{CapProcessed}
use liboctopipes.Octopipespp.{ServerError, translate_octopipes_server_error}

abbrev pub is_success : ServerError → Bool
is_success ServerError.success = true
is_success _ = false

-- Server(cap_path, client_dir, version).
unfoldable pub make_server : Heap → (cap_path client_dir : Bytes) → ℕ → Outcome Server
make_server heap cap_path client_dir version =
    handle (Lifecycle.server_init heap (terminated cap_path) (terminated client_dir) version)
      (λ code. err Types.bad_alloc) (λ server. ok server)

-- ~Server().
unfoldable pub delete_server : Bool → List Bool → Server → Outcome (Unit {0})
delete_server joined answers server = do
  code ← Lifecycle.server_cleanup joined answers (some server)
  ok tt

-- Server::startCapListener and stopCapListener.
unfoldable pub start_cap_listener : StartScript → Server → Outcome (ServerError × Server)
start_cap_listener script server = do
  done ← Lifecycle.start_cap_listener script server
  ok (translate_octopipes_server_error done.0, done.1)

unfoldable pub stop_cap_listener : Bool → Server → ServerError × Server
stop_cap_listener joined server =
    let done = Lifecycle.stop_cap_listener joined server in
    (translate_octopipes_server_error done.0, done.1)

-- Server::processCapOnce and processCapAll.
unfoldable pub process_cap_once : CapScript → Server → Outcome (ServerError × CapProcessed)
process_cap_once script server = do
  done ← Process.process_cap_once script server
  ok (translate_octopipes_server_error done.reply.code, done)

unfoldable pub process_cap_all : List CapScript → Server → Outcome (ServerError × CapProcessed)
process_cap_all scripts server = do
  done ← Process.process_cap_all scripts server
  ok (translate_octopipes_server_error done.reply.code, done)

-- The entries of the array of subscriptions that are set: its index is never raised, so each one goes
-- into the first entry.
unfoldable pub last_group : List Bytes → List Bytes
last_group [] = []
last_group (text ∷ []) = terminated text ∷ []
last_group (text ∷ next ∷ texts) = last_group (next ∷ texts)

-- The loop that deletes the array's entries: it deletes the first one as often as there are
-- subscriptions.
unfoldable pub delete_groups : List Bytes → Outcome (Unit {0})
delete_groups [] = ok tt
delete_groups (text ∷ []) = ok tt
delete_groups (text ∷ next ∷ texts) = fault dangling

-- Server::startWorker.
unfoldable pub start_worker :
    Heap
    → Bool
    → WorkerScript
    → Server
    → Bytes
    → List Bytes
    → Bytes
    → Bytes
    → Outcome (ServerError × Server)
start_worker heap grown script server client subscriptions tx_pipe rx_pipe = do
  started ←
      Workers.start_worker heap grown script server client (last_group subscriptions)
        (length subscriptions) tx_pipe rx_pipe
  u ← delete_groups subscriptions
  ok (translate_octopipes_server_error started.0, started.1)

-- Server::stopWorker.
unfoldable pub stop_worker :
    (shrunk joined : Bool) → Server → Bytes → Outcome (ServerError × Server)
stop_worker shrunk joined server client = do
  left ← Workers.stop_worker shrunk joined server client
  ok (translate_octopipes_server_error left.0, left.1)

-- What processing inboxes returns: its code, the caller's string for the client that failed and its
-- number of requests, the workers as they are left, and what was written.
pub record Report : Type 0 where
  pub code : ServerError
  pub client : Bytes
  pub requests : ℕ
  pub workers : List Worker
  pub written : List (Bytes × Bytes)

-- The string, set if the C library names a client.
abbrev pub named : Option Bytes → Bytes → Bytes
named none client = client
named (some name) client = name

abbrev pub report_of : Processed → Bytes → ℕ → List (Bytes × Bytes) → Report
report_of done client requests written = record {
  code = translate_octopipes_server_error done.code;
  client = named done.client client;
  requests = requests;
  workers = done.workers;
  written = written;
}

-- Server::processFirst.
unfoldable pub process_first : (ℕ → Sending) → List Worker → Bytes → Outcome Report
process_first answers workers client = do
  done ← Dispatch.process_first answers workers
  ok (report_of done client done.requests done.written)

-- Server::processOnce.
unfoldable pub process_once : (ℕ → ℕ → Sending) → List Worker → Bytes → Outcome Report
process_once answers workers client = do
  done ← Dispatch.process_once answers workers
  ok (report_of done client done.requests done.written)

-- Server::processAll, which does not call octopipes_server_process_all but has a loop of its own. The
-- number of requests is not set to 0 first.
unfoldable pub process_all :
    List Session → List Worker → Bytes → ℕ → List (Bytes × Bytes) → Outcome Report
process_all [] workers client requests written = pending
process_all (session ∷ sessions) workers client requests written = do
  done ← process_once session.answers (session.listen workers) client
  let all = written ++ done.written
  elim (is_success done.code) [
    | false ↦ ok (record done { requests = requests; written = all })
    | true ↦ elim done.requests [
      | zero ↦ ok (record done { requests = requests; written = all })
      | suc n ↦ process_all sessions done.workers done.client (requests + suc n) all
    ]
  ]

-- Server::isSubscribed.
unfoldable pub is_subscribed : List Worker → Bytes → Bool
is_subscribed workers client = Server.is_success (Workers.is_subscribed workers client)

-- Server::getSubscriptions. The code of the C library is not looked at.
unfoldable pub get_subscriptions : Heap → List Worker → Bytes → List Bytes
get_subscriptions heap workers client = (Workers.get_subscriptions heap workers client).1

-- Server::getClients.
unfoldable pub get_clients : Heap → List Worker → List Bytes
get_clients heap workers = elim (Workers.get_clients heap workers).1 [
  | none ↦ []
  | some clients ↦ clients
]
