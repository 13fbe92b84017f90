-- ===== src/Server.antt =====
-- src/server.c: the server's data, and its error codes. The inbox, the workers, the dispatch of
-- messages, the Common Access Pipe and the listening threads are the children.
--
-- A string that the server copied is given by its text, without the terminator.
pub mod Inbox
pub mod Workers
pub mod Dispatch
pub mod Directory
pub mod Lifecycle
pub mod CommonPipe
pub mod Listen
pub mod Sound
pub mod Steps
mod Tests
use liboctopipes.Prelude.{ℕ, Bool, true, false, Option, none, some, List, [], ◌∷◌}
use liboctopipes.Types.{Outcome, ok, fault, null_dereference, Error, Bytes, Message}

-- OctopipesServerError.
pub data ServerError : Type 0 where
  success bad_alloc uninitialized bad_packet bad_checksum unsupported_version : ServerError
  open_failed write_failed read_failed cap_timeout thread_error thread_already_running : ServerError
  worker_exists worker_not_found worker_already_running worker_not_running : ServerError
  no_recipient bad_client_dir unknown : ServerError

abbrev pub is_success : ServerError → Bool
is_success success = true
is_success _ = false

-- to_server_error. What the `switch` does not name is UNKNOWN.
unfoldable pub to_server_error : Error → ServerError
to_server_error Error.bad_alloc = bad_alloc
to_server_error Error.bad_checksum = bad_checksum
to_server_error Error.bad_packet = bad_packet
to_server_error Error.cap_timeout = cap_timeout
to_server_error Error.open_failed = open_failed
to_server_error Error.read_failed = read_failed
to_server_error Error.success = success
to_server_error Error.thread = thread_error
to_server_error Error.uninitialized = uninitialized
to_server_error Error.unsupported_version = unsupported_version
to_server_error Error.write_failed = write_failed
to_server_error _ = unknown

-- The `message` of an OctopipesServerMessage: NULL, a message, or the message of a failed decode,
-- which was freed.
pub data Letter : Type 0 where
  no_letter dangling_letter : Letter
  letter : Message → Letter

-- OctopipesServerMessage.
pub record Entry : Type 0 where
  pub message : Letter
  pub error : ServerError

-- OctopipesServerInbox: its entries in their order. It is `none` once a reallocation failed: the
-- array is lost then, while its length stays, and the entries that are read later are not there.
abbrev pub Inbox : Type 0
Inbox = Option (List Entry)

-- OctopipesServerWorker. `active` says whether its thread runs.
pub record Worker : Type 0 where
  pub client_id : Bytes
  pub subscriptions_list : List Bytes
  pub pipe_read : Bytes
  pub pipe_write : Bytes
  pub active : Bool
  pub inbox : Inbox

-- OctopipesServerState.
pub data ServerState : Type 0 where
  init running block stopped : ServerState

-- OctopipesServer. `locked` says whether the CAP's mutex is held by the thread of the caller, and
-- `workers` is `none` once a reallocation of the array failed, while its length stays.
pub record Server : Type 0 where
  pub version : ℕ
  pub state : ServerState
  pub cap_pipe : Bytes
  pub client_folder : Bytes
  pub locked : Bool
  pub cap_inbox : Option Inbox
  pub workers : Option (List Worker)

abbrev pub is_running : ServerState → Bool
is_running running = true
is_running _ = false

abbrev pub is_blocked : ServerState → Bool
is_blocked block = true
is_blocked _ = false

-- A read of the array of workers.
abbrev pub registry : Server → Outcome (List Worker)
registry server = elim server.workers [ none ↦ fault null_dereference | some workers ↦ ok workers ]

-- The array after a failed reallocation. One of no entries is none to lose.
abbrev pub lost {ℓ} : {A : Type ℓ} → List A → Option (List A)
lost [] = some []
lost (x ∷ xs) = none
