-- ===== src/Server/CommonPipe/Refusals.antt =====
-- The requests that the server does not fulfil.
use liboctopipes.Prelude.{
  le→leb, arith, ◌≡◌, refl, Bool, true, false, Option, none, some, List, [], ◌∷◌, length,
  Bool-cases, inl, inr,
}
use native.Mathlib.Nat.{add-zero}
use liboctopipes.Types.{ok, fault, pending, overread, null_dereference, ◌>>=◌, Bytes, Message}
use liboctopipes.Memory.{read_pointer, same_bytes}
use liboctopipes.Cap.{parse_unsubscribe, prepare_assign, cap_unsubscription}
use liboctopipes.Cap.Subscribe.{
  length-buffers, group_frames, subscription_payload, parse_subscribe-group_frames,
}
use liboctopipes.Client.{SendScript}
use liboctopipes.Server.{
  ServerError, uninitialized, is_success, Inbox, letter, Worker, Server, ServerState, is_running,
}
use liboctopipes.Server.Inbox.{message_inbox_dequeue}
use liboctopipes.Server.Workers.{is_worker, start_worker, is_subscribed}
use liboctopipes.Server.CommonPipe.{
  CapScript, cap_reply, answer_client, answer_refusal, manage_subscription, find_worker,
  manage_unsubscription, handle_cap_message,
}
use liboctopipes.Server.CommonPipe.Process.{
  process_cap_entry, process_cap_once, cap_sessions, process_cap_all,
}
use liboctopipes.Server.CommonPipe.Answers.{willing}

-- A subscription under a name that a worker has already is not answered with NAME_ALREADY_TAKEN:
-- the server copies paths of 2^64 - 1 bytes from NULL. The request is complete, and no allocation
-- fails.
pub manage_subscription_taken :
    (server : Server) (workers : List Worker) (client : Bytes) (texts : List Bytes)
    (out : SendScript)
    → server.workers ≡ some workers
    → is_worker client workers ≡ true
    → manage_subscription
        (willing out)
        server
        client
        (subscription_payload (length texts) (group_frames texts))
      ≡ fault null_dereference
unfolding manage_subscription start_worker is_subscribed answer_refusal answer_client prepare_assign
    read_pointer
manage_subscription_taken server workers client texts out known taken = rw (
  rw add-zero at (parse_subscribe-group_frames texts 0),
  known,
  taken,
  length-buffers texts,
  le→leb (length texts) (length texts) (omega arith),
)

find_worker_overread :
    (client : Bytes) (workers : List Worker)
    → is_worker client workers ≡ false
    → find_worker client workers ≡ fault overread
unfolding find_worker
find_worker_overread client [] h = refl
find_worker_overread client (w ∷ workers) h = elim (Bool-cases (same_bytes w.client_id client)) [
  | inl same ↦ cc
  | inr ne ↦ rw (find_worker, ne, find_worker_overread client workers (rw ne at h))
]

-- An unsubscription of a client that has no worker, on a server that has some: the search for the
-- worker has no bound, and reads past the array of workers.
pub manage_unsubscription_unknown :
    (server : Server) (worker : Worker) (workers : List Worker) (client rest : Bytes)
    (stopping : Bool × Bool)
    → server.workers ≡ some (worker ∷ workers)
    → is_worker client (worker ∷ workers) ≡ false
    → manage_unsubscription stopping server client (cap_unsubscription ∷ rest) ≡ fault overread
unfolding manage_unsubscription parse_unsubscribe
manage_unsubscription_unknown server worker workers client rest stopping known unknown =
    rw (known, find_worker_overread client (worker ∷ workers) unknown)

-- The server while it handles the only entry of the inbox.
abbrev pub holding : Server → Server
holding server = record server { locked = true; cap_inbox = some (some []) }

-- A message on the Common Access Pipe that the server refuses without a change of its state:
-- octopipes_server_process_cap_once keeps the mutex of the inbox, so the next call does not return.
pub process_cap_once_refused :
    (server : Server) (m : Message) (error code : ServerError) (script next : CapScript)
    → server.state ≡ ServerState.running
    → server.locked ≡ false
    → server.cap_inbox ≡ some (some (record { message = letter m; error = error } ∷ []))
    → handle_cap_message script (holding server) m ≡ cap_reply code (holding server)
    → is_success code ≡ false
    → (process_cap_once script server >>= λ p. process_cap_once next p.reply.server) ≡ pending
unfolding process_cap_once process_cap_entry message_inbox_dequeue
process_cap_once_refused server m error code script next runs free entry handled fails =
    rw (runs, entry, free, handled, fails, runs)

process_cap_all_with :
    (server : Server) (inbox : Option Inbox) (script : CapScript) (scripts : List CapScript)
    → server.cap_inbox ≡ inbox
    → is_running server.state ≡ true
    → (process_cap_all (script ∷ scripts) server >>= λ p. ok p.reply.code) ≡ ok uninitialized
unfolding process_cap_all cap_sessions process_cap_once
process_cap_all_with server none script scripts h runs =
    rw (process_cap_all, runs, h, cap_sessions, runs, h)
process_cap_all_with server (some inbox) script scripts h runs = rw (process_cap_all, runs, h)

-- octopipes_server_process_cap_all returns UNINITIALIZED for every server, also for one that was
-- initialised and runs, and whatever is in its inbox.
pub process_cap_all_uninitialized :
    (server : Server) (script : CapScript) (scripts : List CapScript)
    → (process_cap_all (script ∷ scripts) server >>= λ p. ok p.reply.code) ≡ ok uninitialized
unfolding process_cap_all
process_cap_all_uninitialized server script scripts = elim (Bool-cases (is_running server.state)) [
  | inl runs ↦ process_cap_all_with server server.cap_inbox script scripts refl runs
  | inr idle ↦ rw (process_cap_all, idle)
]
