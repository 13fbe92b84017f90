-- ===== src/Server/Dispatch.antt =====
-- octopipes_server_dispatch_message, and octopipes_server_process_first, _once and _all.
pub mod Recipients
pub mod Failures
pub mod Sessions
mod Tests
use liboctopipes.Prelude.{
  ℕ, zero, suc, ◌+◌, Bool, true, false, ◌&&◌, Option, none, some, List, [], ◌∷◌, ◌++◌,
  if◌then◌else◌,
}
use liboctopipes.Types.{Outcome, ok, fault, dangling, pending, ◌>>=◌, Bytes, Heap, Message}
use liboctopipes.Memory.{scan_string}
use liboctopipes.Client.{SendScript}
use liboctopipes.Server.{
  ServerError, success, no_recipient, is_success, no_letter, dangling_letter, letter, Entry, Worker,
}
use liboctopipes.Server.Inbox.{message_inbox_dequeue}
use liboctopipes.Server.Workers.{worker_match_subscription, worker_send}

-- The answers of the system to the worker_send of one worker.
pub record Sending : Type 0 where
  pub heap : Heap
  pub out : SendScript

-- What a dispatch returns, with the bytes that it wrote, each behind the path of their FIFO.
pub record Dispatched : Type 0 where
  pub code : ServerError
  pub failed : Option Bytes
  pub written : List (Bytes × Bytes)

-- The loop over the workers, from worker i on. encode sets the checksum of the message, which goes on
-- to the next worker.
unfoldable pub dispatch_workers :
    (ℕ → Sending) → ℕ → List Worker → Bytes → Message → List (Bytes × Bytes) → Outcome Dispatched
dispatch_workers answers i [] remote m written =
    ok (record { code = success; failed = none; written = written })
dispatch_workers answers i (worker ∷ workers) remote m written =
    elim (worker_match_subscription worker remote) [
      | false ↦ dispatch_workers answers (suc i) workers remote m written
      | true ↦ do
        sent ← worker_send (answers i).heap (answers i).out m
        elim (is_success sent.code) [
          | true ↦
              dispatch_workers answers (suc i) workers remote sent.message
                (written ++ (worker.pipe_write, sent.written) ∷ [])
          | false ↦ ok (record {
            code = sent.code;
            failed = some worker.client_id;
            written = written ++ (worker.pipe_write, sent.written) ∷ [];
          })
        ]
    ]

-- octopipes_server_dispatch_message.
unfoldable pub dispatch_message : (ℕ → Sending) → List Worker → Message → Outcome Dispatched
dispatch_message answers workers m = elim m.remote [
  | none ↦ ok (record { code = no_recipient; failed = none; written = [] })
  | some remote ↦ do text ← scan_string remote; dispatch_workers answers 0 workers text m []
]

-- What processing inboxes returns: its code, the client that failed, the number of entries, the
-- workers as they are left, and what was written.
pub record Processed : Type 0 where
  pub code : ServerError
  pub client : Option Bytes
  pub requests : ℕ
  pub workers : List Worker
  pub written : List (Bytes × Bytes)

-- An entry that was taken out of an inbox. A message that was freed is not NULL, so it is
-- dispatched. An entry without a message counts as processed, and its error is returned.
unfoldable pub process_entry :
    (ℕ → Sending) → List Worker → Entry → ℕ → List (Bytes × Bytes) → Outcome Processed
process_entry answers workers entry requests written = elim entry.message [
  | no_letter ↦ ok (record {
    code = entry.error;
    client = none;
    requests = suc requests;
    workers = workers;
    written = written;
  })
  | dangling_letter ↦ fault dangling
  | letter m ↦ do
    sent ← dispatch_message answers workers m
    ok (record {
      code = sent.code;
      client = sent.failed;
      requests = (if is_success sent.code then suc requests else requests);
      workers = workers;
      written = written ++ sent.written;
    })
]

-- Whether the entry was a message.
abbrev pub is_letter : Entry → Bool
is_letter entry = elim entry.message [
  | no_letter ↦ false
  | dangling_letter ↦ true
  | letter m ↦ true
]

-- The loop of process_first: `passed` are the workers before, whose inboxes are empty.
unfoldable pub first_among : (ℕ → Sending) → List Worker → List Worker → Outcome Processed
first_among answers passed [] =
    ok (record { code = success; client = none; requests = 0; workers = passed; written = [] })
first_among answers passed (worker ∷ workers) = do
  taken ← message_inbox_dequeue worker.inbox
  let left = record worker { inbox = taken.1 }
  elim taken.0 [
    | none ↦ first_among answers (passed ++ left ∷ []) workers
    | some entry ↦ process_entry answers (passed ++ left ∷ workers) entry 0 []
  ]

-- octopipes_server_process_first.
unfoldable pub process_first : (ℕ → Sending) → List Worker → Outcome Processed
process_first answers workers = first_among answers [] workers

-- The loop of process_once. It goes on behind a message that was dispatched, and returns behind any
-- other entry. `answers i j` are those to the sending to worker j of what came from worker i.
unfoldable pub once_among :
    (ℕ → ℕ → Sending) → ℕ → List Worker → List Worker → ℕ → List (Bytes × Bytes) → Outcome Processed
once_among answers i passed [] requests written = ok (record {
  code = success;
  client = none;
  requests = requests;
  workers = passed;
  written = written;
})
once_among answers i passed (worker ∷ workers) requests written = do
  taken ← message_inbox_dequeue worker.inbox
  let left = record worker { inbox = taken.1 }
  elim taken.0 [
    | none ↦ once_among answers (suc i) (passed ++ left ∷ []) workers requests written
    | some entry ↦ do
      done ← process_entry (answers i) (passed ++ left ∷ workers) entry requests written
      elim (is_letter entry && is_success done.code) [
        | true ↦ once_among answers (suc i) (passed ++ left ∷ []) workers done.requests done.written
        | false ↦ ok done
      ]
  ]

-- octopipes_server_process_once.
unfoldable pub process_once : (ℕ → ℕ → Sending) → List Worker → Outcome Processed
process_once answers workers = once_among answers 0 [] workers 0 []

-- A session of process_all: the answers of the system, and the workers as the listening threads have
-- left them when it starts.
pub record Session : Type 0 where
  pub answers : ℕ → ℕ → Sending
  pub listen : List Worker → List Worker

-- octopipes_server_process_all: sessions until one has nothing to process.
unfoldable pub process_all :
    List Session → List Worker → ℕ → List (Bytes × Bytes) → Outcome Processed
process_all [] workers requests written = pending
process_all (session ∷ sessions) workers requests written = do
  done ← process_once session.answers (session.listen workers)
  let all = written ++ done.written
  elim (is_success done.code) [
    | false ↦ ok (record done { requests = requests; written = all })
    | true ↦ elim done.requests [
      | zero ↦ ok (record done { requests = requests; written = all })
      | suc n ↦ process_all sessions done.workers (requests + suc n) all
    ]
  ]
