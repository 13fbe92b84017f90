-- ===== src/Server/CommonPipe/Process.antt =====
-- octopipes_server_process_cap_once and octopipes_server_process_cap_all.
use liboctopipes.Prelude.{ℕ, ◌+◌, true, false, ◌==◌, none, some, List, [], ◌∷◌, ◌++◌, if◌then◌else◌}
use liboctopipes.Types.{Outcome, ok, fault, pending, dangling, null_dereference, ◌>>=◌, Bytes}
use liboctopipes.Server.{
  success, uninitialized, is_success, Letter, no_letter, dangling_letter, letter, Server,
  is_running,
}
use liboctopipes.Server.Inbox.{message_inbox_dequeue}
use liboctopipes.Server.CommonPipe.{CapScript, CapReply, handle_cap_message}

-- What process_cap_once returns, and the number of requests.
pub record CapProcessed : Type 0 where
  pub reply : CapReply
  pub requests : ℕ

-- An entry that was taken out of the inbox, while the mutex is held. Where it holds no message the
-- error is read from `messages[0]`, of the array that dequeueing freed. Where the handler fails the
-- mutex is kept.
unfoldable pub process_cap_entry : CapScript → Server → Letter → Outcome CapProcessed
process_cap_entry script server no_letter = fault null_dereference
process_cap_entry script server dangling_letter = fault dangling
process_cap_entry script server (letter m) = do
  done ← handle_cap_message script server m
  if is_success done.code
      then ok (record {
        reply = record done { server = record done.server { locked = false } };
        requests = 1;
      })
      else ok (record { reply = done; requests = 0 })

-- octopipes_server_process_cap_once. A mutex that this thread holds already is waited for, for ever.
unfoldable pub process_cap_once : CapScript → Server → Outcome CapProcessed
process_cap_once script server =
    if is_running server.state
    then elim server.cap_inbox [
      | none ↦ ok (record {
        reply = record { code = uninitialized; server = server; written = [] };
        requests = 0;
      })
      | some inbox ↦ if server.locked then pending else (do
        taken ← message_inbox_dequeue inbox
        let held = record server { locked = true; cap_inbox = some taken.1 }
        elim taken.0 [
          | none ↦ ok (record {
            reply = record {
              code = success;
              server = record held { locked = false };
              written = [];
            };
            requests = 0;
          })
          | some entry ↦ process_cap_entry script held entry.message
        ])
    ]
    else ok (record {
      reply = record { code = uninitialized; server = server; written = [] };
      requests = 0;
    })

-- The `do` loop of process_cap_all: one script for each round. `requests` is the sum so far.
unfoldable pub cap_sessions : List CapScript → Server → ℕ → Bytes → Outcome CapProcessed
cap_sessions [] server requests written = pending
cap_sessions (script ∷ scripts) server requests written = do
  done ← process_cap_once script server
  let all = record done.reply { written = written ++ done.reply.written }
  elim (is_success done.reply.code) [
    | false ↦ ok (record { reply = all; requests = requests })
    | true ↦ elim (done.requests == 0) [
      | true ↦ ok (record { reply = all; requests = requests })
      | false ↦ cap_sessions scripts done.reply.server (requests + done.requests) all.written
    ]
  ]

-- octopipes_server_process_cap_all. The test on the inbox is the wrong way round: with an inbox the
-- call returns UNINITIALIZED.
unfoldable pub process_cap_all : List CapScript → Server → Outcome CapProcessed
process_cap_all scripts server =
    if is_running server.state
    then elim server.cap_inbox [
      | some inbox ↦ ok (record {
        reply = record { code = uninitialized; server = server; written = [] };
        requests = 0;
      })
      | none ↦ cap_sessions scripts server 0 []
    ]
    else ok (record {
      reply = record { code = uninitialized; server = server; written = [] };
      requests = 0;
    })
