-- ===== src/Transport.antt =====
-- From one client to another: src/client.c and src/server.c together.
pub mod Carried
pub mod Delivered
mod Tests
use liboctopipes.Prelude.{ℕ, ◌+◌, true, some, List, [], ◌∷◌, ◌++◌, length, if◌then◌else◌}
use liboctopipes.Types.{Outcome, ok, ◌>>=◌, Bytes, ample}
use liboctopipes.Memory.{terminated, same_bytes}
use liboctopipes.Pipes.{ReadEvent}
use liboctopipes.Client.{Client, SendScript}
use liboctopipes.Client.Send.{send_ex}
use liboctopipes.Server.{Worker}
use liboctopipes.Server
use liboctopipes.Server.Dispatch.{Sending, Processed, process_first}
use liboctopipes.Server.Listen.{listen_round}

-- A message that a client sends, with the answers of the system on its way: to the client's send, to the
-- thread of the client's worker, which reads what was written, and to the server's dispatch.
pub record Post : Type 0 where
  pub payload : Bytes
  pub ttl : ℕ
  pub options : ℕ
  pub out : SendScript
  pub reads : Bytes → List ReadEvent
  pub answers : ℕ → Sending

-- The bytes that go into the FIFO of this path, call by call.
abbrev pub carried : Bytes → List (Bytes × Bytes) → List Bytes
carried path [] = []
carried path (sent ∷ written) =
    let rest = carried path written in if same_bytes sent.0 path then sent.1 ∷ rest else rest

-- The thread of the first worker reads a frame, and octopipes_server_process_first is called.
abbrev pub relay : Post → Bytes → List Worker → Outcome Processed
relay post frame [] = process_first post.answers []
relay post frame (worker ∷ workers) =
    listen_round ample (record { opened = true; events = post.reads frame }) worker.inbox
    >>= λ inbox. process_first post.answers (record worker { inbox = inbox } ∷ workers)

-- The client sends its messages to a remote one by one, and each is relayed. The bytes that the server
-- writes into the FIFO of a path come out.
abbrev pub publish : Client → Bytes → List Worker → Bytes → List Post → Outcome (List Bytes)
publish c name workers path [] = ok []
publish c name workers path (post ∷ posts) = do
  sent ←
      send_ex ample post.out (some (terminated name)) (some post.payload) (length post.payload)
        post.ttl post.options (some c)
  done ← relay post sent.written workers
  more ← publish sent.reply.client name done.workers path posts
  ok (carried path done.written ++ more)
