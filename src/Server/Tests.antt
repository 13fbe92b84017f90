-- ===== src/Server/Tests.antt =====
-- The theorems on the server at two workers, `me` and `you`, who both subscribe to group 7.
use liboctopipes.Prelude.{◌++◌, ◌≡◌, refl, true, false, Option, none, some, List, [], ◌∷◌, arith, ℕ}
use liboctopipes.Client.Subscribe.Assigned.{subscription_frame, enters}
use liboctopipes.Types.{
  Outcome, ok, fault, pending, dangling, bad_packet, ◌>>=◌, ample, Bytes, Message,
}
use liboctopipes.Serializer.{decode}
use liboctopipes.Serializer.Frame.{Packet, IsPacket, message_of, wire, packet_checksum}
use liboctopipes.Cap.Subscribe.{buffers}
use liboctopipes.Pipes.{wrote, received, hang_up}
use liboctopipes.Pipes.Delivery.{takes-Carries, comes-Delivers}
use liboctopipes.Client.{SendScript}
use liboctopipes.Client.Identity.{fresh, fresh-HasId}
use liboctopipes.Client.Subscribe.{Subscribed, subscribe}
use liboctopipes.Server.{ServerError, success, letter, Worker, Server, ServerState, registry}
use liboctopipes.Server.Workers.{
  worker_of, is_subscribed, worker_match_subscription, start_worker, stop_worker, stop_among,
}
use liboctopipes.Server.Workers.Registry.{
  all_made, Stopped, stop_worker-start_worker, stop_among-Stopped,
}
use liboctopipes.Server.Dispatch.{Sending, dispatch_message, process_first, process_all}
use liboctopipes.Server.Dispatch.Recipients.{Forwards, forwards, dispatch_message-forwards}
use liboctopipes.Server.Dispatch.Sessions.{loaded, IsSendable, quiet, process_all-forwards}
use liboctopipes.Server.CommonPipe.{handle_cap_message, tx_path, rx_path}
use liboctopipes.Server.CommonPipe.Process.{process_cap_once}
use liboctopipes.Server.CommonPipe.Handshake.{joined_by, answer_to, subscribe-handle_cap_message}
use liboctopipes.Server.CommonPipe.Answers.{willing, serve}
use liboctopipes.Server.CommonPipe.Refusals.{process_cap_once_refused}
use liboctopipes.Server.Listen.{listen_round}
use liboctopipes.Server.Listen.Forward.{process_first-forwards, process_first_refused}

abbrev pub me : Bytes
me = 109 ∷ 101 ∷ []

abbrev pub you : Bytes
you = 121 ∷ []

abbrev pub group : Bytes
group = 7 ∷ []

abbrev pub worker_me : Worker
worker_me = worker_of me (group ∷ []) (1 ∷ []) (2 ∷ [])

abbrev pub worker_you : Worker
worker_you = worker_of you (group ∷ []) (3 ∷ []) (4 ∷ [])

abbrev pub server : Server
server = record {
  version = 1;
  state = ServerState.running;
  cap_pipe = 99 ∷ [];
  client_folder = 100 ∷ [];
  locked = false;
  cap_inbox = some (some []);
  workers = some (worker_me ∷ []);
}

abbrev pub takes : ℕ → SendScript
takes size = record { attempts = false ∷ true ∷ []; events = wrote size ∷ [] }

-- A message of `you` to the group.
abbrev pub note : Packet
note = record { origin = you; remote = group; ttl = 60; options = 0; payload = 104 ∷ 105 ∷ [] }

pub note-IsPacket : IsPacket note
note-IsPacket = record {
  origin_fits = omega arith;
  remote_fits = omega arith;
  options_fits = omega arith;
  frame_fits = omega arith;
}

abbrev pub answers : ℕ → Sending
answers i = record { heap = ample; out = takes 21 }

pub answers-Forwards : Forwards answers note
answers-Forwards i = (refl, takes-Carries 60000 21 (omega arith))

dispatch_message-forwards_example :
    dispatch_message answers
      (worker_me ∷ worker_of [] [] [] [] ∷ worker_you ∷ [])
      (message_of note 0)
    ≡ ok (record {
      code = success;
      failed = none;
      written =
          (2 ∷ [], wire note (packet_checksum note))
          ∷ (4 ∷ [], wire note (packet_checksum note))
          ∷ [];
    })
unfolding worker_match_subscription
dispatch_message-forwards_example =
    dispatch_message-forwards answers note note-IsPacket answers-Forwards 0
      (worker_me ∷ worker_of [] [] [] [] ∷ worker_you ∷ []) (λ e. cc) ((λ e. cc), tt)

abbrev load : List (Worker × Option Packet)
load = (worker_me, some note) ∷ (worker_you, none) ∷ []

note-IsSendable : IsSendable (λ i. answers) note
note-IsSendable = (note-IsPacket, (λ e. cc), ((λ e. cc), tt), (λ i. answers-Forwards))

process_all-forwards_example :
    process_all (quiet (λ i. answers) ∷ quiet (λ i. answers) ∷ []) (loaded load) 0 []
    ≡ ok (record {
      code = success;
      client = none;
      requests = 1;
      workers = worker_me ∷ worker_you ∷ [];
      written = forwards note (worker_me ∷ worker_you ∷ []) ++ [];
    })
process_all-forwards_example =
    process_all-forwards (λ i. answers) (λ i. answers) [] load (note-IsSendable, tt)

process_first-forwards_example :
    (listen_round ample
        (record {
          opened = true;
          events = received (wire note (packet_checksum note)) true ∷ hang_up ∷ [];
        })
        (some [])
      >>= λ inbox. process_first answers (record worker_you { inbox = inbox } ∷ worker_me ∷ []))
    ≡ ok (record {
      code = success;
      client = none;
      requests = 1;
      workers = worker_you ∷ worker_me ∷ [];
      written = forwards note (worker_you ∷ worker_me ∷ []);
    })
process_first-forwards_example =
    process_first-forwards worker_you (worker_me ∷ []) answers note
      (received (wire note (packet_checksum note)) true ∷ hang_up ∷ []) note-IsPacket
      answers-Forwards (λ e. cc) ((λ e. cc), tt) (comes-Delivers 200 _ _ (omega arith))

process_first_refused_example :
    (listen_round ample
        (record { opened = true; events = received (1 ∷ 2 ∷ 3 ∷ []) true ∷ hang_up ∷ [] })
        (some [])
      >>= λ inbox. process_first answers (record worker_you { inbox = inbox } ∷ worker_me ∷ []))
    ≡ fault dangling
process_first_refused_example =
    process_first_refused worker_you (worker_me ∷ []) answers (1 ∷ 2 ∷ 3 ∷ [])
      (received (1 ∷ 2 ∷ 3 ∷ []) true ∷ hang_up ∷ []) bad_packet (unfold decode in refl)
      (comes-Delivers 200 _ _ (omega arith))

stop_worker-start_worker_example :
    (worker_match_subscription worker_you you ≡ true)
    × ((start_worker ample true all_made server you (buffers (group ∷ [])) 1 (3 ∷ []) (4 ∷ [])
          >>= λ started. registry started.1 >>= λ them. ok (is_subscribed them you))
        ≡ ok success)
    × ((start_worker ample true all_made server you (buffers (group ∷ [])) 1 (3 ∷ []) (4 ∷ [])
          >>= λ started. stop_worker true true started.1 you)
        ≡ ok (success, server))
stop_worker-start_worker_example =
    stop_worker-start_worker server (worker_me ∷ []) you (group ∷ []) (3 ∷ []) (4 ∷ []) refl refl
      (omega arith)

stop_among-Stopped_example :
    (left : List Worker) × (stop_among true me (worker_me ∷ worker_you ∷ []) ≡ ok (success, left))
    × Stopped me (worker_me ∷ worker_you ∷ []) left
stop_among-Stopped_example =
    stop_among-Stopped me (worker_me ∷ worker_you ∷ []) (refl, (refl, tt)) (refl, (refl, tt)) refl

abbrev answered : Bytes
answered = answer_to server you

abbrev entering : Outcome Subscribed
entering =
    subscribe ample (takes 22)
      (record { opened = true; events = received answered true ∷ hang_up ∷ [] })
      (buffers (group ∷ [])) (some (fresh you (99 ∷ [])))

subscribe-handle_cap_message_example :
    (entering
      ≡ ok
          (record (enters
            (fresh you (99 ∷ []))
            0
            (tx_path (100 ∷ []) you)
            (rx_path (100 ∷ []) you)) { written = subscription_frame you (group ∷ []) }))
    × ((entering >>= λ s. serve (willing (takes 44)) server s.written)
        ≡ ok (record {
          code = success;
          server = joined_by server (worker_me ∷ []) you (group ∷ []);
          written = answered;
        }))
subscribe-handle_cap_message_example =
    subscribe-handle_cap_message server (worker_me ∷ []) you (group ∷ []) (takes 44) refl refl refl
      refl (omega arith) (omega arith) (omega arith) (omega arith) (omega arith)
      (takes-Carries 5000 44 (omega arith)) (fresh you (99 ∷ [])) (takes 22)
      (received answered true ∷ hang_up ∷ [])
      (fresh-HasId you (99 ∷ []) (omega arith) (omega arith)) (λ e. cc) (refl, refl)
      (takes-Carries 5000 22 (omega arith)) (comes-Delivers 5000 _ _ (omega arith))

-- A message without a payload is refused.
abbrev empty_message : Message
empty_message = message_of (record note { payload = [] }) 0

process_cap_once_refused_example :
    (process_cap_once (willing (takes 1)) (record server {
      cap_inbox = some (some (record { message = letter empty_message; error = success } ∷ []));
    })
      >>= λ p. process_cap_once (willing (takes 1)) p.reply.server)
    ≡ pending
process_cap_once_refused_example =
    process_cap_once_refused
      (record server {
        cap_inbox = some (some (record { message = letter empty_message; error = success } ∷ []));
      })
      empty_message success ServerError.bad_packet (willing (takes 1)) (willing (takes 1)) refl refl
      refl (unfold handle_cap_message in refl) refl
