-- ===== src/Server/CommonPipe/Tests.antt =====
-- The unsubscription of `you` at the server with the workers `me` and `you`.
use liboctopipes.Prelude.{◌≡◌, refl, true, some, List, [], ◌∷◌, arith}
use liboctopipes.Types.{Outcome, Bytes, ok, ◌>>=◌, ample, Error, subscribed, unsubscribed}
use liboctopipes.Pipes.Delivery.{takes-Carries, comes-Delivers}
use liboctopipes.Cap.{cap_unsubscription}
use liboctopipes.Client.{Client}
use liboctopipes.Client.Identity.{fresh, fresh-HasId, HasId}
use liboctopipes.Client.Requests.Wire.{request_frame}
use liboctopipes.Client.Unsubscribe.{unsubscribe}
use liboctopipes.Server.{success, Worker, Server}
use liboctopipes.Server.Workers.Registry.{Stopped}
use liboctopipes.Server.CommonPipe.{tx_path, rx_path}
use liboctopipes.Server.CommonPipe.Visits.{left_by}
use liboctopipes.Server.CommonPipe.Requests.{through, idle, through-subscribe-unsubscribe}
use liboctopipes.Client.Subscribe.{Subscribed, subscribe}
use liboctopipes.Pipes.{ReadEvent, received, hang_up}
use liboctopipes.Client.Send.{Transmission}
use liboctopipes.Cap.Subscribe.{buffers}
use liboctopipes.Server.CommonPipe.Handshake.{joined_by, answer_to}
use liboctopipes.Server.CommonPipe.Answers.{willing, serve}
use liboctopipes.Server.CommonPipe.Leaving.{unsubscribe-handle_cap_message}
use liboctopipes.Server.Tests.{you, group, worker_me, worker_you, server, takes}

abbrev both : Server
both = record server { workers = some (worker_me ∷ worker_you ∷ []) }

abbrev member : Client
member = record (fresh you (99 ∷ [])) { state = subscribed }

member-HasId : HasId member you
member-HasId = record {
  speaks = refl;
  named = refl;
  sized = refl;
  is_text = omega arith;
  is_short = omega arith;
}

abbrev leaving : Outcome Transmission
leaving = unsubscribe ample (takes 19) (some member)

unsubscribe-handle_cap_message_example :
    (leaving
      ≡ ok (record {
        reply = record {
          code = Error.success;
          client = record member { state = unsubscribed };
          calls = [];
        };
        written = request_frame you (cap_unsubscription ∷ []);
      }))
    × ((left : List Worker) × ((leaving >>= λ t. serve (willing (takes 19)) both t.written)
          ≡ ok (record {
            code = success;
            server = record both { workers = some left };
            written = [];
          }))
        × Stopped you (worker_me ∷ worker_you ∷ []) left)
unsubscribe-handle_cap_message_example =
    unsubscribe-handle_cap_message both (worker_me ∷ worker_you ∷ []) you refl (refl, (refl, tt))
      (refl, (refl, tt)) refl member (takes 19) (takes 19) member-HasId (λ e. cc) refl
      (takes-Carries 5000 19 (omega arith))

-- The server has the worker `me` alone, and `you` comes and goes with the group 7.
abbrev visitor : Client
visitor = fresh you (99 ∷ [])

abbrev answered : Bytes
answered = answer_to server you

-- A request comes in one piece.
abbrev at_once : Bytes → List ReadEvent
at_once frame = received frame true ∷ hang_up ∷ []

abbrev visits : Outcome Subscribed
visits =
    subscribe ample (takes 22)
      (record { opened = true; events = received answered true ∷ hang_up ∷ [] })
      (buffers (group ∷ [])) (some visitor)

through-subscribe-unsubscribe_example :
    ((visits >>= λ s. through (willing (takes 44)) (at_once s.written) (idle server))
      ≡ ok (record {
        reply = record {
          code = success;
          server = joined_by (idle server) (worker_me ∷ []) you (group ∷ []);
          written = answered;
        };
        requests = 1;
      }))
    × ((visits >>= λ s. unsubscribe ample (takes 19) (some s.reply.client) >>= λ t. ok t.reply)
        ≡ ok (record {
          code = Error.success;
          client = left_by visitor (tx_path (100 ∷ []) you) (rx_path (100 ∷ []) you);
          calls = [];
        }))
    × ((visits >>= λ s. through (willing (takes 44)) (at_once s.written) (idle server) >>= λ joined.
          unsubscribe ample (takes 19) (some s.reply.client) >>= λ t.
          through (willing (takes 44)) (at_once t.written) joined.reply.server)
        ≡ ok (record {
          reply = record { code = success; server = idle server; written = [] };
          requests = 1;
        }))
through-subscribe-unsubscribe_example =
    through-subscribe-unsubscribe server (worker_me ∷ []) you (group ∷ []) (takes 44) refl refl refl
      (omega arith) (omega arith) (omega arith) (omega arith) (omega arith)
      (takes-Carries 5000 44 (omega arith)) visitor (takes 22) (takes 19)
      (received answered true ∷ hang_up ∷ []) at_once
      (fresh-HasId you (99 ∷ []) (omega arith) (omega arith)) (λ e. cc) (refl, refl)
      (takes-Carries 5000 22 (omega arith)) (comes-Delivers 200 _ _ (omega arith))
      (comes-Delivers 5000 _ _ (omega arith)) (takes-Carries 5000 19 (omega arith))
      (comes-Delivers 200 _ _ (omega arith))
