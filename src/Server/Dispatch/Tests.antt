-- ===== src/Server/Dispatch/Tests.antt =====
-- A dispatch to two workers, of which the pipe of the second one breaks.
use liboctopipes.Prelude.{ℕ, zero, suc, ◌≡◌, refl, true, some, [], ◌∷◌}
use liboctopipes.Types
use liboctopipes.Types.{ok, ample}
use liboctopipes.Serializer.Frame.{message_of, wire, packet_checksum}
use liboctopipes.Pipes.{write_error, pipe_send, open_loop, send_loop}
use liboctopipes.Server.{to_server_error}
use liboctopipes.Server.Workers.{worker_match_subscription}
use liboctopipes.Server.Dispatch.{Sending, dispatch_message}
use liboctopipes.Server.Dispatch.Failures.{dispatch_message-stops}
use liboctopipes.Server.Tests.{
  worker_me, worker_you, note, note-IsPacket, answers, answers-Forwards,
}

abbrev breaking : ℕ → Sending
breaking zero = answers 0
breaking (suc i) = record {
  heap = ample;
  out = record { attempts = true ∷ []; events = write_error ∷ [] };
}

dispatch_message-stops_example :
    dispatch_message breaking (worker_me ∷ worker_you ∷ worker_me ∷ []) (message_of note 0)
    ≡ ok (record {
      code = to_server_error Types.no_data_available;
      failed = some (121 ∷ []);
      written = (2 ∷ [], wire note (packet_checksum note)) ∷ (4 ∷ [], []) ∷ [];
    })
unfolding worker_match_subscription
dispatch_message-stops_example =
    dispatch_message-stops breaking note note-IsPacket
      (record { code = Types.no_data_available; written = [] }) worker_you (worker_me ∷ []) refl
      refl 0 (worker_me ∷ []) (λ e. cc) ((λ e. cc), tt)
      ((λ e. answers-Forwards 0), (refl, unfold pipe_send open_loop send_loop in refl))
