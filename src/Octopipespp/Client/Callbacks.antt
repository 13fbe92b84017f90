-- ===== src/Octopipespp/Client/Callbacks.antt =====
-- From the pipe of a client to the user's function for received messages.
use liboctopipes.Prelude.{◌≡◌, refl, true, List, [], ◌∷◌, ◌++◌, map, All}
use liboctopipes.Types.{Outcome, ok, ◌>>=◌, Bytes, State, buffer}
use liboctopipes.Serializer.Frame.{Packet, text_buffer, message_of, packet_checksum}
use liboctopipes.Cap.Subscribe.{IsText, scan_string-terminated}
use liboctopipes.Client.{Callback}
use liboctopipes.Client.Loop.{LoopRound, loop}
use liboctopipes.Client.Loop.Batches.{Listens, firsts}
use liboctopipes.Client.Loop.Messages.{report, loop-reports}
use liboctopipes.Octopipespp.Message.{null, string_or_empty, from_message}
use liboctopipes.Octopipespp.Message.RoundTrip.{object_of, copy_payload-payload_buffer}
use liboctopipes.Octopipespp.Client.{Client, UserCall, received, on_callback, set_received}

-- The callbacks of the C client in their order, each with the calls of the user's functions.
abbrev pub notify : Client → List Callback → Outcome (List UserCall)
notify this [] = ok []
notify this (call ∷ calls) = do
  first ← on_callback this call
  rest ← notify this calls
  ok (first ++ rest)

-- The names in a packet hold no null byte.
abbrev pub HasNames : Packet → Type 0
HasNames q = IsText q.origin × IsText q.remote

string_or_empty-text_buffer :
    (text : Bytes) → IsText text → string_or_empty (text_buffer text) ≡ ok text
string_or_empty-text_buffer [] h = refl
string_or_empty-text_buffer (b ∷ bs) h = scan_string-terminated (b ∷ bs) h

from_message-message_of :
    (q : Packet)
    → HasNames q
    → from_message true (message_of q (packet_checksum q)) ≡ ok (object_of q null)
unfolding from_message
from_message-message_of q names = rw (
  string_or_empty-text_buffer q.origin names.0,
  string_or_empty-text_buffer q.remote names.1,
  copy_payload-payload_buffer q.payload null,
)

-- The call of the user's function for a packet.
abbrev pub hears : Packet → UserCall
hears q = received (object_of q null)

notify-reports :
    (this : Client) (qs : List Packet)
    → this.on_received ≡ true
    → All HasNames qs
    → notify this (map report qs) ≡ ok (map hears qs)
unfolding on_callback
notify-reports this [] listens names = refl
notify-reports this (q ∷ qs) listens names =
    rw (listens, from_message-message_of q names.0, notify-reports this qs listens names.1)

-- A client whose user has set a function for received messages, and whose thread reads its pipe round
-- by round until another thread sets a state other than RUNNING. In each round nothing comes until the
-- timeout, or one read finds a frame and, joined to it, those that lie behind it in the pipe. The
-- user's function is called once for the first message of each such read, in their order, and for no
-- other message, with an object that has the origin, the remote, the time to live, the options and a
-- copy of the payload. These messages ask for no acknowledgement and their names hold no null byte,
-- and no allocation fails.
pub notify-loop :
    (this : Client) (rx : Bytes) (rounds : List LoopRound) (batches : List (List Packet))
    (state : State)
    → this.octopipes_client.rx_pipe ≡ buffer rx
    → Listens rounds batches state
    → All HasNames (firsts batches)
    → (loop rounds (set_received true this).octopipes_client >>= λ r.
        notify (set_received true this) r.calls)
      ≡ ok (map hears (firsts batches))
unfolding set_received
notify-loop this rx rounds batches state open_pipe listens names =
    let listening : Client = set_received true this in
    rw (loop-reports listening.octopipes_client rx rounds batches state open_pipe refl listens)
      (notify-reports listening (firsts batches) refl names)
