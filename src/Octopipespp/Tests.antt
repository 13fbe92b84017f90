-- ===== src/Octopipespp/Tests.antt =====
-- The theorems on the classes, at the client and the worker `me`.
use liboctopipes.Prelude.{◌≡◌, refl, true, false, none, some, [], ◌∷◌, ◌++◌, List, arith}
use liboctopipes.Types.{ok, ◌>>=◌, ample, Bytes, buffer, State, version_1}
use liboctopipes.Serializer.Frame.{Packet, IsPacket, message_of, wire, packet_checksum}
use liboctopipes.Pipes.{wrote, received, hang_up}
use liboctopipes.Pipes.Delivery.{takes-Carries, comes-Delivers}
use liboctopipes.Client.Identity.{fresh, fresh-HasId}
use liboctopipes.Client.Subscribe.Assigned.{
  answer_frame, assignment_rest, subscription_frame, enters,
}
use liboctopipes.Client.Loop.{LoopRound, loop}
use liboctopipes.Server.{Worker, ServerState}
use liboctopipes.Server as CServer
use liboctopipes.Server.Workers.{worker_of}
use liboctopipes.Server.Workers.Registry.{all_made}
use liboctopipes.Octopipespp.{Error, CapError, ServerError}
use liboctopipes.Octopipespp.Message.{Message, make_message, encode_data, decode_data, null}
use liboctopipes.Octopipespp.Message.RoundTrip.{object_of, decode_data-encode_data}
use liboctopipes.Memory.{bytes_or_empty}
use liboctopipes.Octopipespp.Client.{Client, set_received, subscribe}
use liboctopipes.Octopipespp.Client.Callbacks.{notify, hears, notify-loop}
use liboctopipes.Octopipespp.Client.Groups.{subscribe-enters_silent}
use liboctopipes.Server.Dispatch
use liboctopipes.Server.Dispatch.{Session}
use liboctopipes.Octopipespp.Server.{start_worker, get_clients, process_all}
use liboctopipes.Octopipespp.Server.Sessions.{reported, process_all-process_all}
use liboctopipes.Octopipespp.Server.Starting.{getters, getters-start_worker}

abbrev me : Bytes
me = 109 ∷ 101 ∷ []

abbrev you : Bytes
you = 121 ∷ []

-- A packet without a payload.
abbrev note : Packet
note = record { origin = you; remote = me; ttl = 60; options = 0; payload = [] }

note-IsPacket : IsPacket note
note-IsPacket = record {
  origin_fits = omega arith;
  remote_fits = omega arith;
  options_fits = omega arith;
  frame_fits = omega arith;
}

abbrev other : Message
other = object_of (record note { remote = you }) null

decode_data-encode_data_example :
    (make_message true version_1 you me (some []) 0 0 60 >>= λ made.
    encode_data ample made >>= λ sent. decode_data ample other (bytes_or_empty sent.frame))
    ≡ ok (record {
      code = Error.success;
      this = record (object_of note null) { checksum = some (packet_checksum note) };
    })
decode_data-encode_data_example =
    decode_data-encode_data note note-IsPacket (omega arith) other (λ e. cc) (λ e. cc) (omega arith)
      (omega arith)

abbrev this : Client
this = record {
  octopipes_client = fresh me (99 ∷ []);
  user_data = none;
  on_received = false;
  on_sent = false;
  on_receive_error = false;
  on_subscribed = false;
  on_unsubscribed = false;
}

abbrev member : Client
member = record this {
  octopipes_client = record (fresh me (99 ∷ [])) {
    state = State.subscribed;
    tx_pipe = buffer (116 ∷ 0 ∷ []);
    rx_pipe = buffer (114 ∷ 0 ∷ []);
  };
}

abbrev last_round : LoopRound
last_round = record {
  heap = ample;
  incoming = record {
    opened = true;
    events = received (wire note (packet_checksum note)) true ∷ hang_up ∷ [];
  };
  outgoing = record { attempts = []; events = [] };
  state_change = some State.stopped;
}

notify-loop_example :
    (loop (last_round ∷ []) (set_received true member).octopipes_client >>= λ r.
    notify (set_received true member) r.calls)
    ≡ ok (hears note ∷ [])
notify-loop_example =
    notify-loop member (114 ∷ 0 ∷ []) (last_round ∷ []) ((note ∷ []) ∷ []) State.stopped refl
      (record {
        before = [];
        final = last_round;
        earlier = [];
        batch = note ∷ [];
        all_rounds = refl;
        all_batches = refl;
        arrive = tt;
        hears = record {
          roomy = refl;
          opened = refl;
          comes = comes-Delivers 500 _ _ (omega arith);
          packs = note-IsPacket;
          silent = refl;
        };
        sets = refl;
        other = refl;
      })
      (((omega arith), (omega arith)), tt)

-- The name is taken, and the caller does not learn it.
subscribe-enters_silent_example :
    subscribe ample
      (record { attempts = false ∷ true ∷ []; events = wrote 23 ∷ [] })
      (record {
        opened = true;
        events = received (answer_frame me (assignment_rest 1 [] [])) true ∷ hang_up ∷ [];
      })
      (you ∷ [])
      this
    ≡ ok (record {
      returned = record {
        code = Error.success;
        this = record this {
          octopipes_client = (enters (fresh me (99 ∷ [])) 1 [] []).reply.client;
        };
        calls = (enters (fresh me (99 ∷ [])) 1 [] []).reply.calls;
      };
      assignment_error = some CapError.success;
      written = subscription_frame me (you ∷ []);
    })
subscribe-enters_silent_example =
    subscribe-enters_silent this me 1 [] [] (you ∷ [])
      (record { attempts = false ∷ true ∷ []; events = wrote 23 ∷ [] })
      (received (answer_frame me (assignment_rest 1 [] [])) true ∷ hang_up ∷ [])
      (fresh-HasId me (99 ∷ []) (omega arith) (omega arith)) (λ e. cc) (refl, refl)
      ((omega arith), tt) (omega arith) (omega arith) (takes-Carries 5000 23 (omega arith))
      (comes-Delivers 5000 _ _ (omega arith))

abbrev server : CServer.Server
server = record {
  version = 1;
  state = ServerState.running;
  cap_pipe = 99 ∷ [];
  client_folder = 100 ∷ [];
  locked = false;
  cap_inbox = some (some []);
  workers = some (worker_of you [] (1 ∷ []) (2 ∷ []) ∷ []);
}

abbrev both : List Worker
both = worker_of you [] (1 ∷ []) (2 ∷ []) ∷ worker_of me (you ∷ []) (3 ∷ []) (4 ∷ []) ∷ []

getters-start_worker_example :
    (start_worker ample true all_made server me (you ∷ []) (3 ∷ []) (4 ∷ [])
      ≡ ok (ServerError.success, record server { workers = some both }))
    × (getters both me ≡ (
      true,
      you ∷ me ∷ [],
      get_clients ample (worker_of you [] (1 ∷ []) (2 ∷ []) ∷ []) ++ me ∷ [],
    ))
getters-start_worker_example =
    getters-start_worker server (worker_of you [] (1 ∷ []) (2 ∷ []) ∷ []) me (you ∷ []) (3 ∷ [])
      (4 ∷ []) refl refl ((omega arith), tt) (omega arith)

-- A message from `you` to `me` waits, and the FIFO of `me` takes it.
abbrev letter : Packet
letter = record note { payload = 104 ∷ 105 ∷ [] }

abbrev waiting : List Worker
waiting =
    record (worker_of you [] (1 ∷ []) (2 ∷ [])) {
      inbox = some (
          record {
            message = CServer.letter (message_of letter 0);
            error = CServer.ServerError.success;
          }
          ∷ []);
    }
    ∷ worker_of me [] (3 ∷ []) (4 ∷ [])
    ∷ []

abbrev session : Session
session = record {
  answers =
      λ i j. record { heap = ample; out = record { attempts = true ∷ []; events = wrote 22 ∷ [] } };
  listen = λ workers. workers;
}

process_all-process_all_example :
    process_all (session ∷ session ∷ []) waiting you 3 []
    ≡ (Dispatch.process_all (session ∷ session ∷ []) waiting 0 [] >>= reported you 3)
process_all-process_all_example = process_all-process_all (session ∷ session ∷ []) waiting you 3
