-- ===== src/Client/Tests.antt =====
-- The theorems on the client at one client: `me`, with pipes of two bytes.
use liboctopipes.Prelude.{
  ◌≡◌, refl, Bool, List, true, false, none, some, Option, [], ◌∷◌, arith, ◌<◌, ℕ,
}
use liboctopipes.Types.{
  ok, fault, overflow, ample, success, Bytes, buffer, State, subscribed, running, unsubscribed,
  Heap,
}
use liboctopipes.Memory.{terminated}
use liboctopipes.Memory.Cursor.{read_pointer-some}
use liboctopipes.Serializer.Frame.{Packet, IsPacket, wire, packet_checksum}
use liboctopipes.Cap.Subscribe.{IsText, IsGroup, buffers}
use liboctopipes.Pipes.{wrote, received, hang_up}
use liboctopipes.Pipes.Delivery.{takes-Carries, comes-Delivers}
use liboctopipes.Client.{
  Client, SendScript, ReceiveScript, set_received_cb, octopipes_init, loop_start, loop_stop,
}
use liboctopipes.Client.Unsubscribe.{unsubscribe}
use liboctopipes.Types.Always.{Always}
use liboctopipes.Client.Phases.{
  Moves, any_state, is_connected, is_unsubscribed, StartsLoop, HasEnded, calls-Moves,
}
use liboctopipes.Client.Steps.{at_once, after, subscribes, listens, Reaches-HasId}
use liboctopipes.Client.Identity.{HasId, fresh, fresh-HasId}
use liboctopipes.Client.Subscribe.{subscribe}
use liboctopipes.Client.Subscribe.Assigned.{
  subscription_frame, answer_frame, assignment_rest, enters, subscribe-enters,
}
use liboctopipes.Client.Send.{send_ex}
use liboctopipes.Client.Send.Frames.{outgoing, send_ex-wire, send_ex_long_remote}
use liboctopipes.Client.Loop.{LoopRound, loop_body, loop}
use liboctopipes.Serializer.Joined.{frames}
use liboctopipes.Client.Loop.Batches.{Waits, Gathers, Listens}
use liboctopipes.Client.Loop.Messages.{Brings, report, loop-reports, loop_body-acknowledges}

abbrev me : Bytes
me = 109 ∷ 101 ∷ []

abbrev you : Bytes
you = 121 ∷ []

me-IsText : IsText me
me-IsText = omega arith

you-IsGroup : IsGroup you
you-IsGroup = omega arith

abbrev starter : Client
starter = fresh me (99 ∷ [])

starter-HasId : HasId starter me
starter-HasId = fresh-HasId me (99 ∷ []) me-IsText (omega arith)

-- The client after its subscription, and with its loop.
abbrev member : Client
member = record starter {
  state = subscribed;
  tx_pipe = buffer (116 ∷ 0 ∷ []);
  rx_pipe = buffer (114 ∷ 0 ∷ []);
  on_received = true;
}

abbrev listener : Client
listener = record member { state = running; thread_alive = true; on_unsubscribed = true }

member-HasId : HasId member me
member-HasId = record {
  speaks = refl;
  named = refl;
  sized = refl;
  is_text = me-IsText;
  is_short = omega arith;
}

listener-HasId : HasId listener me
listener-HasId = record {
  speaks = refl;
  named = refl;
  sized = refl;
  is_text = me-IsText;
  is_short = omega arith;
}

-- A FIFO that is opened at the second attempt and takes everything at once.
abbrev takes : ℕ → SendScript
takes size = record { attempts = false ∷ true ∷ []; events = wrote size ∷ [] }

abbrev assigned_frame : Bytes
assigned_frame = answer_frame me (assignment_rest 1 [] [])

-- The name is taken, and the client is SUBSCRIBED.
subscribe-enters_example :
    subscribe ample
      (takes 23)
      (record { opened = true; events = received assigned_frame true ∷ hang_up ∷ [] })
      (buffers (you ∷ []))
      (some starter)
    ≡ ok (record (enters starter 1 [] []) { written = subscription_frame me (you ∷ []) })
subscribe-enters_example =
    subscribe-enters starter me starter-HasId (λ e. cc) (refl, refl) 1 [] [] (you ∷ []) (takes 23)
      (received assigned_frame true ∷ hang_up ∷ []) (you-IsGroup, tt) (omega arith) (omega arith)
      (takes-Carries 5000 23 (omega arith)) (comes-Delivers 5000 _ _ (omega arith))

-- A client that subscribes and then sets its function for received messages.
abbrev final : Client
final = record starter { state = subscribed; on_received = true }

Reaches-HasId_example : HasId final me
Reaches-HasId_example =
    Reaches-HasId me (99 ∷ []) starter final me-IsText (omega arith) (omega arith)
      (unfold octopipes_init in refl)
      (after
        (after at_once (
          subscribes ample (takes 23)
            (record { opened = true; events = received assigned_frame true ∷ hang_up ∷ [] })
            (buffers (you ∷ []))
            (record (enters starter 1 [] []) { written = subscription_frame me (you ∷ []) })
            (subscribe-enters starter me starter-HasId (λ e. cc) (refl, refl) 1 [] [] (you ∷ [])
              (takes 23) (received assigned_frame true ∷ hang_up ∷ []) (you-IsGroup, tt)
              (omega arith) (omega arith) (takes-Carries 5000 23 (omega arith))
              (comes-Delivers 5000 _ _ (omega arith)))))
        (listens true (record { code = success; client = final; calls = [] })
          (unfold set_received_cb in refl)))

abbrev word : Bytes
word = 104 ∷ 105 ∷ []

-- The second byte of `me` goes out as 0.
send_ex-wire_example :
    send_ex ample (takes 22) (some (terminated you)) (some word) 2 60 0 (some member)
    ≡ ok (record {
      reply = record { code = success; client = member; calls = [] };
      written =
          wire
            (record { origin = 109 ∷ 0 ∷ []; remote = you; ttl = 60; options = 0; payload = word })
            (packet_checksum (outgoing me you word 60 0));
    })
send_ex-wire_example =
    send_ex-wire member me you member-HasId you-IsGroup (some word) word 60 0 (takes 22)
      (116 ∷ 0 ∷ []) (read_pointer-some word) refl refl (omega arith)
      (record {
        origin_fits = omega arith;
        remote_fits = omega arith;
        options_fits = omega arith;
        frame_fits = omega arith;
      })
      (takes-Carries 60000 22 (omega arith))

send_ex_long_remote_example :
    send_ex ample
      (takes 22)
      (some (terminated (121 ∷ 111 ∷ 117 ∷ [])))
      (some word)
      2
      60
      0
      (some member)
    ≡ fault overflow
send_ex_long_remote_example =
    send_ex_long_remote member me (121 ∷ 111 ∷ 117 ∷ []) member-HasId (omega arith) (takes 22)
      (some word) 2 60 0 refl (omega arith)

abbrev message : Bytes → ℕ → Packet
message origin options = record {
  origin = origin;
  remote = me;
  ttl = 60;
  options = options;
  payload = word;
}

abbrev round : Packet → Option State → LoopRound
round q change = record {
  heap = ample;
  incoming = record {
    opened = true;
    events = received (wire q (packet_checksum q)) true ∷ hang_up ∷ [];
  };
  outgoing = takes 20;
  state_change = change;
}

round-Brings : (q : Packet) (change : Option State) → IsPacket q → Brings (round q change) q
round-Brings q change packs = record {
  roomy = refl;
  opened = refl;
  comes = comes-Delivers 500 _ _ (omega arith);
  packs = packs;
}

message-IsPacket : (options : ℕ) → options < 256 → IsPacket (message you options)
message-IsPacket options h = record {
  origin_fits = omega arith;
  remote_fits = omega arith;
  options_fits = h;
  frame_fits = omega arith;
}

-- Nothing comes until the timeout.
abbrev idle_round : LoopRound
idle_round = record {
  heap = ample;
  incoming = record {
    opened = true;
    events =
        hang_up ∷ hang_up ∷ hang_up ∷ hang_up ∷ hang_up ∷ hang_up ∷ hang_up ∷ hang_up ∷ hang_up
        ∷ hang_up ∷ [];
  };
  outgoing = takes 20;
  state_change = none;
}

idle_round-Waits : Waits idle_round
idle_round-Waits = record {
  opened = refl;
  waits = idle_round.incoming.events;
  later = [];
  split = refl;
  quiet = (refl, (refl, (refl, (refl, (refl, (refl, (refl, (refl, (refl, (refl, tt))))))))));
  enough = omega arith;
  ends = omega arith;
}

-- Two frames that one read finds.
abbrev joined_round : LoopRound
joined_round = record (round (message you 0) none) {
  incoming = record {
    opened = true;
    events = received (frames (message you 0 ∷ message me 0 ∷ [])) true ∷ hang_up ∷ [];
  };
}

joined_round-Gathers : Gathers joined_round (message you 0) (message me 0 ∷ [])
joined_round-Gathers = record {
  roomy = refl;
  opened = refl;
  comes = comes-Delivers 500 _ _ (omega arith);
  packs = message-IsPacket 0 (omega arith);
  silent = refl;
}

last_round-Gathers : Gathers (round (message you 4) (some unsubscribed)) (message you 4) []
last_round-Gathers = record {
  roomy = refl;
  opened = refl;
  comes = comes-Delivers 500 _ _ (omega arith);
  packs = message-IsPacket 4 (omega arith);
  silent = refl;
}

three-Listens :
    Listens
      (idle_round ∷ joined_round ∷ round (message you 4) (some unsubscribed) ∷ [])
      ([] ∷ (message you 0 ∷ message me 0 ∷ []) ∷ (message you 4 ∷ []) ∷ [])
      unsubscribed
three-Listens = record {
  before = idle_round ∷ joined_round ∷ [];
  final = round (message you 4) (some unsubscribed);
  earlier = [] ∷ (message you 0 ∷ message me 0 ∷ []) ∷ [];
  batch = message you 4 ∷ [];
  all_rounds = refl;
  all_batches = refl;
  arrive = (idle_round-Waits, refl, (joined_round-Gathers, refl, tt));
  hears = last_round-Gathers;
  sets = refl;
  other = refl;
}

-- An idle round, two frames in one read, of which the second is lost, and one frame alone.
loop-reports_example :
    loop (idle_round ∷ joined_round ∷ round (message you 4) (some unsubscribed) ∷ []) member
    ≡ ok (record {
      code = success;
      client = record member { state = unsubscribed };
      calls = report (message you 0) ∷ report (message you 4) ∷ [];
    })
loop-reports_example =
    loop-reports member (114 ∷ 0 ∷ [])
      (idle_round ∷ joined_round ∷ round (message you 4) (some unsubscribed) ∷ [])
      ([] ∷ (message you 0 ∷ message me 0 ∷ []) ∷ (message you 4 ∷ []) ∷ []) unsubscribed refl refl
      three-Listens

loop_body-acknowledges_example :
    loop_body (round (message you 1) none) listener
    ≡ ok (record {
      calls = report (message you 1) ∷ [];
      acknowledged = wire (outgoing me you [] 255 2) (packet_checksum (outgoing me you [] 255 2));
    })
loop_body-acknowledges_example =
    loop_body-acknowledges listener me (114 ∷ 0 ∷ []) (116 ∷ 0 ∷ []) (round (message you 1) none)
      (message you 1) refl refl refl listener-HasId
      (round-Brings (message you 1) none (message-IsPacket 1 (omega arith))) you-IsGroup (λ e. cc)
      (omega arith) refl (takes-Carries 255000 20 (omega arith))

calls-Moves_example :
    ((heap : Heap) (out : SendScript) (answer : ReceiveScript) (groups : List Bytes)
      → Always
          (λ s. Moves any_state listener subscribed s.reply)
          (subscribe heap out answer groups (some listener)))
    × ((heap : Heap) (out : SendScript)
        → Always
            (λ t. Moves is_connected listener unsubscribed t.reply)
            (unsubscribe heap out (some listener)))
    × ((joined : Bool)
        → Always (Moves is_unsubscribed listener State.stopped) (loop_stop joined (some listener)))
    × ((created : Bool) → Always (StartsLoop listener) (loop_start created (some listener)))
    × ((rounds : List LoopRound) → Always HasEnded (loop rounds listener))
calls-Moves_example = calls-Moves listener
