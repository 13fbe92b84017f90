-- ===== src/Clients/Tests.antt =====
-- The theorems on the programs, at the client `me`.
use liboctopipes.Prelude.{
  ℕ, ◌*◌, ◌≡◌, refl, true, false, none, some, [], ◌∷◌, ◌++◌, arith, length, All,
}
use liboctopipes.Types.{ok, ample, Bytes, Message, version_1}
use liboctopipes.Memory.{terminated, scan_string}
use liboctopipes.Serializer.Frame.{Packet, IsPacket, message_of, wire, packet_checksum}
use liboctopipes.Pipes.{wrote, received, hang_up}
use liboctopipes.Pipes.Delivery.{takes-Carries, comes-Delivers}
use liboctopipes.Client.{SendScript, ReceiveScript}
use liboctopipes.Client.Subscribe.Assigned.{answer_frame, assignment_rest}
use liboctopipes.Client.Send.Frames.{outgoing}
use liboctopipes.Clients.{default_client_id, gen_random_clid}
use liboctopipes.Clients.Naming.{IsAlphanumeric, gen_random_clid-name}
use liboctopipes.Clients.Send
use liboctopipes.Clients.Send.{SendRun, send_main}
use liboctopipes.Clients.Send.Delivers as Delivers
use liboctopipes.Clients.Send.Delivers.{send_main-wire}
use liboctopipes.Clients.Sub
use liboctopipes.Clients.Sub.{SubRun}
use liboctopipes.Clients.Sub.Printing.{hear, hear-take}
use liboctopipes.Clients.Sub.Smooth as Smooth

abbrev me : Bytes
me = 109 ∷ 101 ∷ []

abbrev you : Bytes
you = 121 ∷ []

-- The text "hi".
abbrev word : Bytes
word = 104 ∷ 105 ∷ []

abbrev block : Bytes
block =
    7 ∷ 7 ∷ 7 ∷ 7 ∷ 7 ∷ 7 ∷ 7 ∷ 7 ∷ 7 ∷ 7 ∷ 7 ∷ 7 ∷ 7 ∷ 7 ∷ 7 ∷ 7 ∷ 7 ∷ 7 ∷ 7 ∷ 7 ∷ 7 ∷ 7 ∷ 7 ∷ 7
    ∷ 7 ∷ 7 ∷ []

gen_random_clid-name_example :
    (clid : Bytes) × (name : Bytes) × (gen_random_clid (some block) (λ n. n * 1000) ≡ ok clid)
    × (length clid ≡ 26)
    × (scan_string clid ≡ ok (default_client_id ++ name))
    × (length name ≡ 7)
    × All IsAlphanumeric name
gen_random_clid-name_example = gen_random_clid-name block (λ n. n * 1000) refl

abbrev takes : ℕ → SendScript
takes size = record { attempts = false ∷ true ∷ []; events = wrote size ∷ [] }

abbrev assigns : ReceiveScript
assigns = record {
  opened = true;
  events = received (answer_frame me (assignment_rest 0 (116 ∷ []) (114 ∷ []))) true ∷ hang_up ∷ [];
}

abbrev sending : SendRun
sending = record {
  block = none;
  random = λ n. n;
  init_heap = ample;
  subscribe_heap = ample;
  request = takes 21;
  answer = assigns;
  send_heap = ample;
  out = takes 22;
  unsubscribe_heap = ample;
  farewell = takes 20;
  cleanup_heap = ample;
  last = takes 20;
}

sending-Smooth : Delivers.Smooth sending me you word (116 ∷ []) (114 ∷ [])
sending-Smooth = record {
  init_room = refl;
  subscribe_room = refl;
  send_room = refl;
  unsubscribe_room = refl;
  asks = takes-Carries 5000 21 (omega arith);
  opened = refl;
  assigned = comes-Delivers 5000 _ _ (omega arith);
  goes_out = takes-Carries 60000 22 (omega arith);
  leaves = takes-Carries 5000 20 (omega arith);
}

abbrev sent : Packet
sent = outgoing me you word 60 0

sent-IsPacket : IsPacket sent
sent-IsPacket = record {
  origin_fits = omega arith;
  remote_fits = omega arith;
  options_fits = omega arith;
  frame_fits = omega arith;
}

abbrev send_settings : Send.Settings
send_settings = record {
  cap_path = terminated (99 ∷ []);
  remote = none;
  client_id = some (terminated me);
  protocol_version = version_1;
  verbose = false;
}

send_main-wire_example :
    send_main sending send_settings (Send.with_remote (terminated you) ∷ []) (terminated word ∷ [])
    ≡ ok (record { status = 0; written = wire sent (packet_checksum sent) })
send_main-wire_example =
    send_main-wire sending me you (99 ∷ []) word (116 ∷ []) (114 ∷ []) sending-Smooth (omega arith)
      (omega arith) (λ e. cc) (omega arith) (omega arith) (omega arith) (omega arith) (omega arith)
      sent-IsPacket (Send.with_remote (terminated you) ∷ []) send_settings
      (record send_settings { remote = some (terminated you) }) []
      (unfold Send.parse_options in refl) refl refl refl refl

abbrev second : ℕ → Sub.Second
second n = record { counter = n; sigterm_called = false }

abbrev hearing : SubRun
hearing = record {
  block = none;
  random = λ n. n;
  groups_room = true;
  init_heap = ample;
  subscribe_heap = ample;
  request = takes 21;
  answer = assigns;
  created = true;
  seconds = second 0 ∷ second 3 ∷ [];
  began = true;
  unsubscribe_heap = ample;
  farewell = takes 20;
  joined = true;
  cleanup_heap = ample;
  last = takes 20;
}

abbrev hearing-Smooth : Smooth.Smooth hearing (some 2) me (116 ∷ []) (114 ∷ [])
hearing-Smooth = record {
  init_room = refl;
  subscribe_room = refl;
  unsubscribe_room = refl;
  asks = takes-Carries 5000 21 (omega arith);
  opened = refl;
  assigned = comes-Delivers 5000 _ _ (omega arith);
  starts = refl;
  before = second 0 ∷ [];
  later = [];
  last = second 3;
  seconds = refl;
  waiting = ((refl, refl), tt);
  over = refl;
  leaves = takes-Carries 5000 20 (omega arith);
  joins = refl;
}

abbrev sub_settings : Sub.Settings
sub_settings = record {
  cap_path = terminated (99 ∷ []);
  count = none;
  client_id = some (terminated me);
  protocol_version = version_1;
  verbose = false;
}

-- A message whose payload is a C string.
abbrev shown : Message
shown = message_of (record sent { payload = terminated word }) 0

hear-take_example : hear (some 2) 0 (shown ∷ shown ∷ []) ≡ ok (word ∷ [])
hear-take_example = hear-take 2 (shown ∷ shown ∷ []) (word ∷ word ∷ []) (
  record { sized = omega arith; holds = refl; is_text = omega arith },
  (record { sized = omega arith; holds = refl; is_text = omega arith }, tt),
)
