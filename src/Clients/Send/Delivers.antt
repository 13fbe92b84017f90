-- ===== src/Clients/Send/Delivers.antt =====
-- What octopipes_send delivers.
use liboctopipes.Prelude.{
  ◌+◌, ◌*◌, ◌^◌, ◌<◌, ◌≤◌, ◌≡◌, ◌≢◌, refl, ap, true, some, List, [], ◌∷◌, length, arith,
}
use native.Mathlib.Nat.{add-zero}
use liboctopipes.Types.{ok, Bytes, ample, version_1}
use liboctopipes.Memory.{terminated}
use liboctopipes.Memory.Cursor.{read_pointer-append}
use liboctopipes.Serializer.Frame.{IsPacket, wire, packet_checksum}
use liboctopipes.Cap.Subscribe.{IsText, IsGroup, scan_string-terminated}
use liboctopipes.Pipes.Delivery.{Carries, Delivers}
use liboctopipes.Client.{Client}
use liboctopipes.Client.Identity.{HasId, fresh, octopipes_init-fresh, fresh-HasId}
use liboctopipes.Client.Subscribe.Assigned.{answer_frame, assignment_rest, enters, subscribe-enters}
use liboctopipes.Client.Send.{send}
use liboctopipes.Client.Send.Frames.{outgoing, send_ex-wire}
use liboctopipes.Client.Unsubscribe.{cleanup}
use liboctopipes.Client.Unsubscribe.Leaving.{unsubscribe-leaves}
use liboctopipes.Clients.{error_number}
use liboctopipes.Clients.Send.{
  Settings, SendRun, send_message, run_client, main_with, send_main, Parsed, parse_options,
}

-- A run in which the system does all that the program asks of it, and the server assigns these pipes.
pub record Smooth (run : SendRun) (id name text tx rx : Bytes) : Type 0 where
  pub init_room : run.init_heap ≡ ample
  pub subscribe_room : run.subscribe_heap ≡ ample
  pub send_room : run.send_heap ≡ ample
  pub unsubscribe_room : run.unsubscribe_heap ≡ ample
  pub asks : Carries run.request.attempts run.request.events 5000 (19 + length id)
  pub opened : run.answer.opened ≡ true
  pub assigned : Delivers run.answer.events 5000 (answer_frame id (assignment_rest 0 tx rx))
  pub goes_out :
      Carries run.out.attempts run.out.events
        (60 * 1000)
        (17 + length name + length id + length text)
  pub leaves : Carries run.farewell.attempts run.farewell.events 5000 (18 + length id)

module _ (run : SendRun) (id name path text tx rx : Bytes) (smooth : Smooth run id name text tx rx)
    (id_text : IsText id) (id_short : length id < 256) (some_id : id ≢ []) (path_text : IsText path)
    (is_group : IsGroup name) (text_text : IsText text) (short : length name ≤ length id)
    (paths : length tx + length rx < 2 ^ 31) (packs : IsPacket (outgoing id name text 60 0)) where
  -- The client behind its subscription.
  subscribed_client : Client
  subscribed_client = (enters (fresh id path) 0 tx rx).reply.client

  subscribed-HasId : HasId subscribed_client id
  unfolding subscribed_client
  subscribed-HasId = record {
    speaks = refl;
    named = refl;
    sized = refl;
    is_text = id_text;
    is_short = id_short;
  }

  send_message-wire :
      send_message run subscribed_client (terminated name) (terminated text)
      ≡ ok (record {
        status = 0;
        written = wire (outgoing id name text 60 0) (packet_checksum (outgoing id name text 60 0));
      })
  unfolding send_message send subscribed_client cleanup error_number
  send_message-wire = rw (
    scan_string-terminated text text_text,
    smooth.send_room,
    smooth.unsubscribe_room,
    send_ex-wire subscribed_client id name subscribed-HasId is_group (some (terminated text)) text
        60 0 run.out (terminated tx) (read_pointer-append text (0 ∷ [])) refl refl short packs
        smooth.goes_out,
    unsubscribe-leaves subscribed_client id run.farewell subscribed-HasId refl smooth.leaves,
  )

  run_client-wire :
      run_client run (terminated id) (terminated path) version_1 (terminated name) (terminated text)
      ≡ ok (record {
        status = 0;
        written = wire (outgoing id name text 60 0) (packet_checksum (outgoing id name text 60 0));
      })
  unfolding run_client subscribed_client send_message
  run_client-wire =
      rw
        (
          smooth.init_room,
          octopipes_init-fresh id path id_text path_text,
          smooth.subscribe_room,
          answer_opened,
          subscribe-enters (fresh id path) id (fresh-HasId id path id_text id_short) some_id
              (refl, refl) 0 tx rx [] run.request run.answer.events tt (omega arith) paths
              (rw add-zero smooth.asks) smooth.assigned,
        )
        send_message-wire
    where
      answer_opened : run.answer ≡ record { opened = true; events = run.answer.events }
      answer_opened = ap (λ o. record { opened = o; events = run.answer.events }) smooth.opened

  -- octopipes_send with a client id, a remote and a payload on its command line, whose calls the
  -- system and the server answer as it asks: it exits with 0, and has written one frame into its
  -- pipe. That is the frame of the payload to the remote, with a time to live of 60, save that the
  -- byte of the id at the index of the remote's length is 0. The texts hold no null byte. The id
  -- has at most 255 bytes and is not empty, and the remote is no longer than it. No allocation
  -- fails.
  pub send_main-wire :
      (options : List Parsed) (defaults s : Settings) (operands : List Bytes)
      → parse_options options defaults ≡ some s
      → s.client_id ≡ some (terminated id)
      → s.cap_path ≡ terminated path
      → s.remote ≡ some (terminated name)
      → s.protocol_version ≡ version_1
      → send_main run defaults options (terminated text ∷ operands)
        ≡ ok (record {
          status = 0;
          written =
              wire (outgoing id name text 60 0) (packet_checksum (outgoing id name text 60 0));
        })
  unfolding send_main main_with
  send_main-wire options defaults s operands parsed named at_path to_remote speaks =
      rw (send_main, parsed, main_with, to_remote, named, at_path, speaks) run_client-wire
