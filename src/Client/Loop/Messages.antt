-- ===== src/Client/Loop/Messages.antt =====
-- What octopipes_loop makes of the messages that come in.
use liboctopipes.Prelude.{
  ◌+◌, ◌*◌, map-append, ◌≤◌, ◌≡◌, ◌≢◌, refl, sym, ◌∙◌, ap, true, false, none, List, [], ◌∷◌, ◌++◌,
  map, arith, length, length-set, bit_and, ◌==◌, append-nil, append_assoc,
}
use native.Mathlib.Nat.{add-zero}
use liboctopipes.Types.{
  ok, fault, null_dereference, Bytes, ample, buffer, success, State, running, is_state, require_ack,
  ack,
}
use liboctopipes.Memory.{read_pointer, read_string, terminated}
use liboctopipes.Memory.Cursor.{read_bytes-drop}
use liboctopipes.Serializer.Frame.{Packet, IsPacket, message_of, wire, packet_checksum}
use liboctopipes.Serializer.Encode.{text_buffer-some}
use liboctopipes.Serializer.RoundTrip.{decode-wire, checked-packet_checksum}
use liboctopipes.Serializer.Joined.{decode-frames}
use liboctopipes.Pipes.Receive.{pipe_receive_times_out}
use liboctopipes.Pipes.Delivery.{Delivers, Carries, pipe_receive-Delivers}
use liboctopipes.Client.{Client, Callback, received_message, sent_message, when}
use liboctopipes.Cap.Subscribe.{IsGroup}
use liboctopipes.Client.Identity.{HasId, u8-size}
use liboctopipes.Client.Send.Frames.{outgoing, filled, send_ex-wire}
use liboctopipes.Client.Send.{send_ex, send_client, fill_message}
use liboctopipes.Client.Loop.{LoopRound, changed, take_message, loop_body, loop_rounds, loop}
use liboctopipes.Client.Loop.Batches.{Hears, Arrive, firsts, firsts-append, Listens}

-- The call of the user's function for a packet.
abbrev pub report : Packet → Callback
report q = received_message (message_of q (packet_checksum q))

-- A round in which the frame of this packet comes in, and no allocation fails.
pub record Brings (round : LoopRound) (q : Packet) : Type 0 where
  pub roomy : round.heap ≡ ample
  pub opened : round.incoming.opened ≡ true
  pub comes : Delivers round.incoming.events 500 (wire q (packet_checksum q))
  pub packs : IsPacket q

loop_body-take_message :
    (round : LoopRound) (c : Client) (q : Packet) (rx : Bytes)
    → c.rx_pipe ≡ buffer rx
    → Brings round q
    → loop_body round c ≡ take_message round c (message_of q (packet_checksum q))
unfolding loop_body
loop_body-take_message round c q rx open_pipe b =
    rw
      (
        open_pipe,
        b.opened,
        pipe_receive-Delivers b.comes,
        b.roomy,
        decode-wire ample q (packet_checksum q) b.packs (refl, refl, refl) refl,
        checked-packet_checksum q,
      )
      refl

module _ (c : Client) (rx : Bytes) (open_pipe : c.rx_pipe ≡ buffer rx)
    (listens : c.on_received ≡ true) where
  loop_body-Hears :
      (round : LoopRound) (batch : List Packet)
      → Hears round batch
      → loop_body round c
        ≡ ok (record { calls = map report (firsts (batch ∷ [])); acknowledged = [] })
  unfolding loop_body take_message
  loop_body-Hears round [] w = rw (
    open_pipe,
    w.opened,
    w.split,
    pipe_receive_times_out w.waits w.later 500 w.quiet w.enough w.ends,
  )
  loop_body-Hears round (q ∷ behind) g = rw (
    open_pipe,
    g.opened,
    pipe_receive-Delivers g.comes,
    g.roomy,
    decode-frames ample q behind g.packs (refl, refl, refl) refl,
    g.silent,
    listens,
  )

  loop_rounds-Hears :
      (round : LoopRound) (rest : List LoopRound) (batch : List Packet) (calls : List Callback)
      → is_state c.state running ≡ true
      → Hears round batch
      → loop_rounds (round ∷ rest) c calls
        ≡ loop_rounds rest
            (changed round.state_change c)
            (calls ++ map report (firsts (batch ∷ [])))
  unfolding loop_rounds
  loop_rounds-Hears round rest batch calls runs h = rw (runs, loop_body-Hears round batch h) refl

  loop_rounds-Arrive :
      (rounds more : List LoopRound) (batches : List (List Packet)) (calls : List Callback)
      → is_state c.state running ≡ true
      → Arrive rounds batches
      → loop_rounds (rounds ++ more) c calls
        ≡ loop_rounds more c (calls ++ map report (firsts batches))
  loop_rounds-Arrive [] more [] calls runs h = ap (loop_rounds more c) (sym (append-nil calls))
  loop_rounds-Arrive [] more (batch ∷ batches) calls runs h = absurd h
  loop_rounds-Arrive (round ∷ rounds) more [] calls runs h = absurd h
  loop_rounds-Arrive (round ∷ rounds) more ([] ∷ batches) calls runs (b, same, h) =
      loop_rounds-Hears round (rounds ++ more) [] calls runs b
      ∙ ap (λ change. loop_rounds (rounds ++ more) (changed change c) (calls ++ [])) same
      ∙ ap (loop_rounds (rounds ++ more) c) (append-nil calls)
      ∙ loop_rounds-Arrive rounds more batches calls runs h
  loop_rounds-Arrive (round ∷ rounds) more ((q ∷ behind) ∷ batches) calls runs (b, same, h) =
      loop_rounds-Hears round (rounds ++ more) (q ∷ behind) calls runs b
      ∙ ap (λ change. loop_rounds (rounds ++ more) (changed change c) (calls ++ report q ∷ [])) same
      ∙ loop_rounds-Arrive rounds more batches (calls ++ report q ∷ []) runs h
      ∙ ap (loop_rounds more c) (append_assoc calls (report q ∷ []) (map report (firsts batches)))

-- A thread that reads its pipe round by round until another thread sets a state other than RUNNING.
-- In each round nothing comes until the timeout, or one read finds a frame and, joined to it, those
-- that lie behind it in the pipe. octopipes_loop reports the first message of each such read to the
-- user's function, once and in their order, and nothing else: the messages behind it in the same read
-- are lost. It ends after the round in which the state was set, and leaves that state. The reported
-- messages ask for no acknowledgement, and no allocation fails. The client has a pipe to read from and
-- a function to call.
pub loop-reports :
    (c : Client) (rx : Bytes) (rounds : List LoopRound) (batches : List (List Packet))
    (state : State)
    → c.rx_pipe ≡ buffer rx
    → c.on_received ≡ true
    → Listens rounds batches state
    → loop rounds c
      ≡ ok (record {
        code = success;
        client = record c { state = state };
        calls = map report (firsts batches);
      })
unfolding loop loop_rounds
loop-reports c rx rounds batches state open_pipe listens l =
    let running_client : Client = record c { state = running } in
    ap (λ r. loop_rounds r running_client []) l.all_rounds
    ∙ loop_rounds-Arrive running_client rx open_pipe listens l.before (l.final ∷ []) l.earlier []
        refl l.arrive
    ∙ loop_rounds-Hears running_client rx open_pipe listens l.final [] l.batch
        (map report (firsts l.earlier)) refl l.hears
    ∙ rw (l.sets, l.other)
        (ap
          (λ calls.
            ok (record { code = success; client = record c { state = state }; calls = calls }))
          (sym (map-append report (firsts l.earlier) (firsts (l.batch ∷ [])))
            ∙ ap (map report)
                (sym (firsts-append l.earlier l.batch) ∙ ap firsts (sym l.all_batches))))

-- A message that asks for an acknowledgement and has no origin: octopipes_loop hands NULL to
-- octopipes_send_ex as the remote, which takes its length. The client speaks version 1 under an id
-- of at most 255 bytes. The message fits a frame, and no allocation fails.
pub loop_body_unnamed :
    (c : Client) (id rx : Bytes) (round : LoopRound) (q : Packet)
    → c.rx_pipe ≡ buffer rx
    → is_state c.state running ≡ true
    → HasId c id
    → Brings round q
    → q.origin ≡ []
    → (bit_and q.options require_ack == 0) ≡ false
    → loop_body round c ≡ fault null_dereference
unfolding take_message send_ex send_client fill_message read_string
loop_body_unnamed c id rx round q open_pipe runs has_id b unnamed asks =
    loop_body-take_message round c q rx open_pipe b
    ∙ rw (
      asks,
      b.roomy,
      runs,
      unnamed,
      u8-size has_id,
      has_id.named,
      read_bytes-drop (terminated id) 0 id (0 ∷ []) refl (omega arith),
    )

-- A message that asks for an acknowledgement, of an origin that is no longer than the client's id:
-- it is reported, and one frame goes to its origin, which carries no data, the option ACK and a
-- time to live of 255. The client speaks version 1 under an id of at most 255 bytes. The origin has
-- at most 255 bytes, and is not empty. The pipe takes the frame in time, and no allocation fails.
pub loop_body-acknowledges :
    (c : Client) (id rx tx : Bytes) (round : LoopRound) (q : Packet)
    → c.rx_pipe ≡ buffer rx
    → c.tx_pipe ≡ buffer tx
    → is_state c.state running ≡ true
    → HasId c id
    → Brings round q
    → IsGroup q.origin
    → q.origin ≢ []
    → length q.origin ≤ length id
    → (bit_and q.options require_ack == 0) ≡ false
    → Carries round.outgoing.attempts round.outgoing.events
        (255 * 1000)
        (17 + length q.origin + length id)
    → loop_body round c
      ≡ ok (record {
        calls =
            when c.on_received (report q)
            ++ when c.on_sent (
                sent_message (
                  filled id q.origin [] 255 ack
                    (packet_checksum (outgoing id q.origin [] 255 ack))));
        acknowledged =
            wire
              (outgoing id q.origin [] 255 ack)
              (packet_checksum (outgoing id q.origin [] 255 ack));
      })
unfolding take_message
loop_body-acknowledges c id rx tx round q open_pipe out_pipe runs has_id b named some_name short
      asks carries =
    let packs : IsPacket (outgoing id q.origin [] 255 ack) = record {
      origin_fits = omega (arith, length-set id (length q.origin) 0, has_id.is_short);
      remote_fits = named.1;
      options_fits = omega arith;
      frame_fits = omega (arith, length-set id (length q.origin) 0, has_id.is_short, named.1);
    } in
    loop_body-take_message round c q rx open_pipe b
    ∙ rw (
      asks,
      text_buffer-some q.origin some_name,
      b.roomy,
      send_ex-wire c id q.origin has_id named none [] 255 ack round.outgoing tx
          (unfold read_pointer in refl) (rw runs) out_pipe short packs (rw add-zero carries),
    )
