-- ===== src/Client/Subscribe/Assigned.antt =====
-- A subscription that the server answers.
use liboctopipes.Prelude.{
  ℕ, ◌+◌, ◌*◌, ◌≤◌, ◌<◌, ◌^◌, ◌≡◌, ◌≢◌, refl, ◌∙◌, true, false, some, List, [], ◌∷◌, ◌++◌, arith,
  length, length-append, All, Bool-cases, inl, inr, ◌==◌, ==_refl,
}
use liboctopipes.Types.{
  ok, fault, dangling, ◌>>=◌, bad_packet, Bytes, ample, success, subscribed, running, is_state,
  cap_success,
}
use liboctopipes.Memory.{same_bytes}
use liboctopipes.Serializer.Frame.{Packet, IsPacket, message_of, wire, packet_checksum}
use liboctopipes.Serializer.Encode.{text_buffer-some}
use liboctopipes.Serializer.RoundTrip.{decode-wire, checked-packet_checksum}
use liboctopipes.Cap.{get_message, cap_assignment}
use liboctopipes.Cap.Subscribe.{
  IsGroup, buffers, group_frames, length-group_frames-le, subscription_payload,
  prepare_subscription-buffers, scan_string-terminated,
}
use liboctopipes.Cap.Assign.{assignment_payload, assigned, parse_assign-payload, parse_assign-cut}
use liboctopipes.Pipes.{ReadEvent}
use liboctopipes.Pipes.Delivery.{Delivers, Carries, pipe_receive-Delivers, pipe_send-Carries}
use liboctopipes.Client.{Client, was_subscribed, when, SendScript}
use liboctopipes.Client.Identity.{HasId, scan_string-client_id}
use liboctopipes.Client.Requests.Wire.{
  request_frame, request-request_message, encode-request_message, length-request_frame,
}
use liboctopipes.Client.Unsubscribe.{cleanup}
use liboctopipes.Client.Subscribe.{
  Subscribed, subscribe, subscribe_client, subscribe_payload, await_answer, take_answer, drop_pipes,
  take_assignment,
}

-- The answer of the server: an assignment, for this client.
abbrev pub answer_packet : (id rest : Bytes) → Packet
answer_packet id rest = record {
  origin = [];
  remote = id;
  ttl = 5;
  options = 0;
  payload = cap_assignment ∷ rest;
}

abbrev pub answer_frame : (id rest : Bytes) → Bytes
answer_frame id rest = wire (answer_packet id rest) (packet_checksum (answer_packet id rest))

-- Its payload behind the first byte.
abbrev pub assignment_rest : ℕ → (tx rx : Bytes) → Bytes
assignment_rest error tx rx = error ∷ length tx ∷ (tx ++ length rx ∷ rx)

same_bytes_refl : (text : Bytes) → same_bytes text text ≡ true
same_bytes_refl [] = refl
same_bytes_refl (b ∷ bs) = rw (==_refl b, same_bytes_refl bs)

-- A client that is neither subscribed nor running, so that it holds no pipes.
abbrev pub IsIdle : Client → Type 0
IsIdle c = (is_state c.state running ≡ false) × (is_state c.state subscribed ≡ false)

-- What a client that has no pipes yet makes of it.
abbrev pub enters : Client → ℕ → (tx rx : Bytes) → Subscribed
enters c error tx rx = record {
  reply = record {
    code = success;
    client = record c {
      tx_pipe = (assigned error tx rx c.tx_pipe c.rx_pipe).tx;
      rx_pipe = (assigned error tx rx c.tx_pipe c.rx_pipe).rx;
      state = subscribed;
    };
    calls = when c.on_subscribed was_subscribed;
  };
  assignment_error = some error;
  written = [];
}

-- The request that it sends for these groups.
abbrev pub subscription_frame : Bytes → List Bytes → Bytes
subscription_frame id texts =
    request_frame id (subscription_payload (length texts) (group_frames texts))

module _ (c : Client) (id : Bytes) (has_id : HasId c id) (some_id : id ≢ []) (idle : IsIdle c) where
  drop_pipes_idle : drop_pipes c ≡ ok c
  unfolding drop_pipes
  drop_pipes_idle = rw (idle.0, idle.1, idle.0)

  take_answer-take_assignment :
      (rest : Bytes) (checksum : ℕ)
      → take_answer ample c (message_of (answer_packet id rest) checksum)
        ≡ take_assignment ample c (cap_assignment ∷ rest)
  unfolding take_answer get_message
  take_answer-take_assignment rest checksum = rw (
    text_buffer-some id some_id,
    scan_string-terminated id has_id.is_text,
    scan_string-client_id has_id,
    same_bytes_refl id,
    drop_pipes_idle,
  )

  await_answer-take_assignment :
      (rest : Bytes) (events : List ReadEvent)
      → length rest < 2 ^ 32
      → Delivers events 5000 (answer_frame id rest)
      → await_answer ample c (record { opened = true; events = events })
        ≡ take_assignment ample c (cap_assignment ∷ rest)
  unfolding await_answer
  await_answer-take_assignment rest events fits comes =
      let p : Packet = answer_packet id rest in
      let packs : IsPacket p = record {
        origin_fits = omega arith;
        remote_fits = has_id.is_short;
        options_fits = omega arith;
        frame_fits = omega (arith, fits, has_id.is_short);
      } in
      rw
        (
          pipe_receive-Delivers comes,
          decode-wire ample p (packet_checksum p) packs (refl, refl, refl) refl,
          checked-packet_checksum p,
        )
        (take_answer-take_assignment rest (packet_checksum p))

  -- The request goes out, and the answer comes in and is taken.
  subscribe-take_assignment :
      (rest : Bytes) (texts : List Bytes) (out : SendScript) (events : List ReadEvent)
      → All IsGroup texts
      → length texts < 256
      → length rest < 2 ^ 32
      → Carries out.attempts out.events 5000 (19 + length id + length (group_frames texts))
      → Delivers events 5000 (answer_frame id rest)
      → subscribe ample out (record { opened = true; events = events }) (buffers texts) (some c) ≡ (
          take_assignment ample c (cap_assignment ∷ rest) >>= λ done.
          ok (record done { written = subscription_frame id texts }))
  unfolding subscribe subscribe_client subscribe_payload
  subscribe-take_assignment rest texts out events are_groups few fits carries comes =
      let payload : Bytes = subscription_payload (length texts) (group_frames texts) in
      let bound : length (group_frames texts) ≤ 256 * length texts =
        length-group_frames-le texts are_groups in
      let size : length (request_frame id payload) ≡ 19 + length id + length (group_frames texts) =
        length-request_frame id payload ∙ omega arith in
      rw (
        prepare_subscription-buffers ample texts refl are_groups few,
        request-request_message payload has_id,
        encode-request_message ample id payload refl has_id.is_short
            (omega (arith, bound, has_id.is_short)),
        pipe_send-Carries (request_frame id payload) carries size
            (omega (arith, size, bound, has_id.is_short)),
        await_answer-take_assignment rest events fits comes,
      )

  take_assignment-enters :
      (error : ℕ) (tx rx : Bytes)
      → take_assignment ample c (assignment_payload error tx rx) ≡ ok (enters c error tx rx)
  unfolding take_assignment
  take_assignment-enters error tx rx = elim (Bool-cases (error == cap_success)) [
    | inl good ↦ rw (parse_assign-payload error tx rx c.tx_pipe c.rx_pipe, good) refl
    | inr bad ↦ rw (parse_assign-payload error tx rx c.tx_pipe c.rx_pipe, bad) refl
  ]

  -- A client that is not subscribed yet and sends its groups, and to which the server answers with
  -- an assignment: octopipes_subscribe returns SUCCESS, hands out the error of the assignment,
  -- calls the callback and enters SUBSCRIBED, with the two pipes of the assignment if it carries no
  -- error. If it carries one the client is SUBSCRIBED all the same, and its pipes are left as they
  -- were. It has written one frame into the Common Access Pipe, that of the subscription with these
  -- groups. The request has to go out, and the answer to come in time; no allocation fails. The
  -- client speaks version 1 under a non-empty id of at most 255 bytes. It asks for at most 255
  -- groups of at most 255 bytes each.
  pub subscribe-enters :
      (error : ℕ) (tx rx : Bytes) (texts : List Bytes) (out : SendScript) (events : List ReadEvent)
      → All IsGroup texts
      → length texts < 256
      → length tx + length rx < 2 ^ 31
      → Carries out.attempts out.events 5000 (19 + length id + length (group_frames texts))
      → Delivers events 5000 (answer_frame id (assignment_rest error tx rx))
      → subscribe ample out (record { opened = true; events = events }) (buffers texts) (some c)
        ≡ ok (record (enters c error tx rx) { written = subscription_frame id texts })
  subscribe-enters error tx rx texts out events are_groups few fits carries comes =
      subscribe-take_assignment (assignment_rest error tx rx) texts out events are_groups few
        (omega (arith, fits, length-append tx (length rx ∷ rx))) carries comes
      ∙ rw (take_assignment-enters error tx rx) refl

  -- An assignment that ends inside its second path: octopipes_subscribe returns BAD_PACKET, and
  -- leaves two dangling pointers in the client, which octopipes_cleanup then frees again. The
  -- client is not subscribed yet. The client speaks version 1 under a non-empty id of at most 255
  -- bytes. It asks for at most 255 groups of at most 255 bytes each. The request goes out and the
  -- answer comes in time, and no allocation fails.
  pub subscribe_cut-cleanup :
      (tx part : Bytes) (size : ℕ) (texts : List Bytes) (out : SendScript) (events : List ReadEvent)
      → length part < size
      → All IsGroup texts
      → length texts < 256
      → length tx + length part < 2 ^ 31
      → Carries out.attempts out.events 5000 (19 + length id + length (group_frames texts))
      → Delivers events 5000 (answer_frame id (0 ∷ length tx ∷ (tx ++ size ∷ part)))
      → (subscribe ample out (record { opened = true; events = events }) (buffers texts) (some c)
            >>= λ done. ok done.reply.code)
          ≡ ok bad_packet
        × ((subscribe ample out (record { opened = true; events = events }) (buffers texts) (some c)
              >>= λ done. cleanup ample out (some done.reply.client))
            ≡ fault dangling)
  unfolding take_assignment cleanup
  subscribe_cut-cleanup tx part size texts out events short are_groups few fits carries comes =
      let answered =
        subscribe-take_assignment (0 ∷ length tx ∷ (tx ++ size ∷ part)) texts out events are_groups
          few (omega (arith, fits, length-append tx (size ∷ part))) carries comes in
      let cut = parse_assign-cut tx part size c.tx_pipe c.rx_pipe short in
      (rw (answered, cut), rw (answered, cut, idle.0, idle.1))
