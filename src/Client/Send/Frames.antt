-- ===== src/Client/Send/Frames.antt =====
-- What octopipes_send_ex writes into the pipe of the client.
use liboctopipes.Prelude.{
  ℕ, zero, suc, ◌+◌, ◌*◌, ◌≤◌, ◌<◌, ◌≡◌, refl, sym, ap, ◌∙◌, true, ◌||◌, Option, some, [], ◌∷◌,
  arith, lt→ltb, ge→not_ltb, length, length-set, length-append, set, append-nil,
}
use liboctopipes.Types.{
  ok, fault, overflow, Bytes, ample, success, buffer, Message, subscribed, running, is_state,
}
use liboctopipes.Memory.{read_bytes, read_pointer, read_string, write_byte, terminated, u8}
use liboctopipes.Memory.Cursor.{read_bytes-drop, read_pointer-append, read_pointer-some}
use liboctopipes.Serializer.Frame.{Packet, IsPacket, structure, wire, packet_checksum}
use liboctopipes.Serializer.Encode.{encode-structure, length-wire}
use liboctopipes.Cap.Subscribe.{IsGroup, scan_string-terminated}
use liboctopipes.Pipes.Delivery.{Carries, pipe_send-Carries}
use liboctopipes.Client.{Client, sent_message, when, SendScript}
use liboctopipes.Client.Identity.{HasId, u8-size}
use liboctopipes.Client.Send.{fill_message, transmit, send_client, send_ex}

-- The packet that goes out: the byte of the id at the index of the remote's length is cleared.
abbrev pub outgoing : (id name bytes : Bytes) (ttl options : ℕ) → Packet
outgoing id name bytes ttl options = record {
  origin = set id (length name) 0;
  remote = name;
  ttl = ttl;
  options = options;
  payload = bytes;
}

-- The structure that octopipes_send_ex fills for it.
abbrev pub filled : (id name bytes : Bytes) (ttl options checksum : ℕ) → Message
filled id name bytes ttl options checksum =
    structure (outgoing id name bytes ttl options) (some (terminated (set id (length name) 0)))
      (some name) (some bytes) checksum

set-terminated :
    (id : Bytes) (i : ℕ) → i ≤ length id → set (terminated id) i 0 ≡ terminated (set id i 0)
set-terminated [] zero h = refl
set-terminated [] (suc i) h = absurd (ground arith)
set-terminated (b ∷ id) zero h = refl
set-terminated (b ∷ id) (suc i) h = ap (◌∷◌ b) (set-terminated id i (omega arith))

length-terminated : (id : Bytes) → length (terminated id) ≡ length id + 1
length-terminated id = length-append id (0 ∷ [])

u8-byte : (n : ℕ) → n < 256 → u8 n ≡ n
u8-byte n h = omega arith

read_name : (name : Bytes) → read_bytes name 0 (length name) ≡ ok name
read_name name = read_bytes-drop name 0 name [] (sym (append-nil name)) (omega arith)

module _ (c : Client) (id name : Bytes) (has_id : HasId c id) (is_group : IsGroup name) where
  fill_message-filled :
      (payload : Option Bytes) (bytes : Bytes) (ttl options : ℕ)
      → read_pointer payload (length bytes) ≡ ok bytes
      → length name ≤ length id
      → fill_message ample c (some (terminated name)) payload (length bytes) ttl options
        ≡ ok (filled id name bytes ttl options 0)
  unfolding fill_message read_string write_byte
  fill_message-filled payload bytes ttl options reads short =
      rw
        (
          u8-size has_id,
          has_id.named,
          read_bytes-drop (terminated id) 0 id (0 ∷ []) refl (omega arith),
          scan_string-terminated name is_group.0,
          u8-byte (length name) is_group.1,
          read_name name,
          lt→ltb (length name) (length (terminated id)) (omega (arith, length-terminated id)),
          set-terminated id (length name) short,
          reads,
          has_id.speaks,
          length-set id (length name) 0,
        )
        refl

  -- A remote that is longer than the client's own id: its terminator is written past the buffer of
  -- the origin, before anything is sent. The remote has at most 255 bytes, and the client is
  -- subscribed or running. The client speaks version 1 under an id of at most 255 bytes. No
  -- allocation fails.
  pub send_ex_long_remote :
      (out : SendScript) (payload : Option Bytes) (size ttl options : ℕ)
      → is_state c.state running || is_state c.state subscribed ≡ true
      → length id < length name
      → send_ex ample out (some (terminated name)) payload size ttl options (some c)
        ≡ fault overflow
  unfolding send_ex send_client fill_message read_string write_byte
  send_ex_long_remote out payload size ttl options connected long = rw (
    connected,
    u8-size has_id,
    has_id.named,
    read_bytes-drop (terminated id) 0 id (0 ∷ []) refl (omega arith),
    scan_string-terminated name is_group.0,
    u8-byte (length name) is_group.1,
    read_name name,
    ge→not_ltb (length name) (length (terminated id)) (omega (arith, length-terminated id)),
  )

  -- A client that subscribed, with a remote that is no longer than its own id: octopipes_send_ex
  -- writes one frame into the pipe of the client, whole, and reports SUCCESS and the message. The
  -- frame is that of the message, save that the byte of the id at the index of the remote's length
  -- is 0. The pipe has to be ready in time and no write to fail. The client speaks version 1 under
  -- an id of at most 255 bytes. The parts of the message fit a frame, and no allocation fails.
  pub send_ex-wire :
      (payload : Option Bytes) (bytes : Bytes) (ttl options : ℕ) (out : SendScript) (tx : Bytes)
      → read_pointer payload (length bytes) ≡ ok bytes
      → is_state c.state running || is_state c.state subscribed ≡ true
      → c.tx_pipe ≡ buffer tx
      → length name ≤ length id
      → IsPacket (outgoing id name bytes ttl options)
      → Carries out.attempts out.events (ttl * 1000) (17 + length name + length id + length bytes)
      → send_ex ample out (some (terminated name)) payload (length bytes) ttl options (some c)
        ≡ ok (record {
          reply = record {
            code = success;
            client = c;
            calls = when c.on_sent (
                sent_message (
                  filled id name bytes ttl options
                    (packet_checksum (outgoing id name bytes ttl options))));
          };
          written =
              wire
                (outgoing id name bytes ttl options)
                (packet_checksum (outgoing id name bytes ttl options));
        })
  unfolding send_ex send_client transmit
  send_ex-wire payload bytes ttl options out tx reads connected open_pipe short fits carries =
      let p : Packet = outgoing id name bytes ttl options in
      let size : length (wire p (packet_checksum p)) ≡ 17 + length name + length id + length bytes =
        length-wire p (packet_checksum p) ∙ omega (arith, length-set id (length name) 0) in
      rw (
        connected,
        fill_message-filled payload bytes ttl options reads short,
        encode-structure p (some (terminated p.origin)) (some name) (some bytes)
            (read_pointer-append p.origin (0 ∷ [])) (read_pointer-some name)
            (read_pointer-some bytes) ample 0 fits refl,
        open_pipe,
        pipe_send-Carries (wire p (packet_checksum p)) carries size
            (omega (arith, size, fits.frame_fits, length-set id (length name) 0)),
      )
