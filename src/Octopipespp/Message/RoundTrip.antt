-- ===== src/Octopipespp/Message/RoundTrip.antt =====
-- What Message::encodeData makes of a message, and Message::decodeData of its frame.
use liboctopipes.Prelude.{
  ℕ, ◌<◌, ◌≡◌, ◌≢◌, ◌⊎◌, refl, true, some, none, [], ◌∷◌, length, arith, lt→ltb, Bool-cases, inl,
  inr,
}
use liboctopipes.Types
use liboctopipes.Types.{
  Outcome, ok, fault, null_dereference, ◌>>=◌, Bytes, ample, version_1, ignore_checksum,
}
use liboctopipes.Memory.{read_pointer, read_string, terminated, u8, bytes_or_empty}
use liboctopipes.Memory.Cursor.{read_bytes-drop, read_pointer-append, read_pointer-some}
use liboctopipes.Serializer.{encode}
use liboctopipes.Serializer.Frame.{
  Packet, IsPacket, structure, payload_buffer, text_buffer, wire, wire_sum, packet_checksum,
}
use liboctopipes.Serializer.Encode.{
  encode-structure, calculate_checksum-structure, text_buffer-some,
}
use liboctopipes.Serializer.RoundTrip.{decode-wire, checked-packet_checksum}
use liboctopipes.Cap.Subscribe.{IsText, scan_string-terminated}
use liboctopipes.Octopipespp.{Error}
use liboctopipes.Octopipespp.Message.{
  Payload, unset, buffer, Message, copy_payload, make_message, decode_data, payload_pointer,
  fill_message, get_option, note_checksum, encode_data,
}

-- The pointer behind a copy of these bytes.
abbrev pub held : Bytes → Payload → Payload
held [] old = old
held (b ∷ bs) old = buffer (b ∷ bs)

copy_payload-held :
    (bytes : Bytes) (old : Payload)
    → copy_payload true old (some bytes) (length bytes) ≡ ok (held bytes old)
unfolding copy_payload
copy_payload-held [] old = refl
copy_payload-held (b ∷ bs) old =
    rw (lt→ltb 0 (length (b ∷ bs)) (omega arith), read_pointer-some (b ∷ bs))

pub copy_payload-payload_buffer :
    (bytes : Bytes) (old : Payload)
    → copy_payload true old (payload_buffer bytes) (length bytes) ≡ ok (held bytes old)
unfolding copy_payload
copy_payload-payload_buffer [] old = refl
copy_payload-payload_buffer (b ∷ bs) old = copy_payload-held (b ∷ bs) old

read_pointer-held :
    (bytes : Bytes) → read_pointer (payload_pointer (held bytes unset)) (length bytes) ≡ ok bytes
read_pointer-held [] = unfold read_pointer in refl
read_pointer-held (b ∷ bs) = read_pointer-some (b ∷ bs)

u8-byte : (n : ℕ) → n < 256 → u8 n ≡ n
u8-byte n h = omega arith

-- The object for a packet, with this checksum.
abbrev pub object_of : Packet → Payload → Message
object_of p old = record {
  version = version_1;
  origin = p.origin;
  remote = p.remote;
  payload = held p.payload old;
  payload_size = length p.payload;
  ttl = p.ttl;
  checksum = none;
  options = p.options;
}

-- The message that encodeData fills for it.
abbrev filled : Packet → ℕ → Types.Message
filled p = structure p (some (terminated p.origin)) (some (terminated p.remote)) (some p.payload)

unnamed {ℓ} :
    {A : Type ℓ} (origin remote : Bytes) (next : Bytes → Bytes → Outcome A)
    → IsText origin
    → (origin ≡ []) ⊎ (remote ≡ [])
    → (read_string (text_buffer origin) >>= λ o. read_string (text_buffer remote) >>= λ r. next o r)
      ≡ fault null_dereference
unfolding read_string
unnamed [] remote next text h = refl
unnamed (b ∷ bs) remote next text (inl empty) = cc
unnamed (b ∷ bs) [] next text (inr empty) = rw (scan_string-terminated (b ∷ bs) text)
unnamed (b ∷ bs) (r ∷ rs) next text (inr empty) = cc

module _ (p : Packet) (packs : IsPacket p) (ttl_fits : p.ttl < 256) where
  fill_message-filled : fill_message ample (object_of p unset) ≡ ok (filled p 0)
  unfolding fill_message
  fill_message-filled = rw (
    u8-byte (length p.origin) packs.origin_fits,
    u8-byte (length p.remote) packs.remote_fits,
    u8-byte p.ttl ttl_fits,
    read_bytes-drop (terminated p.origin) 0 p.origin (0 ∷ []) refl (omega arith),
    read_bytes-drop (terminated p.remote) 0 p.remote (0 ∷ []) refl (omega arith),
    read_pointer-held p.payload,
  )

  encode-filled :
      (old : ℕ)
      → encode ample (filled p old) ≡ ok (wire p (packet_checksum p), filled p (packet_checksum p))
  encode-filled old =
      encode-structure p (some (terminated p.origin)) (some (terminated p.remote)) (some p.payload)
        (read_pointer-append p.origin (0 ∷ [])) (read_pointer-append p.remote (0 ∷ []))
        (read_pointer-some p.payload) ample old packs refl

  -- encodeData of the object for a packet.
  encode_data-wire :
      (this : Message) × (encode_data ample (object_of p unset)
        ≡ ok (record {
          code = Error.success;
          this = this;
          frame = some (wire p (packet_checksum p));
        }))
  unfolding encode_data note_checksum
  encode_data-wire = elim (Bool-cases (get_option (object_of p unset) ignore_checksum)) [
    | inl ignored ↦ (object_of p unset, rw (fill_message-filled, ignored, encode-filled 0))
    | inr used ↦ (
      record (object_of p unset) { checksum = some (wire_sum p) },
      rw (
        fill_message-filled,
        used,
        calculate_checksum-structure p (some (terminated p.origin)) (some (terminated p.remote))
            (some p.payload) (read_pointer-append p.origin (0 ∷ []))
            (read_pointer-append p.remote (0 ∷ [])) (read_pointer-some p.payload) 0
            packs.options_fits,
        encode-filled (wire_sum p),
      ),
    )
  ]

  -- decodeData of the frame of a packet.
  decode_data-wire :
      (other : Message)
      → p.origin ≢ []
      → p.remote ≢ []
      → IsText p.origin
      → IsText p.remote
      → decode_data ample other (wire p (packet_checksum p))
        ≡ ok (record {
          code = Error.success;
          this = record (object_of p other.payload) { checksum = some (packet_checksum p) };
        })
  unfolding decode_data read_string
  decode_data-wire other some_origin some_remote origin_text remote_text = rw (
    decode-wire ample p (packet_checksum p) packs (refl, refl, refl) refl,
    checked-packet_checksum p,
    text_buffer-some p.origin some_origin,
    text_buffer-some p.remote some_remote,
    scan_string-terminated p.origin origin_text,
    scan_string-terminated p.remote remote_text,
    copy_payload-payload_buffer p.payload other.payload,
  )

  -- A Message that is made from its parts, encoded by encodeData and decoded by decodeData into any
  -- other Message: the other one has the same version, origin, remote, payload, time to live and
  -- options then, and the checksum of the frame. Where there is no payload its pointer stays as it
  -- was. The origin and the remote are non-empty texts, the parts fit a frame, the time to live is
  -- a byte, and no allocation fails.
  pub decode_data-encode_data :
      (other : Message)
      → p.origin ≢ []
      → p.remote ≢ []
      → IsText p.origin
      → IsText p.remote
      → (make_message true version_1 p.origin p.remote
            (some p.payload)
            (length p.payload)
            p.options
            p.ttl
          >>= λ made. encode_data ample made >>= λ sent.
              decode_data ample other (bytes_or_empty sent.frame))
        ≡ ok (record {
          code = Error.success;
          this = record (object_of p other.payload) { checksum = some (packet_checksum p) };
        })
  unfolding make_message
  decode_data-encode_data other some_origin some_remote origin_text remote_text =
      let (this, encoded) = encode_data-wire in
      rw (copy_payload-held p.payload unset, encoded)
        (decode_data-wire other some_origin some_remote origin_text remote_text)

  -- The frame of a message that has no origin or no remote, as all of the Common Access Pipe are:
  -- decodeData assigns a std::string from NULL. The parts fit a frame, the origin is a text, and no
  -- allocation fails.
  pub decode_data_unnamed :
      (other : Message)
      → IsText p.origin
      → (p.origin ≡ []) ⊎ (p.remote ≡ [])
      → decode_data ample other (wire p (packet_checksum p)) ≡ fault null_dereference
  unfolding decode_data
  decode_data_unnamed other text missing =
      rw
        (
          decode-wire ample p (packet_checksum p) packs (refl, refl, refl) refl,
          checked-packet_checksum p,
        )
        (unnamed p.origin p.remote _ text missing)
