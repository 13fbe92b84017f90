-- ===== src/Serializer/Tests.antt =====
-- Runs of the serializer on small frames, and its theorems at a packet of two groups.
use liboctopipes.Prelude.{◌≡◌, refl, [], ◌∷◌, arith}
use liboctopipes.Types.{ok, err, fault, overread, bad_checksum, ample, Bytes, ◌>>=◌}
use liboctopipes.Memory.{read_byte, read_bytes, read_pointer}
use liboctopipes.Serializer.{
  encode, decode, encode_frame, encode_checksum, calculate_checksum, decode_v1, decode_tail,
  copy_text, copy_payload, read_size, verify_checksum,
}
use liboctopipes.Serializer.Frame.{Packet, IsPacket, message_of, wire}
use liboctopipes.Serializer.Encode.{encode-wire}
use liboctopipes.Serializer.RoundTrip.{decode-encode}
use liboctopipes.Serializer.Accepts.{decode-Accepted, Accepted}
use liboctopipes.Serializer.Checksum.{decode_corrupted_payload}
use liboctopipes.Serializer.Decode.{decode_overread}

abbrev hello : Packet
hello = record {
  origin = 7 ∷ 8 ∷ [];
  remote = 9 ∷ [];
  ttl = 60;
  options = 0;
  payload = 104 ∷ 105 ∷ 33 ∷ [];
}

abbrev hello_frame : Bytes
hello_frame =
    1 ∷ 1 ∷ 2 ∷ 7 ∷ 8 ∷ 1 ∷ 9 ∷ 60 ∷ 0 ∷ 0 ∷ 0 ∷ 0 ∷ 0 ∷ 0 ∷ 0 ∷ 3 ∷ 0 ∷ 27 ∷ 2 ∷ 104 ∷ 105 ∷ 33 ∷ 3
    ∷ []

hello-IsPacket : IsPacket hello
hello-IsPacket = omega arith

encode-hello : encode ample (message_of hello 99) ≡ ok (hello_frame, message_of hello 27)
unfolding encode encode_frame encode_checksum calculate_checksum read_pointer read_bytes
encode-hello = refl

decode-hello : decode ample hello_frame ≡ ok (message_of hello 27)
unfolding decode decode_v1 decode_tail copy_text copy_payload read_size verify_checksum
    calculate_checksum read_pointer read_byte read_bytes
decode-hello = refl

decode_bad_byte :
    decode ample (1 ∷ 1 ∷ 0 ∷ 0 ∷ 60 ∷ 0 ∷ 0 ∷ 0 ∷ 0 ∷ 0 ∷ 0 ∷ 0 ∷ 1 ∷ 0 ∷ 27 ∷ 2 ∷ 104 ∷ 3 ∷ [])
    ≡ err bad_checksum
unfolding decode decode_v1 decode_tail copy_text copy_payload read_size verify_checksum
    calculate_checksum read_pointer read_byte read_bytes
decode_bad_byte = refl

encode-wire_example : encode ample (message_of hello 99) ≡ ok (hello_frame, message_of hello 27)
encode-wire_example = encode-wire ample hello 99 hello-IsPacket refl

decode-encode_example :
    (encode ample (message_of hello 99) >>= λ sent. decode ample sent.0)
    ≡ (encode ample (message_of hello 99) >>= λ sent. ok sent.1)
decode-encode_example = decode-encode ample hello 99 hello-IsPacket (refl, refl, refl) refl

decode-Accepted_example : Accepted hello_frame (message_of hello 27)
decode-Accepted_example = decode-Accepted ample hello_frame (omega arith) decode-hello

decode_corrupted_payload_example :
    decode ample (wire (record hello { payload = 104 ∷ 106 ∷ 33 ∷ [] }) 27) ≡ err bad_checksum
decode_corrupted_payload_example =
    decode_corrupted_payload ample hello (104 ∷ []) (33 ∷ []) 105 106 hello-IsPacket
      (refl, refl, refl) refl refl (omega arith)

-- A frame of 19 bytes that announces 19 bytes of payload and holds two.
decode_overread_example :
    decode ample (1 ∷ 1 ∷ 0 ∷ 0 ∷ 60 ∷ 0 ∷ 0 ∷ 0 ∷ 0 ∷ 0 ∷ 0 ∷ 0 ∷ 18 ∷ 0 ∷ 27 ∷ 2 ∷ 104 ∷ 3 ∷ [])
    ≡ fault overread
decode_overread_example =
    decode_overread (record hello { origin = []; remote = [] }) 18 27 (104 ∷ 3 ∷ []) ample
      (refl, refl, refl) refl (omega arith) (omega arith) (omega arith) (omega arith)
      (unfold read_byte in refl)
