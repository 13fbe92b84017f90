-- ===== src/Octopipespp/Message.antt =====
-- liboctopipespp/src/message.cpp: the class Message around OctopipesMessage.
--
-- A std::string is its bytes. A std::bad_alloc that is thrown is the error BAD_ALLOC.
pub mod RoundTrip
use liboctopipes.Prelude.{
  ℕ, Bool, not, Option, none, some, [], ◌==◌, bit_and, ltb, if◌then◌else◌, length,
}
use liboctopipes.Types
use liboctopipes.Types.{
  Outcome, ok, fault, uninitialized_read, ◌>>=◌, ◌>>◌, require, handle, Bytes, Heap, heap_from,
  ignore_checksum,
}
use liboctopipes.Memory.{read_bytes, read_pointer, read_string, scan_string, terminated, u8}
use liboctopipes.Serializer.{calculate_checksum, decode, encode}
use liboctopipes.Octopipespp.{Error, translate_octopipes_error}

-- The pointer `payload`: it may be left unset by a constructor, be nullptr, or point at a buffer.
pub data Payload : Type 0 where
  unset null : Payload
  buffer : Bytes → Payload

-- octopipes::Message. The checksum is `none` where no call has set it.
pub record Message : Type 0 where
  pub version : ℕ
  pub origin : Bytes
  pub remote : Bytes
  pub payload : Payload
  pub payload_size : ℕ
  pub ttl : ℕ
  pub checksum : Option ℕ
  pub options : ℕ

-- Message(). The version is not set either, and is given.
unfoldable pub empty_message : ℕ → Message
empty_message version = record {
  version = version;
  origin = [];
  remote = [];
  payload = null;
  payload_size = 0;
  ttl = 0;
  checksum = some 0;
  options = 0;
}

-- `new uint8_t[size]` and memcpy, where the size is not 0; otherwise the pointer stays as it was.
unfoldable pub copy_payload : Bool → Payload → Option Bytes → ℕ → Outcome Payload
copy_payload fits old bytes size =
    if ltb 0 size
    then (do require fits Types.bad_alloc; copy ← read_pointer bytes size; ok (buffer copy))
    else ok old

-- Message(version, origin, remote, payload, payload_size, options, ttl). Without a payload the
-- pointer is not set.
unfoldable pub make_message :
    Bool → ℕ → (origin remote : Bytes) → Option Bytes → ℕ → ℕ → ℕ → Outcome Message
make_message fits version origin remote payload payload_size options ttl = do
  copy ← copy_payload fits unset payload payload_size
  ok (record {
    version = version;
    origin = origin;
    remote = remote;
    payload = copy;
    payload_size = payload_size;
    ttl = ttl;
    checksum = none;
    options = options;
  })

-- `std::string(pointer)` where the pointer is not NULL, and the empty string otherwise.
abbrev pub string_or_empty : Option Bytes → Outcome Bytes
string_or_empty none = ok []
string_or_empty (some bytes) = scan_string bytes

-- Message(const void* message_ptr), which the callbacks of a Client are given.
unfoldable pub from_message : Bool → Types.Message → Outcome Message
from_message fits m = do
  origin ← string_or_empty m.origin
  remote ← string_or_empty m.remote
  copy ← copy_payload fits null m.payload m.data_size
  ok (record {
    version = m.version;
    origin = origin;
    remote = remote;
    payload = copy;
    payload_size = m.data_size;
    ttl = m.ttl;
    checksum = none;
    options = m.options;
  })

-- ~Message().
unfoldable pub delete_message : Message → Outcome (Unit {0})
delete_message this = elim this.payload [
  | unset ↦ fault uninitialized_read
  | null ↦ ok tt
  | buffer bytes ↦ ok tt
]

-- Message::getOption.
unfoldable pub get_option : Message → ℕ → Bool
get_option this option = not (bit_and (u8 this.options) (u8 option) == 0)

-- What a call returns, and the object as it leaves it.
pub record Decoded : Type 0 where
  pub code : Error
  pub this : Message

-- Message::decodeData. A std::string is assigned from a pointer that must not be NULL. Allocations 0
-- to 3 are those of octopipes_decode, and 4 is the payload.
unfoldable pub decode_data : Heap → Message → Bytes → Outcome Decoded
decode_data heap this frame =
    handle (decode heap frame)
      (λ code. ok (record { code = translate_octopipes_error code; this = this }))
      λ m. do
        origin ← read_string m.origin
        remote ← read_string m.remote
        copy ← copy_payload (heap 4) this.payload m.payload m.data_size
        ok (record {
          code = Error.success;
          this = record {
            version = m.version;
            origin = origin;
            remote = remote;
            payload = copy;
            payload_size = m.data_size;
            ttl = m.ttl;
            checksum = some m.checksum;
            options = m.options;
          };
        })

-- The source of the memcpy of the payload. Nothing is read for a size of 0.
abbrev pub payload_pointer : Payload → Option Bytes
payload_pointer unset = none
payload_pointer null = none
payload_pointer (buffer bytes) = some bytes

-- The OctopipesMessage that Message::encodeData fills. The size fields are a byte, and so is the time
-- to live. The checksum is set later. Allocation 1 is the origin, 2 the remote and 3 the payload.
unfoldable pub fill_message : Heap → Message → Outcome Types.Message
fill_message heap this = do
  require (heap 1) Types.bad_alloc
  origin ← read_bytes (terminated this.origin) 0 (u8 (length this.origin))
  require (heap 2) Types.bad_alloc
  remote ← read_bytes (terminated this.remote) 0 (u8 (length this.remote))
  require (heap 3) Types.bad_alloc
  payload ← read_pointer (payload_pointer this.payload) this.payload_size
  ok (record {
    version = this.version;
    origin_size = u8 (length this.origin);
    origin = some (terminated origin);
    remote_size = u8 (length this.remote);
    remote = some (terminated remote);
    ttl = u8 this.ttl;
    data_size = this.payload_size;
    options = this.options;
    checksum = 0;
    payload = some payload;
  })

-- What encodeData returns: the frame where it set one.
pub record Encoded : Type 0 where
  pub code : Error
  pub this : Message
  pub frame : Option Bytes

-- The checksum that is put into the message and into the object, unless it is to be ignored.
unfoldable pub note_checksum : Message → Types.Message → Outcome (Message × Types.Message)
note_checksum this m = if get_option this ignore_checksum then ok (this, m) else (do
  sum ← calculate_checksum m
  ok (record this { checksum = some sum }, record m { checksum = sum }))

-- Message::encodeData. Allocation 0 is the message and 4 the frame.
unfoldable pub encode_data : Heap → Message → Outcome Encoded
encode_data heap this =
    if heap 0
    then handle (fill_message heap this)
        (λ code. ok (record { code = translate_octopipes_error code; this = this; frame = none }))
        (λ m. do
          noted ← note_checksum this m
          handle (encode (heap_from 4 heap) noted.1)
              (λ code.
                ok (record { code = translate_octopipes_error code; this = noted.0; frame = none }))
              (λ sent. ok (record { code = Error.success; this = noted.0; frame = some sent.0 })))
    else ok (record { code = Error.bad_alloc; this = this; frame = none })
