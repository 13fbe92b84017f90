-- ===== src/Serializer.antt =====
-- src/serializer.c: the wire format of a message. `heap` says which allocations of the call succeed.
-- The frame is the `data` of the source, and its length the `data_size`; NULL is the empty frame,
-- which is refused like any frame below 17 bytes.
pub mod Frame
pub mod Encode
pub mod Decode
pub mod RoundTrip
pub mod Joined
pub mod Sound
pub mod Tail
pub mod Accepts
pub mod Checksum
mod Tests
use liboctopipes.Prelude.{
  ℕ, ◌+◌, ◌-◌, ◌*◌, ◌/◌, ◌%◌, ◌^◌, Bool, ◌&&◌, Option, none, some, [], ◌∷◌, ◌++◌, bit_and, bit_xor,
  leb, ltb, ◌==◌, if◌then◌else◌, length,
}
use liboctopipes.Types.{
  Outcome, ok, err, fault, overflow, ◌>>=◌, ◌>>◌, require, bad_packet, bad_alloc, bad_checksum,
  unsupported_version, Bytes, Heap, Message, version_1, ignore_checksum,
}
use liboctopipes.Memory.{read_byte, read_bytes, read_pointer, terminated, u8, u64}

abbrev pub soh : ℕ
soh = 0x01

abbrev pub stx : ℕ
stx = 0x02

abbrev pub etx : ℕ
etx = 0x03

-- `data_size`, most significant byte first, as both encode and calculate_checksum write it.
abbrev pub size_bytes : ℕ → Bytes
size_bytes n =
    n / 2 ^ 56 % 256
    ∷ n / 2 ^ 48 % 256
    ∷ n / 2 ^ 40 % 256
    ∷ n / 2 ^ 32 % 256
    ∷ n / 2 ^ 24 % 256
    ∷ n / 2 ^ 16 % 256
    ∷ n / 2 ^ 8 % 256
    ∷ n % 256
    ∷ []

-- The exclusive or of all bytes, from `acc` on.
abbrev pub xor_bytes : ℕ → Bytes → ℕ
xor_bytes acc [] = acc
xor_bytes acc (b ∷ bs) = xor_bytes (bit_xor acc b) bs

-- calculate_checksum. A `char` is sign-extended, but only the low eight bits are kept.
unfoldable pub calculate_checksum : Message → Outcome ℕ
calculate_checksum m =
    if m.version == version_1
    then (do
      origin ← read_pointer m.origin m.origin_size
      remote ← read_pointer m.remote m.remote_size
      payload ← read_pointer m.payload m.data_size
      let acc = xor_bytes soh (version_1 ∷ m.origin_size ∷ origin)
      let acc = xor_bytes acc (m.remote_size ∷ remote)
      let acc = xor_bytes acc (m.ttl ∷ size_bytes m.data_size)
      let acc = xor_bytes acc (u8 m.options ∷ stx ∷ payload)
      ok (bit_xor acc etx))
    else ok (bit_xor soh etx)

-- `malloc` and `memcpy` of an origin or a remote of the frame; no buffer for an empty one.
unfoldable pub copy_text : Bool → Bytes → ℕ → ℕ → Outcome (Option Bytes)
copy_text fits frame at size =
    if ltb 0 size
    then (do require fits bad_alloc; text ← read_bytes frame at size; ok (some (terminated text)))
    else ok none

-- The same for the payload, which has no terminator.
unfoldable pub copy_payload : Bool → Bytes → ℕ → ℕ → Outcome (Option Bytes)
copy_payload fits frame at size =
    if ltb 0 size
    then (do require fits bad_alloc; bytes ← read_bytes frame at size; ok (some bytes))
    else ok none

-- One byte of the data size: `size << 8` and then `+= byte`.
abbrev pub shift_in : ℕ → ℕ → ℕ
shift_in size byte = u64 (u64 (size * 2 ^ 8) + byte)

abbrev pub shift_in_all : ℕ → Bytes → ℕ
shift_in_all size [] = size
shift_in_all size (b ∷ bs) = shift_in_all (shift_in size b) bs

-- The eight reads of the data size, from position `at` on.
unfoldable pub read_size : Bytes → ℕ → Outcome ℕ
read_size frame at = do bytes ← read_bytes frame at 8; ok (shift_in_all 0 bytes)

-- The check at the end: the checksum, unless the options tell to ignore it.
unfoldable pub verify_checksum : Message → Outcome Message
verify_checksum m =
    if bit_and m.options ignore_checksum == 0
    then (do sum ← calculate_checksum m; require (sum == m.checksum) bad_checksum; ok m)
    else ok m

-- The fields behind the remote, which end at position `at`.
unfoldable pub decode_tail :
    Heap → Bytes → ℕ → Option Bytes → ℕ → Option Bytes → ℕ → Outcome Message
decode_tail heap frame origin_size origin remote_size remote at = do
  ttl ← read_byte frame at
  data_size ← read_size frame (at + 1)
  options ← read_byte frame (at + 9)
  checksum ← read_byte frame (at + 10)
  marker ← read_byte frame (at + 11)
  require (marker == stx) bad_packet
  require (leb data_size (length frame)) bad_packet
  payload ← copy_payload (heap 3) frame (at + 12) data_size
  verify_checksum (record {
    version = version_1;
    origin_size = origin_size;
    origin = origin;
    remote_size = remote_size;
    remote = remote;
    ttl = ttl;
    data_size = data_size;
    options = options;
    checksum = checksum;
    payload = payload;
  })

-- The branch for version 1. Allocation 1 is the origin, 2 the remote, 3 the payload.
unfoldable pub decode_v1 : Heap → Bytes → Outcome Message
decode_v1 heap frame = do
  origin_size ← read_byte frame 2
  require (leb (17 + origin_size) (length frame)) bad_packet
  origin ← copy_text (heap 1) frame 3 origin_size
  remote_size ← read_byte frame (3 + origin_size)
  require (leb (17 + origin_size + remote_size) (length frame)) bad_packet
  remote ← copy_text (heap 2) frame (4 + origin_size) remote_size
  decode_tail heap frame origin_size origin remote_size remote (4 + origin_size + remote_size)

-- octopipes_decode. Allocation 0 is the message.
unfoldable pub decode : Heap → Bytes → Outcome Message
decode heap frame = do
  require (heap 0) bad_alloc
  require (leb 17 (length frame)) bad_packet
  first ← read_byte frame 0
  last ← read_byte frame (length frame - 1)
  require (first == soh && last == etx) bad_packet
  version ← read_byte frame 1
  if version == version_1 then decode_v1 heap frame else err unsupported_version

-- The checksum that encode stores in the message: 0 where it is to be ignored.
unfoldable pub encode_checksum : Message → Outcome ℕ
encode_checksum m = if bit_and m.options ignore_checksum == 0 then calculate_checksum m else ok 0

-- The bytes that encode writes, in order.
unfoldable pub encode_frame : Message → ℕ → Outcome Bytes
encode_frame m checksum = do
  origin ← read_pointer m.origin m.origin_size
  remote ← read_pointer m.remote m.remote_size
  payload ← read_pointer m.payload m.data_size
  ok (
      soh
      ∷ u8 m.version
      ∷ m.origin_size
      ∷ (origin
          ++ (m.remote_size
              ∷ (remote
                  ++ (m.ttl
                      ∷ (size_bytes m.data_size
                          ++ (u8 m.options ∷ checksum ∷ stx ∷ (payload ++ (etx ∷ [])))))))))

-- The size that encode allocates, in 64 bits.
abbrev pub frame_size : Message → ℕ
frame_size m = u64 (17 + m.remote_size + m.origin_size + m.data_size)

-- octopipes_encode. The result is the frame, and the message with its checksum set to 0 and then to
-- the sum of the message as it is then. A frame that is longer than its buffer overflows the heap.
unfoldable pub encode : Heap → Message → Outcome (Bytes × Message)
encode heap m =
    if m.version == version_1
    then (do
      require (heap 0) bad_alloc
      checksum ← encode_checksum (record m { checksum = 0 })
      frame ← encode_frame m checksum
      if leb (length frame) (frame_size m)
          then ok (frame, record m { checksum = checksum })
          else fault overflow)
    else err unsupported_version
