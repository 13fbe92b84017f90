-- ===== src/Client/Requests.antt =====
-- The parts that octopipes_subscribe and octopipes_unsubscribe share: the request to the server.
pub mod Wire
use liboctopipes.Prelude.{ℕ, none, some, length}
use liboctopipes.Types.{Outcome, ok, ◌>>=◌, Bytes, Message}
use liboctopipes.Memory.{read_bytes, terminated, u8}
use liboctopipes.Client.{Client}

abbrev pub default_ttl : ℕ
default_ttl = 60

-- A request with this payload: the origin is a copy of `size` bytes of the client's id, and there is no
-- remote. The one byte of the origin's size drops what does not fit. The checksum is set by encode.
unfoldable pub request : Client → ℕ → Bytes → Outcome Message
request c size payload = do
  id ← read_bytes c.client_id 0 size
  ok (record {
    version = c.protocol_version;
    origin_size = u8 c.client_id_size;
    origin = some (terminated id);
    remote_size = 0;
    remote = none;
    ttl = default_ttl;
    data_size = length payload;
    options = 0;
    checksum = 0;
    payload = some payload;
  })
