-- ===== src/Client/Send.antt =====
-- octopipes_send and octopipes_send_ex.
pub mod Frames
use liboctopipes.Prelude.{ℕ, ◌*◌, ◌||◌, ◌&&◌, Option, none, some, [], if◌then◌else◌, length}
use liboctopipes.Types.{
  Outcome, ok, err, ◌>>=◌, ◌>>◌, handle, is_success, require, Error, bad_alloc, not_subscribed,
  Bytes, Heap, heap_from, Message, subscribed, running, is_state,
}
use liboctopipes.Memory.{read_bytes, read_pointer, read_string, write_byte, terminated, usable, u8}
use liboctopipes.Serializer.{encode}
use liboctopipes.Pipes.{pipe_send}
use liboctopipes.Client.{Client, sent_message, Reply, when, SendScript}
use liboctopipes.Client.Requests.{default_ttl}

-- What a send returns, with the bytes that went into the client's transmission pipe.
pub record Transmission : Type 0 where
  pub reply : Reply
  pub written : Bytes

abbrev pub unsent : Error → Client → Outcome Transmission
unsent code c = ok (record { reply = record { code = code; client = c; calls = [] }; written = [] })

-- `Fill message structure`. The terminator of the remote is written into the origin, at the index
-- `remote_size`, so the copy of the remote has none. Allocation 1 is the origin, 2 the remote and 3
-- the payload.
unfoldable pub fill_message :
    Heap → Client → Option Bytes → Option Bytes → ℕ → ℕ → ℕ → Outcome Message
fill_message heap c remote payload data_size ttl options = do
  require (heap 1) bad_alloc
  id ← read_bytes c.client_id 0 (u8 c.client_id_size)
  name ← read_string remote
  require (heap 2) bad_alloc
  text ← read_bytes name 0 (u8 (length name))
  origin ← write_byte (terminated id) (u8 (length name)) 0
  require (heap 3) bad_alloc
  bytes ← read_pointer payload data_size
  ok (record {
    version = c.protocol_version;
    origin_size = u8 c.client_id_size;
    origin = some origin;
    remote_size = u8 (length name);
    remote = some text;
    ttl = ttl;
    data_size = data_size;
    options = options;
    checksum = 0;
    payload = some bytes;
  })

-- From `Encode message` on: the frame goes into the transmission pipe within ttl seconds.
unfoldable pub transmit : Heap → SendScript → Client → Message → Outcome Transmission
transmit heap out c m =
    handle (encode heap m) (λ code. unsent code c)
      λ frame. do
        usable c.tx_pipe
        sent ← pipe_send out.attempts out.events frame.0 (m.ttl * 1000)
        ok (record {
          reply = record {
            code = sent.code;
            client = c;
            calls = when (is_success sent.code && c.on_sent) (sent_message frame.1);
          };
          written = sent.written;
        })

-- Allocation 0 is the message and 4 the frame.
unfoldable pub send_client :
    Heap → SendScript → Option Bytes → Option Bytes → ℕ → ℕ → ℕ → Client → Outcome Transmission
send_client heap out remote payload data_size ttl options c =
    if is_state c.state running || is_state c.state subscribed
    then (if heap 0
        then handle (fill_message heap c remote payload data_size ttl options)
            (λ code. unsent code c) (transmit (heap_from 4 heap) out c)
        else unsent bad_alloc c)
    else unsent not_subscribed c

-- octopipes_send_ex.
unfoldable pub send_ex :
    Heap
    → SendScript
    → Option Bytes
    → Option Bytes
    → ℕ
    → ℕ
    → ℕ
    → Option Client
    → Outcome Transmission
send_ex heap out remote payload data_size ttl options none = err Error.uninitialized
send_ex heap out remote payload data_size ttl options (some c) =
    send_client heap out remote payload data_size ttl options c

-- octopipes_send.
unfoldable pub send :
    Heap → SendScript → Option Bytes → Option Bytes → ℕ → Option Client → Outcome Transmission
send heap out remote payload data_size client =
    send_ex heap out remote payload data_size default_ttl 0 client
