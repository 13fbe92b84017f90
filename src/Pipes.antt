-- ===== src/Pipes.antt =====
-- src/pipes_unix.c: FIFOs. The operating system answers by a script, one entry for each `poll` (with
-- the `read` or `write` that follows it) or `open`; a call that has used up its script is still
-- waiting, and is `pending`.
pub mod Receive
pub mod Send
pub mod SendFailures
pub mod Delivery
mod Tests
use liboctopipes.Prelude.{
  ℕ, ◌+◌, ◌-◌, ◌^◌, Bool, true, false, Option, none, some, List, [], ◌∷◌, ◌++◌, ltb, ◌==◌,
  if◌then◌else◌, length, take, drop,
}
use liboctopipes.Types.{
  Outcome, ok, fault, pending, uninitialized_read, ◌>>=◌, Error, success, no_data_available,
  open_failed, read_failed, write_failed, bad_alloc, Bytes,
}
use liboctopipes.Memory.{u64}

-- The answer of `mkfifo` or `unlink`: 0, the one errno that is no error, or another one.
pub data FileAnswer : Type 0 where
  done : FileAnswer
  harmless : FileAnswer
  refused : FileAnswer

-- pipe_create; `harmless` is EEXIST.
unfoldable pub pipe_create : FileAnswer → Error
pipe_create done = success
pipe_create harmless = success
pipe_create refused = open_failed

-- pipe_delete; `harmless` is ENOENT.
unfoldable pub pipe_delete : FileAnswer → Error
pipe_delete done = success
pipe_delete harmless = success
pipe_delete refused = open_failed

-- One round of the receive loop. `received bytes fits`: POLLIN, `read` gave these bytes, and the
-- reallocation succeeded or not. `would_block` is an EAGAIN of `read`, `interrupted` one of `poll`.
pub data ReadEvent : Type 0 where
  received : Bytes → Bool → ReadEvent
  would_block read_error error_state hang_up other_event timed_out interrupted poll_error :
      ReadEvent

-- The result of pipe_receive: its code, and `data` and `data_size`.
pub record Received : Type 0 where
  pub code : Error
  pub bytes : Option Bytes
  pub size : ℕ

-- What follows the loop.
unfoldable pub receive_end : Error → Option Bytes → ℕ → Received
receive_end code none size =
    if ltb 0 size
    then record { code = success; bytes = none; size = size }
    else record { code = code; bytes = none; size = size }
receive_end code (some bytes) size =
    if ltb 0 size
    then record { code = success; bytes = some bytes; size = size }
    else record { code = code; bytes = none; size = 0 }

-- The buffer after a reallocation by these bytes.
abbrev pub grow : Option Bytes → Bytes → Option Bytes
grow none more = some more
grow (some bytes) more = some (bytes ++ more)

-- What a round of the loop comes to: go on, or leave the loop with this code.
pub data Round : Type 0 where
  goes_on : (elapsed : ℕ) → Option Bytes → ℕ → Round
  leaves : Error → Option Bytes → ℕ → Round

-- With nothing to read a round counts 50 ms while no data has come, and leaves the loop otherwise.
unfoldable pub idle_round : ℕ → Option Bytes → ℕ → Round
idle_round elapsed none size = goes_on (elapsed + 50) none size
idle_round elapsed (some bytes) size = leaves no_data_available (some bytes) size

-- The body of the loop. `data_size` is raised before the reallocation.
unfoldable pub receive_round : ReadEvent → ℕ → Option Bytes → ℕ → Round
receive_round (received more true) elapsed bytes size =
    goes_on elapsed (grow bytes more) (size + length more)
receive_round (received more false) elapsed bytes size = leaves bad_alloc none (size + length more)
receive_round would_block elapsed bytes size = idle_round elapsed bytes size
receive_round read_error elapsed bytes size = leaves read_failed bytes size
receive_round error_state elapsed bytes size = leaves read_failed bytes size
receive_round hang_up elapsed bytes size = idle_round elapsed bytes size
receive_round other_event elapsed bytes size = goes_on elapsed bytes size
receive_round timed_out elapsed bytes size = idle_round elapsed bytes size
receive_round interrupted elapsed bytes size = idle_round elapsed bytes size
receive_round poll_error elapsed bytes size = leaves read_failed bytes size

-- The loop of pipe_receive.
unfoldable pub receive_loop :
    List ReadEvent → (timeout elapsed : ℕ) → Option Bytes → ℕ → Outcome Received
receive_loop [] timeout elapsed bytes size =
    if ltb elapsed timeout then pending else ok (receive_end no_data_available bytes size)
receive_loop (event ∷ events) timeout elapsed bytes size =
    if ltb elapsed timeout
    then elim (receive_round event elapsed bytes size) [
      | goes_on elapsed' bytes' size' ↦ receive_loop events timeout elapsed' bytes' size'
      | leaves code bytes' size' ↦ ok (receive_end code bytes' size')
    ]
    else ok (receive_end no_data_available bytes size)

-- pipe_receive; `opened` says whether `open` succeeded.
unfoldable pub pipe_receive : (opened : Bool) → List ReadEvent → (timeout : ℕ) → Outcome Received
pipe_receive opened events timeout =
    if opened
    then receive_loop events timeout 0 none 0
    else ok (record { code = open_failed; bytes = none; size = 0 })

-- One round of the send loop: POLLOUT with a `write` that took n bytes or returned -1, another event,
-- or a `poll` that timed out or failed.
pub data WriteEvent : Type 0 where
  wrote : ℕ → WriteEvent
  write_error not_writable not_ready : WriteEvent

-- The result of pipe_send: its code, and what went into the FIFO.
pub record Sent : Type 0 where
  pub code : Error
  pub written : Bytes

-- The attempts to open the FIFO, 50 ms apart; `tried` says whether there was one.
unfoldable pub open_loop : List Bool → (timeout elapsed : ℕ) → (tried : Bool) → Outcome Bool
open_loop [] timeout elapsed tried =
    if ltb elapsed timeout then pending else (if tried then ok false else fault uninitialized_read)
open_loop (opened ∷ attempts) timeout elapsed tried =
    if ltb elapsed timeout
    then (if opened then ok true else open_loop attempts timeout (elapsed + 50) true)
    else (if tried then ok false else fault uninitialized_read)

-- The code behind the send loop.
abbrev pub send_code : Error → ℕ → ℕ → Error
send_code code total size = if total == size then success else code

-- The loop of pipe_send. `total` is a size_t: adding the -1 of a failed `write` takes one off, or
-- gives 2^64 - 1 from 0.
unfoldable pub send_loop : List WriteEvent → Bytes → (total : ℕ) → Error → Bytes → Outcome Sent
send_loop [] bytes total code written =
    if ltb total (length bytes)
    then pending
    else ok (record { code = send_code code total (length bytes); written = written })
send_loop (event ∷ events) bytes total code written =
    if ltb total (length bytes)
    then elim event [
      | wrote n ↦
          send_loop events bytes (u64 (total + n)) code (written ++ take n (drop total bytes))
      | write_error ↦ send_loop events bytes (u64 (total + (2 ^ 64 - 1))) code written
      | not_writable ↦ send_loop events bytes total code written
      | not_ready ↦ send_loop events bytes total write_failed written
    ]
    else ok (record { code = send_code code total (length bytes); written = written })

-- pipe_send. With a timeout of 0 no `open` is tried, and the descriptor is not initialised.
unfoldable pub pipe_send : List Bool → List WriteEvent → Bytes → (timeout : ℕ) → Outcome Sent
pipe_send attempts events bytes timeout = do
  opened ← open_loop attempts timeout 0 false
  if opened
      then send_loop events bytes 0 no_data_available []
      else ok (record { code = open_failed; written = [] })
