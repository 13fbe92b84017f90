-- ===== src/Client.antt =====
-- src/client.c: the client's state, its set-up, its callbacks, and the start and stop of its loop.
-- Subscription, sending, the loop and the clean-up are the children.
--
-- A call that returns a code with no client to speak of is `err`; any other is a `Reply`.
pub mod Requests
pub mod Identity
pub mod Subscribe
pub mod Unsubscribe
pub mod Send
pub mod Loop
pub mod Alike
pub mod Phases
pub mod Steps
mod Tests
use liboctopipes.Prelude.{
  ℕ, Bool, true, false, Option, none, some, List, [], ◌∷◌, length, if◌then◌else◌,
}
use liboctopipes.Types.{
  Outcome, ok, err, fault, uninitialized_read, ◌>>=◌, ◌>>◌, require, Error, success, uninitialized,
  bad_alloc, not_subscribed, not_unsubscribed, thread, Bytes, Heap, Message, Pointer, null, State,
  subscribed, unsubscribed, stopped, is_state,
}
use liboctopipes.Memory.{scan_string, terminated}
use liboctopipes.Pipes.{ReadEvent, WriteEvent}

-- OctopipesClient. `on_…` says whether that callback is set, and `thread_alive` whether `loop` holds
-- a thread that was not joined.
pub record Client : Type 0 where
  pub state : State
  pub thread_alive : Bool
  pub client_id_size : ℕ
  pub client_id : Bytes
  pub protocol_version : ℕ
  pub common_access_pipe : Bytes
  pub tx_pipe : Pointer
  pub rx_pipe : Pointer
  pub on_received : Bool
  pub on_sent : Bool
  pub on_receive_error : Bool
  pub on_subscribed : Bool
  pub on_unsubscribed : Bool

-- The calls of the user's functions.
pub data Callback : Type 0 where
  received_message sent_message : Message → Callback
  receive_error : Error → Callback
  was_subscribed was_unsubscribed : Callback

-- What a call on a client returns, the client as it leaves it, and the callbacks that it made.
pub record Reply : Type 0 where
  pub code : Error
  pub client : Client
  pub calls : List Callback

abbrev pub reply : Error → Client → Outcome Reply
reply code client = ok (record { code = code; client = client; calls = [] })

abbrev pub when : Bool → Callback → List Callback
when set call = if set then call ∷ [] else []

-- `if (client == NULL) return OCTOPIPES_ERROR_UNINITIALIZED;`
abbrev pub guarded : Option Client → (Client → Outcome Reply) → Outcome Reply
guarded none operation = err uninitialized
guarded (some client) operation = operation client

-- The answers of the system to one pipe_send and to one pipe_receive.
pub record SendScript : Type 0 where
  pub attempts : List Bool
  pub events : List WriteEvent

pub record ReceiveScript : Type 0 where
  pub opened : Bool
  pub events : List ReadEvent

-- octopipes_init. Allocation 0 is the client, 1 its id and 2 the path of the CAP.
unfoldable pub octopipes_init : Heap → Bytes → Bytes → ℕ → Outcome Client
octopipes_init heap client_id cap_path version = do
  require (heap 0) bad_alloc
  id ← scan_string client_id
  require (heap 1) bad_alloc
  path ← scan_string cap_path
  require (heap 2) bad_alloc
  ok (record {
    state = State.init;
    thread_alive = false;
    client_id_size = length id;
    client_id = terminated id;
    protocol_version = version;
    common_access_pipe = terminated path;
    tx_pipe = null;
    rx_pipe = null;
    on_received = false;
    on_sent = false;
    on_receive_error = false;
    on_subscribed = false;
    on_unsubscribed = false;
  })

-- octopipes_loop_start; `created` says whether `pthread_create` returned 0. The new thread runs
-- octopipes_loop.
unfoldable pub loop_start : Bool → Option Client → Outcome Reply
loop_start created client = guarded client λ c.
    if is_state c.state subscribed
    then (if created then reply success (record c { thread_alive = true }) else reply thread c)
    else reply not_subscribed c

-- octopipes_loop_stop; `joined` says whether `pthread_join` returned 0. To join a thread that was
-- never started, or was joined already, is undefined.
unfoldable pub stop_client : Bool → Client → Outcome Reply
stop_client joined c =
    if is_state c.state unsubscribed
    then (if c.thread_alive
        then (if joined
            then reply success (record c { state = stopped; thread_alive = false })
            else reply thread (record c { state = unsubscribed }))
        else fault uninitialized_read)
    else reply not_unsubscribed c

unfoldable pub loop_stop : Bool → Option Client → Outcome Reply
loop_stop joined client = guarded client (stop_client joined)

-- octopipes_set_received_cb and the other setters; `set` is whether the function is not NULL.
unfoldable pub set_received_cb : Bool → Option Client → Outcome Reply
set_received_cb set client = guarded client λ c. reply success (record c { on_received = set })

unfoldable pub set_sent_cb : Bool → Option Client → Outcome Reply
set_sent_cb set client = guarded client λ c. reply success (record c { on_sent = set })

unfoldable pub set_receive_error_cb : Bool → Option Client → Outcome Reply
set_receive_error_cb set client =
    guarded client λ c. reply success (record c { on_receive_error = set })

unfoldable pub set_subscribed_cb : Bool → Option Client → Outcome Reply
set_subscribed_cb set client = guarded client λ c. reply success (record c { on_subscribed = set })

unfoldable pub set_unsubscribed_cb : Bool → Option Client → Outcome Reply
set_unsubscribed_cb set client =
    guarded client λ c. reply success (record c { on_unsubscribed = set })
