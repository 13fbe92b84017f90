-- ===== src/Octopipespp/Client.antt =====
-- liboctopipespp/src/client.cpp: the class Client around OctopipesClient.
--
-- The pointer to the OctopipesClient is never NULL. What the constructor throws is the error BAD_ALLOC.
pub mod Groups
pub mod Callbacks
use liboctopipes.Prelude.{
  ℕ, Bool, true, false, ◌&&◌, Option, none, some, List, [], ◌∷◌, if◌then◌else◌,
}
use liboctopipes.Types
use liboctopipes.Types.{
  Outcome, ok, err, fault, uninitialized_read, dangling, ◌>>=◌, handle, is_success, Bytes, Heap,
  Pointer, null, freed, buffer,
}
use liboctopipes.Memory.{scan_string, terminated}
use liboctopipes.Client.{
  Client as OctopipesClient, Reply, SendScript, ReceiveScript, octopipes_init, loop_start,
  loop_stop, Callback, received_message, sent_message, receive_error, was_subscribed,
  was_unsubscribed,
}
use liboctopipes.Client.Subscribe
use liboctopipes.Client.Unsubscribe
use liboctopipes.Client.Send
use liboctopipes.Client.Send.{Transmission}
use liboctopipes.Octopipespp.{Error, CapError, translate_octopipes_error, translate_cap_error}
use liboctopipes.Octopipespp.Message.{Message, from_message}

-- octopipes::Client. `octopipes_client` is the C client, whose `user_data` points back at this object;
-- each other field but `user_data` says whether the user's function is set.
pub record Client : Type 0 where
  pub octopipes_client : OctopipesClient
  pub user_data : Option ℕ
  pub on_received : Bool
  pub on_sent : Bool
  pub on_receive_error : Bool
  pub on_subscribed : Bool
  pub on_unsubscribed : Bool

-- Client(client_id, cap_path, version, user_data).
unfoldable pub make_client : Heap → (client_id cap_path : Bytes) → ℕ → Option ℕ → Outcome Client
make_client heap client_id cap_path version user_data =
    handle (octopipes_init heap (terminated client_id) (terminated cap_path) version)
      (λ code. err Types.bad_alloc)
      (λ c. ok (record {
        octopipes_client = c;
        user_data = user_data;
        on_received = false;
        on_sent = false;
        on_receive_error = false;
        on_subscribed = false;
        on_unsubscribed = false;
      }))

-- ~Client().
unfoldable pub delete_client : Heap → SendScript → Client → Outcome (Unit {0})
delete_client heap out this = do
  code ← Unsubscribe.cleanup heap out (some this.octopipes_client)
  ok tt

-- What a call returns, the object as it leaves it, and the callbacks that the C client made.
pub record Returned : Type 0 where
  pub code : Error
  pub this : Client
  pub calls : List Callback

-- A call of the C library on the client.
abbrev pub returned : Client → Outcome Reply → Outcome Returned
returned this call =
    handle call
      (λ code. ok (record { code = translate_octopipes_error code; this = this; calls = [] }))
      (λ r. ok (record {
        code = translate_octopipes_error r.code;
        this = record this { octopipes_client = r.client };
        calls = r.calls;
      }))

-- What a call that writes into a pipe returns, with the bytes that it wrote.
pub record Sending : Type 0 where
  pub returned : Returned
  pub written : Bytes

abbrev pub transmitted : Client → Outcome Transmission → Outcome Sending
transmitted this call =
    handle call
      (λ code. ok (record {
        returned = record { code = translate_octopipes_error code; this = this; calls = [] };
        written = [];
      }))
      (λ t. ok (record {
        returned = record {
          code = translate_octopipes_error t.reply.code;
          this = record this { octopipes_client = t.reply.client };
          calls = t.reply.calls;
        };
        written = t.written;
      }))

-- Client::startLoop.
unfoldable pub start_loop : Bool → Client → Outcome Returned
start_loop created this = returned this (loop_start created (some this.octopipes_client))

-- Client::stopLoop.
unfoldable pub stop_loop : Bool → Client → Outcome Returned
stop_loop joined this = returned this (loop_stop joined (some this.octopipes_client))

-- Client::unsubscribe.
unfoldable pub unsubscribe : Heap → SendScript → Client → Outcome Sending
unsubscribe heap out this =
    transmitted this (Unsubscribe.unsubscribe heap out (some this.octopipes_client))

-- The call of octopipes_subscribe with the array of groups. Its index is never raised: every group goes
-- into the first entry, and the others are not set. The C library takes the lengths of all of them
-- behind its first two allocations.
unfoldable pub subscribe_groups :
    Heap → SendScript → ReceiveScript → List Bytes → OctopipesClient → Outcome Subscribe.Subscribed
subscribe_groups heap out answer [] c = Subscribe.subscribe heap out answer [] (some c)
subscribe_groups heap out answer (group ∷ []) c =
    Subscribe.subscribe heap out answer (terminated group ∷ []) (some c)
subscribe_groups heap out answer (group ∷ next ∷ groups) c =
    if heap 0 && heap 1
    then fault uninitialized_read
    else Subscribe.subscribe heap out answer [] (some c)

-- What Client::subscribe returns. The error of the assignment is translated from a variable that a
-- failed call may not have set; `none` is what that gives. The bytes went into the Common Access Pipe.
pub record Subscription : Type 0 where
  pub returned : Returned
  pub assignment_error : Option CapError
  pub written : Bytes

-- Client::subscribe. On success the error of the assignment is not looked at.
unfoldable pub subscribe :
    Heap → SendScript → ReceiveScript → List Bytes → Client → Outcome Subscription
subscribe heap out answer groups this =
    handle (subscribe_groups heap out answer groups this.octopipes_client)
      (λ code. ok (record {
        returned = record { code = translate_octopipes_error code; this = this; calls = [] };
        assignment_error = none;
        written = [];
      }))
      (λ s. ok (record {
        returned = record {
          code = translate_octopipes_error s.reply.code;
          this = record this { octopipes_client = s.reply.client };
          calls = s.reply.calls;
        };
        assignment_error =
            (if is_success s.reply.code
              then some CapError.success
              else elim s.assignment_error [ none ↦ none | some e ↦ some (translate_cap_error e) ]);
        written = s.written;
      }))

-- Client::sendEx.
unfoldable pub send_ex :
    Heap → SendScript → Bytes → Option Bytes → ℕ → ℕ → ℕ → Client → Outcome Sending
send_ex heap out remote payload data_size ttl options this = transmitted this (
    Send.send_ex heap out (some (terminated remote)) payload data_size ttl options
      (some this.octopipes_client))

abbrev default_ttl : ℕ
default_ttl = 60

-- Client::send.
unfoldable pub send : Heap → SendScript → Bytes → Option Bytes → ℕ → Client → Outcome Sending
send heap out remote payload data_size this =
    send_ex heap out remote payload data_size default_ttl 0 this

-- Client::setReceivedCB and the other setters. Each sets a function of the C client that looks at the
-- field of this object. `set` is whether the user's function is not nullptr.
unfoldable pub set_received : Bool → Client → Client
set_received set this = record this {
  octopipes_client = record this.octopipes_client { on_received = true };
  on_received = set;
}

unfoldable pub set_sent : Bool → Client → Client
set_sent set this = record this {
  octopipes_client = record this.octopipes_client { on_sent = true };
  on_sent = set;
}

unfoldable pub set_receive_error : Bool → Client → Client
set_receive_error set this = record this {
  octopipes_client = record this.octopipes_client { on_receive_error = true };
  on_receive_error = set;
}

unfoldable pub set_subscribed : Bool → Client → Client
set_subscribed set this = record this {
  octopipes_client = record this.octopipes_client { on_subscribed = true };
  on_subscribed = set;
}

unfoldable pub set_unsubscribed : Bool → Client → Client
set_unsubscribed set this = record this {
  octopipes_client = record this.octopipes_client { on_unsubscribed = true };
  on_unsubscribed = set;
}

-- The calls of the user's functions.
pub data UserCall : Type 0 where
  received sent : Message → UserCall
  failed : Error → UserCall
  subscribed unsubscribed : UserCall

-- A message for the user's function, where it is set.
abbrev pub hand_over : Bool → (Message → UserCall) → Types.Message → Outcome (List UserCall)
hand_over false call m = ok []
hand_over true call m = do copy ← from_message true m; ok (call copy ∷ [])

-- The functions that the setters install in the C client.
unfoldable pub on_callback : Client → Callback → Outcome (List UserCall)
on_callback this (received_message m) = hand_over this.on_received received m
on_callback this (sent_message m) = hand_over this.on_sent sent m
on_callback this (receive_error error) =
    ok (if this.on_receive_error then failed (translate_octopipes_error error) ∷ [] else [])
on_callback this was_subscribed = ok (if this.on_subscribed then subscribed ∷ [] else [])
on_callback this was_unsubscribed = ok (if this.on_unsubscribed then unsubscribed ∷ [] else [])

-- Client::getUserData, getClientId and getCapPath.
unfoldable pub get_user_data : Client → Option ℕ
get_user_data this = this.user_data

unfoldable pub get_client_id : Client → Outcome Bytes
get_client_id this = scan_string this.octopipes_client.client_id

unfoldable pub get_cap_path : Client → Outcome Bytes
get_cap_path this = scan_string this.octopipes_client.common_access_pipe

abbrev path_of : Pointer → Outcome Bytes
path_of null = ok []
path_of freed = fault dangling
path_of (buffer bytes) = scan_string bytes

-- Client::getPipeTx and getPipeRx.
unfoldable pub get_pipe_tx : Client → Outcome Bytes
get_pipe_tx this = path_of this.octopipes_client.tx_pipe

unfoldable pub get_pipe_rx : Client → Outcome Bytes
get_pipe_rx this = path_of this.octopipes_client.rx_pipe
