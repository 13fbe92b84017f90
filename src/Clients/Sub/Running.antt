-- ===== src/Clients/Sub/Running.antt =====
-- How octopipes_sub runs and ends.
use liboctopipes.Prelude.{
  ℕ, ◌+◌, ◌^◌, ◌<◌, ◌≡◌, ◌≢◌, true, false, ◌||◌, some, Option, List, [], ◌∷◌, length,
}
use liboctopipes.Types.{
  fault, uninitialized_read, Bytes, buffer, is_state, subscribed, running, State,
}
use liboctopipes.Memory.{terminated}
use liboctopipes.Cap.Subscribe.{IsText}
use liboctopipes.Client.{Client, reply}
use liboctopipes.Client.Identity.{HasId, fresh}
use liboctopipes.Client.Subscribe.Assigned.{enters, subscription_frame}
use liboctopipes.Clients.Sub.{
  Parsed, Settings, parse_options, SubRun, Exit, collect_groups, sub_main,
}
use liboctopipes.Clients.Sub.Smooth.{unsubscription_frame, Smooth}

-- octopipes_sub with a group on its command line: it stores the group at an index that was never set,
-- before it makes a client. The name of the client is given, and the allocation of the array succeeds.
pub sub_main_groups :
    (run : SubRun) (defaults s : Settings) (options : List Parsed) (group id : Bytes)
    (groups : List Bytes)
    → run.groups_room ≡ true
    → parse_options options defaults ≡ some s
    → s.client_id ≡ some id
    → sub_main run defaults options (group ∷ groups) ≡ fault uninitialized_read
unfolding sub_main collect_groups
sub_main_groups run defaults s options group id [] room parsed given = rw (sub_main, parsed, given)
sub_main_groups run defaults s options group id (next ∷ groups) room parsed given =
    rw (sub_main, parsed, given, room)

-- A client that is subscribed, or running, with a thread and two pipes.
pub record IsServed (c : Client) (id : Bytes) : Type 0 where
  pub has_id : HasId c id
  pub connected : is_state c.state subscribed || is_state c.state running ≡ true
  pub threaded : c.thread_alive ≡ true
  pub tx : Bytes
  pub rx : Bytes
  pub sends : c.tx_pipe ≡ buffer tx
  pub hears : c.rx_pipe ≡ buffer rx

module _ (run : SubRun) (count : Option ℕ) (id path tx rx : Bytes)
    (smooth : Smooth run count id tx rx) (id_text : IsText id) (id_short : length id < 256)
    (some_id : id ≢ []) (path_text : IsText path) (paths : length tx + length rx < 2 ^ 31) where
  -- The client that octopipes_cleanup gets.
  abbrev ended : Client → Client
  ended c = record c { state = State.stopped; thread_alive = false }

  -- The client with its two functions.
  listening : Client
  listening = record (fresh id path) { on_received = true; on_receive_error = true }

  -- Behind its subscription.
  entered : Client
  unfolding listening
  entered = (enters listening 0 tx rx).reply.client

  -- The end of the run: both requests were written, and the program slept before each second but the last.
  done : Exit
  unfolding entered
  done = record {
    status = 0;
    trace = record {
      requests = subscription_frame id [] ∷ unsubscription_frame id ∷ [];
      sleeps = length smooth.before;
    };
    freed = some (record (fresh id path) {
      state = State.stopped;
      thread_alive = false;
      on_received = true;
      on_receive_error = true;
      tx_pipe = buffer (terminated tx);
      rx_pipe = buffer (terminated rx);
    });
  }
