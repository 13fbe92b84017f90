-- ===== src/Clients/Sub.antt =====
-- clients/octopipes_sub.c: the program that prints the messages of a group.
--
-- The thread of the client calls `on_received`, and runs beside main. `began` says whether it has set
-- the client's state to RUNNING before main goes on behind its wait.
pub mod Printing
pub mod Smooth
pub mod Running
use liboctopipes.Prelude.{
  ℕ, suc, Bool, true, false, not, ◌&&◌, Option, none, some, List, [], ◌∷◌, ◌++◌, ltb, leb,
  if◌then◌else◌,
}
use liboctopipes.Types.{
  Outcome, ok, fault, pending, uninitialized_read, ◌>>=◌, handle, Bytes, Error, is_success, Heap,
  Message, running,
}
use liboctopipes.Memory.{read_string}
use liboctopipes.Client.{
  Client, Reply, SendScript, ReceiveScript, octopipes_init, set_received_cb, set_receive_error_cb,
  loop_start, loop_stop,
}
use liboctopipes.Client.Subscribe.{subscribe}
use liboctopipes.Client.Unsubscribe.{unsubscribe, cleanup}
use liboctopipes.Clients.{error_number, gen_random_clid}

-- `count`: none is -1, no limit. Any other negative number acts as 0.
abbrev pub reached : Option ℕ → ℕ → Bool
reached none counter = false
reached (some count) counter = leb count counter

-- The counter behind a call of on_received, and the line that it printed.
pub record Heard : Type 0 where
  pub counter : ℕ
  pub line : Option Bytes

abbrev is_some {ℓ} : {A : Type ℓ} → Option A → Bool
is_some none = false
is_some (some a) = true

-- The line that is printed for a message.
unfoldable pub printed : (verbose : Bool) → Message → Outcome (Option Bytes)
printed verbose m =
    if ltb 0 m.data_size && is_some m.payload
    then (if verbose
        then (do
          origin ← read_string m.origin
          text ← read_string m.payload
          ok (some (origin ++ b' ' ∷ text)))
        else (do text ← read_string m.payload; ok (some text)))
    else (if verbose then (do origin ← read_string m.origin; ok (some origin)) else ok none)

-- on_received.
unfoldable pub on_received : Option ℕ → (verbose : Bool) → (counter : ℕ) → Message → Outcome Heard
on_received count verbose counter m =
    if reached count (suc counter)
    then ok (record { counter = suc counter; line = none })
    else (do line ← printed verbose m; ok (record { counter = suc counter; line = line }))

-- An option that `getopt` found, with its argument, or the number that `atoi` makes of it.
pub data Parsed : Type 0 where
  with_cap_path with_client_id : Bytes → Parsed
  with_count : Option ℕ → Parsed
  with_version : ℕ → Parsed
  with_verbose with_help with_unknown : Parsed

-- The globals of the program.
pub record Settings : Type 0 where
  pub cap_path : Bytes
  pub count : Option ℕ
  pub client_id : Option Bytes
  pub protocol_version : ℕ
  pub verbose : Bool

-- The loop over the options. `none` is the return behind `-h`.
unfoldable pub parse_options : List Parsed → Settings → Option Settings
parse_options [] s = some s
parse_options (with_cap_path path ∷ more) s = parse_options more (record s { cap_path = path })
parse_options (with_client_id id ∷ more) s = parse_options more (record s { client_id = some id })
parse_options (with_count n ∷ more) s = parse_options more (record s { count = n })
parse_options (with_version v ∷ more) s = parse_options more (record s { protocol_version = v })
parse_options (with_verbose ∷ more) s = parse_options more (record s { verbose = true })
parse_options (with_help ∷ more) s = none
parse_options (with_unknown ∷ more) s = parse_options more s

-- What main sees each time before it sleeps: the counter, and whether a signal has come.
pub record Second : Type 0 where
  pub counter : ℕ
  pub sigterm_called : Bool

-- The answers of the system to each of the program's calls.
pub record SubRun : Type 0 where
  pub block : Option Bytes
  pub random : ℕ → ℕ
  pub groups_room : Bool
  pub init_heap : Heap
  pub subscribe_heap : Heap
  pub request : SendScript
  pub answer : ReceiveScript
  pub created : Bool
  pub seconds : List Second
  pub began : Bool
  pub unsubscribe_heap : Heap
  pub farewell : SendScript
  pub joined : Bool
  pub cleanup_heap : Heap
  pub last : SendScript

-- The wait for the last message, or for a signal: how often the program sleeps for a second.
unfoldable pub wait : Option ℕ → List Second → Outcome ℕ
wait count [] = pending
wait count (second ∷ seconds) =
    let rest = wait count seconds in
    if not second.sigterm_called && not (reached count second.counter)
    then (do n ← rest; ok (suc n))
    else ok 0

-- What the program has done when it ends: what its calls of octopipes_subscribe and
-- octopipes_unsubscribe wrote into the Common Access Pipe, call by call, and how often it slept.
pub record Trace : Type 0 where
  pub requests : List Bytes
  pub sleeps : ℕ

-- The end of the program, with the client that it gave to octopipes_cleanup.
pub record Exit : Type 0 where
  pub status : ℕ
  pub trace : Trace
  pub freed : Option Client

abbrev pub nothing_done : Trace
nothing_done = record { requests = []; sleeps = 0 }

abbrev wrote : Bytes → Trace → Trace
wrote frame trace = record trace { requests = trace.requests ++ frame ∷ [] }

-- The part behind the label `exit`, with the status that is returned.
abbrev finish : SubRun → Option Client → Error → Trace → Outcome Exit
finish run client rc trace = do
  code ← cleanup run.cleanup_heap run.last client
  ok (record { status = error_number rc; trace = trace; freed = client })

-- A call that is checked: on any code but SUCCESS the program goes to `exit` with this client.
abbrev checked : SubRun → Client → Trace → Outcome Reply → (Client → Outcome Exit) → Outcome Exit
checked run c trace call next =
    handle call (λ rc. finish run (some c) rc trace)
      (λ r. if is_success r.code then next r.client else finish run (some r.client) r.code trace)

-- The client while its thread runs.
abbrev pub beside : Bool → Client → Client
beside began c = if began then record c { state = running } else c

-- From `Unsubscribe` on.
unfoldable pub leave : SubRun → Client → Trace → Outcome Exit
leave run c trace =
    handle (unsubscribe run.unsubscribe_heap run.farewell (some c))
      (λ rc. finish run (some c) rc trace)
      λ left.
        let sent = wrote left.written trace in
        checked run c sent (ok left.reply) λ unsubscribed.
          checked run unsubscribed sent (loop_stop run.joined (some unsubscribed))
            λ stopped. finish run (some stopped) Error.success sent

-- From `Start loop` on.
unfoldable pub listen : SubRun → Option ℕ → Client → Trace → Outcome Exit
listen run count c trace = checked run c trace (loop_start run.created (some c)) λ started. do
  n ← wait count run.seconds
  leave run (beside run.began started) (record trace { sleeps = n })

-- From `Initialize client` on, without groups.
unfoldable pub run_client : SubRun → (id path : Bytes) → ℕ → Option ℕ → Outcome Exit
run_client run id path version count =
    handle (octopipes_init run.init_heap id path version) (λ rc. finish run none rc nothing_done)
      λ made. do
        heard ← set_received_cb true (some made)
        set ← set_receive_error_cb true (some heard.client)
        handle (subscribe run.subscribe_heap run.request run.answer [] (some set.client))
            (λ rc. finish run (some set.client) rc nothing_done)
            λ s.
              checked run set.client (wrote s.written nothing_done) (ok s.reply)
                λ entered. listen run count entered (wrote s.written nothing_done)

-- The name of the client, which is drawn where none was given.
abbrev chosen_id : SubRun → Option Bytes → Outcome Bytes
chosen_id run none = gen_random_clid run.block run.random
chosen_id run (some id) = ok id

-- The array of groups. It is allocated for one group less than there are, and the index of the loop
-- that fills it is never set.
unfoldable pub collect_groups : SubRun → List Bytes → Outcome Bool
collect_groups run [] = ok true
collect_groups run (group ∷ []) = fault uninitialized_read
collect_groups run (group ∷ next ∷ groups) =
    if run.groups_room then fault uninitialized_read else ok false

-- The end of a program that has made no client.
abbrev quit : ℕ → Outcome Exit
quit status = ok (record { status = status; trace = nothing_done; freed = none })

-- main of octopipes_sub, from these defaults.
unfoldable pub sub_main : SubRun → Settings → List Parsed → List Bytes → Outcome Exit
sub_main run defaults options operands = elim (parse_options options defaults) [
  | none ↦ quit 0
  | some s ↦ do
    id ← chosen_id run s.client_id
    collected ← collect_groups run operands
    if collected then run_client run id s.cap_path s.protocol_version s.count else quit 1
]
