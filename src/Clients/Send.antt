-- ===== src/Clients/Send.antt =====
-- clients/octopipes_send.c: the program that sends one message.
pub mod Delivers
use liboctopipes.Prelude.{ℕ, Bool, true, Option, none, some, List, [], ◌∷◌, length, if◌then◌else◌}
use liboctopipes.Types.{Outcome, ok, ◌>>=◌, handle, Bytes, Error, is_success, Heap}
use liboctopipes.Memory.{scan_string}
use liboctopipes.Client.{Client, SendScript, ReceiveScript, octopipes_init}
use liboctopipes.Client.Subscribe.{subscribe}
use liboctopipes.Client.Unsubscribe.{unsubscribe, cleanup}
use liboctopipes.Client.Send.{send}
use liboctopipes.Clients.{error_number, gen_random_clid}

-- An option that `getopt` found, with its argument, or the number that `atoi` makes of it.
pub data Parsed : Type 0 where
  with_cap_path with_remote with_client_id : Bytes → Parsed
  with_version : ℕ → Parsed
  with_verbose with_help with_unknown : Parsed

-- The globals of the program, `none` for NULL.
pub record Settings : Type 0 where
  pub cap_path : Bytes
  pub remote : Option Bytes
  pub client_id : Option Bytes
  pub protocol_version : ℕ
  pub verbose : Bool

-- The loop over the options. `none` is the return behind `-h`.
unfoldable pub parse_options : List Parsed → Settings → Option Settings
parse_options [] s = some s
parse_options (with_cap_path path ∷ more) s = parse_options more (record s { cap_path = path })
parse_options (with_remote name ∷ more) s = parse_options more (record s { remote = some name })
parse_options (with_client_id id ∷ more) s = parse_options more (record s { client_id = some id })
parse_options (with_version v ∷ more) s = parse_options more (record s { protocol_version = v })
parse_options (with_verbose ∷ more) s = parse_options more (record s { verbose = true })
parse_options (with_help ∷ more) s = none
parse_options (with_unknown ∷ more) s = parse_options more s

-- The answers of the system to each of the program's calls, with the block for a random name and the
-- answers of `rand`.
pub record SendRun : Type 0 where
  pub block : Option Bytes
  pub random : ℕ → ℕ
  pub init_heap : Heap
  pub subscribe_heap : Heap
  pub request : SendScript
  pub answer : ReceiveScript
  pub send_heap : Heap
  pub out : SendScript
  pub unsubscribe_heap : Heap
  pub farewell : SendScript
  pub cleanup_heap : Heap
  pub last : SendScript

-- How the program ends: its status, and what it wrote into its transmission pipe.
pub record Exit : Type 0 where
  pub status : ℕ
  pub written : Bytes

-- The part behind the label `exit`.
abbrev finish : SendRun → Option Client → Error → Bytes → Outcome Exit
finish run client rc written = do
  code ← cleanup run.cleanup_heap run.last client
  ok (record { status = error_number rc; written = written })

-- From `Send message` on.
unfoldable pub send_message : SendRun → Client → (remote payload : Bytes) → Outcome Exit
send_message run c remote payload = do
  text ← scan_string payload
  sent ← send run.send_heap run.out (some remote) (some payload) (length text) (some c)
  if is_success sent.reply.code
      then handle (unsubscribe run.unsubscribe_heap run.farewell (some sent.reply.client))
          (λ rc. finish run (some sent.reply.client) rc sent.written)
          (λ left. finish run (some left.reply.client) left.reply.code sent.written)
      else finish run (some sent.reply.client) sent.reply.code sent.written

-- From `Initialize client` on.
unfoldable pub run_client :
    SendRun → (id path : Bytes) → ℕ → (remote payload : Bytes) → Outcome Exit
run_client run id path version remote payload =
    handle (octopipes_init run.init_heap id path version) (λ rc. finish run none rc [])
      (λ c.
        handle (subscribe run.subscribe_heap run.request run.answer [] (some c))
          (λ rc. finish run (some c) rc [])
          (λ s.
            if is_success s.reply.code
            then send_message run s.reply.client remote payload
            else finish run (some s.reply.client) s.reply.code []))

-- The name of the client, which is drawn where none was given.
abbrev chosen_id : SendRun → Option Bytes → Outcome Bytes
chosen_id run none = gen_random_clid run.block run.random
chosen_id run (some id) = ok id

-- main, behind the loop over the options. `operands` are the arguments that are no options.
unfoldable pub main_with : SendRun → Settings → List Bytes → Outcome Exit
main_with run s [] = ok (record { status = 1; written = [] })
main_with run s (payload ∷ operands) = elim s.remote [
  | none ↦ ok (record { status = 1; written = [] })
  | some remote ↦ do
    id ← chosen_id run s.client_id
    run_client run id s.cap_path s.protocol_version remote payload
]

-- main of octopipes_send, from these defaults.
unfoldable pub send_main : SendRun → Settings → List Parsed → List Bytes → Outcome Exit
send_main run defaults options operands = elim (parse_options options defaults) [
  | none ↦ ok (record { status = 0; written = [] })
  | some s ↦ main_with run s operands
]
