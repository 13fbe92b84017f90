-- ===== src/Client/Identity.antt =====
-- What octopipes_init makes of a client id, as the lemmas on the other calls assume it.
use liboctopipes.Prelude.{ℕ, ◌<◌, ◌≡◌, refl, ap, ◌∙◌, false, length, arith}
use liboctopipes.Types.{ok, Bytes, ample, version_1, State, null}
use liboctopipes.Memory.{terminated, scan_string, u8}
use liboctopipes.Cap.Subscribe.{IsText, scan_string-terminated}
use liboctopipes.Client.{Client, octopipes_init}

-- A client that speaks version 1 under this id.
pub record HasId (c : Client) (id : Bytes) : Type 0 where
  pub speaks : c.protocol_version ≡ version_1
  pub named : c.client_id ≡ terminated id
  pub sized : c.client_id_size ≡ length id
  pub is_text : IsText id
  pub is_short : length id < 256

pub u8-size : {c : Client} {id : Bytes} → HasId c id → u8 c.client_id_size ≡ length id
u8-size h = rw h.sized (small h.is_short)
  where
    small : {n : ℕ} → n < 256 → u8 n ≡ n
    small h = omega arith

pub scan_string-client_id : {c : Client} {id : Bytes} → HasId c id → scan_string c.client_id ≡ ok id
scan_string-client_id {c} {id} h = ap scan_string h.named ∙ scan_string-terminated id h.is_text

-- A client that has not subscribed.
abbrev pub fresh : (id path : Bytes) → Client
fresh id path = record {
  state = State.init;
  thread_alive = false;
  client_id_size = length id;
  client_id = terminated id;
  protocol_version = version_1;
  common_access_pipe = terminated path;
  tx_pipe = null;
  rx_pipe = null;
  on_received = false;
  on_sent = false;
  on_receive_error = false;
  on_subscribed = false;
  on_unsubscribed = false;
}

pub octopipes_init-fresh :
    (id path : Bytes)
    → IsText id
    → IsText path
    → octopipes_init ample (terminated id) (terminated path) version_1 ≡ ok (fresh id path)
unfolding octopipes_init
octopipes_init-fresh id path text path_text =
    rw (scan_string-terminated id text, scan_string-terminated path path_text)

pub fresh-HasId : (id path : Bytes) → IsText id → length id < 256 → HasId (fresh id path) id
fresh-HasId id path text short = record {
  speaks = refl;
  named = refl;
  sized = refl;
  is_text = text;
  is_short = short;
}
