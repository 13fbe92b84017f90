-- ===== src/Cap.antt =====
-- src/cap.c: the payloads of the Common Access Pipe. A payload is a list of bytes, and its length is
-- the `data_size` of the source; `heap` says which allocations of the call succeed.
pub mod Subscribe
pub mod Assign
mod Tests
use liboctopipes.Prelude.{
  ℕ, zero, suc, ◌+◌, ◌&&◌, Option, none, some, List, [], ◌∷◌, ◌++◌, leb, ltb, ◌==◌, if◌then◌else◌,
  length,
}
use liboctopipes.Types.{
  Outcome, ok, fault, overflow, uninitialized_read, ◌>>=◌, ◌>>◌, require, Error, success,
  bad_packet, bad_alloc, Bytes, Heap, Pointer, null, freed, buffer, CapMessage, unknown,
  subscription, assignment, unsubscription, cap_success,
}
use liboctopipes.Memory.{read_byte, read_bytes, read_pointer, scan_string, terminated, u8, u64}

abbrev pub cap_subscription : ℕ
cap_subscription = 0x01

abbrev pub cap_assignment : ℕ
cap_assignment = 0xFF

abbrev pub cap_unsubscription : ℕ
cap_unsubscription = 0x02

-- The groups as the second loop of octopipes_cap_prepare_subscription writes them. A group is a C
-- string, given by its buffer.
pub group_bytes : List Bytes → Outcome Bytes
group_bytes [] = ok []
group_bytes (group ∷ groups) = do
  text ← scan_string group
  rest ← group_bytes groups
  ok (u8 (length text) ∷ (text ++ rest))

-- The size that the first loop adds up.
pub subscription_size : List Bytes → ℕ → Outcome ℕ
subscription_size [] size = ok size
subscription_size (group ∷ groups) size = do
  text ← scan_string group
  subscription_size groups (u64 (size + (length text + 1)))

-- octopipes_cap_prepare_subscription. NULL is `none`.
unfoldable pub prepare_subscription : Heap → List Bytes → Outcome (Option Bytes)
unfolding group_bytes subscription_size
prepare_subscription heap groups = do
  size ← subscription_size groups 2
  if heap 0
      then (do
        bytes ← group_bytes groups
        let payload = cap_subscription ∷ u8 (length groups) ∷ bytes
        if leb (length payload) size then ok (some payload) else fault overflow)
      else ok none

-- octopipes_cap_prepare_assign, with the two paths as pointers and their sizes.
unfoldable pub prepare_assign :
    Heap → ℕ → Option Bytes → ℕ → Option Bytes → ℕ → Outcome (Option Bytes)
prepare_assign heap error tx tx_size rx rx_size =
    if heap 0
    then (do
      tx_bytes ← read_pointer tx tx_size
      rx_bytes ← read_pointer rx rx_size
      let payload = cap_assignment ∷ u8 error ∷ u8 tx_size ∷ (tx_bytes ++ (u8 rx_size ∷ rx_bytes))
      if leb (length payload) (u64 (4 + tx_size + rx_size))
          then ok (some payload)
          else fault overflow)
    else ok none

-- octopipes_cap_prepare_unsubscription.
unfoldable pub prepare_unsubscription : Heap → Option Bytes
prepare_unsubscription heap = if heap 0 then some (cap_unsubscription ∷ []) else none

-- octopipes_cap_get_message.
unfoldable pub get_message : Bytes → CapMessage
get_message [] = unknown
get_message (object ∷ _) =
    if object == cap_subscription
    then subscription
    else if object == cap_unsubscription
    then unsubscription
    else if object == cap_assignment
    then assignment
    else unknown

-- What octopipes_cap_parse_subscribe hands out: an array of `amount` pointers, of which the first
-- ones are set to these groups, and the others are not.
pub record Groups : Type 0 where
  pub groups : List Bytes
  pub amount : ℕ

-- The loop over the groups: `left` is `groups_amount - curr_group`. Where a group does not fit, or
-- its allocation fails, the clean-up frees the entry `curr_group`, which was never set.
unfoldable pub parse_groups : Heap → Bytes → (left curr ptr : ℕ) → Outcome (List Bytes)
parse_groups heap payload zero curr ptr = ok []
parse_groups heap payload (suc left) curr ptr =
    if ltb ptr (length payload)
    then (do
      size ← read_byte payload ptr
      if heap (suc curr) && leb (ptr + 1 + size) (length payload)
          then (do
            text ← read_bytes payload (ptr + 1) size
            groups ← parse_groups heap payload left (suc curr) (ptr + 1 + size)
            ok (terminated text ∷ groups))
          else fault uninitialized_read)
    else ok []

-- octopipes_cap_parse_subscribe.
unfoldable pub parse_subscribe : Heap → Bytes → Outcome Groups
parse_subscribe heap payload = do
  require (leb 2 (length payload)) bad_packet
  object ← read_byte payload 0
  require (object == cap_subscription) bad_packet
  amount ← read_byte payload 1
  require (heap 0) bad_alloc
  groups ← parse_groups heap payload amount 0 2
  ok (record { groups = groups; amount = amount })

-- What octopipes_cap_parse_assign leaves behind: its code, the error if it was written, and the two
-- pipe pointers of the caller.
pub record Assignment : Type 0 where
  pub code : Error
  pub cap_error : Option ℕ
  pub tx : Pointer
  pub rx : Pointer

-- The second path: `ptr` is the position of its size.
unfoldable pub parse_assign_rx : Heap → Bytes → Bytes → ℕ → Assignment → Outcome Assignment
parse_assign_rx heap payload tx_text ptr a = do
  rx_size ← read_byte payload ptr
  if heap 1
      then (if leb (ptr + 1 + rx_size) (length payload)
          then (do
            rx_text ← read_bytes payload (ptr + 1) rx_size
            ok (record a { tx = buffer (terminated tx_text); rx = buffer (terminated rx_text) }))
          else ok (record a { code = bad_packet; tx = freed; rx = freed }))
      else ok (record a { code = bad_alloc; tx = freed; rx = null })

-- The first path, of `tx_size` bytes.
unfoldable pub parse_assign_tx : Heap → Bytes → ℕ → Assignment → Outcome Assignment
parse_assign_tx heap payload tx_size a =
    if heap 0
    then (if leb (length payload) (3 + tx_size)
        then ok (record a { code = bad_packet; tx = freed })
        else (do
          tx_text ← read_bytes payload 3 tx_size
          parse_assign_rx heap payload tx_text (3 + tx_size) a))
    else ok (record a { code = bad_alloc; tx = null })

-- octopipes_cap_parse_assign, from the pipe pointers that the caller has.
unfoldable pub parse_assign : Heap → Bytes → Pointer → Pointer → Outcome Assignment
parse_assign heap payload tx rx =
    let a : Assignment = record { code = bad_packet; cap_error = none; tx = tx; rx = rx } in
    if ltb (length payload) 4 then ok a else do
      object ← read_byte payload 0
      if object == cap_assignment
          then (do
            error ← read_byte payload 1
            let b : Assignment = record { code = success; cap_error = some error; tx = tx; rx = rx }
            if error == cap_success
                then (do tx_size ← read_byte payload 2; parse_assign_tx heap payload tx_size b)
                else ok b)
          else ok a

-- octopipes_cap_parse_unsubscribe.
unfoldable pub parse_unsubscribe : Bytes → Error
parse_unsubscribe [] = bad_packet
parse_unsubscribe (object ∷ _) = if object == cap_unsubscription then success else bad_packet
