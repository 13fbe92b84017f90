-- ===== src/Server/Inbox.antt =====
-- The message inbox: message_inbox_push, _dequeue, _remove and _expunge.
pub mod Order
use liboctopipes.Prelude.{
  ℕ, zero, suc, ◌+◌, ◌&&◌, Option, none, some, List, [], ◌∷◌, ◌++◌, if◌then◌else◌, length, ltb,
  take,
}
use liboctopipes.Types.{Outcome, ok, fault, overread, dangling, null_dereference, ◌>>=◌, Heap}
use liboctopipes.Server.{
  ServerError, success, bad_alloc, Letter, no_letter, dangling_letter, letter, Entry, Inbox, lost,
}

-- The result of an operation on an inbox.
pub record Stored : Type 0 where
  pub code : ServerError
  pub inbox : Inbox

-- message_inbox_push. Allocation 0 is the entry and 1 the longer array.
unfoldable pub message_inbox_push : Heap → Inbox → Letter → ServerError → Stored
message_inbox_push heap none message error = record {
  code = (if heap 0 && heap 1 then success else bad_alloc);
  inbox = none;
}
message_inbox_push heap (some entries) message error =
    if heap 0
    then (if heap 1
        then record {
          code = success;
          inbox = some (entries ++ record { message = message; error = error } ∷ []);
        }
        else record { code = bad_alloc; inbox = lost entries })
    else record { code = bad_alloc; inbox = some entries }

-- message_inbox_dequeue. The loop assigns `inbox[i + 1]` and not `inbox->messages[i + 1]`: with a
-- second entry it reads past the one OctopipesServerInbox that there is.
unfoldable pub message_inbox_dequeue : Inbox → Outcome (Option Entry × Inbox)
message_inbox_dequeue none = fault null_dereference
message_inbox_dequeue (some []) = ok (none, some [])
message_inbox_dequeue (some (entry ∷ [])) = ok (some entry, some [])
message_inbox_dequeue (some (entry ∷ next ∷ rest)) = fault overread

-- server_message_cleanup, and the `free` of message_inbox_remove.
unfoldable pub free_letter : Letter → Outcome (Unit {0})
free_letter no_letter = ok tt
free_letter dangling_letter = fault dangling
free_letter (letter m) = ok tt

-- message_inbox_expunge, on the entries.
unfoldable pub expunge : List Entry → Outcome (Unit {0})
expunge [] = ok tt
expunge (entry ∷ rest) = do u ← free_letter entry.message; expunge rest

unfoldable pub message_inbox_expunge : Inbox → Outcome (Unit {0})
message_inbox_expunge none = fault null_dereference
message_inbox_expunge (some entries) = expunge entries

-- The entry at an index.
abbrev pub entry_at : List Entry → ℕ → Option Entry
entry_at [] i = none
entry_at (entry ∷ rest) zero = some entry
entry_at (entry ∷ rest) (suc i) = entry_at rest i

-- message_inbox_remove. The entries behind the removed one are moved as in message_inbox_dequeue. The
-- last one is cut off by the reallocation, which is allocation 0.
unfoldable pub message_inbox_remove : Heap → Inbox → ℕ → Outcome Stored
message_inbox_remove heap none index = fault null_dereference
message_inbox_remove heap (some entries) index = elim (entry_at entries index) [
  | none ↦ ok (record { code = success; inbox = some entries })
  | some entry ↦ do
    u ← free_letter entry.message
    if ltb (suc index) (length entries)
        then fault overread
        else (if ltb 0 index
            then (if heap 0
                then ok (record { code = success; inbox = some (take index entries) })
                else ok (record { code = bad_alloc; inbox = none }))
            else ok (record { code = success; inbox = some [] }))
]
