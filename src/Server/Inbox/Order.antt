-- ===== src/Server/Inbox/Order.antt =====
-- What comes out of an inbox.
use liboctopipes.Prelude.{◌≡◌, refl, some, List, [], ◌∷◌, Option}
use liboctopipes.Types.{Outcome, ok, fault, overread, ample}
use liboctopipes.Server.{ServerError, Letter, Entry, Inbox}
use liboctopipes.Server.Inbox.{message_inbox_push, message_inbox_dequeue}

-- The outcome of a dequeue behind a push: with entries before, the loop that moves them is reached.
abbrev pub next_entry : List Entry → Entry → Outcome (Option Entry × Inbox)
next_entry [] entry = ok (some entry, some [])
next_entry (e ∷ es) entry = fault overread

-- An entry that is pushed into an empty inbox is the one that is taken out next. If the inbox was not
-- empty, taking an entry out reads past the inbox. No allocation fails.
pub dequeue-push :
    (entries : List Entry) (message : Letter) (error : ServerError)
    → message_inbox_dequeue (message_inbox_push ample (some entries) message error).inbox
      ≡ next_entry entries (record { message = message; error = error })
unfolding message_inbox_push message_inbox_dequeue
dequeue-push [] message error = refl
dequeue-push (e ∷ []) message error = refl
dequeue-push (e ∷ f ∷ es) message error = refl
