-- ===== src/Clients/Sub/Smooth.antt =====
-- Runs of octopipes_sub in which nothing fails.
use liboctopipes.Prelude.{
  ℕ, ◌+◌, ◌≡◌, true, false, not, ◌&&◌, Option, List, [], ◌∷◌, ◌++◌, length, All,
}
use liboctopipes.Types.{ok, Bytes, ample}
use liboctopipes.Pipes.Delivery.{Carries, Delivers}
use liboctopipes.Client.Requests.Wire.{request_frame}
use liboctopipes.Cap.{cap_unsubscription}
use liboctopipes.Client.Subscribe.Assigned.{answer_frame, assignment_rest}
use liboctopipes.Clients.Sub.{reached, Second, SubRun, wait}

-- Before this second main sleeps on.
abbrev pub IsWaiting : Option ℕ → Second → Type 0
IsWaiting count second = (second.sigterm_called ≡ false) × (reached count second.counter ≡ false)

-- At this second it does not.
abbrev pub IsOver : Option ℕ → Second → Type 0
IsOver count second = not second.sigterm_called && not (reached count second.counter) ≡ false

pub wait-ends :
    (count : Option ℕ) (before later : List Second) (last : Second)
    → All (IsWaiting count) before
    → IsOver count last
    → wait count (before ++ last ∷ later) ≡ ok (length before)
unfolding wait
wait-ends count [] later last waiting over = rw over
wait-ends count (second ∷ before) later last waiting over =
    rw (waiting.0.0, waiting.0.1, wait-ends count before later last waiting.1 over)

-- The request of octopipes_unsubscribe.
abbrev pub unsubscription_frame : Bytes → Bytes
unsubscription_frame id = request_frame id (cap_unsubscription ∷ [])

-- A run in which the system does all that the program asks of it, and the server assigns these pipes.
pub record Smooth (run : SubRun) (count : Option ℕ) (id tx rx : Bytes) : Type 0 where
  pub init_room : run.init_heap ≡ ample
  pub subscribe_room : run.subscribe_heap ≡ ample
  pub unsubscribe_room : run.unsubscribe_heap ≡ ample
  pub asks : Carries run.request.attempts run.request.events 5000 (19 + length id)
  pub opened : run.answer.opened ≡ true
  pub assigned : Delivers run.answer.events 5000 (answer_frame id (assignment_rest 0 tx rx))
  pub starts : run.created ≡ true
  pub before : List Second
  pub later : List Second
  pub last : Second
  pub seconds : run.seconds ≡ before ++ last ∷ later
  pub waiting : All (IsWaiting count) before
  pub over : IsOver count last
  pub leaves : Carries run.farewell.attempts run.farewell.events 5000 (18 + length id)
  pub joins : run.joined ≡ true
