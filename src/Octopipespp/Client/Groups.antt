-- ===== src/Octopipespp/Client/Groups.antt =====
-- What Client::subscribe makes of its groups, and of the error of the assignment.
use liboctopipes.Prelude.{
  ℕ, ◌+◌, ◌^◌, ◌<◌, ◌≤◌, ◌≡◌, ◌≢◌, refl, true, some, List, [], ◌∷◌, length, All, arith,
}
use liboctopipes.Types.{ok, fault, uninitialized_read, Bytes, Heap, ample}
use liboctopipes.Pipes.{ReadEvent}
use liboctopipes.Pipes.Delivery.{Carries, Delivers}
use liboctopipes.Cap.Subscribe.{IsGroup, buffers, group_frames}
use liboctopipes.Client.{Client as OctopipesClient, SendScript, ReceiveScript}
use liboctopipes.Client.Identity.{HasId}
use liboctopipes.Client.Subscribe
use liboctopipes.Client.Subscribe.Assigned.{
  IsIdle, answer_frame, assignment_rest, subscription_frame, enters, subscribe-enters,
}
use liboctopipes.Octopipespp.{Error, CapError, translate_octopipes_error}
use liboctopipes.Octopipespp.Client.{Client, subscribe_groups, subscribe}

-- At most one group reaches the C library as it is.
subscribe_groups-buffers :
    (heap : Heap) (out : SendScript) (answer : ReceiveScript) (texts : List Bytes)
    (c : OctopipesClient)
    → length texts ≤ 1
    → subscribe_groups heap out answer texts c
      ≡ Subscribe.subscribe heap out answer (buffers texts) (some c)
unfolding subscribe_groups
subscribe_groups-buffers heap out answer [] c few = refl
subscribe_groups-buffers heap out answer (text ∷ []) c few = refl
subscribe_groups-buffers heap out answer (text ∷ next ∷ texts) c few = absurd (omega arith)

-- Client::subscribe with at most one group, of a client that is not subscribed yet and to which the
-- server answers with an assignment: it returns SUCCESS with CapError::SUCCESS and the client is
-- SUBSCRIBED, whatever the error of the assignment is. Only an assignment without an error sets the
-- pipes. It has written one frame into the Common Access Pipe, that of the subscription with this
-- group. The request has to go out, and the answer to come in time; no allocation fails. The client
-- speaks version 1 under a non-empty id of at most 255 bytes, and the group has at most 255 bytes.
pub subscribe-enters_silent :
    (this : Client) (id : Bytes) (error : ℕ) (tx rx : Bytes) (texts : List Bytes) (out : SendScript)
    (events : List ReadEvent)
    → HasId this.octopipes_client id
    → id ≢ []
    → IsIdle this.octopipes_client
    → All IsGroup texts
    → length texts ≤ 1
    → length tx + length rx < 2 ^ 31
    → Carries out.attempts out.events 5000 (19 + length id + length (group_frames texts))
    → Delivers events 5000 (answer_frame id (assignment_rest error tx rx))
    → subscribe ample out (record { opened = true; events = events }) texts this
      ≡ ok (record {
        returned = record {
          code = Error.success;
          this = record this {
            octopipes_client = (enters this.octopipes_client error tx rx).reply.client;
          };
          calls = (enters this.octopipes_client error tx rx).reply.calls;
        };
        assignment_error = some CapError.success;
        written = subscription_frame id texts;
      })
unfolding subscribe translate_octopipes_error
subscribe-enters_silent this id error tx rx texts out events has_id some_id idle groups few fits
      goes_out comes =
    rw
      (
        subscribe_groups-buffers ample out (record { opened = true; events = events }) texts
            this.octopipes_client few,
        subscribe-enters this.octopipes_client id has_id some_id idle error tx rx texts out events
            groups (omega (arith, few)) fits goes_out comes,
      )
      refl

-- Client::subscribe with two groups or more: the C library reads the pointer of the second group,
-- which was never set, unless one of its first two allocations fails.
pub subscribe_several :
    (heap : Heap) (out : SendScript) (answer : ReceiveScript) (texts : List Bytes) (this : Client)
    → heap 0 ≡ true
    → heap 1 ≡ true
    → 1 < length texts
    → subscribe heap out answer texts this ≡ fault uninitialized_read
unfolding subscribe subscribe_groups
subscribe_several heap out answer [] this room more several = absurd (omega arith)
subscribe_several heap out answer (text ∷ []) this room more several = absurd (omega arith)
subscribe_several heap out answer (text ∷ next ∷ texts) this room more several = rw (room, more)
