-- ===== src/Client/Loop/Batches.antt =====
-- What the reads of octopipes_loop find in the client's pipe, round by round.
use liboctopipes.Prelude.{
  ◌*◌, ◌<◌, All, ◌≤◌, ◌≡◌, refl, ap, true, false, none, some, List, [], ◌∷◌, ◌++◌, length, bit_and,
}
use liboctopipes.Types.{ample, State, running, is_state, require_ack}
use liboctopipes.Serializer.Frame.{Packet, IsPacket}
use liboctopipes.Serializer.Joined.{frames}
use liboctopipes.Pipes.{ReadEvent}
use liboctopipes.Pipes.Receive.{IsQuiet}
use liboctopipes.Pipes.Delivery.{Delivers}
use liboctopipes.Client.Loop.{LoopRound}

-- A round in which nothing is there to read until the timeout of 500 milliseconds.
pub record Waits (round : LoopRound) : Type 0 where
  pub opened : round.incoming.opened ≡ true
  pub waits : List ReadEvent
  pub later : List ReadEvent
  pub split : round.incoming.events ≡ waits ++ later
  pub quiet : All IsQuiet waits
  pub enough : 500 ≤ 50 * length waits
  pub ends : 50 * length waits < 550

-- A round whose read finds the frame of this packet, and joined to it those that lie behind it in the
-- pipe. No allocation fails.
pub record Gathers (round : LoopRound) (q : Packet) (behind : List Packet) : Type 0 where
  pub roomy : round.heap ≡ ample
  pub opened : round.incoming.opened ≡ true
  pub comes : Delivers round.incoming.events 500 (frames (q ∷ behind))
  pub packs : IsPacket q
  pub silent : bit_and q.options require_ack ≡ 0

-- What the read of a round finds: nothing, or frames of which the first asks for no acknowledgement.
abbrev pub Hears : LoopRound → List Packet → Type 0
Hears round [] = Waits round
Hears round (q ∷ behind) = Gathers round q behind

-- Rounds with what each of them reads, while the state is left alone.
abbrev pub Arrive : List LoopRound → List (List Packet) → Type 0
Arrive [] [] = Unit
Arrive (round ∷ rounds) (batch ∷ batches) =
    Hears round batch × (round.state_change ≡ none) × Arrive rounds batches
Arrive _ _ = ⊥

-- The first packet of each read that finds any.
abbrev pub firsts : List (List Packet) → List Packet
firsts [] = []
firsts ([] ∷ batches) = firsts batches
firsts ((q ∷ behind) ∷ batches) = q ∷ firsts batches

-- All packets.
abbrev pub together : List (List Packet) → List Packet
together [] = []
together (batch ∷ batches) = batch ++ together batches

-- A read that finds one frame at most.
abbrev pub IsAlone : List Packet → Type 0
IsAlone [] = Unit
IsAlone (q ∷ []) = Unit
IsAlone _ = ⊥

pub firsts_alone :
    (batches : List (List Packet)) → All IsAlone batches → firsts batches ≡ together batches
firsts_alone [] alone = refl
firsts_alone ([] ∷ batches) alone = firsts_alone batches alone.1
firsts_alone ((q ∷ []) ∷ batches) alone = ap (λ qs. q ∷ qs) (firsts_alone batches alone.1)
firsts_alone ((q ∷ p ∷ behind) ∷ batches) alone = absurd alone.0

pub firsts-append :
    (batches : List (List Packet)) (batch : List Packet)
    → firsts (batches ++ batch ∷ []) ≡ firsts batches ++ firsts (batch ∷ [])
firsts-append [] batch = refl
firsts-append ([] ∷ batches) batch = firsts-append batches batch
firsts-append ((q ∷ behind) ∷ batches) batch = ap (λ qs. q ∷ qs) (firsts-append batches batch)

-- The rounds of a thread's loop with what each of them reads, until another thread sets this state
-- during the last one.
pub record Listens (rounds : List LoopRound) (batches : List (List Packet)) (state : State)
    : Type 0 where
  pub before : List LoopRound
  pub final : LoopRound
  pub earlier : List (List Packet)
  pub batch : List Packet
  pub all_rounds : rounds ≡ before ++ final ∷ []
  pub all_batches : batches ≡ earlier ++ batch ∷ []
  pub arrive : Arrive before earlier
  pub hears : Hears final batch
  pub sets : final.state_change ≡ some state
  pub other : is_state state running ≡ false
