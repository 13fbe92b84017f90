-- ===== src/Server/Listen/Collect.antt =====
-- What the listening threads collect in an inbox.
use liboctopipes.Prelude.{
  ◌≡◌, refl, ap, ◌∙◌, true, false, none, some, List, [], ◌∷◌, ◌++◌, map, append_assoc,
}
use liboctopipes.Types.{ok, Heap, ample}
use liboctopipes.Serializer.Frame.{Packet, IsPacket, wire, message_of, packet_checksum}
use liboctopipes.Serializer.RoundTrip.{decode-wire, checked-packet_checksum}
use liboctopipes.Pipes.Delivery.{Delivers, pipe_receive-Delivers}
use liboctopipes.Client.{ReceiveScript}
use liboctopipes.Server.{success, Entry, letter, Worker, Server, ServerState, stopped, running}
use liboctopipes.Server.Inbox.{message_inbox_push}
use liboctopipes.Server.Listen.{
  push_decoded, listen_round, cap_push, cap_listen, WorkerRound, worker_loop, CapRound, cap_round,
  cap_rounds, cap_loop,
}

-- The entry for a packet.
abbrev pub entry_of : Packet → Entry
entry_of q = record { message = letter (message_of q (packet_checksum q)); error = success }

-- A round in which the frame of this packet comes in, and no allocation fails.
pub record Brings (heap : Heap) (incoming : ReceiveScript) (q : Packet) : Type 0 where
  pub roomy : heap ≡ ample
  pub opened : incoming.opened ≡ true
  pub comes : Delivers incoming.events 200 (wire q (packet_checksum q))
  pub packs : IsPacket q

pub listen_round-entry_of :
    (heap : Heap) (incoming : ReceiveScript) (q : Packet) (entries : List Entry)
    → Brings heap incoming q
    → listen_round heap incoming (some entries) ≡ ok (some (entries ++ entry_of q ∷ []))
unfolding listen_round push_decoded message_inbox_push
listen_round-entry_of heap incoming q entries b = rw (
  b.roomy,
  b.opened,
  pipe_receive-Delivers b.comes,
  decode-wire ample q (packet_checksum q) b.packs (refl, refl, refl) refl,
  checked-packet_checksum q,
)

pub cap_listen-entry_of :
    (heap : Heap) (incoming : ReceiveScript) (q : Packet) (entries : List Entry)
    → Brings heap incoming q
    → cap_listen false heap incoming (some entries) ≡ ok (some (entries ++ entry_of q ∷ []))
unfolding cap_listen cap_push message_inbox_push
cap_listen-entry_of heap incoming q entries b = rw (
  b.roomy,
  b.opened,
  pipe_receive-Delivers b.comes,
  decode-wire ample q (packet_checksum q) b.packs (refl, refl, refl) refl,
  checked-packet_checksum q,
)

-- The rounds bring these packets in their order, and the worker stays active meanwhile.
abbrev pub WorkerRounds : List WorkerRound → List Packet → Type 0
WorkerRounds [] [] = Unit
WorkerRounds (round ∷ rounds) (q ∷ qs) =
    Brings round.heap round.incoming q × (round.ends ≡ false) × WorkerRounds rounds qs
WorkerRounds _ _ = ⊥

-- The thread of an active worker into whose pipe packets come, one in each round, until another thread
-- ends it: it has put each of them into the inbox, once, in their order and behind the entries that
-- were there, and has changed nothing else of the worker. The packets fit a frame, and no allocation
-- fails.
pub worker_loop-collects :
    (worker : Worker) (rounds : List WorkerRound) (final : WorkerRound) (qs : List Packet)
    (q : Packet) (entries : List Entry)
    → worker.active ≡ true
    → worker.inbox ≡ some entries
    → WorkerRounds rounds qs
    → Brings final.heap final.incoming q
    → final.ends ≡ true
    → worker_loop (rounds ++ final ∷ []) worker
      ≡ ok (record worker { inbox = some (entries ++ map entry_of (qs ++ q ∷ [])); active = false })
unfolding worker_loop
worker_loop-collects worker [] final [] q entries active held come last ends = rw (
  worker_loop,
  active,
  held,
  listen_round-entry_of final.heap final.incoming q entries last,
  ends,
)
worker_loop-collects worker [] final (p ∷ qs) q entries active held come last ends = elim come [ ]
worker_loop-collects worker (round ∷ rounds) final [] q entries active held come last ends =
    elim come [ ]
worker_loop-collects worker (round ∷ rounds) final (p ∷ qs) q entries active held come last ends =
    rw
      (
        worker_loop,
        active,
        held,
        listen_round-entry_of round.heap round.incoming p entries come.0,
        come.1,
      )
      (worker_loop-collects
          (record worker { inbox = some (entries ++ entry_of p ∷ []); active = true }) rounds final
          qs q (entries ++ entry_of p ∷ []) refl refl come.2 last ends
        ∙ ap (λ es. ok (record worker { inbox = some es; active = false }))
            (append_assoc entries (entry_of p ∷ []) (map entry_of (qs ++ q ∷ []))))

-- The same for the thread of the CAP, while no other thread changes the state.
abbrev pub CapRounds : List CapRound → List Packet → Type 0
CapRounds [] [] = Unit
CapRounds (round ∷ rounds) (q ∷ qs) =
    Brings round.heap round.incoming q × (round.state_change ≡ none) × CapRounds rounds qs
CapRounds _ _ = ⊥

-- A server with a free mutex, and with these entries in its inbox.
abbrev holds : Server → ServerState → List Entry → Server
holds server state entries = record server {
  state = state;
  locked = false;
  cap_inbox = some (some entries);
}

cap_rounds-collects :
    (server : Server) (rounds : List CapRound) (final : CapRound) (qs : List Packet) (q : Packet)
    (entries : List Entry)
    → CapRounds rounds qs
    → Brings final.heap final.incoming q
    → final.state_change ≡ some stopped
    → cap_rounds false (rounds ++ final ∷ []) (holds server running entries)
      ≡ ok (holds server stopped (entries ++ map entry_of (qs ++ q ∷ [])))
unfolding cap_rounds cap_round
cap_rounds-collects server [] final [] q entries come last ends =
    rw (cap_listen-entry_of final.heap final.incoming q entries last, ends)
cap_rounds-collects server [] final (p ∷ qs) q entries come last ends = elim come [ ]
cap_rounds-collects server (round ∷ rounds) final [] q entries come last ends = elim come [ ]
cap_rounds-collects server (round ∷ rounds) final (p ∷ qs) q entries come last ends =
    rw (cap_listen-entry_of round.heap round.incoming p entries come.0, come.1)
      (cap_rounds-collects server rounds final qs q (entries ++ entry_of p ∷ []) come.2 last ends
        ∙ ap (λ es. ok (holds server stopped es))
            (append_assoc entries (entry_of p ∷ []) (map entry_of (qs ++ q ∷ []))))

-- The thread of the Common Access Pipe on a server that runs, into which requests come, one in each
-- round, until octopipes_server_stop_cap_listener sets the state to STOPPED: it has put each request
-- into the inbox, once, in their order and behind the entries that were there, and returns. The
-- mutex of the inbox is free, the requests fit a frame, and no allocation fails.
pub cap_loop-collects :
    (server : Server) (rounds : List CapRound) (final : CapRound) (qs : List Packet) (q : Packet)
    (entries : List Entry)
    → server.state ≡ running
    → server.locked ≡ false
    → server.cap_inbox ≡ some (some entries)
    → CapRounds rounds qs
    → Brings final.heap final.incoming q
    → final.state_change ≡ some stopped
    → cap_loop (rounds ++ final ∷ []) server
      ≡ ok (record server {
        state = stopped;
        locked = false;
        cap_inbox = some (some (entries ++ map entry_of (qs ++ q ∷ [])));
      })
unfolding cap_loop
cap_loop-collects server rounds final qs q entries runs free held come last ends =
    ap (cap_rounds false (rounds ++ final ∷ [])) (is_holding runs free held)
    ∙ cap_rounds-collects server rounds final qs q entries come last ends
  where
    is_holding :
        server.state ≡ running
        → server.locked ≡ false
        → server.cap_inbox ≡ some (some entries)
        → server ≡ holds server running entries
    is_holding s l i = rw⁻¹ (s, l, i) refl
