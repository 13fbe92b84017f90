-- ===== src/Server/Listen/Tests.antt =====
-- The thread of a worker into whose pipe two messages come.
use liboctopipes.Prelude.{◌≡◌, refl, Bool, true, false, [], ◌∷◌, some, arith}
use liboctopipes.Types.{ok, ample}
use liboctopipes.Serializer.Frame.{wire, packet_checksum}
use liboctopipes.Pipes.{received, hang_up}
use liboctopipes.Pipes.Delivery.{comes-Delivers}
use liboctopipes.Server.Listen.{WorkerRound, worker_loop}
use liboctopipes.Server.Listen.Collect.{entry_of, worker_loop-collects}
use liboctopipes.Server.Tests.{worker_you, note, note-IsPacket}

abbrev round_with : Bool → WorkerRound
round_with ends = record {
  heap = ample;
  incoming = record {
    opened = true;
    events = received (wire note (packet_checksum note)) true ∷ hang_up ∷ [];
  };
  ends = ends;
}

worker_loop-collects_example :
    worker_loop (round_with false ∷ round_with true ∷ []) worker_you
    ≡ ok (record worker_you { inbox = some (entry_of note ∷ entry_of note ∷ []); active = false })
worker_loop-collects_example =
    worker_loop-collects worker_you (round_with false ∷ []) (round_with true) (note ∷ []) note []
      refl refl
      (
        record {
          roomy = refl;
          opened = refl;
          comes = comes-Delivers 200 _ _ (omega arith);
          packs = note-IsPacket;
        },
        refl,
        tt,
      )
      (record {
        roomy = refl;
        opened = refl;
        comes = comes-Delivers 200 _ _ (omega arith);
        packs = note-IsPacket;
      })
      refl
