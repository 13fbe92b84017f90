-- ===== src/Transport/Carried.antt =====
-- What a dispatch puts into one FIFO.
use liboctopipes.Prelude.{
  ◌≡◌, refl, ap, true, false, List, [], ◌∷◌, ◌++◌, All, Bool-cases, inl, inr,
}
use liboctopipes.Types.{Bytes}
use liboctopipes.Memory.{same_bytes}
use liboctopipes.Serializer.Frame.{Packet, wire, packet_checksum}
use liboctopipes.Server.{Worker}
use liboctopipes.Server.Workers.{worker_match_subscription}
use liboctopipes.Server.Workers.Registry.{same_bytes_refl}
use liboctopipes.Server.Dispatch.Recipients.{forwards}
use liboctopipes.Transport.{carried}

-- No other worker writes into this FIFO.
abbrev pub IsElsewhere : Bytes → Worker → Type 0
IsElsewhere path worker = same_bytes worker.pipe_write path ≡ false

carried-elsewhere :
    (q : Packet) (path : Bytes) (workers : List Worker)
    → All (IsElsewhere path) workers
    → carried path (forwards q workers) ≡ []
carried-elsewhere q path [] elsewhere = refl
carried-elsewhere q path (worker ∷ workers) elsewhere =
    elim (Bool-cases (worker_match_subscription worker q.remote)) [
      | inl listens ↦ rw (listens, elsewhere.0) (carried-elsewhere q path workers elsewhere.1)
      | inr other ↦ rw other (carried-elsewhere q path workers elsewhere.1)
    ]

pub carried-forwards :
    (q : Packet) (before : List Worker) (worker : Worker) (behind : List Worker)
    → worker_match_subscription worker q.remote ≡ true
    → All (IsElsewhere worker.pipe_write) before
    → All (IsElsewhere worker.pipe_write) behind
    → carried worker.pipe_write (forwards q (before ++ worker ∷ behind))
      ≡ wire q (packet_checksum q) ∷ []
carried-forwards q [] worker behind listens first last =
    rw (listens, same_bytes_refl worker.pipe_write)
      (ap (λ more. wire q (packet_checksum q) ∷ more)
        (carried-elsewhere q worker.pipe_write behind last))
carried-forwards q (w ∷ before) worker behind listens first last =
    elim (Bool-cases (worker_match_subscription w q.remote)) [
      | inl too ↦ rw (too, first.0) (carried-forwards q before worker behind listens first.1 last)
      | inr other ↦ rw other (carried-forwards q before worker behind listens first.1 last)
    ]
