-- ===== src/Pipes/Delivery.antt =====
-- When a script of the system carries a frame, as the callers of the FIFO functions assume it.
use liboctopipes.Prelude.{
  ℕ, ◌*◌, ◌<◌, false, refl, arith, append-nil, ◌^◌, ◌≡◌, ◌≢◌, sym, ap, ◌∙◌, Bool, true, some, List,
  [], ◌∷◌, ◌++◌, length, All,
}
use liboctopipes.Types.{ok, Bytes, success}
use liboctopipes.Pipes.{ReadEvent, WriteEvent, wrote, received, hang_up, pipe_receive, pipe_send}
use liboctopipes.Pipes.Receive.{IsQuiet, deliveries, joined, pipe_receive-joined}
use liboctopipes.Pipes.Send.{attempts, IsSmooth, taken, pipe_send_delivers}

-- The frame comes before the timeout, in one piece or several, and then a round with nothing to read.
pub record Delivers (events : List ReadEvent) (timeout : ℕ) (frame : Bytes) : Type 0 where
  pub waits : List ReadEvent
  pub later : List ReadEvent
  pub first : Bytes
  pub chunks : List Bytes
  pub last : ReadEvent
  pub split : events ≡ waits ++ (deliveries (first ∷ chunks) ++ (last ∷ later))
  pub whole : joined (first ∷ chunks) ≡ frame
  pub quiet : All IsQuiet waits
  pub soon : 50 * length waits < timeout
  pub comes : first ≢ []
  pub ends : IsQuiet last

pub pipe_receive-Delivers :
    {events : List ReadEvent} {timeout : ℕ} {frame : Bytes}
    → Delivers events timeout frame
    → pipe_receive true events timeout
      ≡ ok (record { code = success; bytes = some frame; size = length frame })
pipe_receive-Delivers {events} {timeout} d =
    ap (λ e. pipe_receive true e timeout) d.split
    ∙ pipe_receive-joined d.waits d.later d.first d.chunks d.last timeout d.quiet d.soon d.comes
        d.ends
    ∙ ap (λ f. ok (record { code = success; bytes = some f; size = length f })) d.whole

-- The FIFO can be opened before the timeout, no write fails, and the writes take `size` bytes.
pub record Carries (tries : List Bool) (events : List WriteEvent) (timeout size : ℕ) : Type 0 where
  pub failures : ℕ
  pub opens : tries ≡ attempts failures
  pub soon : 50 * failures < timeout
  pub smooth : All IsSmooth events
  pub all : taken events ≡ size

pub pipe_send-Carries :
    {tries : List Bool} {events : List WriteEvent} {timeout size : ℕ} (frame : Bytes)
    → Carries tries events timeout size
    → length frame ≡ size
    → length frame < 2 ^ 64
    → pipe_send tries events frame timeout ≡ ok (record { code = success; written = frame })
pipe_send-Carries {tries} {events} {timeout} frame c sized fits =
    ap (λ t. pipe_send t events frame timeout) c.opens
    ∙ pipe_send_delivers c.failures timeout events frame c.soon c.smooth (c.all ∙ sym sized) fits

-- A FIFO that is opened at the second attempt and takes everything at once.
pub takes-Carries :
    (timeout size : ℕ) → 50 < timeout → Carries (false ∷ true ∷ []) (wrote size ∷ []) timeout size
takes-Carries timeout size h = record {
  failures = 1;
  opens = refl;
  soon = omega arith;
  smooth = ((λ e. cc), tt);
  all = omega arith;
}

-- A frame that comes at once.
pub comes-Delivers :
    (timeout b : ℕ) (frame : Bytes)
    → 0 < timeout
    → Delivers (received (b ∷ frame) true ∷ hang_up ∷ []) timeout (b ∷ frame)
comes-Delivers timeout b frame h = record {
  waits = [];
  later = [];
  first = b ∷ frame;
  chunks = [];
  last = hang_up;
  split = refl;
  whole = append-nil (b ∷ frame);
  quiet = tt;
  soon = omega arith;
  comes = λ e. cc;
  ends = refl;
}
