-- ===== src/Pipes/Receive.antt =====
-- pipe_receive: what it collects, and when it gives up.
use liboctopipes.Prelude.{
  ℕ, suc, ◌+◌, ◌*◌, ◌≤◌, ◌<◌, ◌≡◌, refl, ap, ap₂, ◌∙◌, Bool, true, false, Option, none, some, List,
  [], ◌∷◌, ◌++◌, arith, lt→ltb, ge→not_ltb, length, length-append, All, append_assoc, append-nil,
  ◌≢◌,
}
use native.Mathlib.Nat.{add-zero}
use liboctopipes.Types.{ok, Bytes, success, no_data_available, bad_alloc}
use liboctopipes.Pipes.{
  ReadEvent, received, would_block, read_error, error_state, hang_up, other_event, timed_out,
  interrupted, poll_error, receive_end, grow, idle_round, receive_round, receive_loop, pipe_receive,
}

-- The rounds in which there is nothing to read.
abbrev pub is_quiet : ReadEvent → Bool
is_quiet would_block = true
is_quiet hang_up = true
is_quiet timed_out = true
is_quiet interrupted = true
is_quiet _ = false

abbrev pub IsQuiet : ReadEvent → Type 0
IsQuiet event = is_quiet event ≡ true

receive_round-quiet :
    (event : ReadEvent) (elapsed size : ℕ) (bytes : Option Bytes)
    → IsQuiet event
    → receive_round event elapsed bytes size ≡ idle_round elapsed bytes size
unfolding receive_round
receive_round-quiet would_block elapsed size bytes h = refl
receive_round-quiet hang_up elapsed size bytes h = refl
receive_round-quiet timed_out elapsed size bytes h = refl
receive_round-quiet interrupted elapsed size bytes h = refl
receive_round-quiet (received more fits) elapsed size bytes h = cc
receive_round-quiet read_error elapsed size bytes h = cc
receive_round-quiet error_state elapsed size bytes h = cc
receive_round-quiet other_event elapsed size bytes h = cc
receive_round-quiet poll_error elapsed size bytes h = cc

-- A round with nothing to read, before and after data has come.
receive_loop-quiet_none :
    (event : ReadEvent) (events : List ReadEvent) (timeout elapsed size : ℕ)
    → IsQuiet event
    → elapsed < timeout
    → receive_loop (event ∷ events) timeout elapsed none size
      ≡ receive_loop events timeout (elapsed + 50) none size
unfolding receive_loop idle_round
receive_loop-quiet_none event events timeout elapsed size q h =
    rw (lt→ltb elapsed timeout h, receive_round-quiet event elapsed size none q, receive_loop)

receive_loop-quiet_some :
    (event : ReadEvent) (events : List ReadEvent) (timeout elapsed size : ℕ) (bytes : Bytes)
    → IsQuiet event
    → elapsed < timeout
    → receive_loop (event ∷ events) timeout elapsed (some bytes) size
      ≡ ok (receive_end no_data_available (some bytes) size)
unfolding receive_loop idle_round
receive_loop-quiet_some event events timeout elapsed size bytes q h =
    rw (
      lt→ltb elapsed timeout h,
      receive_round-quiet event elapsed size (some bytes) q,
      receive_loop,
    )

-- The bytes of several reads, and the rounds that deliver them.
abbrev pub joined : List Bytes → Bytes
joined [] = []
joined (chunk ∷ chunks) = chunk ++ joined chunks

abbrev pub deliveries : List Bytes → List ReadEvent
deliveries [] = []
deliveries (chunk ∷ chunks) = received chunk true ∷ deliveries chunks

receive_loop-received :
    (more : Bytes) (events : List ReadEvent) (timeout elapsed size : ℕ) (bytes : Option Bytes)
    → elapsed < timeout
    → receive_loop (received more true ∷ events) timeout elapsed bytes size
      ≡ receive_loop events timeout elapsed (grow bytes more) (size + length more)
unfolding receive_loop receive_round
receive_loop-received more events timeout elapsed size bytes h = rw (lt→ltb elapsed timeout h)

receive_loop-deliveries :
    (chunks : List Bytes) (events : List ReadEvent) (timeout elapsed size : ℕ) (bytes : Bytes)
    → elapsed < timeout
    → receive_loop (deliveries chunks ++ events) timeout elapsed (some bytes) size
      ≡ receive_loop events timeout elapsed
          (some (bytes ++ joined chunks))
          (size + length (joined chunks))
receive_loop-deliveries [] events timeout elapsed size bytes h = rw (append-nil bytes, add-zero)
receive_loop-deliveries (chunk ∷ chunks) events timeout elapsed size bytes h =
    receive_loop-received chunk (deliveries chunks ++ events) timeout elapsed size (some bytes) h
    ∙ receive_loop-deliveries chunks events timeout elapsed (size + length chunk) (bytes ++ chunk) h
    ∙ ap₂ (λ b n. receive_loop events timeout elapsed (some b) n)
        (append_assoc bytes chunk (joined chunks)) counted
  where
    counted : size + length chunk + length (joined chunks) ≡ size + length (chunk ++ joined chunks)
    counted = omega (arith, length-append chunk (joined chunks))

-- Waiting before the first data.
receive_loop-waits :
    (waits events : List ReadEvent) (timeout elapsed size : ℕ)
    → All IsQuiet waits
    → elapsed + 50 * length waits < timeout + 50
    → receive_loop (waits ++ events) timeout elapsed none size
      ≡ receive_loop events timeout (elapsed + 50 * length waits) none size
receive_loop-waits [] events timeout elapsed size q h =
    ap (λ n. receive_loop events timeout n none size) {x = elapsed} {y = elapsed + 50 * 0}
      (omega arith)
receive_loop-waits (event ∷ waits) events timeout elapsed size q h =
    receive_loop-quiet_none event (waits ++ events) timeout elapsed size q.0 (omega arith)
    ∙ receive_loop-waits waits events timeout (elapsed + 50) size q.1 (omega arith)
    ∙ ap (λ n. receive_loop events timeout n none size) {x = elapsed + 50 + 50 * length waits}
        {y = elapsed + 50 * suc (length waits)} (omega arith)

-- Data that comes before the timeout, in one read or in several, is delivered whole and in order
-- once a round finds nothing more to read, whatever would come after that.
pub pipe_receive-joined :
    (waits later : List ReadEvent) (first : Bytes) (chunks : List Bytes) (last : ReadEvent)
    (timeout : ℕ)
    → All IsQuiet waits
    → 50 * length waits < timeout
    → first ≢ []
    → IsQuiet last
    → pipe_receive true (waits ++ (deliveries (first ∷ chunks) ++ (last ∷ later))) timeout
      ≡ ok (record {
        code = success;
        bytes = some (joined (first ∷ chunks));
        size = length (joined (first ∷ chunks));
      })
unfolding pipe_receive receive_end
pipe_receive-joined waits later [] chunks last timeout q h some_data ql = absurd (some_data refl)
pipe_receive-joined waits later (b ∷ first) chunks last timeout q h some_data ql =
    let now : ℕ = 0 + 50 * length waits in
    receive_loop-waits waits _ timeout 0 0 q (omega arith)
    ∙ receive_loop-received (b ∷ first) _ timeout now 0 none (omega arith)
    ∙ receive_loop-deliveries chunks (last ∷ later) timeout now (0 + length (b ∷ first)) (b ∷ first)
        (omega arith)
    ∙ receive_loop-quiet_some last later timeout now _ _ ql (omega arith)
    ∙ rw (counted, lt→ltb 0 (length (joined ((b ∷ first) ∷ chunks))) (omega arith))
  where
    counted :
        0 + length (b ∷ first) + length (joined chunks) ≡ length (joined ((b ∷ first) ∷ chunks))
    counted = omega (arith, length-append (b ∷ first) (joined chunks))

receive_loop-expired :
    (events : List ReadEvent) (timeout elapsed : ℕ)
    → timeout ≤ elapsed
    → receive_loop events timeout elapsed none 0
      ≡ ok (record { code = no_data_available; bytes = none; size = 0 })
unfolding receive_loop receive_end
receive_loop-expired [] timeout elapsed h = rw (ge→not_ltb elapsed timeout h)
receive_loop-expired (event ∷ events) timeout elapsed h = rw (ge→not_ltb elapsed timeout h)

receive_loop-alloc_failure :
    (more : Bytes) (later : List ReadEvent) (timeout size : ℕ) (bytes : Option Bytes)
    → 0 < timeout
    → receive_loop (received more false ∷ later) timeout 0 bytes size
      ≡ ok (receive_end bad_alloc none (size + length more))
unfolding receive_loop receive_round
receive_loop-alloc_failure more later timeout size bytes h = rw (lt→ltb 0 timeout h)

-- A call that finds nothing to read in timeout / 50 rounds, rounded up, returns NO_DATA_AVAILABLE
-- after them.
pub pipe_receive_times_out :
    (waits later : List ReadEvent) (timeout : ℕ)
    → All IsQuiet waits
    → timeout ≤ 50 * length waits
    → 50 * length waits < timeout + 50
    → pipe_receive true (waits ++ later) timeout
      ≡ ok (record { code = no_data_available; bytes = none; size = 0 })
unfolding pipe_receive
pipe_receive_times_out waits later timeout q enough first =
    receive_loop-waits waits later timeout 0 0 q (omega arith)
    ∙ receive_loop-expired later timeout (0 + 50 * length waits) (omega arith)

-- A reallocation that fails after data has come is reported as a success, with NULL for the data and
-- the size of what was read.
pub pipe_receive_alloc_failure :
    (chunks : List Bytes) (first more : Bytes) (later : List ReadEvent) (timeout : ℕ)
    → 0 < timeout
    → first ≢ []
    → pipe_receive true (deliveries (first ∷ chunks) ++ (received more false ∷ later)) timeout
      ≡ ok (record {
        code = success;
        bytes = none;
        size = length (joined (first ∷ chunks)) + length more;
      })
unfolding pipe_receive receive_end
pipe_receive_alloc_failure chunks [] more later timeout h some_data = absurd (some_data refl)
pipe_receive_alloc_failure chunks (b ∷ first) more later timeout h some_data =
    let size : ℕ = 0 + length (b ∷ first) + length (joined chunks) in
    receive_loop-received (b ∷ first) _ timeout 0 0 none h
    ∙ receive_loop-deliveries chunks _ timeout 0 (0 + length (b ∷ first)) (b ∷ first) h
    ∙ receive_loop-alloc_failure more later timeout size _ h
    ∙ rw (lt→ltb 0 (size + length more) (omega arith)) (
        ap (λ n. ok (record { code = success; bytes = none; size = n + length more })) {x = size}
          {y = length (joined ((b ∷ first) ∷ chunks))}
          (omega (arith, length-append (b ∷ first) (joined chunks))))
