-- ===== src/Pipes/Send.antt =====
-- pipe_send: what reaches the FIFO, and what a failed write does.
use liboctopipes.Prelude.{
  ℕ, zero, suc, ◌+◌, ◌*◌, ◌-◌, ◌^◌, ◌<◌, ◌≡◌, ◌≢◌, refl, sym, ap, ap₂, ◌∙◌, Bool, true, false, List,
  [], ◌∷◌, ◌++◌, arith, lt→ltb, ge→not_ltb, ==_refl, length, All, take, drop, take-length,
}
use native.Mathlib.Nat.{suc-add}
use native.Mathlib.Decide.{dec_lt}
use liboctopipes.Types.{ok, Bytes, Error, success, no_data_available, write_failed}
use liboctopipes.Memory.{u64}
use liboctopipes.Pipes.{
  WriteEvent, wrote, write_error, not_writable, not_ready, open_loop, send_loop, pipe_send,
}

-- What the writes of a script take in all.
abbrev pub taken : List WriteEvent → ℕ
taken [] = 0
taken (wrote n ∷ events) = n + taken events
taken (_ ∷ events) = taken events

-- No `write` of the script fails.
abbrev pub IsSmooth : WriteEvent → Type 0
IsSmooth event = event ≢ write_error

take-nil : (n : ℕ) → take {A = ℕ} n [] ≡ []
take-nil zero = refl
take-nil (suc n) = refl

pub take_all : (bytes : Bytes) (n : ℕ) → n ≡ length bytes → take n bytes ≡ bytes
take_all bytes n e = rw e (take-length bytes)

-- The bytes written so far, and those of the next write.
take-take : (bytes : Bytes) (m n : ℕ) → take m bytes ++ take n (drop m bytes) ≡ take (m + n) bytes
take-take bytes zero n = ap (λ k. take k bytes) {x = n} {y = 0 + n} (omega arith)
take-take [] (suc m) n = take-nil n ∙ sym (take-nil (suc m + n))
take-take (b ∷ bytes) (suc m) n = rw suc-add (ap (◌∷◌ b) (take-take bytes m n))

-- The end of the loop, with everything written.
send_loop_full :
    (events : List WriteEvent) (bytes : Bytes) (total : ℕ) (code : Error)
    → total ≡ length bytes
    → send_loop events bytes total code (take total bytes)
      ≡ ok (record { code = success; written = bytes })
unfolding send_loop
send_loop_full [] bytes total code e = rw (
  e,
  ge→not_ltb (length bytes) (length bytes) (omega arith),
  ==_refl (length bytes),
  take-length bytes,
)
send_loop_full (event ∷ events) bytes total code e = rw (
  e,
  ge→not_ltb (length bytes) (length bytes) (omega arith),
  ==_refl (length bytes),
  take-length bytes,
)

-- One round that is no failed write.
pub send_loop-wrote :
    (events : List WriteEvent) (bytes written : Bytes) (total n : ℕ) (code : Error)
    → total < length bytes
    → send_loop (wrote n ∷ events) bytes total code written
      ≡ send_loop events bytes (u64 (total + n)) code (written ++ take n (drop total bytes))
unfolding send_loop
send_loop-wrote events bytes written total n code h = rw (lt→ltb total (length bytes) h)

send_loop-not_writable :
    (events : List WriteEvent) (bytes written : Bytes) (total : ℕ) (code : Error)
    → total < length bytes
    → send_loop (not_writable ∷ events) bytes total code written
      ≡ send_loop events bytes total code written
unfolding send_loop
send_loop-not_writable events bytes written total code h = rw (lt→ltb total (length bytes) h)

pub send_loop-not_ready :
    (events : List WriteEvent) (bytes written : Bytes) (total : ℕ) (code : Error)
    → total < length bytes
    → send_loop (not_ready ∷ events) bytes total code written
      ≡ send_loop events bytes total write_failed written
unfolding send_loop
send_loop-not_ready events bytes written total code h = rw (lt→ltb total (length bytes) h)

pub send_loop-write_error :
    (events : List WriteEvent) (bytes written : Bytes) (total : ℕ) (code : Error)
    → total < length bytes
    → send_loop (write_error ∷ events) bytes total code written
      ≡ send_loop events bytes (u64 (total + (2 ^ 64 - 1))) code written
unfolding send_loop
send_loop-write_error events bytes written total code h = rw (lt→ltb total (length bytes) h)

send_loop-smooth :
    (events : List WriteEvent) (bytes : Bytes) (total : ℕ) (code : Error)
    → All IsSmooth events
    → total + taken events ≡ length bytes
    → length bytes < 2 ^ 64
    → send_loop events bytes total code (take total bytes)
      ≡ ok (record { code = success; written = bytes })
send_loop-smooth [] bytes total code smooth e fits =
    send_loop_full [] bytes total code (omega arith)
send_loop-smooth (event ∷ events) bytes total code smooth e fits =
    elim (dec_lt total (length bytes)) [
      | no full ↦ send_loop_full (event ∷ events) bytes total code (omega arith)
      | yes room ↦
          step event smooth.0 e room
            (λ code' n e'. send_loop-smooth events bytes n code' smooth.1 e' fits)
    ]
  where
    Goal : List WriteEvent → ℕ → Error → Type 0
    Goal events n code =
        send_loop events bytes n code (take n bytes)
        ≡ ok (record { code = success; written = bytes })

    step :
        (event : WriteEvent)
        → IsSmooth event
        → total + taken (event ∷ events) ≡ length bytes
        → total < length bytes
        → ((code' : Error) (n : ℕ) → n + taken events ≡ length bytes → Goal events n code')
        → Goal (event ∷ events) total code
    step (wrote n) smooth e room ih =
        send_loop-wrote events bytes (take total bytes) total n code room
        ∙ ap₂ (λ k w. send_loop events bytes k code w) {x = u64 (total + n)} {y = total + n}
            (omega arith) (take-take bytes total n)
        ∙ ih code (total + n) (omega arith)
    step write_error smooth e room ih = absurd (smooth refl)
    step not_writable smooth e room ih =
        send_loop-not_writable events bytes (take total bytes) total code room ∙ ih code total e
    step not_ready smooth e room ih =
        send_loop-not_ready events bytes (take total bytes) total code room
        ∙ ih write_failed total e

pub send_loop_end :
    (bytes written : Bytes) (total : ℕ) (code : Error)
    → total ≡ length bytes
    → send_loop [] bytes total code written ≡ ok (record { code = success; written = written })
unfolding send_loop
send_loop_end bytes written total code e =
    rw (e, ge→not_ltb (length bytes) (length bytes) (omega arith), ==_refl (length bytes))

-- The FIFO is opened at one of the first attempts, the others failing in time.
abbrev pub attempts : ℕ → List Bool
attempts zero = true ∷ []
attempts (suc n) = false ∷ attempts n

pub open_loop-attempts :
    (n timeout elapsed : ℕ) (tried : Bool)
    → elapsed + 50 * n < timeout
    → open_loop (attempts n) timeout elapsed tried ≡ ok true
unfolding open_loop
open_loop-attempts zero timeout elapsed tried h = rw (lt→ltb elapsed timeout (omega arith))
open_loop-attempts (suc n) timeout elapsed tried h =
    rw (lt→ltb elapsed timeout (omega arith))
      (open_loop-attempts n timeout (elapsed + 50) true (omega arith))

-- If the FIFO can be opened before the timeout, no write fails and the writes take all the bytes,
-- in portions of any size and with any rounds between them, pipe_send returns SUCCESS and the bytes
-- went into the FIFO whole, in order and once.
pub pipe_send_delivers :
    (n timeout : ℕ) (events : List WriteEvent) (bytes : Bytes)
    → 50 * n < timeout
    → All IsSmooth events
    → taken events ≡ length bytes
    → length bytes < 2 ^ 64
    → pipe_send (attempts n) events bytes timeout ≡ ok (record { code = success; written = bytes })
unfolding pipe_send
pipe_send_delivers n timeout events bytes h smooth all fits =
    rw (open_loop-attempts n timeout 0 false (omega arith))
      (send_loop-smooth events bytes 0 no_data_available smooth (omega arith) fits)
