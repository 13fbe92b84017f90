-- ===== src/Pipes/SendFailures.antt =====
-- pipe_send: what a failed write does, and a FIFO that nobody reads.
use liboctopipes.Prelude.{
  ℕ, zero, suc, ◌+◌, ◌*◌, ◌-◌, ◌^◌, ◌<◌, ◌≡◌, ◌≢◌, refl, ap, ◌∙◌, false, List, [], ◌∷◌, ◌++◌, arith,
  lt→ltb, length, length-drop, take, drop,
}
use liboctopipes.Types.{ok, pending, Bytes, Error, success, no_data_available, write_failed}
use liboctopipes.Memory.{u64}
use liboctopipes.Pipes.{WriteEvent, wrote, write_error, not_ready, send_loop, pipe_send}
use liboctopipes.Pipes.Send.{
  attempts, take_all, send_loop-wrote, send_loop-not_ready, send_loop-write_error, send_loop_end,
  open_loop-attempts,
}

abbrev pub unready : ℕ → List WriteEvent
unready zero = []
unready (suc n) = not_ready ∷ unready n

send_loop-unready :
    (rounds : ℕ) (bytes : Bytes) (code : Error)
    → 0 < length bytes
    → send_loop (unready rounds) bytes 0 code [] ≡ pending
send_loop-unready zero bytes code h = unfold send_loop in rw (lt→ltb 0 (length bytes) h)
send_loop-unready (suc n) bytes code h =
    send_loop-not_ready (unready n) bytes [] 0 code h ∙ send_loop-unready n bytes write_failed h

-- A write that fails after some bytes went out takes one off their number: the call sends the last of
-- them again, and reports success.
pub pipe_send_write_error_repeats :
    (n timeout k : ℕ) (bytes : Bytes)
    → 50 * n < timeout
    → 0 < k
    → k < length bytes
    → length bytes < 2 ^ 64
    → pipe_send
        (attempts n)
        (wrote k ∷ write_error ∷ wrote (length bytes - k + 1) ∷ [])
        bytes
        timeout
      ≡ ok (record { code = success; written = take k bytes ++ drop (k - 1) bytes })
unfolding pipe_send
pipe_send_write_error_repeats n timeout k bytes h pos part fits =
    rw (open_loop-attempts n timeout 0 false (omega arith)) (
      send_loop-wrote (write_error ∷ wrote (length bytes - k + 1) ∷ []) bytes [] 0 k
        no_data_available (omega arith)
      ∙ ap
          (λ t.
            send_loop (write_error ∷ wrote (length bytes - k + 1) ∷ []) bytes t no_data_available
              (take k bytes))
          {x = u64 (0 + k)} {y = k} (omega arith)
      ∙ send_loop-write_error (wrote (length bytes - k + 1) ∷ []) bytes (take k bytes) k
          no_data_available part
      ∙ ap
          (λ t.
            send_loop (wrote (length bytes - k + 1) ∷ []) bytes t no_data_available (take k bytes))
          {x = u64 (k + (2 ^ 64 - 1))} {y = k - 1} (omega arith)
      ∙ send_loop-wrote [] bytes (take k bytes) (k - 1) (length bytes - k + 1) no_data_available
          (omega arith)
      ∙ send_loop_end bytes _ (u64 (k - 1 + (length bytes - k + 1))) no_data_available (omega arith)
      ∙ ap (λ w. ok (record { code = success; written = take k bytes ++ w }))
          (take_all (drop (k - 1) bytes) (length bytes - k + 1)
            (omega (arith, length-drop (k - 1) bytes))))

-- While the other side does not read, pipe_send does not give up: whatever the timeout, the call is
-- still running after any number of rounds in which the FIFO was not ready.
pub pipe_send_waits_forever :
    (n timeout rounds : ℕ) (bytes : Bytes)
    → 50 * n < timeout
    → bytes ≢ []
    → pipe_send (attempts n) (unready rounds) bytes timeout ≡ pending
unfolding pipe_send
pipe_send_waits_forever n timeout rounds [] h some_bytes = absurd (some_bytes refl)
pipe_send_waits_forever n timeout rounds (b ∷ bytes) h some_bytes =
    rw (open_loop-attempts n timeout 0 false (omega arith))
      (send_loop-unready rounds (b ∷ bytes) no_data_available (omega arith))
