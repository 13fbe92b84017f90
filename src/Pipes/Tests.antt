-- ===== src/Pipes/Tests.antt =====
-- Runs of the FIFO functions on short scripts, and their theorems at such scripts.
use liboctopipes.Prelude.{◌≡◌, refl, true, false, some, [], ◌∷◌, arith}
use liboctopipes.Types.{ok, success, Bytes}
use liboctopipes.Pipes.{
  received, timed_out, hang_up, read_error, pipe_receive, receive_loop, receive_round, idle_round,
  receive_end, wrote, not_ready, pipe_send, open_loop, send_loop,
}
use liboctopipes.Pipes.Receive.{pipe_receive-joined}
use liboctopipes.Pipes.Send.{attempts, pipe_send_delivers}

abbrev word : Bytes
word = 5 ∷ 6 ∷ 7 ∷ []

receive_two_reads :
    pipe_receive true
      (timed_out ∷ received (5 ∷ []) true ∷ received (6 ∷ []) true ∷ hang_up ∷ [])
      200
    ≡ ok (record { code = success; bytes = some (5 ∷ 6 ∷ []); size = 2 })
unfolding pipe_receive receive_loop receive_round idle_round receive_end
receive_two_reads = refl

-- A read error after data does not count.
receive_error_late :
    pipe_receive true (received (5 ∷ []) true ∷ read_error ∷ []) 200
    ≡ ok (record { code = success; bytes = some (5 ∷ []); size = 1 })
unfolding pipe_receive receive_loop receive_round receive_end
receive_error_late = refl

send_in_two_writes :
    pipe_send (false ∷ true ∷ []) (wrote 2 ∷ not_ready ∷ wrote 1 ∷ []) word 100
    ≡ ok (record { code = success; written = word })
unfolding pipe_send open_loop send_loop
send_in_two_writes = refl

pipe_receive-joined_example :
    pipe_receive true
      (timed_out ∷ received (5 ∷ []) true ∷ received (6 ∷ []) true ∷ hang_up ∷ [])
      200
    ≡ ok (record { code = success; bytes = some (5 ∷ 6 ∷ []); size = 2 })
pipe_receive-joined_example =
    pipe_receive-joined (timed_out ∷ []) [] (5 ∷ []) ((6 ∷ []) ∷ []) hang_up 200 (refl, tt)
      (omega arith) (λ e. cc) refl

pipe_send_delivers_example :
    pipe_send (attempts 1) (wrote 2 ∷ not_ready ∷ wrote 1 ∷ []) word 100
    ≡ ok (record { code = success; written = word })
pipe_send_delivers_example =
    pipe_send_delivers 1 100 (wrote 2 ∷ not_ready ∷ wrote 1 ∷ []) word (omega arith)
      ((λ e. cc), ((λ e. cc), ((λ e. cc), tt))) refl (omega arith)
