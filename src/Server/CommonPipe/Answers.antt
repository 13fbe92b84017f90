-- ===== src/Server/CommonPipe/Answers.antt =====
-- The answer of the server to a subscription.
use liboctopipes.Prelude.{
  ℕ, ◌+◌, ◌<◌, ◌^◌, ◌≡◌, refl, subst, ◌∙◌, true, none, some, [], ◌∷◌, arith, length, length-append,
}
use liboctopipes.Serializer.{decode}
use liboctopipes.Types.{Outcome, ◌>>=◌, ok, Bytes, ample, version_1}
use liboctopipes.Memory.{read_pointer, terminated, u8}
use liboctopipes.Memory.Cursor.{read_bytes-drop, read_pointer-append, read_pointer-some}
use liboctopipes.Serializer.Frame.{Packet, IsPacket, structure, packet_checksum}
use liboctopipes.Serializer.Encode.{encode-structure, length-wire}
use liboctopipes.Cap.{cap_assignment}
use liboctopipes.Cap.Assign.{prepare_assign-payload}
use liboctopipes.Pipes.Delivery.{Carries, pipe_send-Carries}
use liboctopipes.Client.{SendScript}
use liboctopipes.Client.Subscribe.Assigned.{answer_packet, answer_frame, assignment_rest}
use liboctopipes.Server.{success, Server, ServerState, to_server_error}
use liboctopipes.Server.Workers.Registry.{all_made}
use liboctopipes.Server.Lifecycle.{lock_cap, unlock_cap}
use liboctopipes.Server.CommonPipe.{
  CapScript, CapReply, handle_cap_message, cap_message, write_cap, answer_client,
  answer_subscription,
}

-- The server decodes a request that came over the CAP, and handles it.
abbrev pub serve : CapScript → Server → Bytes → Outcome CapReply
serve script server frame = decode ample frame >>= λ m. handle_cap_message script server m

-- The system does all that the server asks of it.
abbrev pub willing : SendScript → CapScript
willing out = record {
  groups_heap = ample;
  paths_heap = ample;
  worker_heap = ample;
  worker = all_made;
  grown = true;
  assign_heap = ample;
  write_heap = ample;
  out = out;
  stopping = (true, true);
}

pub cap_message-structure :
    (server : Server) (client rest : Bytes)
    → server.version ≡ version_1
    → length client < 256
    → cap_message server client (cap_assignment ∷ rest)
      ≡ ok (
          structure
            (answer_packet client rest)
            none
            (some (terminated client))
            (some (cap_assignment ∷ rest))
            0)
unfolding cap_message
cap_message-structure server client rest speaks short = rw (
  u8-byte (length client) short,
  read_bytes-drop (terminated client) 0 client (0 ∷ []) refl (omega arith),
  speaks,
)
  where
    u8-byte : (n : ℕ) → n < 256 → u8 n ≡ n
    u8-byte n h = omega arith

module _ (server : Server) (client : Bytes) (out : SendScript)
    (runs : server.state ≡ ServerState.running) (speaks : server.version ≡ version_1)
    (short : length client < 256) where
  write_cap-answer_frame :
      (rest : Bytes)
      → length rest < 2 ^ 32
      → Carries out.attempts out.events 5000 (18 + length client + length rest)
      → write_cap ample out server client (cap_assignment ∷ rest)
        ≡ ok (record { code = success; server = server; written = answer_frame client rest })
  unfolding write_cap lock_cap unlock_cap to_server_error
  write_cap-answer_frame rest fits carries =
      let p : Packet = answer_packet client rest in
      let packs : IsPacket p = record {
        origin_fits = omega arith;
        remote_fits = short;
        options_fits = omega arith;
        frame_fits = omega (arith, fits, short);
      } in
      rw (
        runs,
        cap_message-structure (record server { state = ServerState.running }) client rest speaks
            short,
        encode-structure p none (some (terminated client)) (some (cap_assignment ∷ rest))
            (unfold read_pointer in refl) (read_pointer-append client (0 ∷ []))
            (read_pointer-some (cap_assignment ∷ rest)) ample 0 packs refl,
        pipe_send-Carries (answer_frame client rest) carries
            (length-wire p (packet_checksum p) ∙ omega arith)
            (omega (arith, length-wire p (packet_checksum p), fits, short)),
      )

  -- The answer to a client whose worker was started.
  pub answer_subscription-answer_frame :
      (tx rx : Bytes)
      → length tx < 256
      → length rx < 256
      → Carries out.attempts out.events 5000 (21 + length client + length tx + length rx)
      → answer_subscription (willing out) server client tx rx
        ≡ ok (record {
          code = success;
          server = server;
          written = answer_frame client (assignment_rest 0 tx rx);
        })
  unfolding answer_subscription answer_client
  answer_subscription-answer_frame tx rx tx_fits rx_fits carries =
      let size : length (assignment_rest 0 tx rx) ≡ 3 + length tx + length rx =
        omega (arith, length-append tx (length rx ∷ rx)) in
      rw (
        prepare_assign-payload ample 0 tx rx refl (omega arith) tx_fits rx_fits,
        write_cap-answer_frame (assignment_rest 0 tx rx) (omega (arith, size, tx_fits, rx_fits))
            (subst (Carries out.attempts out.events 5000) (omega (arith, size)) carries),
      )
