-- ===== src/Server/CommonPipe/Visits.antt =====
-- The end of the worker that a subscription has started.
use liboctopipes.Prelude.{
  ◌+◌, ◌*◌, ◌<◌, ◌≡◌, refl, sym, ap, ◌∙◌, ◌++◌, true, false, some, List, [], ◌∷◌, length, All,
}
use liboctopipes.Types.{ok, Bytes, version_1, unsubscribed}
use liboctopipes.Cap.{cap_unsubscription}
use liboctopipes.Cap.Subscribe.{IsText, IsGroup}
use liboctopipes.Pipes.Delivery.{Carries}
use liboctopipes.Client.{Client, SendScript}
use liboctopipes.Client.Subscribe.Assigned.{enters}
use liboctopipes.Server.{success, ServerState, Worker, Server}
use liboctopipes.Server.Workers.{is_worker, worker_of}
use liboctopipes.Server.Workers.Registry.{is_worker-append, same_bytes_refl, stop_among-append}
use liboctopipes.Server.CommonPipe.{manage_unsubscription, tx_path, rx_path}
use liboctopipes.Server.CommonPipe.Handshake.{joined_by}
use liboctopipes.Server.CommonPipe.Leaving.{manage_unsubscription-left}

-- The client that subscribed with such an answer and has left.
abbrev pub left_by : Client → Bytes → Bytes → Client
left_by c tx rx = record (enters c 0 tx rx).reply.client { state = unsubscribed }

module _ (server : Server) (workers : List Worker) (client : Bytes) (texts : List Bytes)
    (out : SendScript) (runs : server.state ≡ ServerState.running)
    (speaks : server.version ≡ version_1) (known : server.workers ≡ some workers)
    (new : is_worker client workers ≡ false) (is_text : IsText client) (short : length client < 256)
    (are_groups : All IsGroup texts) (few : length texts < 256)
    (paths : length server.client_folder + length client < 247)
    (carries : Carries out.attempts out.events 5000
      (39 + length client + 2 * (length server.client_folder + length client))) where
  pub manage_unsubscription-joined_by :
      manage_unsubscription
        (true, true)
        (joined_by server workers client texts)
        client
        (cap_unsubscription ∷ [])
      ≡ ok (record { code = success; server = server; written = [] })
  manage_unsubscription-joined_by =
      let worker : Worker =
        worker_of client texts (tx_path server.client_folder client)
          (rx_path server.client_folder client) in
      manage_unsubscription-left (joined_by server workers client texts) client
        (workers ++ worker ∷ []) workers refl
        (is_worker-append client workers worker new ∙ same_bytes_refl client)
        (stop_among-append client workers worker new (same_bytes_refl client) refl)
      ∙ ap
          (λ w.
            ok (record { code = success; server = record server { workers = w }; written = [] }))
          (sym known)
