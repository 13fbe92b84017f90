-- ===== src/Octopipespp/Server/Starting.antt =====
-- What Server::startWorker makes of its subscriptions, and what the getters say afterwards.
use liboctopipes.Prelude.{
  ◌<◌, ◌≤◌, ◌≡◌, ◌≢◌, refl, Bool, true, false, some, List, [], ◌∷◌, ◌++◌, map, map-append, length,
  All, arith, Bool-cases, inl, inr,
}
use liboctopipes.Types.{ok, fault, dangling, >>=-Passes, Bytes, Heap, ample}
use liboctopipes.Memory.{same_bytes}
use liboctopipes.Cap.Subscribe.{IsText, buffers}
use liboctopipes.Server.{Server, Worker, success as success_code}
use liboctopipes.Server.Workers
use liboctopipes.Server.Workers.{WorkerScript, worker_of, is_worker}
use liboctopipes.Server.Workers.Registry.{
  all_made, same_bytes_refl, is_worker-append, start_worker-worker_of,
}
use liboctopipes.Octopipespp.{ServerError, translate_octopipes_server_error}
use liboctopipes.Octopipespp.Server.{
  last_group, delete_groups, start_worker, is_subscribed, get_subscriptions, get_clients,
}

-- Server::startWorker with two subscriptions or more does not return, whatever the system answers: if
-- octopipes_server_start_worker returns, the first entry of the array is deleted a second time.
pub start_worker_several :
    (heap : Heap) (grown : Bool) (script : WorkerScript) (server : Server) (client : Bytes)
    (subscriptions : List Bytes) (tx_pipe rx_pipe : Bytes) (result : ServerError × Server)
    → 1 < length subscriptions
    → start_worker heap grown script server client subscriptions tx_pipe rx_pipe ≢ ok result
unfolding start_worker delete_groups
start_worker_several heap grown script server client [] tx_pipe rx_pipe result several h =
    absurd (omega arith)
start_worker_several heap grown script server client (text ∷ []) tx_pipe rx_pipe result several h =
    absurd (omega arith)
start_worker_several heap grown script server client (text ∷ next ∷ texts) tx_pipe rx_pipe result
      several h =
    let passed =
      >>=-Passes
        (Workers.start_worker heap grown script server client (last_group (text ∷ next ∷ texts))
          (length (text ∷ next ∷ texts)) tx_pipe rx_pipe)
        _ h in
    not_ok passed.2
  where
    not_ok : fault dangling ≡ ok result → ⊥
    not_ok e = cc

get_subscriptions-append :
    (workers : List Worker) (worker : Worker)
    → is_worker worker.client_id workers ≡ false
    → Workers.get_subscriptions ample (workers ++ worker ∷ []) worker.client_id
      ≡ (success_code, worker.subscriptions_list)
unfolding Workers.get_subscriptions
get_subscriptions-append [] worker new =
    rw (Workers.get_subscriptions, same_bytes_refl worker.client_id)
get_subscriptions-append (w ∷ workers) worker new =
    elim (Bool-cases (same_bytes w.client_id worker.client_id)) [
      | inl same ↦ cc
      | inr other ↦
          rw (Workers.get_subscriptions, other)
            (get_subscriptions-append workers worker (rw other at new))
    ]

get_clients-map :
    (workers : List Worker) → get_clients ample workers ≡ map (λ w. w.client_id) workers
unfolding get_clients Workers.get_clients
get_clients-map [] = refl
get_clients-map (w ∷ workers) = refl

-- At most one subscription reaches the C library as it is.
last_group-buffers : (texts : List Bytes) → length texts ≤ 1 → last_group texts ≡ buffers texts
unfolding last_group
last_group-buffers [] few = refl
last_group-buffers (text ∷ []) few = refl
last_group-buffers (text ∷ next ∷ texts) few = absurd (omega arith)

delete_groups-few : (texts : List Bytes) → length texts ≤ 1 → delete_groups texts ≡ ok tt
unfolding delete_groups
delete_groups-few [] few = refl
delete_groups-few (text ∷ []) few = refl
delete_groups-few (text ∷ next ∷ texts) few = absurd (omega arith)

-- What the getters say of a client among these workers.
abbrev pub getters : List Worker → Bytes → Bool × List Bytes × List Bytes
getters workers client = (
  is_subscribed workers client,
  get_subscriptions ample workers client,
  get_clients ample workers,
)

-- Server::startWorker with at most one subscription, for a client of a new name, succeeds and puts the
-- worker behind the others. isSubscribed says so then, getSubscriptions gives the subscription and the
-- client's own name, and getClients gives the names that it gave before and this one. The system
-- makes the pipes and the thread, and no allocation fails. The subscription is a text.
pub getters-start_worker :
    (server : Server) (workers : List Worker) (client : Bytes) (texts : List Bytes) (tx rx : Bytes)
    → server.workers ≡ some workers
    → is_worker client workers ≡ false
    → All IsText texts
    → length texts ≤ 1
    → let them = workers ++ worker_of client texts tx rx ∷ [] in
      (start_worker ample true all_made server client texts tx rx
        ≡ ok (ServerError.success, record server { workers = some them }))
      × (getters them client
          ≡ (true, texts ++ client ∷ [], get_clients ample workers ++ client ∷ []))
unfolding start_worker is_subscribed get_subscriptions Workers.is_subscribed
    translate_octopipes_server_error
getters-start_worker server workers client texts tx rx known new text few =
    let worker : Worker = worker_of client texts tx rx in
    (
      rw (
        last_group-buffers texts few,
        start_worker-worker_of server workers client texts tx rx known new text,
        delete_groups-few texts few,
      ),
      rw (
        is_worker-append client workers worker new,
        same_bytes_refl client,
        get_subscriptions,
        get_subscriptions-append workers worker new,
        get_clients-map (workers ++ worker ∷ []),
        get_clients-map workers,
        map-append (λ w. w.client_id) workers (worker ∷ []),
      ),
    )
