-- ===== src/Server/Workers/Registry.antt =====
-- Who is registered: the workers before and behind octopipes_server_start_worker and
-- octopipes_server_stop_worker.
use liboctopipes.Prelude.{
  ℕ, suc, ◌≡◌, ◌≢◌, refl, sym, ap, ap₂, ◌∙◌, ◌==◌, true, false, some, List, [], ◌∷◌, ◌++◌, length,
  if◌then◌else◌, Bool-cases, inl, inr, ==_iff, ==_refl, All,
}
use liboctopipes.Types.{ok, ◌>>=◌, Bytes, ample}
use liboctopipes.Memory.{same_bytes}
use liboctopipes.Cap.Subscribe.{IsText, buffers, scan_string-terminated}
use liboctopipes.Pipes.{done, pipe_create}
use liboctopipes.Server.{success, Worker, Server, registry}
use liboctopipes.Server.Inbox.{message_inbox_expunge, expunge}
use liboctopipes.Server.Workers.{
  is_worker, is_subscribed, WorkerScript, worker_of, copy_subscriptions, fill_worker, worker_init,
  start_worker, stop_among, stop_worker, worker_cleanup, worker_match_subscription, listed,
}

pub same_bytes_refl : (text : Bytes) → same_bytes text text ≡ true
same_bytes_refl [] = refl
same_bytes_refl (b ∷ bs) = rw (==_refl b, same_bytes_refl bs)

pub same_bytes→eq : (a b : Bytes) → same_bytes a b ≡ true → a ≡ b
same_bytes→eq [] [] h = refl
same_bytes→eq [] (y ∷ ys) h = cc
same_bytes→eq (x ∷ xs) [] h = cc
same_bytes→eq (x ∷ xs) (y ∷ ys) h = elim (Bool-cases (x == y)) [
  | inl same ↦ ap₂ ◌∷◌ ((==_iff x y).0 same) (same_bytes→eq xs ys (rw same at h))
  | inr ne ↦ cc
]

-- No two workers have one name.
abbrev pub IsRegistry : List Worker → Type 0
IsRegistry [] = Unit
IsRegistry (worker ∷ workers) = (is_worker worker.client_id workers ≡ false) × IsRegistry workers

pub listed-append :
    (groups : List Bytes) (client : Bytes) → listed client (groups ++ client ∷ []) ≡ true
listed-append [] client = rw (same_bytes_refl client)
listed-append (group ∷ groups) client = elim (Bool-cases (same_bytes group client)) [
  | inl same ↦ rw same
  | inr ne ↦ rw ne (listed-append groups client)
]

pub is_worker-append :
    (client : Bytes) (workers : List Worker) (worker : Worker)
    → is_worker client workers ≡ false
    → is_worker client (workers ++ worker ∷ []) ≡ same_bytes worker.client_id client
is_worker-append client [] worker h = elim (Bool-cases (same_bytes worker.client_id client)) [
  | inl same ↦ rw same
  | inr ne ↦ rw ne
]
is_worker-append client (w ∷ workers) worker h = elim (Bool-cases (same_bytes w.client_id client)) [
  | inl same ↦ cc
  | inr ne ↦ rw ne (is_worker-append client workers worker (rw ne at h))
]

abbrev pub IsEmptied : Worker → Type 0
IsEmptied worker = worker.inbox ≡ some []

stop_first :
    (client : Bytes) (worker : Worker) (workers : List Worker)
    → same_bytes worker.client_id client ≡ true
    → IsEmptied worker
    → stop_among true client (worker ∷ workers) ≡ ok (success, workers)
unfolding stop_among worker_cleanup message_inbox_expunge expunge
stop_first client worker workers same emptied = elim (Bool-cases worker.active) [
  | inl active ↦ rw (stop_among, same, active, emptied)
  | inr idle ↦ rw (stop_among, same, idle, emptied)
]

-- Stopping the worker behind a list without one of its name.
pub stop_among-append :
    (client : Bytes) (workers : List Worker) (worker : Worker)
    → is_worker client workers ≡ false
    → same_bytes worker.client_id client ≡ true
    → worker.inbox ≡ some []
    → stop_among true client (workers ++ worker ∷ []) ≡ ok (success, workers)
unfolding stop_among
stop_among-append client [] worker h same empty = stop_first client worker [] same empty
stop_among-append client (w ∷ workers) worker h same empty =
    elim (Bool-cases (same_bytes w.client_id client)) [
      | inl there ↦ cc
      | inr ne ↦
          rw (stop_among, ne, stop_among-append client workers worker (rw ne at h) same empty)
    ]

copy_subscriptions-buffers :
    (k : ℕ) (groups : List Bytes)
    → All IsText groups
    → copy_subscriptions ample k (length groups) (buffers groups) ≡ ok groups
unfolding copy_subscriptions
copy_subscriptions-buffers k [] h = refl
copy_subscriptions-buffers k (group ∷ groups) h =
    rw (scan_string-terminated group h.0, copy_subscriptions-buffers (suc k) groups h.1)

-- The system makes both pipes, the mutex and the thread.
abbrev pub all_made : WorkerScript
all_made = record { read_made = done; write_made = done; mutex = true; thread = true }

-- octopipes_server_start_worker of a new name: the worker is put behind the others.
pub start_worker-worker_of :
    (server : Server) (workers : List Worker) (client : Bytes) (groups : List Bytes) (tx rx : Bytes)
    → server.workers ≡ some workers
    → is_worker client workers ≡ false
    → All IsText groups
    → start_worker ample true all_made server client (buffers groups) (length groups) tx rx
      ≡ ok (
        success,
        record server { workers = some (workers ++ worker_of client groups tx rx ∷ []) },
      )
unfolding start_worker worker_init fill_worker is_subscribed pipe_create
start_worker-worker_of server workers client groups tx rx known new text =
    rw (known, new, copy_subscriptions-buffers 6 groups text) refl

-- A client of a new name whose worker is started is subscribed then, and messages with its own id
-- as their remote match its subscriptions. Stopping the worker at once leaves the server as it was
-- before. The system makes the pipes and the thread, which is joined, and no allocation fails. The
-- groups are texts.
pub stop_worker-start_worker :
    (server : Server) (workers : List Worker) (client : Bytes) (groups : List Bytes) (tx rx : Bytes)
    → server.workers ≡ some workers
    → is_worker client workers ≡ false
    → All IsText groups
    → (worker_match_subscription (worker_of client groups tx rx) client ≡ true)
      × ((start_worker ample true all_made server client (buffers groups) (length groups) tx rx
            >>= λ started. registry started.1 >>= λ them. ok (is_subscribed them client))
          ≡ ok success)
      × ((start_worker ample true all_made server client (buffers groups) (length groups) tx rx
            >>= λ started. stop_worker true true started.1 client)
          ≡ ok (success, server))
unfolding stop_worker is_subscribed worker_match_subscription
stop_worker-start_worker server workers client groups tx rx known new text =
    let started = start_worker-worker_of server workers client groups tx rx known new text in
    let worker : Worker = worker_of client groups tx rx in
    (
      listed-append groups client,
      rw (started, is_worker-append client workers worker new, same_bytes_refl client),
      rw (started, stop_among-append client workers worker new (same_bytes_refl client) refl)
          (ap (λ w. ok (success, record server { workers = w })) (sym known)),
    )

-- What stopping a worker leaves.
pub record Stopped (client : Bytes) (workers left : List Worker) : Type 0 where
  pub gone : is_worker client left ≡ false
  pub others : (other : Bytes) → other ≢ client → is_worker other left ≡ is_worker other workers
  pub differ : IsRegistry left

Stopped-first :
    (client : Bytes) (worker : Worker) (workers : List Worker)
    → IsRegistry (worker ∷ workers)
    → worker.client_id ≡ client
    → Stopped client (worker ∷ workers) workers
Stopped-first client worker workers differ same = record {
  gone = ap (λ n. is_worker n workers) (sym same) ∙ differ.0;
  others = λ other ne. elim (Bool-cases (same_bytes worker.client_id other)) [
    | inl s ↦ absurd (ne (sym (same_bytes→eq worker.client_id other s) ∙ same))
    | inr d ↦ rw d
  ];
  differ = differ.1;
}

Stopped-later :
    (client : Bytes) (worker : Worker) (workers left : List Worker)
    → is_worker worker.client_id workers ≡ false
    → same_bytes worker.client_id client ≡ false
    → Stopped client workers left
    → Stopped client (worker ∷ workers) (worker ∷ left)
Stopped-later client worker workers left differ ne s = record {
  gone = rw ne s.gone;
  others =
      λ other h. ap (λ t. if same_bytes worker.client_id other then true else t) (s.others other h);
  differ = (s.others worker.client_id unlike ∙ differ, s.differ);
}
  where
    unlike : worker.client_id ≢ client
    unlike e =
        let same : same_bytes worker.client_id client ≡ true =
          ap (same_bytes worker.client_id) (sym e) ∙ same_bytes_refl worker.client_id in
        cc

-- octopipes_server_stop_worker, for workers of different names of which the client is one, whose
-- threads are joined and whose inboxes are empty, stops that worker: its name is not registered then,
-- every other name is as before, and the names of the workers still differ.
pub stop_among-Stopped :
    (client : Bytes) (workers : List Worker)
    → IsRegistry workers
    → All IsEmptied workers
    → is_worker client workers ≡ true
    → (left : List Worker) × (stop_among true client workers ≡ ok (success, left))
      × Stopped client workers left
unfolding stop_among
stop_among-Stopped client [] differ emptied known = cc
stop_among-Stopped client (w ∷ workers) differ emptied known =
    elim (Bool-cases (same_bytes w.client_id client)) [
      | inl same ↦ (
        workers,
        stop_first client w workers same emptied.0,
        Stopped-first client w workers differ (same_bytes→eq w.client_id client same),
      )
      | inr ne ↦
          let (left, e, s) =
            stop_among-Stopped client workers differ.1 emptied.1 (rw ne at known) in
          (w ∷ left, rw (stop_among, ne, e), Stopped-later client w workers left differ.0 ne s)
    ]
