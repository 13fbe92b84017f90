-- ===== src/Server/Sound.antt =====
-- src/server.c: what the calls on the workers leave of their names and subscriptions.
pub mod CapInbox
pub mod Processing
pub mod CommonPipe
use liboctopipes.Prelude.{
  ℕ, ◌+◌, ◌≡◌, refl, sym, ap, ap₂, subst, ◌∙◌, Bool, true, false, not, ◌&&◌, Option, none, some,
  List, [], ◌∷◌, ◌++◌, All, if◌then◌else◌, Bool-cases, inl, inr, Option-cases,
}
use liboctopipes.Types.{◌>>=◌, Bytes, Heap}
use liboctopipes.Types.Always.{Always, Always->>=, Always-bind, Always-handle, Always-if}
use liboctopipes.Memory.{same_bytes}
use liboctopipes.Server.{ServerError, Worker, Server, registry, lost, is_success}
use liboctopipes.Server.Workers.{
  listed, is_worker, is_subscribed, WorkerScript, Started, is_created, worker_of,
  copy_subscriptions, fill_worker, worker_init, start_worker, worker_cleanup, stop_among,
  stop_worker,
}
use liboctopipes.Server.Inbox.{message_inbox_expunge}
use liboctopipes.Server.Workers.Registry.{IsRegistry, listed-append, same_bytes_refl, same_bytes→eq}

-- A worker listens to its own name.
abbrev pub IsOwn : Worker → Type 0
IsOwn worker = listed worker.client_id worker.subscriptions_list ≡ true

-- No two workers have one name, and each listens to its own.
abbrev pub IsSound : List Worker → Type 0
IsSound workers = IsRegistry workers × All IsOwn workers

-- The same of a server, whose workers may be lost.
abbrev pub SoundWorkers : Option (List Worker) → Type 0
SoundWorkers none = Unit
SoundWorkers (some workers) = IsSound workers

same_bytes_sym : (a b : Bytes) → same_bytes a b ≡ false → same_bytes b a ≡ false
same_bytes_sym a b h = elim (Bool-cases (same_bytes b a)) [
  | inr ne ↦ ne
  | inl agree ↦
      let same : same_bytes a b ≡ true =
        ap (λ t. same_bytes t b) (sym (same_bytes→eq b a agree)) ∙ same_bytes_refl b in
      cc
]

is_worker-append_other :
    (name : Bytes) (workers : List Worker) (worker : Worker)
    → is_worker name workers ≡ false
    → same_bytes worker.client_id name ≡ false
    → is_worker name (workers ++ worker ∷ []) ≡ false
is_worker-append_other name [] worker h ne = rw ne
is_worker-append_other name (w ∷ workers) worker h ne =
    elim (Bool-cases (same_bytes w.client_id name)) [
      | inl same ↦ cc
      | inr other ↦ rw other (is_worker-append_other name workers worker (rw other at h) ne)
    ]

-- A worker of a new name behind the others.
IsSound-append :
    (workers : List Worker) (worker : Worker)
    → IsSound workers
    → is_worker worker.client_id workers ≡ false
    → IsOwn worker
    → IsSound (workers ++ worker ∷ [])
IsSound-append [] worker sound new own = ((refl, tt), (own, tt))
IsSound-append (w ∷ workers) worker sound new own =
    elim (Bool-cases (same_bytes w.client_id worker.client_id)) [
      | inl same ↦ cc
      | inr other ↦
          let rest : IsSound (workers ++ worker ∷ []) =
            IsSound-append workers worker (sound.0.1, sound.1.1) (rw other at new) own in
          (
            (
              is_worker-append_other w.client_id workers worker sound.0.0
                  (same_bytes_sym w.client_id worker.client_id other),
              rest.0,
            ),
            (sound.1.0, rest.1),
          )
    ]

-- The worker that a start made, if it made one.
abbrev NewWorker : Bytes → Option Worker → Type 0
NewWorker client none = Unit
NewWorker client (some worker) = (worker.client_id ≡ client) × IsOwn worker

NewWorker-fill_worker :
    (heap : Heap) (script : WorkerScript) (groups : List Bytes) (amount : ℕ)
    (client pipe_read pipe_write : Bytes)
    → Always
        (λ (s : Started). NewWorker client s.worker)
        (fill_worker heap script groups amount client pipe_read pipe_write)
unfolding fill_worker
NewWorker-fill_worker heap script groups amount client pipe_read pipe_write =
    let P : Started → Type 0 = λ s. NewWorker client s.worker in
    Always-if P (heap 0 && heap 1 && heap 2 && heap 3 && heap 4 && heap 5) _ _
      (Always-handle P (copy_subscriptions heap 6 amount groups) _ _ (λ code. tt)
        (λ texts.
          let own : NewWorker client (some (worker_of client texts pipe_read pipe_write)) =
            (refl, listed-append texts client) in
          Always-if P (heap (6 + amount)) _ _
            (Always-if P (script.mutex && script.thread) _ _ own tt) tt))
      tt

NewWorker-worker_init :
    (heap : Heap) (script : WorkerScript) (groups : List Bytes) (amount : ℕ)
    (client pipe_read pipe_write : Bytes)
    → Always
        (λ (s : Started). NewWorker client s.worker)
        (worker_init heap script groups amount client pipe_read pipe_write)
unfolding worker_init
NewWorker-worker_init heap script groups amount client pipe_read pipe_write =
    Always-if _ (is_created script.read_made && is_created script.write_made) _ _
      (NewWorker-fill_worker heap script groups amount client pipe_read pipe_write) tt

-- The workers of the server that a call leaves are sound.
abbrev pub LeavesSound : ServerError × Server → Type 0
LeavesSound left = SoundWorkers left.1.workers

SoundWorkers-lost : (workers : List Worker) → SoundWorkers (lost workers)
SoundWorkers-lost [] = (tt, tt)
SoundWorkers-lost (w ∷ workers) = tt

registry-SoundWorkers :
    (server : Server) → SoundWorkers server.workers → Always IsSound (registry server)
registry-SoundWorkers server sound = elim (Option-cases server.workers) [
  | inl gone ↦ rw gone tt
  | inr (workers, known) ↦ rw known (subst SoundWorkers known sound)
]

pub start_worker-LeavesSound :
    (heap : Heap) (grown : Bool) (script : WorkerScript) (server : Server) (client : Bytes)
    (groups : List Bytes) (amount : ℕ) (tx_pipe rx_pipe : Bytes)
    → SoundWorkers server.workers
    → Always LeavesSound
        (start_worker heap grown script server client groups amount tx_pipe rx_pipe)
unfolding start_worker is_subscribed
start_worker-LeavesSound heap grown script server client groups amount tx_pipe rx_pipe sound =
    Always-bind IsSound _ (registry server) _ (registry-SoundWorkers server sound) λ workers known.
      elim (Bool-cases (is_worker client workers)) [
        | inl taken ↦ rw taken sound
        | inr new ↦ rw new (
            Always-bind (λ (s : Started). NewWorker client s.worker) _
              (worker_init heap script groups amount client tx_pipe rx_pipe) _
              (NewWorker-worker_init heap script groups amount client tx_pipe rx_pipe)
              λ started made. elim (Option-cases started.worker) [
                | inl unmade ↦ rw unmade sound
                | inr (worker, e) ↦
                    let fits : NewWorker client (some worker) = subst (NewWorker client) e made in
                    rw e (
                      Always-if _ grown _ _
                        (IsSound-append workers worker known
                          (ap (λ n. is_worker n workers) fits.0 ∙ new) fits.1)
                        (SoundWorkers-lost workers))
              ])
      ]

-- What is left of sound workers: they are sound, and no name is new among them.
abbrev pub LeftOf : List Worker → ServerError × List Worker → Type 0
LeftOf workers left =
    IsSound left.1
    × ((name : Bytes) → is_worker name workers ≡ false → is_worker name left.1 ≡ false)

-- A worker that is cleaned up keeps its name and its subscriptions.
abbrev Cleaned : Worker → ServerError × Worker → Type 0
Cleaned worker cleaned =
    (cleaned.1.client_id ≡ worker.client_id)
    × (cleaned.1.subscriptions_list ≡ worker.subscriptions_list)

worker_cleanup-Cleaned :
    (joined : Bool) (worker : Worker) → Always (Cleaned worker) (worker_cleanup joined worker)
unfolding worker_cleanup
worker_cleanup-Cleaned joined worker =
    Always-if _ (worker.active && not joined) _ _ (refl, refl)
      (Always->>= _ (message_inbox_expunge worker.inbox) _ (λ u. (refl, refl)))

is_worker-cons :
    (name : Bytes) (worker : Worker) (workers : List Worker)
    → is_worker name (worker ∷ workers) ≡ false
    → (same_bytes worker.client_id name ≡ false) × (is_worker name workers ≡ false)
is_worker-cons name worker workers h = elim (Bool-cases (same_bytes worker.client_id name)) [
  | inl same ↦ cc
  | inr ne ↦ (ne, rw ne at h)
]

Cleaned-LeftOf :
    (worker : Worker) (workers : List Worker) (cleaned : ServerError × Worker)
    → IsSound (worker ∷ workers)
    → Cleaned worker cleaned
    → LeftOf (worker ∷ workers) (cleaned.0, cleaned.1 ∷ workers)
Cleaned-LeftOf worker workers cleaned sound keeps = (
  (
    (ap (λ n. is_worker n workers) keeps.0 ∙ sound.0.0, sound.0.1),
    (ap₂ listed keeps.0 keeps.1 ∙ sound.1.0, sound.1.1),
  ),
  λ name h. ap (λ n. if same_bytes n name then true else is_worker name workers) keeps.0 ∙ h,
)

stop_among-LeftOf :
    (joined : Bool) (client : Bytes) (workers : List Worker)
    → IsSound workers
    → Always (LeftOf workers) (stop_among joined client workers)
unfolding stop_among
stop_among-LeftOf joined client [] sound = (sound, λ name h. h)
stop_among-LeftOf joined client (w ∷ workers) sound =
    elim (Bool-cases (same_bytes w.client_id client)) [
      | inl same ↦
          rw (stop_among, same)
            (Always-bind (Cleaned w) _ (worker_cleanup joined w) _ (worker_cleanup-Cleaned joined w)
              λ cleaned keeps.
                Always-if _ (is_success cleaned.0) _ _
                  ((sound.0.1, sound.1.1), λ name h. (is_worker-cons name w workers h).1)
                  (Cleaned-LeftOf w workers cleaned sound keeps))
      | inr ne ↦
          rw (stop_among, ne)
            (Always-bind (LeftOf workers) _ (stop_among joined client workers) _
              (stop_among-LeftOf joined client workers (sound.0.1, sound.1.1))
              λ rest left. (
                ((left.1 w.client_id sound.0.0, left.0.0), (sound.1.0, left.0.1)),
                λ name h.
                    let parts = is_worker-cons name w workers h in rw parts.0 (left.1 name parts.1),
              ))
    ]

pub stop_worker-LeavesSound :
    (shrunk joined : Bool) (server : Server) (client : Bytes)
    → SoundWorkers server.workers
    → Always LeavesSound (stop_worker shrunk joined server client)
unfolding stop_worker
stop_worker-LeavesSound shrunk joined server client sound =
    Always-bind IsSound _ (registry server) _ (registry-SoundWorkers server sound) λ workers known.
      Always-bind (LeftOf workers) _ (stop_among joined client workers) _
        (stop_among-LeftOf joined client workers known)
        λ left keeps.
          Always-if LeavesSound (is_success left.0 && not shrunk) _ _ (SoundWorkers-lost left.1)
            keeps.0
