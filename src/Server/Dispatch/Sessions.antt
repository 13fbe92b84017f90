-- ===== src/Server/Dispatch/Sessions.antt =====
-- What octopipes_server_process_once makes of the messages that wait.
use liboctopipes.Prelude.{
  ℕ, zero, suc, ◌+◌, ◌≡◌, ◌≢◌, refl, sym, ap, ◌∙◌, none, some, List, [], ◌∷◌, ◌++◌, map, arith,
  length, All, append-nil, append_assoc, Bool-cases, inl, inr, Option,
}
use liboctopipes.Types.{Outcome, ok, Bytes}
use liboctopipes.Serializer.Frame.{Packet, IsPacket, message_of, packet_checksum, wire}
use liboctopipes.Cap.Subscribe.{IsText}
use liboctopipes.Server.{Worker, letter, success}
use liboctopipes.Server.Inbox.{message_inbox_dequeue}
use liboctopipes.Server.Workers.{worker_match_subscription, listed}
use liboctopipes.Server.Dispatch.{
  Sending, Processed, process_entry, once_among, process_once, process_all, Session,
}
use liboctopipes.Server.Dispatch.Recipients.{forwards, Forwards, dispatch_message-forwards}

-- A worker with an empty inbox, and with one message in it.
abbrev pub emptied : Worker → Worker
emptied worker = record worker { inbox = some [] }

abbrev pub waiting : Worker → Packet → Worker
waiting worker q = record worker {
  inbox =
      some (record { message = letter (message_of q (packet_checksum q)); error = success } ∷ []);
}

-- The workers of a server, each with the packet that waits in its inbox, if there is one.
abbrev pub loaded : List (Worker × Option Packet) → List Worker
loaded [] = []
loaded ((worker, none) ∷ rest) = emptied worker ∷ loaded rest
loaded ((worker, some q) ∷ rest) = waiting worker q ∷ loaded rest

abbrev pub cleared : List (Worker × Option Packet) → List Worker
cleared [] = []
cleared ((worker, q) ∷ rest) = emptied worker ∷ cleared rest

abbrev pub packets : List (Worker × Option Packet) → List Packet
packets [] = []
packets ((worker, none) ∷ rest) = packets rest
packets ((worker, some q) ∷ rest) = q ∷ packets rest

-- What the frames of several packets come to.
abbrev pub all_forwards : List Packet → List Worker → List (Bytes × Bytes)
all_forwards [] workers = []
all_forwards (q ∷ qs) workers = forwards q workers ++ all_forwards qs workers

-- The inboxes do not matter for that.
forwards-emptied :
    (q : Packet) (workers : List Worker) → forwards q (map emptied workers) ≡ forwards q workers
unfolding worker_match_subscription
forwards-emptied q [] = refl
forwards-emptied q (w ∷ workers) = elim (Bool-cases (listed q.remote w.subscriptions_list)) [
  | inl listens ↦
      rw listens (ap (◌∷◌ (w.pipe_write, wire q (packet_checksum q))) (forwards-emptied q workers))
  | inr other ↦ rw other (forwards-emptied q workers)
]

map-emptied-swap :
    (passed : List Worker) (w w' : Worker) (rest : List Worker)
    → emptied w ≡ emptied w'
    → map emptied (passed ++ w ∷ rest) ≡ map emptied (passed ++ w' ∷ rest)
map-emptied-swap [] w w' rest h = ap (λ v. v ∷ map emptied rest) h
map-emptied-swap (p ∷ passed) w w' rest h =
    ap (◌∷◌ (emptied p)) (map-emptied-swap passed w w' rest h)

-- A packet that every FIFO takes in time.
abbrev pub IsSendable : (ℕ → ℕ → Sending) → Packet → Type 0
IsSendable answers q =
    IsPacket q × (q.remote ≢ []) × IsText q.remote × ((i : ℕ) → Forwards (answers i) q)

-- The result of a session without an error.
abbrev pub session_done : ℕ → List Worker → List (Bytes × Bytes) → Outcome Processed
session_done requests workers written = ok (record {
  code = success;
  client = none;
  requests = requests;
  workers = workers;
  written = written;
})

session_done-eq :
    {n n' : ℕ} {workers workers' : List Worker} {written written' : List (Bytes × Bytes)}
    → n ≡ n'
    → workers ≡ workers'
    → written ≡ written'
    → session_done n workers written ≡ session_done n' workers' written'
session_done-eq en ew ef = λ i. session_done (en i) (ew i) (ef i)

module _ (answers : ℕ → ℕ → Sending) (all : List Worker) where
  process_entry-forwards :
      (i : ℕ) (workers : List Worker) (q : Packet) (requests : ℕ) (written : List (Bytes × Bytes))
      → IsSendable answers q
      → map emptied workers ≡ all
      → process_entry
          (answers i)
          workers
          (record { message = letter (message_of q (packet_checksum q)); error = success })
          requests
          written
        ≡ session_done (suc requests) workers (written ++ forwards q all)
  unfolding process_entry
  process_entry-forwards i workers q requests written (packs, some_remote, text, open_pipes) h =
      rw
        (dispatch_message-forwards (answers i) q packs (open_pipes i) (packet_checksum q) workers
          some_remote text)
        (ap (λ f. session_done (suc requests) workers (written ++ f))
          (sym (forwards-emptied q workers) ∙ ap (forwards q) h))

  once_among-forwards :
      (i : ℕ) (passed : List Worker) (load : List (Worker × Option Packet)) (requests : ℕ)
      (written : List (Bytes × Bytes))
      → All (IsSendable answers) (packets load)
      → map emptied (passed ++ loaded load) ≡ all
      → once_among answers i passed (loaded load) requests written
        ≡ session_done
            (requests + length (packets load))
            (passed ++ cleared load)
            (written ++ all_forwards (packets load) all)
  unfolding once_among message_inbox_dequeue
  once_among-forwards i passed [] requests written sendable h =
      session_done-eq (omega arith) (sym (append-nil passed)) (sym (append-nil written))
  once_among-forwards i passed ((worker, none) ∷ rest) requests written sendable h =
      once_among-forwards (suc i) (passed ++ emptied worker ∷ []) rest requests written sendable
        (ap (map emptied) (append_assoc passed (emptied worker ∷ []) (loaded rest)) ∙ h)
      ∙ session_done-eq refl (append_assoc passed (emptied worker ∷ []) (cleared rest)) refl
  once_among-forwards i passed ((worker, some q) ∷ rest) requests written sendable h =
      let same =
        map-emptied-swap passed (emptied worker) (waiting worker q) (loaded rest) refl ∙ h in
      rw
        (
          once_among,
          process_entry-forwards i (passed ++ emptied worker ∷ loaded rest) q requests written
              sendable.0 same,
        )
        (once_among-forwards (suc i) (passed ++ emptied worker ∷ []) rest (suc requests)
            (written ++ forwards q all) sendable.1
            (ap (map emptied) (append_assoc passed (emptied worker ∷ []) (loaded rest)) ∙ same)
          ∙ session_done-eq (omega arith) (append_assoc passed (emptied worker ∷ []) (cleared rest))
              (append_assoc written (forwards q all) (all_forwards (packets rest) all)))

-- One session takes every message.
process_once-forwards :
    (answers : ℕ → ℕ → Sending) (load : List (Worker × Option Packet))
    → All (IsSendable answers) (packets load)
    → process_once answers (loaded load)
      ≡ ok (record {
        code = success;
        client = none;
        requests = length (packets load);
        workers = cleared load;
        written = all_forwards (packets load) (cleared load);
      })
unfolding process_once
process_once-forwards answers load sendable =
    once_among-forwards answers (cleared load) 0 [] load 0 [] sendable (map-loaded load)
    ∙ session_done-eq (omega arith) refl refl
  where
    map-loaded : (load : List (Worker × Option Packet)) → map emptied (loaded load) ≡ cleared load
    map-loaded [] = refl
    map-loaded ((worker, none) ∷ rest) = ap (◌∷◌ (emptied worker)) (map-loaded rest)
    map-loaded ((worker, some q) ∷ rest) = ap (◌∷◌ (emptied worker)) (map-loaded rest)

once_among-cleared :
    (answers : ℕ → ℕ → Sending) (i : ℕ) (passed : List Worker)
    (load : List (Worker × Option Packet))
    → once_among answers i passed (cleared load) 0 [] ≡ session_done 0 (passed ++ cleared load) []
unfolding once_among message_inbox_dequeue
once_among-cleared answers i passed [] = session_done-eq refl (sym (append-nil passed)) refl
once_among-cleared answers i passed ((worker, q) ∷ rest) =
    once_among-cleared answers (suc i) (passed ++ emptied worker ∷ []) rest
    ∙ session_done-eq refl (append_assoc passed (emptied worker ∷ []) (cleared rest)) refl

-- A session during which the listening threads push nothing.
abbrev pub quiet : (ℕ → ℕ → Sending) → Session
quiet answers = record { answers = answers; listen = λ workers. workers }

module _ (session : Session) (sessions : List Session) (workers left : List Worker) (requests : ℕ)
    (written more : List (Bytes × Bytes)) where
  process_all_end :
      process_once session.answers (session.listen workers) ≡ session_done 0 left more
      → process_all (session ∷ sessions) workers requests written
        ≡ session_done requests left (written ++ more)
  unfolding process_all
  process_all_end h = rw (process_all, h) refl

  process_all_next :
      (n : ℕ)
      → process_once session.answers (session.listen workers) ≡ session_done (suc n) left more
      → process_all (session ∷ sessions) workers requests written
        ≡ process_all sessions left (requests + suc n) (written ++ more)
  unfolding process_all
  process_all_next n h = rw (process_all, h) refl

-- On a server in whose inboxes at most one message waits, and into which nothing comes meanwhile,
-- octopipes_server_process_all returns after at most two sessions. It has taken each message, in
-- the order of the workers, and has written its frame into the pipes of exactly the workers that
-- subscribe to its remote; it counts the messages, and leaves all inboxes empty. The pipes have to
-- take the frames in time. The messages fit a frame, and their remotes are non-empty texts.
pub process_all-forwards :
    (answers answers' : ℕ → ℕ → Sending) (more : List Session)
    (load : List (Worker × Option Packet))
    → All (IsSendable answers) (packets load)
    → process_all (quiet answers ∷ quiet answers' ∷ more) (loaded load) 0 []
      ≡ ok (record {
        code = success;
        client = none;
        requests = length (packets load);
        workers = cleared load;
        written = all_forwards (packets load) (cleared load);
      })
unfolding process_once
process_all-forwards answers answers' more load sendable = go (length (packets load)) refl
  where
    all : List (Bytes × Bytes)
    all = all_forwards (packets load) (cleared load)

    once :
        (n : ℕ)
        → length (packets load) ≡ n
        → process_once answers (loaded load) ≡ session_done n (cleared load) all
    once n e = process_once-forwards answers load sendable ∙ session_done-eq e refl refl

    go :
        (n : ℕ)
        → length (packets load) ≡ n
        → process_all (quiet answers ∷ quiet answers' ∷ more) (loaded load) 0 []
          ≡ session_done (length (packets load)) (cleared load) all
    go zero e =
        process_all_end (quiet answers) (quiet answers' ∷ more) (loaded load) (cleared load) 0 []
          all (once zero e)
        ∙ session_done-eq (sym e) refl refl
    go (suc n) e =
        process_all_next (quiet answers) (quiet answers' ∷ more) (loaded load) (cleared load) 0 []
          all n (once (suc n) e)
        ∙ process_all_end (quiet answers') more (cleared load) (cleared load) (0 + suc n) all []
            (once_among-cleared answers' 0 [] load)
        ∙ session_done-eq (omega (arith, e)) refl (append-nil all)
