-- ===== src/Octopipespp/Server/Sessions.antt =====
-- The loop of Server::processAll does what octopipes_server_process_all does.
use liboctopipes.Prelude.{
  ℕ, suc, ◌+◌, ◌≡◌, refl, sym, ap, ◌∙◌, true, false, ◌&&◌, none, some, List, [], ◌∷◌, ◌++◌,
  Bool-cases, Option-cases, ℕ-cases, inl, inr,
}
use native.Mathlib.Nat.{add_assoc, add-zero}
use liboctopipes.Types.{Outcome, ok, ◌>>=◌, >>=-assoc, Bytes, Message}
use liboctopipes.Memory.{scan_string}
use liboctopipes.Types.Always.{Always, Always->>=, Always-bind, >>=-congr}
use liboctopipes.Server.{
  ServerError, success, bad_alloc, uninitialized, bad_packet, bad_checksum, unsupported_version,
  open_failed, write_failed, read_failed, cap_timeout, thread_error, thread_already_running,
  worker_exists, worker_not_found, worker_already_running, worker_not_running, no_recipient,
  bad_client_dir, unknown, Worker, Entry, Letter, no_letter, dangling_letter, letter,
  is_success as is_success_code,
}
use liboctopipes.Server.Inbox.{message_inbox_dequeue}
use liboctopipes.Server.Workers.{worker_match_subscription, worker_send}
use liboctopipes.Server.Dispatch
use liboctopipes.Server.Dispatch.{
  Sending, Session, Dispatched, dispatch_workers, dispatch_message, Processed, process_entry,
  is_letter, once_among,
}
use liboctopipes.Octopipespp.{translate_octopipes_server_error}
use liboctopipes.Octopipespp.Server.{is_success, Report, report_of, process_once, process_all}

is_success-translate :
    (code : ServerError) → is_success (translate_octopipes_server_error code) ≡ is_success_code code
unfolding translate_octopipes_server_error
is_success-translate success = refl
is_success-translate bad_alloc = refl
is_success-translate uninitialized = refl
is_success-translate bad_packet = refl
is_success-translate bad_checksum = refl
is_success-translate unsupported_version = refl
is_success-translate open_failed = refl
is_success-translate write_failed = refl
is_success-translate read_failed = refl
is_success-translate cap_timeout = refl
is_success-translate thread_error = refl
is_success-translate thread_already_running = refl
is_success-translate worker_exists = refl
is_success-translate worker_not_found = refl
is_success-translate worker_already_running = refl
is_success-translate worker_not_running = refl
is_success-translate no_recipient = refl
is_success-translate bad_client_dir = refl
is_success-translate unknown = refl

-- A dispatch that succeeds names no worker, and neither does a session.
abbrev NamesNone : Dispatched → Type 0
NamesNone d = is_success_code d.code ≡ true → d.failed ≡ none

abbrev ClientNone : Processed → Type 0
ClientNone p = is_success_code p.code ≡ true → p.client ≡ none

dispatch_workers-NamesNone :
    (answers : ℕ → Sending) (i : ℕ) (workers : List Worker) (remote : Bytes) (m : Message)
    (written : List (Bytes × Bytes))
    → Always NamesNone (dispatch_workers answers i workers remote m written)
unfolding dispatch_workers
dispatch_workers-NamesNone answers i [] remote m written = λ h. refl
dispatch_workers-NamesNone answers i (w ∷ workers) remote m written =
    elim (Bool-cases (worker_match_subscription w remote)) [
      | inr other ↦
          rw (dispatch_workers, other)
            (dispatch_workers-NamesNone answers (suc i) workers remote m written)
      | inl listens ↦
          rw (dispatch_workers, listens)
            (Always->>= NamesNone (worker_send (answers i).heap (answers i).out m) _ λ sent.
              elim (Bool-cases (is_success_code sent.code)) [
                | inl fine ↦
                    rw fine
                      (dispatch_workers-NamesNone answers (suc i) workers remote sent.message _)
                | inr failed ↦ rw failed (λ h. absurd (true_not_false (sym h ∙ failed)))
              ])
    ]
  where
    true_not_false : true ≡ false → ⊥
    true_not_false h = cc

dispatch_message-NamesNone :
    (answers : ℕ → Sending) (workers : List Worker) (m : Message)
    → Always NamesNone (dispatch_message answers workers m)
unfolding dispatch_message
dispatch_message-NamesNone answers workers m = elim (Option-cases m.remote) [
  | inl e ↦ rw e (λ h. refl)
  | inr (remote, e) ↦ rw e (
      Always->>= NamesNone (scan_string remote) _ λ text.
        dispatch_workers-NamesNone answers 0 workers text (record m { remote = some remote }) [])
]

process_entry-ClientNone :
    (answers : ℕ → Sending) (workers : List Worker) (entry : Entry) (requests : ℕ)
    (written : List (Bytes × Bytes))
    → Always ClientNone (process_entry answers workers entry requests written)
unfolding process_entry
process_entry-ClientNone answers workers entry requests written = by_letter entry.message
  where
    by_letter :
        (m : Letter)
        → Always ClientNone
            (process_entry answers workers (record entry { message = m }) requests written)
    by_letter no_letter = λ h. refl
    by_letter dangling_letter = tt
    by_letter (letter m) =
        Always-bind NamesNone ClientNone (dispatch_message answers workers m) _
          (dispatch_message-NamesNone answers workers m) (λ sent h. h)

once_among-ClientNone :
    (answers : ℕ → ℕ → Sending) (i : ℕ) (passed workers : List Worker) (requests : ℕ)
    (written : List (Bytes × Bytes))
    → Always ClientNone (once_among answers i passed workers requests written)
unfolding once_among
once_among-ClientNone answers i passed [] requests written = λ h. refl
once_among-ClientNone answers i passed (w ∷ workers) requests written =
    Always->>= ClientNone (message_inbox_dequeue w.inbox) _ λ taken.
      let left : Worker = record w { inbox = taken.1 } in
      elim (Option-cases taken.0) [
        | inl empty ↦
            rw empty
              (once_among-ClientNone answers (suc i) (passed ++ left ∷ []) workers requests written)
        | inr (entry, e) ↦ rw e (
            Always-bind ClientNone ClientNone
              (process_entry (answers i) (passed ++ left ∷ workers) entry requests written) _
              (process_entry-ClientNone (answers i) (passed ++ left ∷ workers) entry requests
                written)
              λ done h. elim (Bool-cases (is_letter entry && is_success_code done.code)) [
                | inl more ↦ rw more (
                    once_among-ClientNone answers (suc i) (passed ++ left ∷ []) workers
                      done.requests done.written)
                | inr last ↦ rw last h
              ])
      ]

process_once-ClientNone :
    (answers : ℕ → ℕ → Sending) (workers : List Worker)
    → Always ClientNone (Dispatch.process_once answers workers)
unfolding Dispatch.process_once
process_once-ClientNone answers workers = once_among-ClientNone answers 0 [] workers 0 []

-- The report of Server::processAll for what the C library would return.
abbrev pub reported : Bytes → ℕ → Processed → Outcome Report
reported client requests done = ok (report_of done client (requests + done.requests) done.written)

process_all-from :
    (them : List Session) (workers : List Worker) (client : Bytes) (before requests : ℕ)
    (written : List (Bytes × Bytes))
    → process_all them workers client (before + requests) written
      ≡ (Dispatch.process_all them workers requests written >>= reported client before)
unfolding process_all process_once Dispatch.process_all
process_all-from [] workers client before requests written = refl
process_all-from (session ∷ them) workers client before requests written =
    let once = Dispatch.process_once session.answers (session.listen workers) in
    >>=-assoc once _ _
    ∙ >>=-congr ClientNone once _ _
        (process_once-ClientNone session.answers (session.listen workers))
        (λ done unnamed. elim (Bool-cases (is_success_code done.code)) [
          | inr failed ↦ rw (◌>>=◌, is_success-translate done.code, failed)
          | inl fine ↦ elim (ℕ-cases done.requests) [
            | inl last ↦ rw (◌>>=◌, is_success-translate done.code, fine, last)
            | inr (n, more) ↦
                rw
                  (
                    ◌>>=◌,
                    is_success-translate done.code,
                    fine,
                    more,
                    unnamed fine,
                    add_assoc before requests (suc n),
                  )
                  (process_all-from them done.workers client before (requests + suc n)
                    (written ++ done.written))
          ]
        ])
    ∙ sym (>>=-assoc once _ _)

-- Server::processAll, which has a loop of its own, returns what octopipes_server_process_all would, for
-- any workers, answers of the system and entries that come in meanwhile: the same code in its
-- translation, the same workers, the same frames in the same pipes, and the name of the client that
-- failed. If none failed the caller's string stays as it was. The number of requests is added to that
-- of the caller. The one call faults or does not return where the other does.
pub process_all-process_all :
    (them : List Session) (workers : List Worker) (client : Bytes) (requests : ℕ)
    → process_all them workers client requests []
      ≡ (Dispatch.process_all them workers 0 [] >>= reported client requests)
process_all-process_all them workers client requests =
    ap (λ r. process_all them workers client r []) (sym (add-zero requests))
    ∙ process_all-from them workers client requests 0 []
