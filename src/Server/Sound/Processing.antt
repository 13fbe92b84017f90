-- ===== src/Server/Sound/Processing.antt =====
-- The processing of inboxes leaves the workers with their names and subscriptions.
use liboctopipes.Prelude.{
  ℕ, suc, ◌+◌, ◌≡◌, refl, sym, ap, subst, ◌∙◌, Bool, true, false, ◌&&◌, List, [], ◌∷◌, ◌++◌, map,
  append_assoc, append-nil, All, Bool-cases, Option-cases, ℕ-cases, inl, inr, if◌then◌else◌,
}
use liboctopipes.Types.{Outcome, Bytes}
use liboctopipes.Types.Always.{Always, Always->>=, Always-bind, Always-map}
use liboctopipes.Memory.{same_bytes}
use liboctopipes.Server.{
  Inbox, Worker, Entry, Letter, no_letter, dangling_letter, letter, is_success,
}
use liboctopipes.Server.Inbox.{message_inbox_dequeue}
use liboctopipes.Server.Workers.{is_worker, listed}
use liboctopipes.Server.Sound.{IsSound}
use liboctopipes.Server.Dispatch.{
  Sending, Processed, process_entry, dispatch_message, first_among, process_first, once_among,
  process_once, Session, process_all, is_letter,
}

-- The names of the workers, each with its subscriptions.
abbrev pub roster : List Worker → List (Bytes × List Bytes)
roster = map (λ w. (w.client_id, w.subscriptions_list))

abbrev pub named_in : Bytes → List (Bytes × List Bytes) → Bool
named_in name [] = false
named_in name (entry ∷ rest) = if same_bytes entry.0 name then true else named_in name rest

abbrev pub SoundRoster : List (Bytes × List Bytes) → Type 0
SoundRoster [] = Unit
SoundRoster (entry ∷ rest) =
    (named_in entry.0 rest ≡ false) × (listed entry.0 entry.1 ≡ true) × SoundRoster rest

is_worker-roster :
    (name : Bytes) (workers : List Worker) → is_worker name workers ≡ named_in name (roster workers)
is_worker-roster name [] = refl
is_worker-roster name (w ∷ workers) =
    ap (λ t. if same_bytes w.client_id name then true else t) (is_worker-roster name workers)

SoundRoster-roster : (workers : List Worker) → IsSound workers → SoundRoster (roster workers)
SoundRoster-roster [] sound = tt
SoundRoster-roster (w ∷ workers) sound = (
  sym (is_worker-roster w.client_id workers) ∙ sound.0.0,
  sound.1.0,
  SoundRoster-roster workers (sound.0.1, sound.1.1),
)

roster-IsSound : (workers : List Worker) → SoundRoster (roster workers) → IsSound workers
roster-IsSound [] sound = (tt, tt)
roster-IsSound (w ∷ workers) sound =
    let rest = roster-IsSound workers sound.2 in
    ((is_worker-roster w.client_id workers ∙ sound.0, rest.0), (sound.1, rest.1))

-- Workers with the same names and subscriptions are sound together.
pub same_roster-IsSound :
    (workers left : List Worker) → roster left ≡ roster workers → IsSound workers → IsSound left
same_roster-IsSound workers left same sound =
    roster-IsSound left (subst SoundRoster (sym same) (SoundRoster-roster workers sound))

-- What processing leaves.
abbrev pub SameRoster : List Worker → Processed → Type 0
SameRoster workers done = roster done.workers ≡ roster workers

process_entry-SameRoster :
    (answers : ℕ → Sending) (workers : List Worker) (entry : Entry) (requests : ℕ)
    (written : List (Bytes × Bytes))
    → Always (SameRoster workers) (process_entry answers workers entry requests written)
unfolding process_entry
process_entry-SameRoster answers workers entry requests written = by_letter entry.message
  where
    by_letter :
        (m : Letter)
        → Always
            (SameRoster workers)
            (process_entry answers workers (record entry { message = m }) requests written)
    by_letter no_letter = refl
    by_letter dangling_letter = tt
    by_letter (letter m) = Always->>= _ (dispatch_message answers workers m) _ (λ sent. refl)

-- Workers whose names and subscriptions are those of others.
rename :
    (xs ys : List Worker) (m : Outcome Processed)
    → roster xs ≡ roster ys
    → Always (SameRoster xs) m
    → Always (SameRoster ys) m
rename xs ys m same = Always-map (SameRoster xs) (SameRoster ys) m (λ done e. e ∙ same)

-- The inbox of a worker is no part of its entry.
pub roster-inbox :
    (passed : List Worker) (w : Worker) (inbox : Inbox) (workers : List Worker)
    → roster (passed ++ record w { inbox = inbox } ∷ workers) ≡ roster (passed ++ w ∷ workers)
roster-inbox [] w inbox workers = refl
roster-inbox (p ∷ passed) w inbox workers =
    ap (λ r. (p.client_id, p.subscriptions_list) ∷ r) (roster-inbox passed w inbox workers)

roster-passed :
    (passed : List Worker) (w : Worker) (inbox : Inbox) (workers : List Worker)
    → roster ((passed ++ record w { inbox = inbox } ∷ []) ++ workers)
      ≡ roster (passed ++ w ∷ workers)
roster-passed passed w inbox workers =
    ap roster (append_assoc passed (record w { inbox = inbox } ∷ []) workers)
    ∙ roster-inbox passed w inbox workers

first_among-SameRoster :
    (answers : ℕ → Sending) (passed workers : List Worker)
    → Always (SameRoster (passed ++ workers)) (first_among answers passed workers)
unfolding first_among
first_among-SameRoster answers passed [] = ap roster (sym (append-nil passed))
first_among-SameRoster answers passed (w ∷ workers) =
    Always->>= _ (message_inbox_dequeue w.inbox) _ λ taken.
      let left : Worker = record w { inbox = taken.1 } in
      elim (Option-cases taken.0) [
        | inl empty ↦ rw empty (
            rename _ _ _ (roster-passed passed w taken.1 workers)
              (first_among-SameRoster answers (passed ++ left ∷ []) workers))
        | inr (entry, e) ↦ rw e (
            rename _ _ _ (roster-inbox passed w taken.1 workers)
              (process_entry-SameRoster answers (passed ++ left ∷ workers) entry 0 []))
      ]

pub process_first-SameRoster :
    (answers : ℕ → Sending) (workers : List Worker)
    → Always (SameRoster workers) (process_first answers workers)
unfolding process_first
process_first-SameRoster answers workers = first_among-SameRoster answers [] workers

once_among-SameRoster :
    (answers : ℕ → ℕ → Sending) (i : ℕ) (passed workers : List Worker) (requests : ℕ)
    (written : List (Bytes × Bytes))
    → Always (SameRoster (passed ++ workers)) (once_among answers i passed workers requests written)
unfolding once_among
once_among-SameRoster answers i passed [] requests written = ap roster (sym (append-nil passed))
once_among-SameRoster answers i passed (w ∷ workers) requests written =
    Always->>= _ (message_inbox_dequeue w.inbox) _ λ taken.
      let left : Worker = record w { inbox = taken.1 } in
      elim (Option-cases taken.0) [
        | inl empty ↦ rw empty (
            rename _ _ _ (roster-passed passed w taken.1 workers) (
              once_among-SameRoster answers (suc i) (passed ++ left ∷ []) workers requests written))
        | inr (entry, e) ↦ rw e (
            Always-bind (SameRoster (passed ++ left ∷ workers)) _ _ _
              (process_entry-SameRoster (answers i) (passed ++ left ∷ workers) entry requests
                written)
              λ done same. elim (Bool-cases (is_letter entry && is_success done.code)) [
                | inl more ↦ rw more (
                    rename _ _ _ (roster-passed passed w taken.1 workers) (
                      once_among-SameRoster answers (suc i) (passed ++ left ∷ []) workers
                        done.requests done.written))
                | inr last ↦ rw last (same ∙ roster-inbox passed w taken.1 workers)
              ])
      ]

pub process_once-SameRoster :
    (answers : ℕ → ℕ → Sending) (workers : List Worker)
    → Always (SameRoster workers) (process_once answers workers)
unfolding process_once
process_once-SameRoster answers workers = once_among-SameRoster answers 0 [] workers 0 []

-- The listening threads change inboxes only.
abbrev pub ListensOnly : Session → Type 0
ListensOnly session = (workers : List Worker) → roster (session.listen workers) ≡ roster workers

pub process_all-SameRoster :
    (sessions : List Session) (workers : List Worker) (requests : ℕ)
    (written : List (Bytes × Bytes))
    → All ListensOnly sessions
    → Always (SameRoster workers) (process_all sessions workers requests written)
unfolding process_all
process_all-SameRoster [] workers requests written only = tt
process_all-SameRoster (session ∷ sessions) workers requests written only =
    rename _ _ _ (only.0 workers) (
      Always-bind (SameRoster (session.listen workers)) _ _ _
        (process_once-SameRoster session.answers (session.listen workers))
        λ done same. elim (Bool-cases (is_success done.code)) [
          | inr failed ↦ rw failed same
          | inl fine ↦ elim (ℕ-cases done.requests) [
            | inl none_left ↦ rw (fine, none_left) same
            | inr (n, more) ↦
                rw (fine, more)
                  (rename _ _ _ same (
                    process_all-SameRoster sessions done.workers (requests + suc n)
                      (written ++ done.written) only.1))
          ]
        ])
