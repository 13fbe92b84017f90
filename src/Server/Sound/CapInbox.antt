-- ===== src/Server/Sound/CapInbox.antt =====
-- Processing the inbox of the Common Access Pipe leaves the workers sound.
use liboctopipes.Prelude.{
  ℕ, ◌+◌, true, ◌==◌, some, List, [], ◌∷◌, ◌++◌, Bool-cases, Option-cases, inl, inr,
}
use liboctopipes.Types.{Bytes}
use liboctopipes.Types.Always.{Always, Always->>=, Always-bind, Always-if}
use liboctopipes.Server.{Server, Letter, no_letter, dangling_letter, letter, is_success, is_running}
use liboctopipes.Server.Inbox.{message_inbox_dequeue}
use liboctopipes.Server.CommonPipe.{CapScript, handle_cap_message}
use liboctopipes.Server.CommonPipe.Process.{
  CapProcessed, process_cap_entry, process_cap_once, cap_sessions, process_cap_all,
}
use liboctopipes.Server.Sound.{SoundWorkers}
use liboctopipes.Server.Sound.CommonPipe.{ReplySound, handle_cap_message-ReplySound}

-- The same of what processing the CAP's inbox returns.
abbrev pub ProcessedSound : CapProcessed → Type 0
ProcessedSound done = ReplySound done.reply

process_cap_entry-ProcessedSound :
    (script : CapScript) (server : Server) (message : Letter)
    → SoundWorkers server.workers
    → Always ProcessedSound (process_cap_entry script server message)
unfolding process_cap_entry
process_cap_entry-ProcessedSound script server no_letter sound = tt
process_cap_entry-ProcessedSound script server dangling_letter sound = tt
process_cap_entry-ProcessedSound script server (letter m) sound =
    Always-bind ReplySound ProcessedSound (handle_cap_message script server m) _
      (handle_cap_message-ReplySound script server m sound)
      λ done s. Always-if ProcessedSound (is_success done.code) _ _ s s

pub process_cap_once-ProcessedSound :
    (script : CapScript) (server : Server)
    → SoundWorkers server.workers
    → Always ProcessedSound (process_cap_once script server)
unfolding process_cap_once
process_cap_once-ProcessedSound script server sound =
    Always-if ProcessedSound (is_running server.state) _ _
      (elim (Option-cases server.cap_inbox) [
        | inl e ↦ rw e sound
        | inr (inbox, e) ↦ rw e (
            Always-if ProcessedSound server.locked _ _ tt (
              Always->>= ProcessedSound (message_inbox_dequeue inbox) _ λ taken.
                elim (Option-cases taken.0) [
                  | inl empty ↦ rw empty sound
                  | inr (entry, there) ↦ rw there (
                      process_cap_entry-ProcessedSound script
                        (record server { locked = true; cap_inbox = some taken.1 }) entry.message
                        sound)
                ]))
      ])
      sound

cap_sessions-ProcessedSound :
    (scripts : List CapScript) (server : Server) (requests : ℕ) (written : Bytes)
    → SoundWorkers server.workers
    → Always ProcessedSound (cap_sessions scripts server requests written)
unfolding cap_sessions
cap_sessions-ProcessedSound [] server requests written sound = tt
cap_sessions-ProcessedSound (script ∷ scripts) server requests written sound =
    Always-bind ProcessedSound ProcessedSound (process_cap_once script server) _
      (process_cap_once-ProcessedSound script server sound)
      λ done s. elim (Bool-cases (is_success done.reply.code)) [
        | inr failed ↦ rw failed s
        | inl fine ↦ elim (Bool-cases (done.requests == 0)) [
          | inl last ↦ rw (fine, last) s
          | inr more ↦
              rw (fine, more)
                (cap_sessions-ProcessedSound scripts done.reply.server (requests + done.requests)
                  (written ++ done.reply.written) s)
        ]
      ]

pub process_cap_all-ProcessedSound :
    (scripts : List CapScript) (server : Server)
    → SoundWorkers server.workers
    → Always ProcessedSound (process_cap_all scripts server)
unfolding process_cap_all
process_cap_all-ProcessedSound scripts server sound =
    Always-if ProcessedSound (is_running server.state) _ _
      (elim (Option-cases server.cap_inbox) [
        | inl e ↦ rw e (cap_sessions-ProcessedSound scripts server 0 [] sound)
        | inr (inbox, e) ↦ rw e sound
      ])
      sound
