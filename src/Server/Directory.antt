-- ===== src/Server/Directory.antt =====
-- create_clients_dir, which octopipes_server_start_cap_listener calls.
use liboctopipes.Prelude.{Bool, true, false, Option, none, some, List, [], ◌∷◌, if◌then◌else◌}
use liboctopipes.Types.{Outcome, ok, fault, uninitialized_read, ◌>>=◌, Bytes}

-- An entry that `readdir` gives, and the answer of `lstat` to its name: whether a file of that name in the
-- working directory is a FIFO, or `none` where the call failed.
pub record DirEntry : Type 0 where
  pub d_name : Bytes
  pub is_fifo : Option Bool

-- The answers of the system: whether `stat` finds the directory, `mkdir` makes it and `opendir` opens it,
-- and its entries.
pub record DirectoryScript : Type 0 where
  pub found : Bool
  pub made : Bool
  pub opened : Bool
  pub entries : List DirEntry

-- What `statbuf` holds behind a call of `lstat`: a call that fails leaves it as it was.
abbrev stat_after : Option Bool → Option Bool → Option Bool
stat_after statbuf none = statbuf
stat_after statbuf (some is_fifo) = some is_fifo

-- The loop over the entries, with the names that are given to `unlink`. Neither call puts the directory
-- before the name.
unfoldable pub clean_entries : Option Bool → List DirEntry → Outcome (List Bytes)
clean_entries statbuf [] = ok []
clean_entries statbuf (entry ∷ entries) = elim (stat_after statbuf entry.is_fifo) [
  | none ↦ fault uninitialized_read
  | some is_fifo ↦ do
    rest ← clean_entries (some is_fifo) entries
    ok (if is_fifo then rest else entry.d_name ∷ rest)
]

-- create_clients_dir: whether it returns 0, and the names of the files that it removes.
unfoldable pub create_clients_dir : DirectoryScript → Outcome (Bool × List Bytes)
create_clients_dir script =
    if script.found
    then (if script.opened
        then (do removed ← clean_entries none script.entries; ok (true, removed))
        else ok (false, []))
    else ok (script.made, [])
