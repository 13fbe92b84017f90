-- ===== src/Server/Steps/Tests.antt =====
-- A server that is made, is started and gets a worker.
use liboctopipes.Prelude.{refl, true, false, some, [], ◌∷◌, arith}
use liboctopipes.Types.{ample}
use liboctopipes.Memory.{terminated}
use liboctopipes.Cap.Subscribe.{buffers}
use liboctopipes.Pipes
use liboctopipes.Server.{success, Server, ServerState}
use liboctopipes.Server.Workers.{worker_of}
use liboctopipes.Server.Workers.Registry.{all_made, start_worker-worker_of}
use liboctopipes.Server.Directory.{create_clients_dir}
use liboctopipes.Server.Lifecycle.{server_init, start_cap_listener, StartScript}
use liboctopipes.Server.Sound.{SoundWorkers}
use liboctopipes.Server.Steps.{at_once, after, starts_listener, starts_worker, Reaches-SoundWorkers}
use liboctopipes.Server.Tests.{me, group}

abbrev made : Server
made = record {
  version = 1;
  state = ServerState.init;
  cap_pipe = 99 ∷ [];
  client_folder = 100 ∷ [];
  locked = false;
  cap_inbox = some (some []);
  workers = some [];
}

abbrev starting : StartScript
starting = record {
  directory = record { found = false; made = true; opened = true; entries = [] };
  pipe = Pipes.done;
  mutex = true;
  thread = true;
}

abbrev started : Server
started = record made { state = ServerState.running }

abbrev serving : Server
serving = record started { workers = some (worker_of me (group ∷ []) (1 ∷ []) (2 ∷ []) ∷ []) }

Reaches-SoundWorkers_example : SoundWorkers serving.workers
unfolding Pipes.pipe_create
Reaches-SoundWorkers_example =
    Reaches-SoundWorkers ample (terminated (99 ∷ [])) (terminated (100 ∷ [])) 1 made serving
      (unfold server_init in refl)
      (after
        (after at_once (
          starts_listener starting (success, started)
            (unfold start_cap_listener create_clients_dir in refl)))
        (starts_worker ample true all_made me (buffers (group ∷ [])) 1 (1 ∷ []) (2 ∷ [])
          (success, serving)
          (start_worker-worker_of started [] me (group ∷ []) (1 ∷ []) (2 ∷ []) refl refl
            (omega arith))))
