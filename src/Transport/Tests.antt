-- ===== src/Transport/Tests.antt =====
-- Two messages from `you` to a group to which `he` listens.
use liboctopipes.Prelude.{ℕ, ◌≡◌, refl, true, false, Option, none, some, List, [], ◌∷◌, arith}
use liboctopipes.Types.{ok, ◌>>=◌, Bytes, ample, buffer, success, State, stopped}
use liboctopipes.Pipes.{ReadEvent, wrote, received, hang_up}
use liboctopipes.Pipes.Delivery.{takes-Carries, comes-Delivers}
use liboctopipes.Client.{Client, SendScript}
use liboctopipes.Client.Identity.{fresh, HasId}
use liboctopipes.Client.Loop.{LoopRound, loop}
use liboctopipes.Client.Loop.Batches.{Gathers, Listens}
use liboctopipes.Client.Loop.Messages.{report}
use liboctopipes.Server.{Worker}
use liboctopipes.Server.Workers.{worker_of, worker_match_subscription}
use liboctopipes.Transport.{Post, publish}
use liboctopipes.Transport.Delivered.{packet_of, frame_of, Travels, loop-publish}

abbrev you : Bytes
you = 121 ∷ []

abbrev he : Bytes
he = 104 ∷ []

abbrev group : Bytes
group = 7 ∷ []

abbrev member : Bytes → Client
member id = record (fresh id (99 ∷ [])) {
  state = State.subscribed;
  tx_pipe = buffer (116 ∷ 0 ∷ []);
  rx_pipe = buffer (114 ∷ 0 ∷ []);
  on_received = true;
}

member-HasId : HasId (member you) you
member-HasId = record {
  speaks = refl;
  named = refl;
  sized = refl;
  is_text = omega arith;
  is_short = omega arith;
}

abbrev mine : Worker
mine = worker_of you [] (1 ∷ []) (2 ∷ [])

abbrev theirs : Worker
theirs = worker_of he (group ∷ []) (3 ∷ []) (4 ∷ [])

abbrev takes : ℕ → SendScript
takes size = record { attempts = false ∷ true ∷ []; events = wrote size ∷ [] }

abbrev comes : Bytes → List ReadEvent
comes frame = received frame true ∷ hang_up ∷ []

-- A payload of two bytes.
abbrev post : ℕ → Post
post b = record {
  payload = 104 ∷ b ∷ [];
  ttl = 60;
  options = 0;
  out = takes 21;
  reads = comes;
  answers = λ i. record { heap = ample; out = takes 21 };
}

post-Travels : (b : ℕ) → Travels you group (post b)
post-Travels b = record {
  packs = record {
    origin_fits = omega arith;
    remote_fits = omega arith;
    options_fits = omega arith;
    frame_fits = omega arith;
  };
  silent = refl;
  carries = takes-Carries 60000 21 (omega arith);
  comes = comes-Delivers 200 _ _ (omega arith);
  takes = λ i. (refl, takes-Carries 60000 21 (omega arith));
}

-- A round that reads one frame alone, and the rounds of a loop that reads the frames so and is stopped
-- during the last one.
abbrev hearing : Option State → Bytes → LoopRound
hearing change frame = record {
  heap = ample;
  incoming = record { opened = true; events = comes frame };
  outgoing = record { attempts = []; events = [] };
  state_change = change;
}

abbrev schedule : List Bytes → List LoopRound
schedule [] = []
schedule (frame ∷ []) = hearing (some stopped) frame ∷ []
schedule (frame ∷ next ∷ frames) = hearing none frame ∷ schedule (next ∷ frames)

hearing-Gathers :
    (change : Option State) (b : ℕ)
    → Gathers (hearing change (frame_of you group (post b))) (packet_of you group (post b)) []
hearing-Gathers change b = record {
  roomy = refl;
  opened = refl;
  comes = comes-Delivers 500 _ _ (omega arith);
  packs = (post-Travels b).packs;
  silent = refl;
}

schedule-Listens :
    Listens
      (schedule (frame_of you group (post 105) ∷ frame_of you group (post 111) ∷ []))
      ((packet_of you group (post 105) ∷ []) ∷ (packet_of you group (post 111) ∷ []) ∷ [])
      stopped
schedule-Listens = record {
  before = hearing none (frame_of you group (post 105)) ∷ [];
  final = hearing (some stopped) (frame_of you group (post 111));
  earlier = (packet_of you group (post 105) ∷ []) ∷ [];
  batch = packet_of you group (post 111) ∷ [];
  all_rounds = refl;
  all_batches = refl;
  arrive = (hearing-Gathers none 105, refl, tt);
  hears = hearing-Gathers (some stopped) 111;
  sets = refl;
  other = refl;
}

loop-publish_example :
    (publish (member you) group (mine ∷ theirs ∷ []) (4 ∷ []) (post 105 ∷ post 111 ∷ [])
      >>= λ frames. loop (schedule frames) (member he))
    ≡ ok (record {
      code = success;
      client = record (member he) { state = stopped };
      calls =
          report (packet_of you group (post 105)) ∷ report (packet_of you group (post 111)) ∷ [];
    })
unfolding worker_match_subscription
loop-publish_example =
    loop-publish (member you) you group (116 ∷ 0 ∷ []) member-HasId (omega arith) refl refl
      (λ e. cc) (omega arith) mine theirs [] [] refl refl tt tt (member he) (114 ∷ 0 ∷ [])
      (post 105 ∷ post 111 ∷ []) schedule
      ((packet_of you group (post 105) ∷ []) ∷ (packet_of you group (post 111) ∷ []) ∷ []) refl refl
      (post-Travels 105, (post-Travels 111, tt)) schedule-Listens (tt, (tt, tt)) refl
