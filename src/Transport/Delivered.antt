-- ===== src/Transport/Delivered.antt =====
-- The messages of a client reach a subscriber.
use liboctopipes.Prelude.{
  ◌+◌, ◌*◌, ◌≤◌, ◌≡◌, ◌≢◌, refl, true, ◌||◌, none, some, List, [], ◌∷◌, ◌++◌, map, All, length,
  bit_and,
}
use liboctopipes.Types.{
  ok, ◌>>=◌, Bytes, buffer, success, stopped, is_state, running, subscribed, require_ack,
}
use liboctopipes.Memory.Cursor.{read_pointer-some}
use liboctopipes.Serializer.Frame.{Packet, IsPacket, wire, packet_checksum}
use liboctopipes.Cap.Subscribe.{IsGroup}
use liboctopipes.Pipes.Delivery.{Carries, Delivers}
use liboctopipes.Client.{Client}
use liboctopipes.Client.Identity.{HasId}
use liboctopipes.Client.Send.Frames.{outgoing, send_ex-wire}
use liboctopipes.Client.Loop.{LoopRound, loop}
use liboctopipes.Client.Loop.Batches.{Listens, IsAlone, together, firsts_alone}
use liboctopipes.Client.Loop.Messages.{report, loop-reports}
use liboctopipes.Server.{Worker}
use liboctopipes.Server
use liboctopipes.Server.Workers.{worker_match_subscription}
use liboctopipes.Server.Dispatch.Recipients.{Forwards, forwards}
use liboctopipes.Server.Listen.Forward.{process_first-forwards}
use liboctopipes.Transport.Carried.{IsElsewhere, carried-forwards}
use liboctopipes.Transport.{Post, relay, publish}

abbrev pub packet_of : Bytes → Bytes → Post → Packet
packet_of id name post = outgoing id name post.payload post.ttl post.options

abbrev pub frame_of : Bytes → Bytes → Post → Bytes
frame_of id name post = wire (packet_of id name post) (packet_checksum (packet_of id name post))

-- A message that fits a frame, asks for no acknowledgement and is carried all the way: the FIFOs take
-- and deliver its frame in time, up to the one from which the receiving client reads.
pub record Travels (id name : Bytes) (post : Post) : Type 0 where
  pub packs : IsPacket (packet_of id name post)
  pub silent : bit_and post.options require_ack ≡ 0
  pub carries :
      Carries post.out.attempts post.out.events
        (post.ttl * 1000)
        (17 + length name + length id + length post.payload)
  pub comes : Delivers (post.reads (frame_of id name post)) 200 (frame_of id name post)
  pub takes : Forwards post.answers (packet_of id name post)

module _ (c : Client) (id name tx : Bytes) (has_id : HasId c id) (is_group : IsGroup name)
    (connected : is_state c.state running || is_state c.state subscribed ≡ true)
    (open_pipe : c.tx_pipe ≡ buffer tx) (some_name : name ≢ []) (short : length name ≤ length id)
    (mine theirs : Worker) (before behind : List Worker)
    (listens : worker_match_subscription theirs name ≡ true)
    (elsewhere : IsElsewhere theirs.pipe_write mine)
    (first : All (IsElsewhere theirs.pipe_write) before)
    (last : All (IsElsewhere theirs.pipe_write) behind) where
  abbrev everyone : List Worker
  everyone = record mine { inbox = some [] } ∷ (before ++ theirs ∷ behind)

  relay-frame_of :
      (post : Post)
      → Travels id name post
      → relay post (frame_of id name post) everyone
        ≡ ok (record {
          code = Server.success;
          client = none;
          requests = 1;
          workers = everyone;
          written = forwards (packet_of id name post) everyone;
        })
  relay-frame_of post t =
      process_first-forwards mine (before ++ theirs ∷ behind) post.answers (packet_of id name post)
        (post.reads (frame_of id name post)) t.packs t.takes some_name is_group.0 t.comes

  publish-frame_of :
      (posts : List Post)
      → All (Travels id name) posts
      → publish c name everyone theirs.pipe_write posts ≡ ok (map (frame_of id name) posts)
  publish-frame_of [] travel = refl
  publish-frame_of (post ∷ posts) travel = rw (
    send_ex-wire c id name has_id is_group (some post.payload) post.payload post.ttl post.options
        post.out tx (read_pointer-some post.payload) connected open_pipe short travel.0.packs
        travel.0.carries,
    relay-frame_of post travel.0,
    publish-frame_of posts travel.1,
    carried-forwards (packet_of id name post) (record mine { inbox = some [] } ∷ before) theirs
        behind listens (elsewhere, first) last,
  )

  -- A client sends messages to a remote, one by one; each is read by the thread of its worker and then
  -- processed by octopipes_server_process_first, and another client subscribes to the remote. What the
  -- server writes into the pipe of that client's worker is read by octopipes_loop of that client in
  -- the order in which it was written. In each of its rounds one frame alone comes, or nothing until
  -- the timeout; frames that lie joined in the pipe when it reads are not covered. It reports each
  -- message to its user, once and in the order in which they were sent, with the remote, the payload,
  -- the time to live and the options that were given, and with the sender's id, in which the byte at
  -- the index of the remote's length is 0. The sender's worker is the first one of the server and has
  -- an empty inbox. Other workers, who may subscribe too, write into other pipes. The messages fit a
  -- frame, ask for no acknowledgement, and are carried in time; no allocation fails. The sender speaks
  -- version 1 under an id of at most 255 bytes that is no shorter than the remote, which is a
  -- non-empty text of at most 255 bytes. The loop ends when another thread stops it in its last round.
  pub loop-publish :
      (d : Client) (rx : Bytes) (posts : List Post) (hears : List Bytes → List LoopRound)
      (batches : List (List Packet))
      → d.rx_pipe ≡ buffer rx
      → d.on_received ≡ true
      → All (Travels id name) posts
      → Listens (hears (map (frame_of id name) posts)) batches stopped
      → All IsAlone batches
      → together batches ≡ map (packet_of id name) posts
      → (publish c name everyone theirs.pipe_write posts >>= λ written. loop (hears written) d)
        ≡ ok (record {
          code = success;
          client = record d { state = stopped };
          calls = map report (map (packet_of id name) posts);
        })
  loop-publish d rx posts hears batches reads listening travel come alone whole = rw (
    publish-frame_of posts travel,
    loop-reports d rx (hears (map (frame_of id name) posts)) batches stopped reads listening come,
    firsts_alone batches alone,
    whole,
  )
