-- ===== src/Client/Unsubscribe/Leaving.antt =====
-- How a client leaves: the request of octopipes_unsubscribe, and the end of its loop.
use liboctopipes.Prelude.{
  ◌+◌, ◌≡◌, refl, ◌∙◌, true, false, ◌||◌, some, [], ◌∷◌, arith, length, if◌then◌else◌,
}
use liboctopipes.Types.{
  ok, fault, uninitialized_read, ◌>>=◌, Bytes, ample, success, State, init, subscribed, running,
  unsubscribed, stopped, is_state,
}
use liboctopipes.Cap.{prepare_unsubscription, cap_unsubscription}
use liboctopipes.Pipes.Delivery.{Carries, pipe_send-Carries}
use liboctopipes.Client.{Client, was_unsubscribed, when, SendScript, stop_client, loop_stop}
use liboctopipes.Client.Identity.{HasId}
use liboctopipes.Client.Requests.Wire.{
  request_frame, request-request_message_byte, encode-request_message, length-request_frame,
}
use liboctopipes.Client.Unsubscribe.{unsubscribe, unsubscribe_client, unsubscribe_prepared, leave}

connected-unsubscribed :
    (s : State)
    → is_state s subscribed || is_state s running ≡ true
    → is_state s unsubscribed ≡ false
connected-unsubscribed init h = refl
connected-unsubscribed subscribed h = refl
connected-unsubscribed running h = refl
connected-unsubscribed unsubscribed h = cc
connected-unsubscribed stopped h = refl

module _ (c : Client) (id : Bytes) (out : SendScript) (has_id : HasId c id)
    (connected : is_state c.state subscribed || is_state c.state running ≡ true)
    (carries : Carries out.attempts out.events 5000 (18 + length id)) where
  -- octopipes_unsubscribe of a subscribed client whose request goes out reports SUCCESS, calls the
  -- callback and enters UNSUBSCRIBED. It has written one frame into the Common Access Pipe, that of
  -- an unsubscription. The thread of a client that is running is not joined. The
  -- client speaks version 1 under an id of at most 255 bytes. No allocation fails.
  pub unsubscribe-leaves :
      unsubscribe ample out (some c)
      ≡ ok (record {
        reply = record {
          code = success;
          client = record c { state = unsubscribed };
          calls = when c.on_unsubscribed was_unsubscribed;
        };
        written = request_frame id (cap_unsubscription ∷ []);
      })
  unfolding unsubscribe unsubscribe_client unsubscribe_prepared leave stop_client
      prepare_unsubscription
  unsubscribe-leaves =
      let payload : Bytes = cap_unsubscription ∷ [] in
      let size : length (request_frame id payload) ≡ 18 + length id =
        length-request_frame id payload ∙ omega arith in
      rw (
        connected,
        request-request_message_byte payload has_id,
        encode-request_message ample id payload refl has_id.is_short
            (omega (arith, has_id.is_short)),
        pipe_send-Carries (request_frame id payload) carries size
            (omega (arith, size, has_id.is_short)),
        connected-unsubscribed c.state connected,
      )

  -- After octopipes_unsubscribe of a subscribed client whose request goes out, octopipes_loop_stop
  -- joins the thread and enters STOPPED, if the join succeeds. For a client whose loop was never
  -- started it joins a thread that does not exist. The client speaks version 1 under an id of at
  -- most 255 bytes. No allocation fails.
  pub unsubscribe-loop_stop :
      (unsubscribe ample out (some c) >>= λ left. loop_stop true (some left.reply.client)) ≡ (
        if c.thread_alive
        then ok (record {
          code = success;
          client = record c { state = stopped; thread_alive = false };
          calls = [];
        })
        else fault uninitialized_read)
  unfolding loop_stop stop_client
  unsubscribe-loop_stop = rw unsubscribe-leaves refl
