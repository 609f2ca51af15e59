-- ===== src/Broker/Session/Exchange.antt =====
-- A request and its response, over two sessions and the bytes between them.
use tezsign.Prelude.{
  ℕ, ◌+◌, ◌-◌, ◌^◌, ◌≤◌, ◌<◌, ◌≡◌, refl, sym, ap, ◌∙◌, arith, Bool, false, List, [], ◌∷◌, ◌++◌,
  none, some, length, ==_refl, length-append, append_assoc, ◌==◌, if◌then◌else◌, ltb-false,
  append-nil,
}
use mathlib.Core.Path.{subst}
use tezsign.Prelude.Maps.{lookup, insert, delete, lookup-insert, lookup-delete}
use tezsign.Broker.Wire.{
  max_message_payload, payload_type_request, payload_type_response, payload_type_accept_request,
}
use tezsign.Broker.Wire.RoundTrip.{frame, new_message-frame}
use tezsign.Broker.Stash.{Message, process_stash}
use tezsign.Broker.Stash.Frames.{IsSendable, message_frame}
use tezsign.Broker.Stash.Process.{process_stash-whole}
use tezsign.Broker.Session.{
  Session, write_chan_size, queued, write_frame, new_waiter, waiting, after_write, begin_request,
  send, Next, done, call_handler, receive_response, receive_request, dispatch, finish_request,
  after_any, after_response,
}

-- A session that can take one more frame.
pub record IsReady (s : Session) : Type 0 where
  pub running : s.is_cancelled ≡ false
  pub has_room : length s.write_chan < write_chan_size

abbrev pub queue : Session → List ℕ → Session
queue s f = record s { write_chan = s.write_chan ++ (f ∷ []) }

pub write_frame_queues :
    (context_is_done : Bool) (t : ℕ) (id payload : List ℕ) (s : Session)
    → context_is_done ≡ false
    → IsReady s
    → length payload < 2 ^ 32
    → write_frame context_is_done t id payload s ≡ (queue s (frame t id payload), queued)
unfolding write_frame
write_frame_queues b t id payload s live r fits =
    rw (new_message-frame t id payload fits, write_frame) (ground (arith, r, live))

-- The session of a caller that waits for the response to its request.
abbrev asked : List ℕ → List ℕ → Session → Session
asked id payload s = record s {
  waiters = insert id s.next_channel s.waiters;
  next_channel = s.next_channel + 1;
  unconfirmed_requests = insert id payload s.unconfirmed_requests;
  write_chan = s.write_chan ++ (frame payload_type_request id payload ∷ []);
}

begin_request_asks :
    (id payload : List ℕ) (s : Session)
    → IsReady s
    → length payload ≤ max_message_payload
    → begin_request false id payload s ≡ (asked id payload s, waiting s.next_channel)
unfolding begin_request new_waiter after_write
begin_request_asks id payload s r fits =
    rw
      (
        ltb-false (2 ^ 32 - 1) (length payload) (omega arith),
        ltb-false max_message_payload (length payload) fits,
      )
      (ap (after_write id s.next_channel) (
        write_frame_queues false payload_type_request id payload _ refl
          (record { running = r.running; has_room = r.has_room }) (omega arith)))

-- What the other side sends, or the receiver makes of it, when it is the first message with this id.
abbrev handling : List ℕ → Session → Session
handling id s = record s { processing_requests = insert id tt s.processing_requests }

dispatch_new_request :
    (id payload : List ℕ) (s : Session)
    → IsReady s
    → lookup id s.processing_requests ≡ none
    → dispatch (record { id = id; type = payload_type_request; payload = payload }) s
      ≡ (queue (handling id s) (frame payload_type_accept_request id []), call_handler id payload)
unfolding dispatch receive_request after_any
dispatch_new_request id payload s r new =
    rw (new, receive_request)
      ((ap (after_any (call_handler id payload)) (
        write_frame_queues s.is_cancelled payload_type_accept_request id [] (handling id s)
          r.running (record { running = r.running; has_room = r.has_room }) (omega arith))))

-- A request that comes again while it is being handled changes nothing, and is not handled again.
dispatch_again :
    (id payload : List ℕ) (s : Session)
    → lookup id s.processing_requests ≡ some tt
    → dispatch (record { id = id; type = payload_type_request; payload = payload }) s ≡ (s, done)
unfolding dispatch receive_request
dispatch_again id payload s e = rw (e, receive_request) refl

abbrev answered : List ℕ → List ℕ → Session → Session
answered id response s = record s {
  write_chan = s.write_chan ++ (frame payload_type_response id response ∷ []);
  processing_requests = delete id s.processing_requests;
}

finish_request_answers :
    (id response : List ℕ) (s : Session)
    → IsReady s
    → length response < 2 ^ 32
    → finish_request id response s ≡ (answered id response s, done)
unfolding finish_request after_response
finish_request_answers id response s r fits =
    ap (after_response id)
      (write_frame_queues s.is_cancelled payload_type_response id response s r.running r fits)

-- The caller's session once the response is in its channel.
abbrev received : List ℕ → List ℕ → ℕ → Session → Session
received id response channel s = record s {
  waiters = delete id s.waiters;
  channels = λ c. if c == channel then some response else s.channels c;
}

dispatch_response :
    (id response : List ℕ) (channel : ℕ) (s : Session)
    → lookup id s.waiters ≡ some channel
    → s.channels channel ≡ none
    → dispatch (record { id = id; type = payload_type_response; payload = response }) s
      ≡ (received id response channel s, done)
unfolding dispatch receive_response send
dispatch_response id response channel s waits empty = rw (waits, receive_response) (rw (empty) refl)

abbrev pub request_of : List ℕ → List ℕ → Message
request_of id payload = record { id = id; type = payload_type_request; payload = payload }

abbrev pub response_of : List ℕ → List ℕ → Message
response_of id payload = record { id = id; type = payload_type_response; payload = payload }

whole_frame :
    (m : Message) (size : ℕ)
    → IsSendable m
    → process_stash 2 (record { buf = message_frame m; capacity = size })
      ≡ some (record { buf = []; capacity = size }, m ∷ [])
whole_frame m size h = rw append-nil at (process_stash-whole (m ∷ []) 0 size (h, tt))

-- The four steps of an exchange, for the caller's session `c` and the handler's session `s`: the
-- caller begins, the request is dispatched, the handler returns, and the response is dispatched.
module _ (id payload response : List ℕ) (c s : Session) where
  abbrev pub sent : Session
  sent = (begin_request false id payload c).0

  abbrev pub heard : Session × Next
  heard = dispatch (request_of id payload) s

  abbrev pub replied : Session
  replied = (finish_request id response heard.0).0

  abbrev pub got : Session × Next
  got = dispatch (response_of id response) sent

  -- The frames that travel, what the other side makes of them, and what the caller gets.
  pub record Exchanged (size : ℕ) : Type 0 where
    pub request_frame : List ℕ
    pub accept_frame : List ℕ
    pub response_frame : List ℕ
    pub asks : sent.write_chan ≡ c.write_chan ++ (request_frame ∷ [])
    pub arrives :
        process_stash 2 (record { buf = request_frame; capacity = size })
        ≡ some (record { buf = []; capacity = size }, request_of id payload ∷ [])
    pub is_handled : heard.1 ≡ call_handler id payload
    pub is_handled_once : dispatch (request_of id payload) heard.0 ≡ (heard.0, done)
    pub is_forgotten : lookup id replied.processing_requests ≡ none
    pub replies : replied.write_chan ≡ s.write_chan ++ (accept_frame ∷ response_frame ∷ [])
    pub returns :
        process_stash 2 (record { buf = response_frame; capacity = size })
        ≡ some (record { buf = []; capacity = size }, response_of id response ∷ [])
    pub is_received : (got.1 ≡ done) × (got.0.channels c.next_channel ≡ some response)
    pub is_received_once : dispatch (response_of id response) got.0 ≡ (got.0, done)

  dispatch_unknown :
      (t : Session) → lookup id t.waiters ≡ none → dispatch (response_of id response) t ≡ (t, done)
  unfolding dispatch receive_response
  dispatch_unknown t e = rw (e, receive_response) refl

  -- When both brokers run and have room in their queues, for one frame and for two, the id has 16
  -- bytes and is not being handled, the caller's next channel is empty, and neither the payload nor
  -- the response is larger than MAX_MESSAGE_PAYLOAD: the request's frame is read as the request,
  -- which is given to the handler, once; the response's frame is read as the response, which is put
  -- in the caller's channel; and a copy of the request that comes before the handler has returned, or
  -- any later copy of the response, changes nothing. Once the handler has returned, the id of the
  -- request is no longer kept.
  pub request-Exchanged :
      (size : ℕ)
      → length id ≡ 16
      → length payload ≤ max_message_payload
      → length response ≤ max_message_payload
      → IsReady c
      → s.is_cancelled ≡ false
      → length s.write_chan + 1 < write_chan_size
      → lookup id s.processing_requests ≡ none
      → c.channels c.next_channel ≡ none
      → Exchanged size
  request-Exchanged size hid hp hr rc live room new empty = record {
    request_frame = frame payload_type_request id payload;
    accept_frame = frame payload_type_accept_request id [];
    response_frame = frame payload_type_response id response;
    asks = ap (λ t. t.write_chan) is_sent;
    arrives =
        whole_frame (request_of id payload) size (record { id_length = hid; payload_fits = hp });
    is_handled = ap (λ r. r.1) is_heard;
    is_handled_once =
        subst (λ t. dispatch (request_of id payload) t ≡ (t, done)) (sym (ap (λ r. r.0) is_heard))
          (dispatch_again id payload open_handler (lookup-insert id tt s.processing_requests));
    is_forgotten =
        ap (λ t. lookup id t.processing_requests) is_replied
        ∙ lookup-delete id (insert id tt s.processing_requests);
    replies =
        ap (λ t. t.write_chan) is_replied
        ∙ append_assoc s.write_chan (frame payload_type_accept_request id [] ∷ []) _;
    returns =
        whole_frame (response_of id response) size (record { id_length = hid; payload_fits = hr });
    is_received = (
      ap (λ r. r.1) is_got,
      ap (λ r. r.0.channels c.next_channel) is_got
          ∙ ap (λ b. if b then some response else c.channels c.next_channel)
              (==_refl c.next_channel),
    );
    is_received_once = dispatch_unknown got.0 (
        ap (λ r. lookup id r.0.waiters) is_got
        ∙ lookup-delete id (insert id c.next_channel c.waiters));
  }
    where
      ready : IsReady s
      ready = record { running = live; has_room = omega arith }

      open_handler : Session
      open_handler = queue (handling id s) (frame payload_type_accept_request id [])

      is_sent : sent ≡ asked id payload c
      is_sent = ap (λ r. r.0) (begin_request_asks id payload c rc hp)

      is_heard : heard ≡ (open_handler, call_handler id payload)
      is_heard = dispatch_new_request id payload s ready new

      still_ready : IsReady open_handler
      still_ready = record {
        running = live;
        has_room =
            omega
              (arith, length-append s.write_chan (frame payload_type_accept_request id [] ∷ []));
      }

      is_replied : replied ≡ answered id response open_handler
      is_replied =
          ap (λ r. (finish_request id response r.0).0) is_heard
          ∙ ap (λ r. r.0)
              (finish_request_answers id response open_handler still_ready (omega arith))

      is_got : got ≡ (received id response c.next_channel (asked id payload c), done)
      is_got =
          ap (dispatch (response_of id response)) is_sent
          ∙ dispatch_response id response c.next_channel (asked id payload c)
              (lookup-insert id c.next_channel c.waiters) empty
