-- ===== src/Broker/Session.antt =====
-- broker/broker.go and broker/waiters.go: the requests that wait for a response, the requests that
-- are being handled, and the queue of frames to be written. A select that another part of the
-- program decides is an argument. Log calls and the keep-alive timer have no effect on this state.
pub mod Exchange
pub mod Retry
pub mod Loops
use tezsign.Prelude.{
  ℕ, zero, suc, ◌+◌, ◌-◌, ◌^◌, Bool, true, false, not, List, [], ◌∷◌, ◌++◌, Option, none, some,
  length, ltb, ◌==◌, if◌then◌else◌,
}
use tezsign.Prelude.Maps.{Map, lookup, insert, delete}
use tezsign.Broker.Wire
use tezsign.Broker.Wire.{
  new_message, max_message_payload, payload_type_request, payload_type_response,
  payload_type_accept_request, payload_type_retry, payload_type_keep_alive,
}
use tezsign.Broker.Stash.{Message}

-- A waiter is a channel that holds one response.
pub record Session : Type 0 where
  pub waiters : Map ℕ
  pub channels : ℕ → Option (List ℕ)
  pub next_channel : ℕ
  pub write_chan : List (List ℕ)
  pub processing_requests : Map (Unit {0})
  pub unconfirmed_requests : Map (List ℕ)
  pub is_cancelled : Bool

-- `make(chan []byte, 32)`
abbrev pub write_chan_size : ℕ
write_chan_size = 32

unfoldable pub new_session : Session
new_session = record {
  waiters = [];
  channels = λ c. none;
  next_channel = 0;
  write_chan = [];
  processing_requests = [];
  unconfirmed_requests = [];
  is_cancelled = false;
}

-- `blocks`: the call waits for room in the queue, for its context or for the broker's end.
pub data WriteResult : Type 0 where
  queued context_done eof frame_error blocks : WriteResult

-- `context_is_done` is `ctx.Err() != nil` when the call begins.
unfoldable pub write_frame : Bool → ℕ → List ℕ → List ℕ → Session → Session × WriteResult
write_frame context_is_done msg_type id payload s = elim (new_message msg_type id payload) [
  | Wire.err e ↦ (s, frame_error)
  | Wire.ok frame ↦
      if context_is_done
      then (s, context_done)
      else if s.is_cancelled
      then (s, eof)
      else if ltb (length s.write_chan) write_chan_size
      then (record s { write_chan = s.write_chan ++ (frame ∷ []) }, queued)
      else (s, blocks)
]

unfoldable pub new_waiter : List ℕ → Session → Session
new_waiter id s = record s {
  waiters = insert id s.next_channel s.waiters;
  next_channel = s.next_channel + 1;
}

pub data Begun : Type 0 where
  too_large exceeds_maximum : Begun
  write_failed : WriteResult → Begun
  waiting : ℕ → Begun

-- `Request` up to its select, with the id that NewMessageID gives; `waiting c` waits on channel `c`.
-- A write that blocks leaves the waiter and the request in place while it does.
unfoldable pub after_write : List ℕ → ℕ → Session × WriteResult → Session × Begun
after_write id channel (s, queued) = (s, waiting channel)
after_write id channel (s, blocks) = (s, write_failed blocks)
after_write id channel (s, r) = (record s { waiters = delete id s.waiters }, write_failed r)

unfoldable pub begin_request : Bool → List ℕ → List ℕ → Session → Session × Begun
unfolding new_waiter after_write write_frame
begin_request context_is_done id payload s =
    let s' = new_waiter id s in
    let s'' = record s' { unconfirmed_requests = insert id payload s'.unconfirmed_requests } in
    if ltb (2 ^ 32 - 1) (length payload)
    then (s, too_large)
    else if ltb max_message_payload (length payload)
    then (s, exceeds_maximum)
    else after_write id s.next_channel
        (write_frame context_is_done payload_type_request id payload s'')

-- The other two branches of the select of `Request`: its context, or the broker, is done.
unfoldable pub abandon_request : List ℕ → Session → Session
abandon_request id s = record s {
  unconfirmed_requests = delete id s.unconfirmed_requests;
  waiters = delete id s.waiters;
}

-- `ch <- payload` on a channel for one response: `none` blocks.
unfoldable pub send : ℕ → List ℕ → Session → Option Session
send channel payload s = elim (s.channels channel) [
  | some full ↦ none
  | none ↦ some (record s { channels = λ c. if c == channel then some payload else s.channels c })
]

-- What is left to do for a message once the session has been changed. `blocked`: the goroutine waits
-- for room in a channel, and goes no further than that.
pub data Next : Type 0 where
  done blocked : Next
  call_handler : List ℕ → List ℕ → Next

-- What follows a write whose error is not looked at.
unfoldable pub after_any : Next → Session × WriteResult → Session × Next
after_any next (s, blocks) = (s, blocked)
after_any next (s, r) = (s, next)

-- One write after another, for each request that is not confirmed, in the order of the list: that of
-- Go's map is not fixed.
unfoldable pub resend_after : (Session → Session × Next) → Session × WriteResult → Session × Next
resend_after rest (s, blocks) = (s, blocked)
resend_after rest (s, r) = rest s

unfoldable pub resend : Map (List ℕ) → Session → Session × Next
unfolding write_frame resend_after
resend [] s = (s, done)
resend ((id, payload) ∷ more) s =
    resend_after (resend more) (write_frame s.is_cancelled payload_type_request id payload s)

unfoldable pub receive_response : List ℕ → List ℕ → Session → Session × Next
unfolding send
receive_response id payload s = elim (lookup id s.waiters) [
  | none ↦ (s, done)
  | some channel ↦
      let s' = record s { waiters = delete id s.waiters } in
      elim (send channel payload s') [ none ↦ (s', blocked) | some s'' ↦ (s'', done) ]
]

unfoldable pub receive_request : List ℕ → List ℕ → Session → Session × Next
unfolding write_frame after_any
receive_request id payload s = elim (lookup id s.processing_requests) [
  | some u ↦ (s, done)
  | none ↦
      let s' = record s { processing_requests = insert id tt s.processing_requests } in
      after_any (call_handler id payload)
        (write_frame s.is_cancelled payload_type_accept_request id [] s')
]

-- The goroutine that `processStash` starts for a message, up to the call of the handler.
unfoldable pub dispatch : Message → Session → Session × Next
unfolding receive_response receive_request resend
dispatch m s =
    if m.type == payload_type_response
    then receive_response m.id m.payload s
    else if m.type == payload_type_request
    then receive_request m.id m.payload s
    else if m.type == payload_type_accept_request
    then (record s { unconfirmed_requests = delete m.id s.unconfirmed_requests }, done)
    else if m.type == payload_type_retry
    then resend s.unconfirmed_requests s
    else (s, done)

-- Behind the handler's return: its error is dropped, the response is written, and the id is free
-- again once it is.
unfoldable pub after_response : List ℕ → Session × WriteResult → Session × Next
after_response id (s, blocks) = (s, blocked)
after_response id (s, r) =
    (record s { processing_requests = delete id s.processing_requests }, done)

unfoldable pub finish_request : List ℕ → List ℕ → Session → Session × Next
unfolding write_frame after_response
finish_request id response s =
    after_response id (write_frame s.is_cancelled payload_type_response id response s)
