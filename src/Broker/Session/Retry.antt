-- ===== src/Broker/Session/Retry.antt =====
-- A retry message makes a broker send its unconfirmed requests again.
use tezsign.Prelude.{
  ℕ, ◌+◌, ◌≤◌, ◌<◌, ◌^◌, ◌≡◌, sym, ap, ◌∙◌, arith, false, List, [], ◌∷◌, ◌++◌, length, append-nil,
  append_assoc, length-append,
}
use tezsign.Prelude.Maps.{Map}
use tezsign.Broker.Wire.{payload_type_request, payload_type_retry}
use tezsign.Broker.Wire.RoundTrip.{frame}
use tezsign.Broker.Session.{Session, write_chan_size, resend, resend_after, done, dispatch}
use tezsign.Broker.Session.Exchange.{queue, write_frame_queues}

abbrev pub request_frames : Map (List ℕ) → List (List ℕ)
request_frames [] = []
request_frames ((id, payload) ∷ more) = frame payload_type_request id payload ∷ request_frames more

abbrev pub AllFit : Map (List ℕ) → Type 0
AllFit [] = Unit {0}
AllFit ((id, payload) ∷ more) = (length payload < 2 ^ 32) × AllFit more

abbrev pub with_frames : Session → List (List ℕ) → Session
with_frames s fs = record s { write_chan = s.write_chan ++ fs }

resend-request_frames :
    (requests : Map (List ℕ)) (s : Session)
    → s.is_cancelled ≡ false
    → AllFit requests
    → length s.write_chan + length requests ≤ write_chan_size
    → resend requests s ≡ (with_frames s (request_frames requests), done)
unfolding resend resend_after
resend-request_frames [] s live fit room =
    λ i. (record s { write_chan = sym (append-nil s.write_chan) i }, done)
resend-request_frames ((id, payload) ∷ more) s live (fit, fits) room =
    let f = frame payload_type_request id payload in
    ap (resend_after (resend more)) (
      write_frame_queues s.is_cancelled payload_type_request id payload s live
        (record { running = live; has_room = omega arith }) fit)
    ∙ resend-request_frames more (queue s f) live fits
        (omega (arith, length-append s.write_chan (f ∷ [])))
    ∙ λ i.
        (record s { write_chan = append_assoc s.write_chan (f ∷ []) (request_frames more) i }, done)

-- When the broker runs, every unconfirmed payload has a length that fits a uint32, and the queue has
-- room for all of them: a retry message, whatever its id and payload, queues the frame of every
-- unconfirmed request behind what is queued, and changes nothing else.
pub retry_resends :
    (id payload : List ℕ) (s : Session)
    → s.is_cancelled ≡ false
    → AllFit s.unconfirmed_requests
    → length s.write_chan + length s.unconfirmed_requests ≤ write_chan_size
    → dispatch (record { id = id; type = payload_type_retry; payload = payload }) s
      ≡ (with_frames s (request_frames s.unconfirmed_requests), done)
unfolding dispatch
retry_resends id payload s live fit room =
    resend-request_frames s.unconfirmed_requests s live fit room
