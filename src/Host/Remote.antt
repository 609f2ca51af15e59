-- ===== src/Host/Remote.antt =====
-- common/proto.go: one request to the device over a broker, and what comes back.
use tezsign.Prelude.{ℕ, List, [], Option, none, some}
use tezsign.Gadget.Handlers.{
  Request, sign_request, Response, error_response, signature, no_answer, Device,
}

-- `remote_error` is a RemoteError; `link_error` any other: the broker's, a time-out, bytes that are no
-- response.
pub data RequestError : Type 0 where
  remote_error : ℕ → RequestError
  link_error : RequestError

pub data RemoteReply {ℓ} (A : Type ℓ) : Type ℓ where
  ok : A → RemoteReply A
  err : RequestError → RemoteReply A

-- What the link does with a request: the device never sees it, or its response is lost, or it arrives.
pub data Fate : Type 0 where
  request_lost response_lost answered : Fate

abbrev pub Served : Type 0
Served = Option Request → Device → Device × Response

-- `Broker.Request`, with the device behind the broker.
unfoldable pub broker_request : Fate → Served → Request → Device → Device × Option Response
broker_request request_lost serve r d = (d, none)
broker_request response_lost serve r d = ((serve (some r) d).0, none)
broker_request answered serve r d = let (d', resp) = serve (some r) d in (d', some resp)

unfoldable pub response_of : Option Response → RemoteReply Response
response_of none = err link_error
response_of (some no_answer) = err link_error
response_of (some (error_response code)) = err (remote_error code)
response_of (some r) = ok r

unfoldable pub do_req : Fate → Served → Request → Device → Device × RemoteReply Response
unfolding broker_request response_of
do_req fate serve r d = let (d', resp) = broker_request fate serve r d in (d', response_of resp)

-- GetSign of a response with another payload is nil, and GetSignature of nil is empty.
unfoldable pub get_signature : RemoteReply Response → RemoteReply (List ℕ)
get_signature (ok (signature sig)) = ok sig
get_signature (ok r) = ok []
get_signature (err e) = err e

unfoldable pub req_sign : Fate → Served → List ℕ → List ℕ → Device → Device × RemoteReply (List ℕ)
unfolding do_req get_signature
req_sign fate serve tz4 raw d =
    let (d', r) = do_req fate serve (sign_request tz4 raw) d in (d', get_signature r)
