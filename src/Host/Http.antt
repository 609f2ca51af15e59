-- ===== src/Host/Http.antt =====
-- app/host/http.go and bls_encoding.go: the HTTP interface that a baker talks to. A request is what the
-- routing of the framework makes of it.

pub mod Signing
pub mod Statuses
use tezsign.Prelude.{
  ℕ, suc, ◌+◌, ◌-◌, ◌*◌, Bool, true, false, not, ◌&&◌, List, [], ◌∷◌, ◌++◌, Option, none, some,
  length, take, ◌==◌, leb, if◌then◌else◌,
}
use tezsign.Prelude.Maps.{Map, lookup}
use tezsign.Gadget.Handlers.{Device}
use tezsign.Host.Remote.{RequestError, remote_error, link_error, RemoteReply, ok, err}

-- `sha256.Sum256`, and the package base58.
pub record Base58 : Type 0 where
  pub sha256 : List ℕ → List ℕ
  pub encode : List ℕ → List ℕ

pub record CacheEntry : Type 0 where
  pub public_key : List ℕ
  pub pop : List ℕ

-- `allowedTZ4` and `cache`.
pub record App : Type 0 where
  pub allowed : Map (Unit {0})
  pub cache : Map CacheEntry

-- The JSON object of a response, by its field.
pub data Body : Type 0 where
  empty_body error_body : Body
  public_key_body bls_prove_possession_body signature_body : List ℕ → Body

pub record HttpResponse : Type 0 where
  pub status : ℕ
  pub body : Body

-- The body of `post_key` is what BodyParser gives.
pub data HttpRequest : Type 0 where
  authorized_keys sign : HttpRequest
  get_key bls_prove_possession : List ℕ → HttpRequest
  post_key : List ℕ → Option (List ℕ) → HttpRequest

abbrev pub failure : ℕ → HttpResponse
failure code = record { status = code; body = error_body }

-- `hex.DecodeString`.
unfoldable pub hex_digit : ℕ → Option ℕ
hex_digit c =
    if leb 48 c && leb c 57
    then some (c - 48)
    else if leb 97 c && leb c 102
    then some (c - 87)
    else if leb 65 c && leb c 70
    then some (c - 55)
    else none

hex_pair : Option ℕ → Option ℕ → Option (List ℕ) → Option (List ℕ)
hex_pair (some a) (some b) (some bs) = some ((16 * a + b) ∷ bs)
hex_pair none b bs = none
hex_pair (some a) none bs = none
hex_pair (some a) (some b) none = none

unfoldable pub decode_hex : List ℕ → Option (List ℕ)
unfolding hex_digit hex_pair
decode_hex [] = some []
decode_hex (a ∷ []) = none
decode_hex (a ∷ (b ∷ cs)) = hex_pair (hex_digit a) (hex_digit b) (decode_hex cs)

-- base58check of a signature, "BLsig…".
unfoldable pub pfx_bl_signature : List ℕ
pfx_bl_signature = 40 ∷ 171 ∷ 64 ∷ 207 ∷ []

unfoldable pub b58_check_encode : Base58 → List ℕ → List ℕ → List ℕ
b58_check_encode b prefix payload =
    b.encode (prefix ++ (payload ++ take 4 (b.sha256 (b.sha256 (prefix ++ payload)))))

unfoldable pub encode_bl_signature : Base58 → List ℕ → Option (List ℕ)
unfolding b58_check_encode pfx_bl_signature
encode_bl_signature b sig =
    if length sig == 96 then some (b58_check_encode b pfx_bl_signature sig) else none

-- The handlers of the two routes that read the cache.
unfoldable pub from_cache : App → (CacheEntry → Body) → List ℕ → HttpResponse
from_cache app field [] = failure 400
from_cache app field (c ∷ cs) = elim (lookup (c ∷ cs) app.allowed) [
  | none ↦ failure 404
  | some u ↦ elim (lookup (c ∷ cs) app.cache) [
    | none ↦ failure 404
    | some entry ↦ record { status = 200; body = field entry }
  ]
]

-- The status of an error of `ReqSign`.
unfoldable pub error_status : RequestError → ℕ
error_status link_error = 500
error_status (remote_error code) =
    if code == 31
    then 404
    else if code == 32
    then 403
    else if code == 33
    then 409
    else if code == 34
    then 400
    else 500

unfoldable pub encoded_response : Option (List ℕ) → HttpResponse
encoded_response none = failure 500
encoded_response (some bl_sig) = record { status = 200; body = signature_body bl_sig }

unfoldable pub signature_response : Base58 → RemoteReply (List ℕ) → HttpResponse
unfolding error_status encode_bl_signature encoded_response
signature_response b (err e) = failure (error_status e)
signature_response b (ok sig) = encoded_response (encode_bl_signature b sig)

module _ (b : Base58) (app : App)
    (ask : List ℕ → List ℕ → Device → Device × RemoteReply (List ℕ)) where
  -- Behind the lookup in `allowedTZ4`.
  unfoldable pub sign_listed : List ℕ → List ℕ → Option (Unit {0}) → Device → Device × HttpResponse
  unfolding signature_response
  sign_listed tz4 raw none d = (d, failure 404)
  sign_listed tz4 raw (some u) d = let (d', r) = ask tz4 raw d in (d', signature_response b r)

  -- Behind the parsing of the payload.
  unfoldable pub post_payload : List ℕ → Option (List ℕ) → Device → Device × HttpResponse
  unfolding sign_listed
  post_payload tz4 none d = (d, failure 400)
  post_payload tz4 (some raw) d = sign_listed tz4 raw (lookup tz4 app.allowed) d

  unfoldable pub post_key_handler : List ℕ → Option (List ℕ) → Device → Device × HttpResponse
  unfolding decode_hex post_payload
  post_key_handler [] body d = (d, failure 400)
  post_key_handler (c ∷ cs) none d = (d, failure 400)
  post_key_handler (c ∷ cs) (some payload_hex) d = post_payload (c ∷ cs) (decode_hex payload_hex) d

  -- `buildFiberApp`: `ask` is `ReqSign` over the broker.
  unfoldable pub serve : HttpRequest → Device → Device × HttpResponse
  unfolding from_cache post_key_handler
  serve authorized_keys d = (d, record { status = 200; body = empty_body })
  serve (get_key tz4) d = (d, from_cache app (λ e. public_key_body e.public_key) tz4)
  serve (bls_prove_possession tz4) d =
      (d, from_cache app (λ e. bls_prove_possession_body e.pop) tz4)
  serve (post_key tz4 body) d = post_key_handler tz4 body d
  serve sign d = (d, failure 501)
