-- ===== src/Host/Tests.antt =====
-- Runs of app/host/, with the device of the runs of app/gadget/.
use tezsign.Prelude.{
  ℕ, ◌+◌, ◌/◌, ◌%◌, ◌≡◌, refl, ap, List, [], ◌∷◌, some, replicate, ltb, if◌then◌else◌,
}
use tezsign.Prelude.Bytes.{bytes_eq}
use tezsign.Prelude.Maps.{lookup}
use tezsign.Keychain.Key.{new_gkey}
use tezsign.Keychain.Ring.{ring_sign, get_by_tz4, from_key}
use tezsign.Keychain.Tests.Setup.{open_cipher, wide_signer}
use tezsign.Keychain.Tests.Decoding.{vote_bytes}
use tezsign.Keychain.Tests.States.{address}
use tezsign.Keychain.Tests.Requests.{signed_wide}
use tezsign.Gadget.Handlers.{handle_request, handle_sign, handle_sign_and_status, sign_response}
use tezsign.Gadget.Tests.{device, world, silent}
use tezsign.Host.Remote.{answered, broker_request, response_of, do_req, get_signature, req_sign}
use tezsign.Host.Http.{
  Base58, App, post_key, decode_hex, hex_digit, encode_bl_signature, b58_check_encode,
  pfx_bl_signature, encoded_response, signature_response, sign_listed, post_payload,
  post_key_handler, serve,
}
use tezsign.Host.Http.Signing.{signed, ask, SignedFor, serve-SignedFor}
use tezsign.Host.Http.Statuses.{reply_status, serve_status}

-- The text is the bytes, and the hash is constant.
abbrev plain_text : Base58
plain_text = record { sha256 = λ bytes. replicate 32 1; encode = λ bytes. bytes }

abbrev app : App
app = record { allowed = (address, tt) ∷ []; cache = [] }

digit : ℕ → ℕ
digit n = if ltb n 10 then 48 + n else 87 + n

hex_text : List ℕ → List ℕ
unfolding digit
hex_text [] = []
hex_text (x ∷ xs) = digit (x / 16) ∷ digit (x % 16) ∷ hex_text xs

abbrev vote_text : List ℕ
vote_text = hex_text vote_bytes

reads_text : decode_hex vote_text ≡ some vote_bytes
unfolding decode_hex hex_digit hex_text
reads_text = refl

is_listed : lookup address app.allowed ≡ some tt
unfolding lookup bytes_eq
is_listed = refl

abbrev encoded : List ℕ
encoded = b58_check_encode plain_text pfx_bl_signature (replicate 96 0)

served :
    (serve plain_text app
      (ask plain_text app answered open_cipher wide_signer world silent)
      (post_key address (some vote_text))
      device).1
    ≡ signed encoded
unfolding serve post_key_handler decode_hex hex_digit hex_text post_payload sign_listed lookup
    bytes_eq req_sign do_req broker_request handle_sign_and_status handle_request handle_sign
    ring_sign get_by_tz4 new_gkey from_key signature_response get_signature response_of
    encode_bl_signature encoded_response sign_response
served =
    ap
      (λ r.
        signature_response plain_text
          (get_signature (response_of (some (sign_response (from_key r))))))
      signed_wide

serve-SignedFor_example :
    SignedFor plain_text app answered open_cipher wide_signer world silent address
      (some vote_text)
      encoded
      device
serve-SignedFor_example =
    serve-SignedFor plain_text app answered open_cipher wide_signer world silent address
      (some vote_text) encoded device served

serve_status_example :
    let r =
      serve plain_text app
        (ask plain_text app answered open_cipher wide_signer world silent)
        (post_key address (some vote_text))
        device in
    let reply = ring_sign open_cipher wide_signer address vote_bytes world.env device.ring in
    (r.1.status ≡ reply_status reply.1) × (r.0 ≡ record device { ring = reply.0 })
serve_status_example =
    serve_status plain_text app open_cipher wide_signer world silent 116 (122 ∷ 52 ∷ 97 ∷ [])
      vote_text vote_bytes device is_listed reads_text
