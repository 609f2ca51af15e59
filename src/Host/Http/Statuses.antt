-- ===== src/Host/Http/Statuses.antt =====
-- The statuses of the HTTP interface, over the codes that the device and the host agree on.
use tezsign.Prelude.{
  ℕ, ◌≡◌, refl, Bool, true, false, List, ◌∷◌, Option, none, some, length, ◌==◌, if◌then◌else◌,
}
use tezsign.Prelude.Maps.{lookup}
use tezsign.Keychain.Crypto.{Gcm}
use tezsign.Keychain.Key.{
  Bls, SignError, key_locked, stale_watermark, bad_payload, hwm_not_open, state_corrupted, bad_key,
  corrupted_secret, secret_length, invalid_scalar, level_too_low, close_failed, bad_dek, open_state,
  store_failed, persist_state,
}
use tezsign.Keychain.Ring
use tezsign.Keychain.Ring.{
  RingError, RingReply, key_not_found, unknown_key, ring_key_locked, already_present,
  invalid_key_id, remove_failed, key_error, ring_sign,
}
use tezsign.Gadget.Handlers.{
  Request, Response, Device, World, handle_request, handle_sign, handle_sign_and_status,
  sign_response, sign_error_code,
}
use tezsign.Host.Remote.{answered, broker_request, response_of, do_req, get_signature, req_sign}
use tezsign.Host.Http.{
  Base58, App, post_key, decode_hex, encode_bl_signature, b58_check_encode, pfx_bl_signature,
  encoded_response, error_status, signature_response, sign_listed, post_payload, post_key_handler,
  serve,
}
use tezsign.Host.Http.Signing.{ask}

-- What a baker is to be told of an error of a key.
abbrev pub key_status : SignError → ℕ
key_status key_locked = 403
key_status stale_watermark = 409
key_status bad_payload = 400
key_status e = 500

-- What a baker is to be told of the outcome of SignAndUpdate on the device.
abbrev pub reply_status : RingReply (List ℕ) → ℕ
reply_status (Ring.ok sig) = if length sig == 96 then 200 else 500
reply_status (Ring.err key_not_found) = 404
reply_status (Ring.err (key_error e)) = key_status e
reply_status (Ring.err e) = 500
reply_status Ring.no_return = 500

encoded_status :
    (b : Base58) (sig : List ℕ)
    → (encoded_response (encode_bl_signature b sig)).status
      ≡ (if length sig == 96 then 200 else 500)
unfolding encode_bl_signature encoded_response
encoded_status b sig = go (length sig == 96)
  where
    go :
        (t : Bool)
        → (encoded_response
            (if t then some (b58_check_encode b pfx_bl_signature sig) else none)).status
          ≡ (if t then 200 else 500)
    go true = refl
    go false = refl

status_lem :
    (b : Base58) (r : RingReply (List ℕ))
    → (signature_response b (get_signature (response_of (some (sign_response r))))).status
      ≡ reply_status r
unfolding signature_response get_signature response_of sign_response sign_error_code error_status
status_lem b (Ring.ok sig) = encoded_status b sig
status_lem b (Ring.err key_not_found) = refl
status_lem b (Ring.err unknown_key) = refl
status_lem b (Ring.err ring_key_locked) = refl
status_lem b (Ring.err already_present) = refl
status_lem b (Ring.err invalid_key_id) = refl
status_lem b (Ring.err remove_failed) = refl
status_lem b (Ring.err (key_error e)) = go e
  where
    go :
        (e : SignError)
        → (signature_response b
            (get_signature (response_of (some (sign_response (Ring.err (key_error e))))))).status
          ≡ key_status e
    go key_locked = refl
    go stale_watermark = refl
    go bad_payload = refl
    go hwm_not_open = refl
    go state_corrupted = refl
    go bad_key = refl
    go corrupted_secret = refl
    go secret_length = refl
    go invalid_scalar = refl
    go level_too_low = refl
    go close_failed = refl
    go bad_dek = refl
    go (open_state x) = refl
    go store_failed = refl
    go (persist_state x) = refl
status_lem b Ring.no_return = refl

module _ (b : Base58) (app : App) (gcm : Gcm) (bls : Bls) (w : World)
    (rest : Request → Device → Device × Response) where
  listed_status :
      (tz4 raw : List ℕ) (d : Device) (o : Option (Unit {0}))
      → o ≡ some tt
      → let r = sign_listed b app (ask b app answered gcm bls w rest) tz4 raw o d in
        let signed = ring_sign gcm bls tz4 raw w.env d.ring in
        (r.1.status ≡ reply_status signed.1) × (r.0 ≡ record d { ring = signed.0 })
  unfolding sign_listed req_sign do_req broker_request handle_sign_and_status handle_request
      handle_sign
  listed_status tz4 raw d none e = absurd (cc)
  listed_status tz4 raw d (some tt) e =
      (status_lem b (ring_sign gcm bls tz4 raw w.env d.ring).1, refl)

  -- With an address that the host is set up for and the hexadecimal text of some bytes, when the link loses
  -- nothing: the status tells the outcome of SignAndUpdate on the device, 200 for a signature of 96 bytes,
  -- 404 for an unknown key, 403 for a locked one, 409 for a stale watermark, 400 for a bad payload, and 500
  -- for any other error or no answer; and the ring of the device is as SignAndUpdate leaves it.
  pub serve_status :
      (c : ℕ) (cs payload_hex raw : List ℕ) (d : Device)
      → lookup (c ∷ cs) app.allowed ≡ some tt
      → decode_hex payload_hex ≡ some raw
      → let r =
          serve b app
            (ask b app answered gcm bls w rest)
            (post_key (c ∷ cs) (some payload_hex))
            d in
        let signed = ring_sign gcm bls (c ∷ cs) raw w.env d.ring in
        (r.1.status ≡ reply_status signed.1) × (r.0 ≡ record d { ring = signed.0 })
  unfolding serve post_key_handler post_payload
  serve_status c cs payload_hex raw d there hex =
      rw (hex) (listed_status (c ∷ cs) raw d (lookup (c ∷ cs) app.allowed) there)
