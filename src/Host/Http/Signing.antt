-- ===== src/Host/Http/Signing.antt =====
-- What a signature that the HTTP interface returns says of the host and of the device.
use tezsign.Prelude.{ℕ, ◌≡◌, refl, ap, List, [], ◌∷◌, Option, none, some}
use tezsign.Prelude.Maps.{lookup}
use tezsign.Keychain.Crypto.{Gcm}
use tezsign.Keychain.Key.{Bls}
use tezsign.Gadget.Handlers.{
  Request, sign_request, Response, error_response, signature, results, ok_response, no_answer,
  other, Device, World, handle_request, handle_sign_and_status,
}
use tezsign.Gadget.Handlers.Interfaces.{Allowed, signature-Allowed}
use tezsign.Host.Remote.{
  Fate, request_lost, response_lost, answered, RemoteReply, broker_request, response_of, do_req,
  get_signature, req_sign,
}
use tezsign.Host.Http.{
  Base58, App, HttpResponse, failure, post_key, signature_body, decode_hex, encode_bl_signature,
  encoded_response, signature_response, sign_listed, post_payload, post_key_handler, serve,
}

abbrev pub signed : List ℕ → HttpResponse
signed bl_sig = record { status = 200; body = signature_body bl_sig }

refused : (code : ℕ) (s : List ℕ) → failure code ≡ signed s → ⊥
refused code s e = cc

encoded_lem : (o : Option (List ℕ)) (s : List ℕ) → encoded_response o ≡ signed s → o ≡ some s
unfolding encoded_response
encoded_lem none s e = absurd (cc)
encoded_lem (some x) s e = ap some (unsigned (ap (λ r. r.body) e))
  where
    unsigned : signature_body x ≡ signature_body s → x ≡ s
    unsigned h = cc

abbrev Released : Base58 → List ℕ → Option Response → Type 0
Released b s o = (sig : List ℕ) × (o ≡ some (signature sig)) × (encode_bl_signature b sig ≡ some s)

released_lem :
    (b : Base58) (s : List ℕ) (o : Option Response)
    → signature_response b (get_signature (response_of o)) ≡ signed s
    → Released b s o
unfolding signature_response get_signature response_of encode_bl_signature encoded_response
released_lem b s none e = absurd (cc)
released_lem b s (some no_answer) e = absurd (cc)
released_lem b s (some (error_response code)) e = absurd (cc)
released_lem b s (some (signature sig)) e = (sig, refl, encoded_lem _ s e)
released_lem b s (some (results rs)) e = absurd (cc)
released_lem b s (some ok_response) e = absurd (cc)
released_lem b s (some (other x)) e = absurd (cc)

module _ (b : Base58) (app : App) (fate : Fate) (gcm : Gcm) (bls : Bls) (w : World)
    (rest : Request → Device → Device × Response) where
  -- The host's request to sign, with the device at the other end of the signing interface.
  abbrev pub ask : List ℕ → List ℕ → Device → Device × RemoteReply (List ℕ)
  ask = req_sign fate (handle_sign_and_status (handle_request gcm bls w rest))

  -- What is known of a response with the signature `s`.
  pub record SignedFor (tz4 : List ℕ) (body : Option (List ℕ)) (s : List ℕ) (d : Device)
      : Type 0 where
    pub raw : List ℕ
    pub payload_hex : List ℕ
    pub is_body : body ≡ some payload_hex
    pub is_hex : decode_hex payload_hex ≡ some raw
    pub is_listed : lookup tz4 app.allowed ≡ some tt
    pub sig : List ℕ
    pub is_released : (handle_request gcm bls w rest (sign_request tz4 raw) d).1 ≡ signature sig
    pub is_allowed : Allowed tz4 raw d.ring
    pub is_encoded : encode_bl_signature b sig ≡ some s

  abbrev FromDevice : List ℕ → List ℕ → List ℕ → Device → Type 0
  FromDevice tz4 raw s d =
      (sig : List ℕ) × ((handle_request gcm bls w rest (sign_request tz4 raw) d).1 ≡ signature sig)
      × (encode_bl_signature b sig ≡ some s)

  from_device :
      (fate : Fate) (tz4 raw s : List ℕ) (d : Device)
      → Released b s
          (broker_request fate
            (handle_sign_and_status (handle_request gcm bls w rest))
            (sign_request tz4 raw)
            d).1
      → FromDevice tz4 raw s d
  unfolding broker_request handle_sign_and_status
  from_device request_lost tz4 raw s d (sig, is, encoded) = absurd (cc)
  from_device response_lost tz4 raw s d (sig, is, encoded) = absurd (cc)
  from_device answered tz4 raw s d (sig, is, encoded) = (sig, given, encoded)
    where
      given : (handle_request gcm bls w rest (sign_request tz4 raw) d).1 ≡ signature sig
      given = cc

  listed_lem :
      (tz4 raw s : List ℕ) (d : Device) (o : Option (Unit {0}))
      → (sign_listed b app ask tz4 raw o d).1 ≡ signed s
      → (o ≡ some tt) × FromDevice tz4 raw s d
  unfolding sign_listed req_sign do_req
  listed_lem tz4 raw s d none e = absurd (refused 404 s e)
  listed_lem tz4 raw s d (some tt) e = (refl, from_device fate tz4 raw s d (released_lem b s _ e))

  -- A signature that the HTTP interface returns was asked for with the hexadecimal text of some bytes and an
  -- address that the host is set up for; the device released it for these bytes, which its key of that
  -- address was allowed to sign; and the text is its encoding.
  pub serve-SignedFor :
      (tz4 : List ℕ) (body : Option (List ℕ)) (s : List ℕ) (d : Device)
      → (serve b app ask (post_key tz4 body) d).1 ≡ signed s
      → SignedFor tz4 body s d
  unfolding serve post_key_handler post_payload
  serve-SignedFor [] body s d e = absurd (cc)
  serve-SignedFor (c ∷ cs) none s d e = absurd (cc)
  serve-SignedFor (c ∷ cs) (some payload_hex) s d e = go (decode_hex payload_hex) refl e
    where
      go :
          (o : Option (List ℕ))
          → decode_hex payload_hex ≡ o
          → (post_payload b app ask (c ∷ cs) o d).1 ≡ signed s
          → SignedFor (c ∷ cs) (some payload_hex) s d
      go none is e = absurd (refused 400 s e)
      go (some raw) is e =
          let (there, (sig, given, encoded)) =
            listed_lem (c ∷ cs) raw s d (lookup (c ∷ cs) app.allowed) e in
          record {
            raw = raw;
            payload_hex = payload_hex;
            is_body = refl;
            is_hex = is;
            is_listed = there;
            sig = sig;
            is_released = given;
            is_allowed = signature-Allowed gcm bls w rest (c ∷ cs) raw sig d given;
            is_encoded = encoded;
          }
