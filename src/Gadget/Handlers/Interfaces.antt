-- ===== src/Gadget/Handlers/Interfaces.antt =====
-- What reaches which handler, and what a signature that leaves the device says.
use tezsign.Prelude.{ℕ, ◌≡◌, ◌⊎◌, inl, inr, refl, sym, ap, ◌∙◌, false, List, some}
use tezsign.Keychain.Kinds.{get_kind, Above}
use tezsign.Keychain.Decode
use tezsign.Keychain.Decode.{Payload, Outcome, decode_and_validate_sign_payload}
use tezsign.Keychain.Crypto.{Gcm}
use tezsign.Keychain.Key
use tezsign.Keychain.Key.{GKey, Env, Bls, Reply, rises, sign_and_update}
use tezsign.Keychain.Key.Signing.{mark_of_payload, SignPost, sign_and_update_post}
use tezsign.Keychain.Ring
use tezsign.Keychain.Ring.{Keys, RingReply, key_not_found, from_key, get_by_tz4, ring_sign}
use tezsign.Keychain.Ring.Operations.{SignedWith, NoKey, ring_sign_cases}
use tezsign.Gadget.Handlers.{
  Request, sign_request, status_request, version_request, unlock_request, delete_keys_request,
  new_keys_request, lock_request, set_level_request, init_master_request, logs_request,
  init_info_request, unknown_request, Response, error_response, signature, Device, World,
  sign_response, handle_request, handle_sign, handle_sign_and_status, handle_mgmt_only,
}

-- The requests that both interfaces let through.
abbrev pub IsShared : Request → Type 0
IsShared r = (r ≡ status_request) ⊎ (r ≡ version_request)

-- A request that is neither for the status nor for the version is served by one of the interfaces, and
-- refused by the other, with the device as it was: the signing interface serves it or the management
-- interface does, whatever the handler behind them.
pub interfaces_split :
    (base : Request → Device → Device × Response) (r : Request) (d : Device)
    → ¬ IsShared r
    → ((handle_sign_and_status base (some r) d ≡ base r d)
        × (handle_mgmt_only base (some r) d ≡ (d, error_response 1001)))
      ⊎ ((handle_sign_and_status base (some r) d ≡ (d, error_response 98))
          × (handle_mgmt_only base (some r) d ≡ base r d))
unfolding handle_sign_and_status handle_mgmt_only
interfaces_split base (unlock_request ids pass) d ne = inr (refl, refl)
interfaces_split base (delete_keys_request ids pass) d ne = inr (refl, refl)
interfaces_split base (new_keys_request ids pass) d ne = inr (refl, refl)
interfaces_split base (lock_request ids) d ne = inr (refl, refl)
interfaces_split base (sign_request tz4 raw) d ne = inl (refl, refl)
interfaces_split base (set_level_request id level) d ne = inr (refl, refl)
interfaces_split base (init_master_request det pass) d ne = inr (refl, refl)
interfaces_split base (logs_request limit) d ne = inr (refl, refl)
interfaces_split base status_request d ne = absurd (ne (inl refl))
interfaces_split base version_request d ne = absurd (ne (inr refl))
interfaces_split base init_info_request d ne = inr (refl, refl)
interfaces_split base unknown_request d ne = inr (refl, refl)

released_reply :
    (r : Reply (List ℕ)) (sig : List ℕ)
    → sign_response (from_key r) ≡ signature sig
    → r ≡ Key.ok sig
unfolding sign_response from_key
released_reply (Key.ok s) sig e = cc
released_reply (Key.err x) sig e = absurd (cc)
released_reply Key.no_return sig e = absurd (cc)

-- What is known of a key that releases a signature for the bytes `raw`.
pub record Allowed (tz4 raw : List ℕ) (ring : Keys) : Type 0 where
  pub id : List ℕ
  pub key : GKey
  pub payload : Payload
  pub is_found : get_by_tz4 tz4 ring ≡ some (id, key)
  pub has_address : key.tz4 ≡ tz4
  pub decodes : decode_and_validate_sign_payload raw ≡ Decode.ok payload
  pub is_above : Above (get_kind key.watermark payload.kind) (mark_of_payload payload)
  pub is_sound : key.hwm_corrupted ≡ false

Allowed-by :
    (gcm : Gcm) (env : Env) (tz4 raw : List ℕ) (ring : Keys) (id : List ℕ) (k : GKey)
    (o : Outcome Payload) (r : GKey × Reply (List ℕ)) (sig : List ℕ)
    → get_by_tz4 tz4 ring ≡ some (id, k)
    → k.tz4 ≡ tz4
    → decode_and_validate_sign_payload raw ≡ o
    → SignPost gcm id env k o r
    → r.1 ≡ Key.ok sig
    → Allowed tz4 raw ring
Allowed-by gcm env tz4 raw ring id k (Decode.ok p) (k', Key.ok s) sig found h o
      (up, sound, e, f, persisted) is =
    record {
      id = id;
      key = k;
      payload = p;
      is_found = found;
      has_address = h;
      decodes = o;
      is_above = up;
      is_sound = sound;
    }
Allowed-by gcm env tz4 raw ring id k (Decode.ok p) (k', Key.err x) sig found h o post is =
    absurd (cc)
Allowed-by gcm env tz4 raw ring id k (Decode.ok p) (k', Key.no_return) sig found h o post is =
    absurd (cc)
Allowed-by gcm env tz4 raw ring id k (Decode.err x) r sig found h o post is =
    absurd (cc (ap (λ t. t.1) post))
Allowed-by gcm env tz4 raw ring id k Decode.panic r sig found h o post is =
    absurd (cc (ap (λ t. t.1) post))

-- When a request to sign is answered with a signature, the bytes are a payload, and a key of the address
-- that was asked for was in the ring's hands with sound marks, below the payload's.
pub signature-Allowed :
    (gcm : Gcm) (bls : Bls) (w : World) (rest : Request → Device → Device × Response)
    (tz4 raw sig : List ℕ) (d : Device)
    → (handle_request gcm bls w rest (sign_request tz4 raw) d).1 ≡ signature sig
    → Allowed tz4 raw d.ring
unfolding handle_request handle_sign
signature-Allowed gcm bls w rest tz4 raw sig d e = go (ring_sign_cases gcm bls tz4 raw w.env d.ring)
  where
    answer : Keys × RingReply (List ℕ)
    answer = ring_sign gcm bls tz4 raw w.env d.ring

    go :
        SignedWith gcm bls tz4 raw w.env d.ring answer
          ⊎ (NoKey tz4 d.ring × (answer ≡ (d.ring, Ring.err key_not_found)))
        → Allowed tz4 raw d.ring
    go (inl s) =
        Allowed-by gcm w.env tz4 raw d.ring s.id s.key (decode_and_validate_sign_payload raw)
          (sign_and_update gcm bls s.id raw w.env s.key) sig s.is_found s.has_address refl
          (sign_and_update_post gcm bls s.id raw w.env s.key)
          (released_reply _ sig (ap sign_response (sym s.replies) ∙ e))
    go (inr (missing, is)) = absurd (refused (sym (ap (λ r. sign_response r.1) is) ∙ e))
      where
        refused : sign_response (Ring.err key_not_found) ≡ signature sig → ⊥
        refused h = unfold sign_response in cc
