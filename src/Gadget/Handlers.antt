-- ===== src/Gadget/Handlers.antt =====
-- app/gadget/gadget.go: the handlers of the two USB interfaces. A request is what the protobuf
-- library makes of the received bytes, `none` where it fails; a response is what is marshalled.
pub mod Interfaces
use tezsign.Prelude.{ℕ, ◌*◌, Bool, true, false, List, [], ◌∷◌, Option, none, some, if◌then◌else◌}
use tezsign.Prelude.Bytes.{bytes_eq}
use tezsign.Prelude.Maps.{lookup}
use tezsign.Keychain.Crypto.{Gcm}
use tezsign.Keychain.HwmWorker.{Faults}
use tezsign.Keychain.Key
use tezsign.Keychain.Key.{Bls, Env, SignError, key_locked, stale_watermark, bad_payload}
use tezsign.Keychain.Key.Unlock.{Secrets}
use tezsign.Keychain.Ring
use tezsign.Keychain.Ring.{
  Keys, RingError, RingReply, key_not_found, key_error, ring_sign, ring_set_level, ring_lock,
  ring_unlock, ring_delete,
}
use tezsign.Gadget.Limiter.{
  AttemptLimiter, Verdict, allowed, throttled, panics, allow, new_attempt_limiter,
}

pub data Request : Type 0 where
  unlock_request delete_keys_request new_keys_request : List (List ℕ) → List ℕ → Request
  lock_request : List (List ℕ) → Request
  sign_request : List ℕ → List ℕ → Request
  set_level_request : List ℕ → ℕ → Request
  init_master_request : Bool → List ℕ → Request
  logs_request : ℕ → Request
  status_request version_request init_info_request unknown_request : Request

-- `other`: an answer of a part that is not modelled. `no_answer`: the handler panics or never returns.
pub data Response : Type 0 where
  error_response : ℕ → Response
  results : List (List ℕ × Bool) → Response
  signature : List ℕ → Response
  ok_response no_answer : Response
  other : List ℕ → Response

-- `disk` is, for the name of a key whose `hwm.bin` is not open, the content of that file, and `none` if
-- there is no such file.
pub record Device : Type 0 where
  pub ring : Keys
  pub disk : List ℕ → Option (List ℕ)
  pub limiter : AttemptLimiter

-- What a request finds: the time, the outcome of a key's write, and for a name what the store and the
-- file system come to.
pub record World : Type 0 where
  pub now : ℕ
  pub env : Env
  pub has_key : List ℕ → Bool
  pub secrets : List ℕ → List ℕ → Option Secrets
  pub faults : List ℕ → Faults
  pub random : Option (List ℕ)
  pub close_fails : Bool
  pub removed : List ℕ → Bool
  pub password_is_right : List ℕ → Bool
  pub normalize_id : List ℕ → List ℕ

abbrev pub secured_attempt_limit : ℕ
secured_attempt_limit = 5

-- 30 seconds, in nanoseconds.
abbrev pub secured_attempt_window : ℕ
secured_attempt_window = 30 * 1000000000

unfoldable pub new_device : (List ℕ → Option (List ℕ)) → Device
new_device disk = record {
  ring = [];
  disk = disk;
  limiter = new_attempt_limiter secured_attempt_limit secured_attempt_window;
}

-- The code of an error of SignAndUpdate, app/gadget/error_codes.go.
unfoldable pub sign_error_code : RingError → ℕ
sign_error_code (key_error key_locked) = 32
sign_error_code key_not_found = 31
sign_error_code (key_error stale_watermark) = 33
sign_error_code (key_error bad_payload) = 34
sign_error_code e = 30

unfoldable pub sign_response : RingReply (List ℕ) → Response
unfolding sign_error_code
sign_response (Ring.ok sig) = signature sig
sign_response (Ring.err e) = error_response (sign_error_code e)
sign_response Ring.no_return = no_answer

unfoldable pub set_level_response : RingReply (Unit {0}) → Response
set_level_response (Ring.ok u) = ok_response
set_level_response (Ring.err e) = error_response 80
set_level_response Ring.no_return = no_answer

-- The content of a key's file: the open file's, or else what is on the disk.
unfoldable pub file_of : Device → List ℕ → Option (List ℕ)
file_of d id = elim (lookup id d.ring) [
  | none ↦ d.disk id
  | some k ↦ elim k.hwm_file [ none ↦ d.disk id | some h ↦ some h.file ]
]

unfoldable pub with_file : List ℕ → Option (List ℕ) → Device → Device
with_file id file d = record d { disk = λ x. if bytes_eq x id then file else d.disk x }

-- A deletion that succeeds removes the file with the key's directory.
abbrev left_file : RingReply (Unit {0}) → Option (List ℕ) → Option (List ℕ)
left_file (Ring.ok u) file = none
left_file (Ring.err e) file = file
left_file Ring.no_return file = file

-- One operation for each name, with the results in order; one that does not return ends the batch.
unfoldable pub for_each :
    (List ℕ → Device → Device × RingReply (Unit {0}))
    → List (List ℕ)
    → Device
    → Device × Option (List (List ℕ × Bool))
for_each op [] d = (d, some [])
for_each op (id ∷ ids) d =
    let (d', r) = op id d in
    let (d'', rs) = for_each op ids d' in
    elim r [
      | Ring.ok u ↦ (d'', with_result id true rs)
      | Ring.err e ↦ (d'', with_result id false rs)
      | Ring.no_return ↦ (d', none)
    ]
  where
    with_result : List ℕ → Bool → Option (List (List ℕ × Bool)) → Option (List (List ℕ × Bool))
    with_result id b none = none
    with_result id b (some rs) = some ((id, b) ∷ rs)

unfoldable pub batch_response : Option (List (List ℕ × Bool)) → Response
batch_response none = no_answer
batch_response (some rs) = results rs

-- A request that `securedRPCLimiter` guards, and what it does if it is let through.
unfoldable pub secured : ℕ → ℕ → (Device → Device × Response) → Device → Device × Response
secured now code act d =
    let (limiter, verdict) = allow now d.limiter in
    let d' = record d { limiter = limiter } in
    elim verdict [
      | allowed ↦ act d'
      | throttled wait ↦ (d', error_response code)
      | panics ↦ (d', no_answer)
    ]

module _ (gcm : Gcm) (bls : Bls) (w : World) where
  unfoldable pub run_batch :
      (List ℕ → Device → Device × RingReply (Unit {0})) → List (List ℕ) → Device → Device × Response
  unfolding for_each batch_response
  run_batch op ids d = let (d', rs) = for_each op ids d in (d', batch_response rs)

  unfoldable pub unlock_one : List ℕ → List ℕ → Device → Device × RingReply (Unit {0})
  unfolding file_of with_file
  unlock_one pass id d =
      let (file, (ring, r)) =
        ring_unlock gcm id (w.secrets id pass) (w.faults id) w.random w.close_fails (file_of d id)
          d.ring in
      (record (with_file id file d) { ring = ring }, r)

  unfoldable pub lock_one : List ℕ → Device → Device × RingReply (Unit {0})
  unfolding file_of with_file
  lock_one id d =
      let (ring, r) = ring_lock w.close_fails id d.ring in
      (record (with_file id (file_of d id) d) { ring = ring }, r)

  unfoldable pub delete_one : List ℕ → Device → Device × RingReply (Unit {0})
  unfolding file_of with_file
  delete_one id d =
      let name = w.normalize_id id in
      let (ring, r) = ring_delete (w.has_key name) (w.removed name) w.close_fails name d.ring in
      (record (with_file name (left_file r (file_of d name)) d) { ring = ring }, r)

  unfoldable pub handle_unlock : List (List ℕ) → List ℕ → Device → Device × Response
  unfolding secured run_batch unlock_one
  handle_unlock [] pass d = (d, error_response 10)
  handle_unlock (id ∷ ids) [] d = (d, error_response 11)
  handle_unlock (id ∷ ids) (c ∷ pass) d =
      secured w.now 12 (run_batch (unlock_one (c ∷ pass)) (id ∷ ids)) d

  unfoldable pub handle_lock : List (List ℕ) → Device → Device × Response
  unfolding run_batch lock_one
  handle_lock [] d = (d, error_response 20)
  handle_lock (id ∷ ids) d = run_batch lock_one (id ∷ ids) d

  unfoldable pub handle_sign : List ℕ → List ℕ → Device → Device × Response
  unfolding sign_response
  handle_sign tz4 raw d =
      let (ring, r) = ring_sign gcm bls tz4 raw w.env d.ring in
      (record d { ring = ring }, sign_response r)

  unfoldable pub delete_verified : List (List ℕ) → List ℕ → Device → Device × Response
  unfolding run_batch delete_one
  delete_verified ids pass d =
      if w.password_is_right pass then run_batch delete_one ids d else (d, error_response 93)

  unfoldable pub handle_delete_keys : List (List ℕ) → List ℕ → Device → Device × Response
  unfolding secured delete_verified
  handle_delete_keys [] pass d = (d, error_response 90)
  handle_delete_keys (id ∷ ids) [] d = (d, error_response 91)
  handle_delete_keys (id ∷ ids) (c ∷ pass) d =
      secured w.now 92 (delete_verified (id ∷ ids) (c ∷ pass)) d

  unfoldable pub handle_set_level : List ℕ → ℕ → Device → Device × Response
  unfolding set_level_response
  handle_set_level id level d =
      let (ring, r) = ring_set_level gcm (w.has_key id) id level w.env d.ring in
      (record d { ring = ring }, set_level_response r)

  -- `rest` answers the requests whose parts are not modelled.
  unfoldable pub handle_request :
      (Request → Device → Device × Response) → Request → Device → Device × Response
  unfolding handle_unlock handle_lock handle_sign handle_delete_keys handle_set_level
  handle_request rest (unlock_request ids pass) d = handle_unlock ids pass d
  handle_request rest (lock_request ids) d = handle_lock ids d
  handle_request rest (sign_request tz4 raw) d = handle_sign tz4 raw d
  handle_request rest (delete_keys_request ids pass) d = handle_delete_keys ids pass d
  handle_request rest (set_level_request id level) d = handle_set_level id level d
  handle_request rest unknown_request d = (d, error_response 1000)
  handle_request rest r d = rest r d

-- Interface 0 lets through requests to sign, for the status and for the version.
unfoldable pub handle_sign_and_status :
    (Request → Device → Device × Response) → Option Request → Device → Device × Response
handle_sign_and_status base none d = (d, error_response 1)
handle_sign_and_status base (some (sign_request tz4 raw)) d = base (sign_request tz4 raw) d
handle_sign_and_status base (some status_request) d = base status_request d
handle_sign_and_status base (some version_request) d = base version_request d
handle_sign_and_status base (some r) d = (d, error_response 98)

-- Interface 1 lets through all requests but those to sign.
unfoldable pub handle_mgmt_only :
    (Request → Device → Device × Response) → Option Request → Device → Device × Response
handle_mgmt_only base none d = (d, error_response 1)
handle_mgmt_only base (some (sign_request tz4 raw)) d = (d, error_response 1001)
handle_mgmt_only base (some r) d = base r d
