-- ===== src/Gadget/Tests.antt =====
-- Runs of app/gadget/.
use tezsign.Keychain.Store
use tezsign.Keychain.Store.{FileStore, WriteOutcome, written, not_written, file_error}
use tezsign.Keychain.Create.{ring_create}
use tezsign.Keychain.Ring.Status.{verify_master_password}
use tezsign.Keychain.Tests.Stores.{weak_kdf, library, found, ring, secret_bytes}
use tezsign.Gadget.Management.{
  init_info_answer, error_answer, ok_answer, handle_init_master, handle_init_info,
}
use tezsign.Gadget.Management.SetUp.{CannotCreate, init_info-init_master, half_set_up}
use tezsign.Prelude.{◌≤◌, ◌≡◌, refl, arith, [], ◌∷◌}
use tezsign.Gadget.Limiter.{AttemptLimiter, new_attempt_limiter, allow, throttled, valid, refuse}
use tezsign.Gadget.Limiter.Window.{run, count_within, last_of, grants_bounded}
use tezsign.Prelude.{ap, true, false, none, List, ℕ, Bool, replicate}
use tezsign.Prelude.Bytes.{bytes_eq, codes}
use tezsign.Gadget.Handlers.{
  Device, World, Request, Response, other, sign_request, signature, handle_request, handle_sign,
  sign_response,
}
use tezsign.Gadget.Handlers.Interfaces.{Allowed, signature-Allowed}
use tezsign.Keychain.Key.{new_gkey}
use tezsign.Keychain.Ring.{ring_sign, get_by_tz4, from_key}
use tezsign.Keychain.HwmWorker.Fresh.{no_faults}
use tezsign.Keychain.Tests.Setup.{open_cipher, plain_signer}
use tezsign.Keychain.Tests.Decoding.{vote_bytes}
use tezsign.Keychain.Tests.States.{address, some_nonce}
use tezsign.Keychain.Tests.Requests.{sound_write, signed_vote, two_keys}

-- Two attempts in any ten.
abbrev full_limiter : AttemptLimiter
full_limiter = record { window = 10; max = 2; attempts = 1 ∷ 4 ∷ [] }

throttles : (allow 5 full_limiter).1 ≡ throttled 6
unfolding allow valid refuse
throttles = refl

grants_bounded_example :
    count_within 10
      (last_of 0 (1 ∷ 4 ∷ 5 ∷ 12 ∷ []))
      (run (1 ∷ 4 ∷ 5 ∷ 12 ∷ []) (new_attempt_limiter 2 10) []).1
    ≤ 2
grants_bounded_example =
    grants_bounded 2 10 0 (1 ∷ 4 ∷ 5 ∷ 12 ∷ [])
      (omega arith, (omega arith, (omega arith, (omega arith, tt))))

abbrev pub device : Device
device = record { ring = two_keys; disk = λ id. none; limiter = full_limiter }

abbrev pub world : World
world = record {
  now = 5;
  env = sound_write;
  has_key = λ id. true;
  secrets = λ id pass. none;
  faults = λ id. no_faults;
  random = none;
  close_fails = false;
  removed = λ id. true;
  password_is_right = λ pass. true;
  normalize_id = λ id. id;
}

abbrev pub silent : Request → Device → Device × Response
silent r d = (d, other [])

answers_vote :
    (handle_request open_cipher plain_signer world silent
      (sign_request address vote_bytes)
      device).1
    ≡ signature (0 ∷ vote_bytes)
unfolding handle_request handle_sign ring_sign get_by_tz4 new_gkey bytes_eq sign_response from_key
answers_vote = ap (λ r. sign_response (from_key r)) signed_vote

signature-Allowed_example : Allowed address vote_bytes two_keys
signature-Allowed_example =
    signature-Allowed open_cipher plain_signer world silent address vote_bytes (0 ∷ vote_bytes)
      device answers_vote

abbrev new_store : FileStore
new_store = record { master = none; seed = none; keys = [] }

abbrev salt : List ℕ
salt = replicate 16 4

init_info-init_master_example :
    let r =
      handle_init_master open_cipher weak_kdf library false salt written secret_bytes some_nonce
        written true
        (codes "pw")
        new_store in
    (r.1 ≡ ok_answer)
    × (handle_init_info false false r.0 ≡ init_info_answer true true)
    × (verify_master_password open_cipher weak_kdf (codes "pw") r.0 ≡ Store.ok tt)
init_info-init_master_example =
    init_info-init_master open_cipher weak_kdf library new_store salt secret_bytes some_nonce true
      112 (119 ∷ []) false refl refl refl

half_set_up_example :
    let r =
      handle_init_master open_cipher weak_kdf library false salt written secret_bytes some_nonce
        not_written true
        (codes "pw")
        new_store in
    (r.1 ≡ error_answer 62)
    × ((salt' seed' nonce' : List ℕ) (master_write seed_write : WriteOutcome) (det' : Bool) (c' : ℕ)
          (pass' : List ℕ)
        → handle_init_master open_cipher weak_kdf library false salt' master_write seed' nonce'
            seed_write det'
            (c' ∷ pass')
            r.0
          ≡ (r.0, error_answer 61))
    × CannotCreate
        (ring_create open_cipher weak_kdf library found 2 []
          (codes "pw")
          (record ring { store = r.0 })).1
half_set_up_example =
    half_set_up open_cipher weak_kdf library new_store salt secret_bytes some_nonce true 112
      (119 ∷ []) false found 2 [] (codes "pw") ring refl refl refl
