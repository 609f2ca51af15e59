-- ===== src/Keychain/Key/History.antt =====
-- What one key signs between two readings of its file, over any requests to sign, to set the level and
-- to lock.
use tezsign.Keychain.HwmWorker.{HwmFile}
use tezsign.Prelude.{
  Bool, Option, none, some, if_rule, ℕ, ◌<◌, ◌≡◌, inl, refl, ap, ◌∙◌, arith, List, [], ◌∷◌, All,
}
use mathlib.Core.Path.{subst}
use tezsign.Keychain.Kinds.{
  SignKind, block, preattestation, attestation, HighWatermark, ByKind, get_kind, set_kind,
  for_all_kinds, Above, AtLeast,
}
use tezsign.Keychain.Decode
use tezsign.Keychain.Decode.{Payload, Outcome, decode_and_validate_sign_payload}
use tezsign.Keychain.Crypto.{Gcm}
use tezsign.Keychain.Key.{
  GKey, Bls, Reply, ok, err, no_return, Env, lock_key, close_hwm_file, close_open_file,
  clear_sensitive_material, sign_and_update,
}
use tezsign.Keychain.Key.Signing.{mark_of_payload, SignPost, sign_and_update_post}
use tezsign.Keychain.Key.Level.{set_level, LevelPost, set_level_post}

-- The requests that reach a key, each with the outcome of its write.
pub data Request : Type 0 where
  sign : List ℕ → Env → Request
  level : ℕ → Env → Request
  lock : Bool → Request

-- A released signature, with the payload that was signed.
pub record Signed : Type 0 where
  pub payload : Payload
  pub signature : List ℕ

abbrev pub released : Outcome Payload → Reply (List ℕ) → List Signed → List Signed
released (Decode.ok p) (ok sig) rest = record { payload = p; signature = sig } ∷ rest
released (Decode.ok p) (err e) rest = rest
released (Decode.ok p) no_return rest = rest
released (Decode.err e) reply rest = rest
released Decode.panic reply rest = rest

module _ (gcm : Gcm) (bls : Bls) (id : List ℕ) where
  -- The signatures released over a history, in order.
  unfoldable pub signatures : List Request → GKey → List Signed
  signatures [] k = []
  signatures (sign raw env ∷ rs) k =
      let (k', reply) = sign_and_update gcm bls id raw env k in
      released (decode_and_validate_sign_payload raw) reply (signatures rs k')
  signatures (level l env ∷ rs) k = signatures rs (set_level gcm id env k l).0
  signatures (lock fails ∷ rs) k = signatures rs (lock_key fails k).0

-- Later signatures of the same kind lie above the first one.
abbrev pub AboveMark : SignKind → HighWatermark → Signed → Type 0
AboveMark kind mark s = s.payload.kind ≡ kind → Above mark (mark_of_payload s.payload)

abbrev pub Rising : List Signed → Type 0
Rising [] = Unit {0}
Rising (s ∷ ss) = All (AboveMark s.payload.kind (mark_of_payload s.payload)) ss × Rising ss

-- Every mark is at least what it was.
abbrev pub Grows : GKey → GKey → Type 0
Grows k k' = (kind : SignKind) → AtLeast (get_kind k.watermark kind) (get_kind k'.watermark kind)

pub Above-trans : (a b c : HighWatermark) → AtLeast a b → Above b c → Above a c
Above-trans a b c h g = ground arith

pub AtLeast-refl : (a : HighWatermark) → AtLeast a a
AtLeast-refl a = ground arith

grows_set :
    (m : ByKind HighWatermark) (k kind : SignKind) (v : HighWatermark)
    → Above (get_kind m k) v
    → AtLeast (get_kind m kind) (get_kind (set_kind m k v) kind)
grows_set m block block v h = ground arith
grows_set m block preattestation v h = ground arith
grows_set m block attestation v h = ground arith
grows_set m preattestation block v h = ground arith
grows_set m preattestation preattestation v h = ground arith
grows_set m preattestation attestation v h = ground arith
grows_set m attestation block v h = ground arith
grows_set m attestation preattestation v h = ground arith
grows_set m attestation attestation v h = ground arith

pub get_kind-set_kind :
    (m : ByKind HighWatermark) (k : SignKind) (v : HighWatermark) → get_kind (set_kind m k v) k ≡ v
get_kind-set_kind m block v = refl
get_kind-set_kind m preattestation v = refl
get_kind-set_kind m attestation v = refl

pub Grows-signed :
    (k k' : GKey) (p : Payload)
    → Above (get_kind k.watermark p.kind) (mark_of_payload p)
    → k'.watermark ≡ set_kind k.watermark p.kind (mark_of_payload p)
    → Grows k k'
Grows-signed k k' p up e kind = rw e (grows_set k.watermark p.kind kind (mark_of_payload p) up)

pub Grows-same : (k k' : GKey) → k'.watermark ≡ k.watermark → Grows k k'
Grows-same k k' e kind = rw e (AtLeast-refl (get_kind k.watermark kind))

Grows-level :
    (k k' : GKey) (l : ℕ)
    → ((kind : SignKind) → (get_kind k.watermark kind).level < l)
    → k'.watermark ≡ for_all_kinds (λ kind. record { level = l; round = 0 })
    → Grows k k'
Grows-level k k' l up e block = rw e (inl (up block))
Grows-level k k' l up e preattestation = rw e (inl (up preattestation))
Grows-level k k' l up e attestation = rw e (inl (up attestation))

pub level_Grows :
    (k k' : GKey) (l : ℕ) (reply : Reply (Unit {0})) → LevelPost k l (k', reply) → Grows k k'
level_Grows k k' l (ok u) (up, e) = Grows-level k k' l up e
level_Grows k k' l (err x) e = Grows-same k k' e
level_Grows k k' l no_return e = Grows-same k k' (ap (λ t. t.watermark) e)

lower-All :
    (kind : SignKind) (a b : HighWatermark) (ss : List Signed)
    → AtLeast a b
    → All (AboveMark kind b) ss
    → All (AboveMark kind a) ss
lower-All kind a b [] h all = tt
lower-All kind a b (s ∷ ss) h (x, xs) =
    (λ e. Above-trans a b (mark_of_payload s.payload) h (x e), lower-All kind a b ss h xs)

-- All signatures released from a key on lie above the mark that it keeps for their kind.
abbrev IsAbove : GKey → List Signed → Type 0
IsAbove k ss = (kind : SignKind) → All (AboveMark kind (get_kind k.watermark kind)) ss

lower_to : (k k' : GKey) (ss : List Signed) → Grows k k' → IsAbove k' ss → IsAbove k ss
lower_to k k' ss g h kind = lower-All kind _ _ ss (g kind) (h kind)

released-IsAbove :
    (gcm : Gcm) (id : List ℕ) (env : Env) (k k' : GKey) (o : Outcome Payload)
    (reply : Reply (List ℕ)) (rest : List Signed)
    → SignPost gcm id env k o (k', reply)
    → IsAbove k' rest
    → Rising rest
    → IsAbove k (released o reply rest) × Rising (released o reply rest)
released-IsAbove gcm id env k k' (Decode.ok p) (ok sig) rest (up, sound, e, sound', w) above
      rising =
    (first, (later, rising))
  where
    first : IsAbove k (record { payload = p; signature = sig } ∷ rest)
    first kind = (
      λ same. subst (λ q. Above (get_kind k.watermark q) (mark_of_payload p)) same up,
      lower_to k k' rest (Grows-signed k k' p up e) above kind,
    )

    later : All (AboveMark p.kind (mark_of_payload p)) rest
    later =
        subst (λ m. All (AboveMark p.kind m) rest)
          (ap (λ m. get_kind m p.kind) e ∙ get_kind-set_kind k.watermark p.kind (mark_of_payload p))
          (above p.kind)
released-IsAbove gcm id env k k' (Decode.ok p) (err x) rest (e, c) above rising =
    (lower_to k k' rest (Grows-same k k' e) above, rising)
released-IsAbove gcm id env k k' (Decode.ok p) no_return rest e above rising =
    (lower_to k k' rest (Grows-same k k' (ap (λ t. t.watermark) e)) above, rising)
released-IsAbove gcm id env k k' (Decode.err x) reply rest e above rising =
    (lower_to k k' rest (Grows-same k k' (ap (λ t. t.0.watermark) e)) above, rising)
released-IsAbove gcm id env k k' Decode.panic reply rest e above rising =
    (lower_to k k' rest (Grows-same k k' (ap (λ t. t.0.watermark) e)) above, rising)

close_open_file_lem :
    (fails : Bool) (k : GKey) (file : Option HwmFile)
    → (close_open_file fails k file).0.watermark ≡ k.watermark
unfolding close_open_file
close_open_file_lem fails k none = refl
close_open_file_lem fails k (some h) =
    if_rule (λ (r : GKey × Reply (Unit {0})). r.0.watermark ≡ k.watermark) _ _ _ (λ t. refl)
      (λ f. refl)

pub lock_watermark : (fails : Bool) (k : GKey) → (lock_key fails k).0.watermark ≡ k.watermark
unfolding lock_key close_hwm_file clear_sensitive_material
lock_watermark fails k = close_open_file_lem fails (clear_sensitive_material k) k.hwm_file

signatures-IsAbove :
    (gcm : Gcm) (bls : Bls) (id : List ℕ) (rs : List Request) (k : GKey)
    → IsAbove k (signatures gcm bls id rs k) × Rising (signatures gcm bls id rs k)
unfolding signatures
signatures-IsAbove gcm bls id [] k = (λ kind. tt, tt)
signatures-IsAbove gcm bls id (sign raw env ∷ rs) k =
    let step = sign_and_update gcm bls id raw env k in
    let (above, rising) = signatures-IsAbove gcm bls id rs step.0 in
    released-IsAbove gcm id env k step.0 (decode_and_validate_sign_payload raw) step.1 _
      (sign_and_update_post gcm bls id raw env k) above rising
signatures-IsAbove gcm bls id (level l env ∷ rs) k =
    let step = set_level gcm id env k l in
    let (above, rising) = signatures-IsAbove gcm bls id rs step.0 in
    (
      lower_to k step.0 _ (level_Grows k step.0 l step.1 (set_level_post gcm id env k l)) above,
      rising,
    )
signatures-IsAbove gcm bls id (lock fails ∷ rs) k =
    let (above, rising) = signatures-IsAbove gcm bls id rs (lock_key fails k).0 in
    (
      lower_to k (lock_key fails k).0 _ (Grows-same k (lock_key fails k).0 (lock_watermark fails k))
          above,
      rising,
    )

-- Between two readings of the key's file, over any sign, level and lock requests, whatever bytes are to
-- be signed and whichever writes fail, each released signature lies above every earlier one of its kind, by level and then
-- by round, and above the mark that the key began with.
pub signatures-Rising :
    (gcm : Gcm) (bls : Bls) (id : List ℕ) (rs : List Request) (k : GKey)
    → Rising (signatures gcm bls id rs k)
      × ((kind : SignKind)
          → All (AboveMark kind (get_kind k.watermark kind)) (signatures gcm bls id rs k))
signatures-Rising gcm bls id rs k =
    let (above, rising) = signatures-IsAbove gcm bls id rs k in (rising, above)
