-- ===== src/Keychain/Key/Life/Log.antt =====
-- What a log of released signatures has to do with the marks of a key, and how a call extends it.
use tezsign.Prelude.{
  ℕ, ◌+◌, ◌^◌, ◌<◌, ◌≡◌, inr, refl, ap, sym, ◌∙◌, arith, List, [], ◌∷◌, ◌++◌, some, All,
}
use mathlib.Core.Path.{subst, subst₂}
use tezsign.Keychain.Kinds.{
  SignKind, block, preattestation, attestation, HighWatermark, get_kind, AtLeast, Above,
  to_key_state,
}
use tezsign.Keychain.Decode
use tezsign.Keychain.Decode.{Payload, Outcome, decode_and_validate_sign_payload}
use tezsign.Keychain.KeyState.{KeyState}
use tezsign.Keychain.KeyState.Marks.{mark_at}
use tezsign.Keychain.KeyState.RoundTrip.{IsEncodable}
use tezsign.Keychain.HwmFile.Recovery.{Covers, HasRoom}
use tezsign.Keychain.Key.{GKey, Reply, ok, err, no_return, key_state_snapshot}
use tezsign.Keychain.Crypto.{Gcm}
use tezsign.Keychain.Key.{Env}
use tezsign.Keychain.Key.Signing.{mark_of_payload, SignPost}
use tezsign.Keychain.Key.History.{
  Signed, released, Grows, Grows-signed, Grows-same, Above-trans, get_kind-set_kind,
}
use tezsign.Keychain.Key.Life.{IsBounded, Climbing}

-- Every signature's mark is at most the one that is kept for its kind.
abbrev pub IsLogged : KeyState → List Signed → Type 0
IsLogged floor log =
    All (λ x. AtLeast (mark_of_payload x.payload) (mark_at (some floor) x.payload.kind)) log

AtLeast-trans : (a b c : HighWatermark) → AtLeast a b → AtLeast b c → AtLeast a c
AtLeast-trans a b c h g = ground arith

pub IsLogged-lift :
    (f g : KeyState) (log : List Signed) → Covers f g → IsLogged f log → IsLogged g log
IsLogged-lift f g [] c all = tt
IsLogged-lift f g (x ∷ log) c (h, all) =
    (AtLeast-trans _ _ _ h (c x.payload.kind), IsLogged-lift f g log c all)

pub snapshot_mark :
    (k : GKey) (kind : SignKind)
    → mark_at (some (key_state_snapshot k)) kind ≡ get_kind k.watermark kind
unfolding key_state_snapshot to_key_state
snapshot_mark k block = refl
snapshot_mark k preattestation = refl
snapshot_mark k attestation = refl

pub Grows-Covers :
    (k k' : GKey) → Grows k k' → Covers (key_state_snapshot k) (key_state_snapshot k')
Grows-Covers k k' g kind =
    subst₂ AtLeast (sym (snapshot_mark k kind)) (sym (snapshot_mark k' kind)) (g kind)

pub bounded-HasRoom : (k : GKey) → IsBounded k → HasRoom (key_state_snapshot k)
unfolding key_state_snapshot to_key_state
bounded-HasRoom k b block = b.level block
bounded-HasRoom k b preattestation = b.level preattestation
bounded-HasRoom k b attestation = b.level attestation

pub bounded-IsEncodable :
    (k : GKey) → IsBounded k → IsEncodable (some (key_state_snapshot k)) k.hwm_seq
unfolding key_state_snapshot to_key_state
bounded-IsEncodable k b = record {
  block_fits = (lower (b.level block), b.round block);
  preattestation_fits = (lower (b.level preattestation), b.round preattestation);
  attestation_fits = (lower (b.level attestation), b.round attestation);
  seq_fits = lower b.seq;
}
  where
    lower : {n : ℕ} → n + 1 < 2 ^ 64 → n < 2 ^ 64
    lower h = omega arith

-- A signature lies above all that are logged at the marks it rises from.
climbs :
    (k : GKey) (x : Signed) (log : List Signed)
    → IsLogged (key_state_snapshot k) log
    → Above (get_kind k.watermark x.payload.kind) (mark_of_payload x.payload)
    → All
        (λ old.
          old.payload.kind ≡ x.payload.kind
          → Above (mark_of_payload old.payload) (mark_of_payload x.payload))
        log
climbs k x [] all up = tt
climbs k x (old ∷ log) (h, all) up = (
  λ same.
      Above-trans (mark_of_payload old.payload) (get_kind k.watermark x.payload.kind)
        (mark_of_payload x.payload)
        (subst (AtLeast (mark_of_payload old.payload))
          (snapshot_mark k old.payload.kind ∙ ap (get_kind k.watermark) same) h)
        up,
  climbs k x log all up,
)

-- The log after a call of `signAndUpdate`, against the marks after it.
abbrev pub LogsOn : KeyState → List Signed → Type 0
LogsOn floor log = IsLogged floor log × Climbing log

pub signed-LogsOn :
    (gcm : Gcm) (id : List ℕ) (env : Env) (k k' : GKey) (o : Outcome Payload)
    (reply : Reply (List ℕ)) (log : List Signed)
    → SignPost gcm id env k o (k', reply)
    → LogsOn (key_state_snapshot k) log
    → LogsOn (key_state_snapshot k') (released o reply [] ++ log)
signed-LogsOn gcm id env k k' (Decode.ok p) (ok sig) log (up, sound, e, sound', w) (all, climbing) =
    (
      (
        subst (AtLeast (mark_of_payload p))
            (sym (
              snapshot_mark k' p.kind
              ∙ ap (λ m. get_kind m p.kind) e
              ∙ get_kind-set_kind k.watermark p.kind (mark_of_payload p)))
            (inr (refl, omega arith)),
        IsLogged-lift _ _ log (Grows-Covers k k' (Grows-signed k k' p up e)) all,
      ),
      (climbs k (record { payload = p; signature = sig }) log all up, climbing),
    )
signed-LogsOn gcm id env k k' (Decode.ok p) (err x) log (e, c) (all, climbing) =
    (IsLogged-lift _ _ log (Grows-Covers k k' (Grows-same k k' e)) all, climbing)
signed-LogsOn gcm id env k k' (Decode.ok p) no_return log e (all, climbing) = (
  IsLogged-lift _ _ log (Grows-Covers k k' (Grows-same k k' (ap (λ t. t.watermark) e))) all,
  climbing,
)
signed-LogsOn gcm id env k k' (Decode.err x) reply log e (all, climbing) = (
  IsLogged-lift _ _ log (Grows-Covers k k' (Grows-same k k' (ap (λ t. t.0.watermark) e))) all,
  climbing,
)
signed-LogsOn gcm id env k k' Decode.panic reply log e (all, climbing) = (
  IsLogged-lift _ _ log (Grows-Covers k k' (Grows-same k k' (ap (λ t. t.0.watermark) e))) all,
  climbing,
)

pub marks_kept :
    (k : GKey) (log : List Signed)
    → IsLogged (key_state_snapshot k) log
    → All (λ x. AtLeast (mark_of_payload x.payload) (get_kind k.watermark x.payload.kind)) log
marks_kept k [] all = tt
marks_kept k (x ∷ log) (h, all) = (
  subst (AtLeast (mark_of_payload x.payload)) (snapshot_mark k x.payload.kind) h,
  marks_kept k log all,
)
