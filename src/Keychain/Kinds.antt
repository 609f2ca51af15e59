-- ===== src/Keychain/Kinds.antt =====
-- The kinds of signed payloads and the marks kept for each (keychain/keyring.go, and the messages
-- of keychain/state.pb.go). A map with the three kinds for its keys is a record of three values.
use tezsign.Prelude.{ℕ, ◌≤◌, ◌<◌, ◌≡◌, ◌⊎◌}

-- SIGN_KIND. UNSPECIFIED is returned with errors only, where the value is not used.
pub data SignKind : Type 0 where
  block preattestation attestation : SignKind

pub record HighWatermark : Type 0 where
  pub level : ℕ
  pub round : ℕ

pub record KindState : Type 0 where
  pub level : ℕ
  pub round : ℕ

abbrev pub zero_watermark : HighWatermark
zero_watermark = record { level = 0; round = 0 }

unfoldable pub to_key_state : HighWatermark → KindState
to_key_state hw = record { level = hw.level; round = hw.round }

pub record ByKind (A : Type 0) : Type 0 where
  pub for_block : A
  pub for_preattestation : A
  pub for_attestation : A

abbrev pub get_kind : {A : Type 0} → ByKind A → SignKind → A
get_kind m block = m.for_block
get_kind m preattestation = m.for_preattestation
get_kind m attestation = m.for_attestation

abbrev pub set_kind : {A : Type 0} → ByKind A → SignKind → A → ByKind A
set_kind m block v = record m { for_block = v }
set_kind m preattestation v = record m { for_preattestation = v }
set_kind m attestation v = record m { for_attestation = v }

-- A loop over `allSignKinds` that writes one entry each time round.
abbrev pub for_all_kinds : {A : Type 0} → (SignKind → A) → ByKind A
for_all_kinds f = record {
  for_block = f block;
  for_preattestation = f preattestation;
  for_attestation = f attestation;
}

-- The order in which watermarks may only grow: by level, then by round.
abbrev pub Above : HighWatermark → HighWatermark → Type 0
Above old new = (old.level < new.level) ⊎ ((old.level ≡ new.level) × (old.round < new.round))

abbrev pub AtLeast : HighWatermark → HighWatermark → Type 0
AtLeast old new = (old.level < new.level) ⊎ ((old.level ≡ new.level) × (old.round ≤ new.round))

-- What holds of each kind holds of all.
pub every_kind {ℓ} :
    (P : SignKind → Type ℓ)
    → P block
    → P preattestation
    → P attestation
    → (kind : SignKind) → P kind
every_kind P b p a block = b
every_kind P b p a preattestation = p
every_kind P b p a attestation = a
