-- ===== src/Keychain/Tests/Setup.antt =====
-- A cipher and a signer that can be computed with.
use tezsign.Prelude.{
  ℕ, ◌+◌, ◌-◌, ◌≡◌, refl, arith, true, List, ◌∷◌, ◌++◌, Option, none, some, length, take, replicate,
  get_or, leb, if◌then◌else◌, length-append, take-append_exact,
}
use tezsign.Prelude.Bytes.{codes}
use tezsign.Keychain.Crypto.{Gcm, checksum_ieee}
use tezsign.Keychain.Key.{Bls}

unfoldable pub unseal_open : List ℕ → Option (List ℕ)
unseal_open ct = if leb 16 (length ct) then some (take (length ct - 16) ct) else none

pub opens : (plain : List ℕ) → unseal_open (plain ++ replicate 16 0) ≡ some plain
unfolding unseal_open
opens plain = rw (length-append plain (replicate 16 0)) (
    ground (arith, take-append_exact (length plain + 16 - 16) plain (replicate 16 0) (omega arith)))

-- A cipher with the lengths of AES-GCM, that hides nothing.
abbrev pub open_cipher : Gcm
open_cipher = record {
  seal = λ key nonce plain aad. plain ++ replicate 16 0;
  unseal = λ key nonce ct aad. unseal_open ct;
  unseal-seal = λ key nonce plain aad. opens plain;
  length-seal = λ key nonce plain aad. length-append plain (replicate 16 0);
}

-- Signing that appends the message to the first byte of the secret.
abbrev pub plain_signer : Bls
plain_signer = record {
  valid_scalar = λ le. true;
  sign_compressed = λ le bytes. get_or le 0 0 ∷ bytes;
}

-- Signatures of 96 bytes.
abbrev pub wide_signer : Bls
wide_signer = record {
  valid_scalar = λ le. true;
  sign_compressed = λ le bytes. replicate 96 (get_or le 0 0);
}

crc_check_value : checksum_ieee (codes "123456789") ≡ 0xcbf43926
unfolding checksum_ieee
crc_check_value = refl
