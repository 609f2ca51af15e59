-- ===== src/Keychain/Crypto.antt =====
-- What the keychain takes from Go's crypto packages: AES-GCM as an interface with its documented
-- laws, and the IEEE checksum of hash/crc32, which is computed.
use tezsign.Prelude.{
  ℕ, zero, suc, ◌+◌, ◌/◌, ◌%◌, ◌^◌, ◌≡◌, Bool, ◌||◌, List, [], ◌∷◌, Option, some, length, bit_xor,
  ◌==◌, if◌then◌else◌,
}

-- `seal key nonce plain aad` and `unseal key nonce ciphertext aad` of a cipher.AEAD over AES.
pub record Gcm : Type 0 where
  pub seal : List ℕ → List ℕ → List ℕ → List ℕ → List ℕ
  pub unseal : List ℕ → List ℕ → List ℕ → List ℕ → Option (List ℕ)
  pub unseal-seal :
      (key nonce plain aad : List ℕ) → unseal key nonce (seal key nonce plain aad) aad ≡ some plain
  pub length-seal :
      (key nonce plain aad : List ℕ) → length (seal key nonce plain aad) ≡ length plain + 16

-- `newAESGCM` of keychain/store.go succeeds: aes.NewCipher takes keys of three sizes.
unfoldable pub is_aes_key : List ℕ → Bool
is_aes_key key = length key == 16 || length key == 24 || length key == 32

crc_bits : ℕ → ℕ → ℕ
crc_bits zero c = c
crc_bits (suc k) c = crc_bits k (if c % 2 == 1 then bit_xor (c / 2) 0xedb88320 else c / 2)

crc_bytes : ℕ → List ℕ → ℕ
crc_bytes c [] = c
crc_bytes c (b ∷ bs) = crc_bytes (crc_bits 8 (bit_xor c b)) bs

-- crc32.ChecksumIEEE, a uint32.
unfoldable pub checksum_ieee : List ℕ → ℕ
unfolding crc_bits crc_bytes
checksum_ieee bs = bit_xor (crc_bytes 0xffffffff bs) 0xffffffff % 2 ^ 32
