-- ===== src/Signer/Text.antt =====
-- signer/signer.go: the texts of keys and addresses, and the signatures.
pub mod RoundTrip
use tezsign.Prelude.{
  ℕ, ◌+◌, ◌-◌, ◌≡◌, Bool, true, false, ◌&&◌, List, [], ◌∷◌, ◌++◌, Option, none, some, length, take,
  drop, ◌==◌, ltb, if◌then◌else◌, not,
}
use tezsign.Prelude.Bytes.{codes, bytes_eq}
use tezsign.Signer.Scalar.{Hash, Blst}

-- The package base58.
pub record Base58 : Type 0 where
  pub encode : List ℕ → List ℕ
  pub decode : List ℕ → Option (List ℕ)
  pub decode-encode : (bytes : List ℕ) → decode (encode bytes) ≡ some bytes

pub data SignerError : Type 0 where
  missing_field_order ikm_invalid load_scalar_failed nil_parent parent_scalar_size nil_master :
      SignerError
  bad_base58 pubkey_size secret_too_short bad_prefix payload_size scalar_invalid : SignerError

-- `out_of_fuel` is a loop that goes on.
pub data SignerReply {ℓ} (A : Type ℓ) : Type ℓ where
  ok : A → SignerReply A
  err : SignerError → SignerReply A
  out_of_fuel : SignerReply A

abbrev pub pfx_bl_pubkey : List ℕ
pfx_bl_pubkey = 6 ∷ 149 ∷ 135 ∷ 204 ∷ []

abbrev pub pfx_bl_signature : List ℕ
pfx_bl_signature = 40 ∷ 171 ∷ 64 ∷ 207 ∷ []

abbrev pub pfx_tz4 : List ℕ
pfx_tz4 = 6 ∷ 161 ∷ 166 ∷ []

abbrev pub pfx_bl_secret_key : List ℕ
pfx_bl_secret_key = 3 ∷ 150 ∷ 192 ∷ 40 ∷ []

abbrev pub dst_min_pk : List ℕ
dst_min_pk = codes "BLS_SIG_BLS12381G2_XMD:SHA-256_SSWU_RO_POP_"

abbrev pub dst_tez_pop : List ℕ
dst_tez_pop = codes "BLS_POP_BLS12381G2_XMD:SHA-256_SSWU_RO_POP_"

module _ (h : Hash) (b : Base58) where
  unfoldable pub b58_check_encode : List ℕ → List ℕ → List ℕ
  b58_check_encode prefix payload =
      let buf = prefix ++ payload in b.encode (buf ++ take 4 (h.sha256 (h.sha256 buf)))

  unfoldable pub tz4_from_bl_pubkey_bytes : List ℕ → SignerReply (List ℕ)
  unfolding b58_check_encode
  tz4_from_bl_pubkey_bytes pubkey =
      if not (length pubkey == 48)
      then err pubkey_size
      else ok (b58_check_encode pfx_tz4 (h.blake2b_160 pubkey))

  unfoldable pub encode_bl_pubkey : List ℕ → SignerReply (List ℕ)
  unfolding b58_check_encode
  encode_bl_pubkey pubkey =
      if not (length pubkey == 48)
      then err pubkey_size
      else ok (b58_check_encode pfx_bl_pubkey pubkey)

  unfoldable pub encode_bl_secret_key : List ℕ → List ℕ
  unfolding b58_check_encode
  encode_bl_secret_key sk = b58_check_encode pfx_bl_secret_key sk

  module _ (l : Blst) where
    unfoldable pub public_key_from_secret : List ℕ → List ℕ × List ℕ
    unfolding b58_check_encode
    public_key_from_secret sk =
        let pubkey = l.public_key sk in (pubkey, b58_check_encode pfx_bl_pubkey pubkey)

    -- The random bytes are the argument.
    unfoldable pub generate_random_key : List ℕ → List ℕ × (List ℕ × List ℕ)
    unfolding public_key_from_secret
    generate_random_key ikm = let sk = l.key_gen ikm in (sk, public_key_from_secret sk)

    unfoldable pub sign_compressed : List ℕ → List ℕ → List ℕ × List ℕ
    unfolding b58_check_encode
    sign_compressed sk msg =
        let sig = l.sign sk msg dst_min_pk in (sig, b58_check_encode pfx_bl_signature sig)

    unfoldable pub sign_pop_compressed : List ℕ → List ℕ → SignerReply (List ℕ × List ℕ)
    unfolding b58_check_encode
    sign_pop_compressed sk pubkey =
        if not (length pubkey == 48)
        then err pubkey_size
        else (let sig = l.sign sk pubkey dst_tez_pop in
            ok (sig, b58_check_encode pfx_bl_signature sig))

    -- Of the decoded bytes; the checksum is dropped unread.
    unfoldable pub import_raw : Option (List ℕ) → SignerReply (List ℕ)
    import_raw none = err bad_base58
    import_raw (some raw) =
        let le = drop 4 (take (length raw - 4) raw) in
        if ltb (length raw) 8
        then err secret_too_short
        else if not (bytes_eq (take 4 raw) pfx_bl_secret_key)
        then err bad_prefix
        else if not (length le == 32)
        then err payload_size
        else if l.valid_scalar le
        then ok le
        else err scalar_invalid

    unfoldable pub import_bl_secret_key : List ℕ → SignerReply (List ℕ)
    unfolding import_raw
    import_bl_secret_key text = import_raw (b.decode text)
