-- ===== src/Signer/Hd.antt =====
-- signer/hdbls.go: keys derived from a seed.
pub mod Expand
pub mod Derives
use tezsign.Prelude.{
  ℕ, zero, suc, ◌+◌, ◌%◌, ◌≡◌, List, [], ◌∷◌, ◌++◌, Option, none, some, length, take, ◌==◌, ltb,
  if◌then◌else◌, not,
}
use tezsign.Prelude.Bytes.{codes, put_be32}
use tezsign.Signer.Scalar.{Hash, Blst, set_bytes, fill_bytes, be_to_le32, bls12381_r}
use tezsign.Signer.Text.{
  Base58, SignerError, missing_field_order, ikm_invalid, load_scalar_failed, nil_parent,
  parent_scalar_size, nil_master, SignerReply, ok, err, out_of_fuel, public_key_from_secret,
}

pub record HdParams : Type 0 where
  pub r : ℕ
  pub salt : List ℕ

abbrev pub salt_label : List ℕ
salt_label = codes "TEZSIGN-HD-V1|"

infixl 1 ◌>>=◌
abbrev pub ◌>>=◌ {ℓ κ} :
    {A : Type ℓ} {B : Type κ} → SignerReply A → (A → SignerReply B) → SignerReply B
ok a >>= f = f a
err e >>= f = err e
out_of_fuel >>= f = out_of_fuel

-- What a secret key comes to: itself, its public key and the text of that.
pub record HdKey : Type 0 where
  pub secret : List ℕ
  pub pubkey_bytes : List ℕ
  pub bl_pubkey : List ℕ

module _ (h : Hash) where
  unfoldable pub tez_sign_hd_params : List ℕ → HdParams
  tez_sign_hd_params master_salt = record {
    r = bls12381_r;
    salt = h.sha256 (salt_label ++ master_salt);
  }

  unfoldable pub hkdf_extract : List ℕ → List ℕ → List ℕ
  hkdf_extract salt ikm = h.hmac salt ikm

  unfoldable pub expand_loop : ℕ → List ℕ → List ℕ → ℕ → ℕ → List ℕ → List ℕ → Option (List ℕ)
  expand_loop zero prk info l ctr t out = none
  expand_loop (suc fuel) prk info l ctr t out =
      let t' = h.hmac prk (t ++ (info ++ (ctr ∷ []))) in
      let rest = expand_loop fuel prk info l ((ctr + 1) % 256) t' (out ++ t') in
      if ltb (length out) l then rest else some out

  unfoldable pub cut : ℕ → Option (List ℕ) → Option (List ℕ)
  cut l none = none
  cut l (some out) = some (take l out)

  -- A round adds 32 bytes, so that `l` rounds and one more are enough.
  unfoldable pub hkdf_expand : List ℕ → List ℕ → ℕ → Option (List ℕ)
  hkdf_expand prk info l = cut l (expand_loop (suc l) prk info l 1 [] [])

  unfoldable pub modulo : ℕ → Option (List ℕ) → Option ℕ
  modulo r none = none
  modulo r (some okm) = some (set_bytes 0 okm % r)

  -- `OS2IP(okm) mod r`.
  unfoldable pub candidate : ℕ → List ℕ → List ℕ → Option ℕ
  candidate r salt ikm = modulo r (hkdf_expand (hkdf_extract salt ikm) [] 48)

  module _ (l : Blst) where
    unfoldable pub load_scalar : ℕ → SignerReply (List ℕ)
    load_scalar k =
        let le = be_to_le32 (fill_bytes 32 k) in
        if l.valid_scalar le then ok le else err load_scalar_failed

    -- A candidate that is not zero is taken, and otherwise the loop goes on.
    unfoldable pub or_next : Option ℕ → SignerReply (List ℕ) → SignerReply (List ℕ)
    or_next none next = out_of_fuel
    or_next (some k) next = if k == 0 then next else load_scalar k

    unfoldable pub mod_r_loop : ℕ → ℕ → List ℕ → List ℕ → SignerReply (List ℕ)
    mod_r_loop zero r salt ikm = out_of_fuel
    mod_r_loop (suc fuel) r salt ikm =
        or_next (candidate r salt ikm) (mod_r_loop fuel r (h.sha256 salt) ikm)

    unfoldable pub hkdf_mod_r : ℕ → List ℕ → HdParams → SignerReply (List ℕ)
    hkdf_mod_r fuel ikm params =
        if params.r == 0
        then err missing_field_order
        else if ltb (length ikm) 32
        then err ikm_invalid
        else mod_r_loop fuel params.r params.salt ikm

    unfoldable pub derive_master_sk : ℕ → List ℕ → HdParams → SignerReply (List ℕ)
    unfolding hkdf_mod_r
    derive_master_sk fuel seed params = hkdf_mod_r fuel seed params

    -- A nil pointer is none.
    unfoldable pub derive_child_sk : ℕ → Option (List ℕ) → ℕ → HdParams → SignerReply (List ℕ)
    unfolding hkdf_mod_r
    derive_child_sk fuel none index params = err nil_parent
    derive_child_sk fuel (some le) index params =
        if not (length le == 32)
        then err parent_scalar_size
        else hkdf_mod_r fuel (be_to_le32 le ++ put_be32 index) params

    unfoldable pub path_from : ℕ → List ℕ → List ℕ → HdParams → SignerReply (List ℕ)
    unfolding derive_child_sk
    path_from fuel sk [] params = ok sk
    path_from fuel sk (i ∷ path) params =
        derive_child_sk fuel (some sk) i params >>= λ child. path_from fuel child path params

    unfoldable pub derive_path_sk : ℕ → Option (List ℕ) → List ℕ → HdParams → SignerReply (List ℕ)
    unfolding path_from
    derive_path_sk fuel none path params = err nil_master
    derive_path_sk fuel (some sk) path params = path_from fuel sk path params

    module _ (b : Base58) where
      unfoldable pub hd_key : List ℕ → HdKey
      unfolding public_key_from_secret
      hd_key sk =
          let (pubkey, text) = public_key_from_secret h b l sk in
          record { secret = sk; pubkey_bytes = pubkey; bl_pubkey = text }

      unfoldable pub generate_hd_key : ℕ → List ℕ → List ℕ → ℕ → SignerReply HdKey
      unfolding tez_sign_hd_params derive_master_sk derive_path_sk hd_key
      generate_hd_key fuel master_salt seed index =
          let params = tez_sign_hd_params master_salt in
          derive_master_sk fuel seed params >>= λ master.
          derive_path_sk fuel (some master) (12381 ∷ 1729 ∷ 0 ∷ 0 ∷ index ∷ []) params >>= λ child.
          ok (hd_key child)
