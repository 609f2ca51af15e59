-- ===== src/Signer/Hd/Derives.antt =====
-- The derivation of a key from a seed gives a scalar of the field.
use tezsign.Prelude.{
  ℕ, zero, suc, ◌%◌, ◌≤◌, ◌<◌, ◌≡◌, refl, ap, ◌∙◌, arith, Bool, true, false, not, ◌||◌, List, [],
  ◌∷◌, ◌++◌, some, length, take, length-append, ◌==◌, ltb-false,
}
use tezsign.Prelude.Bytes.{put_be32}
use tezsign.Signer.Scalar.{
  Hash, Blst, set_bytes, fill_bytes, be_to_le32, bls12381_r, length-be_to_le32,
  be_to_le32-be_to_le32, length-fill_bytes, set_bytes-fill_bytes, pow256,
}
use tezsign.Signer.Text.{Base58, SignerReply, ok}
use tezsign.Signer.Hd.{
  HdParams, hkdf_extract, modulo, candidate, load_scalar, or_next, mod_r_loop, hkdf_mod_r,
  tez_sign_hd_params, derive_master_sk, derive_child_sk, path_from, derive_path_sk, hd_key,
  generate_hd_key,
}
use tezsign.Signer.Hd.Expand.{blocks, hkdf_expand_lem}

-- The number that a secret key stands for.
abbrev pub value : List ℕ → ℕ
value le = set_bytes 0 (be_to_le32 le)

pub record IsScalar (le : List ℕ) : Type 0 where
  pub size : length le ≡ 32
  pub positive : 0 < value le
  pub below : value le < bls12381_r

-- FromLEndian takes every scalar of the field but zero.
pub record IsAccepting (l : Blst) : Type 0 where
  pub accepts : (le : List ℕ) → IsScalar le → l.valid_scalar le ≡ true

module _ (h : Hash) where
  -- The candidate of a salt, for these key bytes.
  abbrev first : List ℕ → List ℕ → ℕ
  first salt ikm = set_bytes 0 (take 48 (blocks h (hkdf_extract h salt ikm) [] 2)) % bls12381_r

  -- One of the first salts, as many as there is fuel, gives a candidate that is not zero.
  unfoldable pub finds : ℕ → List ℕ → List ℕ → Bool
  finds zero salt ikm = false
  finds (suc fuel) salt ikm = not (first salt ikm == 0) || finds fuel (h.sha256 salt) ikm

  candidate_lem : (salt ikm : List ℕ) → candidate h bls12381_r salt ikm ≡ some (first salt ikm)
  unfolding candidate modulo
  candidate_lem salt ikm = ap (modulo h bls12381_r) (
      hkdf_expand_lem h (hkdf_extract h salt ikm) [] 48 2 (omega arith) (omega arith) (omega arith))

  not_zero : (k : ℕ) → (k == 0) ≡ false → 0 < k
  not_zero zero e = absurd (cc)
  not_zero (suc k) e = omega arith

  r_positive : 0 < bls12381_r
  unfolding bls12381_r
  r_positive = omega arith

  r_small : bls12381_r < pow256 32
  unfolding bls12381_r
  r_small = omega arith

  first_below : (salt ikm : List ℕ) → first salt ikm < bls12381_r
  first_below salt ikm = below _ bls12381_r r_positive
    where
      below : (n r : ℕ) → 0 < r → n % r < r
      below n r pos = omega arith

  module _ (l : Blst) (accepting : IsAccepting l) where
    abbrev Loaded : SignerReply (List ℕ) → Type 0
    Loaded r = (le : List ℕ) × (r ≡ ok le) × IsScalar le

    fill_bytes-IsScalar : (k : ℕ) → 0 < k → k < bls12381_r → IsScalar (be_to_le32 (fill_bytes 32 k))
    fill_bytes-IsScalar k pos small = record {
      size = length-be_to_le32 (fill_bytes 32 k) (length-fill_bytes 32 k);
      positive = rw (is_k) pos;
      below = rw (is_k) small;
    }
      where
        wide : (p : ℕ) → bls12381_r < p → k < p
        wide p room = omega arith

        is_k : value (be_to_le32 (fill_bytes 32 k)) ≡ k
        is_k =
            ap (set_bytes 0) (be_to_le32-be_to_le32 (fill_bytes 32 k) (length-fill_bytes 32 k))
            ∙ set_bytes-fill_bytes 32 k (wide (pow256 32) r_small)

    load_scalar_lem : (k : ℕ) → 0 < k → k < bls12381_r → Loaded (load_scalar h l k)
    unfolding load_scalar
    load_scalar_lem k pos small =
        let x = fill_bytes-IsScalar k pos small in
        (be_to_le32 (fill_bytes 32 k), rw (accepting.accepts _ x) refl, x)

    or_next_lem :
        (k : ℕ) (next : SignerReply (List ℕ)) (found : Bool)
        → k < bls12381_r
        → (found ≡ true → Loaded next)
        → (t : Bool) → (k == 0) ≡ t
        → (not t || found) ≡ true
        → Loaded (or_next h l (some k) next)
    unfolding or_next
    or_next_lem k next found small go true is e = rw (is) (go e)
    or_next_lem k next found small go false is e = rw (is) (load_scalar_lem k (not_zero k is) small)

    mod_r_loop_lem :
        (fuel : ℕ) (salt ikm : List ℕ)
        → finds fuel salt ikm ≡ true
        → Loaded (mod_r_loop h l fuel bls12381_r salt ikm)
    unfolding mod_r_loop finds
    mod_r_loop_lem zero salt ikm e = absurd (cc)
    mod_r_loop_lem (suc fuel) salt ikm e = rw (candidate_lem salt ikm) (
        or_next_lem (first salt ikm) (mod_r_loop h l fuel bls12381_r (h.sha256 salt) ikm)
          (finds fuel (h.sha256 salt) ikm) (first_below salt ikm)
          (λ found. mod_r_loop_lem fuel (h.sha256 salt) ikm found) (first salt ikm == 0) refl e)

    module _ (fuel : ℕ) (master_salt : List ℕ) where
      abbrev params : HdParams
      params = tez_sign_hd_params h master_salt

      -- Whatever the key bytes are, the salts of a derivation give a candidate before the fuel ends.
      abbrev pub Finds : Type 0
      Finds = (ikm : List ℕ) → finds fuel params.salt ikm ≡ true

      r_not_zero : (bls12381_r == 0) ≡ false
      unfolding bls12381_r
      r_not_zero = refl

      hkdf_mod_r_lem :
          (ikm : List ℕ) → Finds → 32 ≤ length ikm → Loaded (hkdf_mod_r h l fuel ikm params)
      unfolding hkdf_mod_r tez_sign_hd_params
      hkdf_mod_r_lem ikm found long =
          rw (r_not_zero, ltb-false (length ikm) 32 long)
            (mod_r_loop_lem fuel params.salt ikm (found ikm))

      derive_child_sk_lem :
          (le : List ℕ) (index : ℕ)
          → Finds
          → IsScalar le
          → Loaded (derive_child_sk h l fuel (some le) index params)
      unfolding derive_child_sk
      derive_child_sk_lem le index found x =
          rw (x.size) (hkdf_mod_r_lem (be_to_le32 le ++ put_be32 index) found long)
        where
          long : 32 ≤ length (be_to_le32 le ++ put_be32 index)
          long =
              rw (length-append (be_to_le32 le) (put_be32 index), length-be_to_le32 le x.size)
                (omega arith)

      path_from_lem :
          (path le : List ℕ) → Finds → IsScalar le → Loaded (path_from h l fuel le path params)
      unfolding path_from
      path_from_lem [] le found x = (le, refl, x)
      path_from_lem (i ∷ path) le found x =
          let (child, is, y) = derive_child_sk_lem le i found x in
          rw (is) (path_from_lem path child found y)

      -- With a library that takes every scalar of the field but zero, a seed of 32 bytes at least and enough
      -- salts that give a candidate, GenerateHDKey succeeds for every index: its secret key is a scalar
      -- of the field that is not zero, with its public key and the text of that.
      pub generate_hd_key-IsScalar :
          (b : Base58) (seed : List ℕ) (index : ℕ)
          → Finds
          → 32 ≤ length seed
          → (le : List ℕ) × (generate_hd_key h l b fuel master_salt seed index
              ≡ ok (hd_key h l b le))
            × IsScalar le
      unfolding generate_hd_key derive_master_sk derive_path_sk
      generate_hd_key-IsScalar b seed index found long =
          let (master, is, x) = hkdf_mod_r_lem seed found long in
          let (child, is', y) = path_from_lem (12381 ∷ 1729 ∷ 0 ∷ 0 ∷ index ∷ []) master found x in
          (child, rw (is) (rw (is') refl), y)
