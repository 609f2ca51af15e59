-- ===== src/Signer/Tests.antt =====
-- Runs of signer/ with constant hashes.
use tezsign.Prelude.{ℕ, ◌≡◌, refl, arith, true, List, [], some, replicate, take}
use tezsign.Signer.Scalar.{Hash, Blst, set_bytes, bls12381_r}
use tezsign.Signer.Text.{Base58, ok}
use tezsign.Signer.Hd.{hkdf_extract, hkdf_expand, hd_key, generate_hd_key}
use tezsign.Signer.Hd.Expand.{block, blocks, hkdf_expand_lem}
use tezsign.Signer.Hd.Derives.{IsScalar, IsAccepting, Finds, finds, generate_hd_key-IsScalar}

abbrev pub constant : Hash
constant = record {
  sha256 = λ bytes. replicate 32 1;
  hmac = λ key bytes. replicate 32 1;
  blake2b_160 = λ bytes. replicate 20 1;
  length-sha256 = λ bytes. refl;
  length-hmac = λ key bytes. refl;
}

abbrev pub plain_text : Base58
plain_text = record {
  encode = λ bytes. bytes;
  decode = λ text. some text;
  decode-encode = λ bytes. refl;
}

abbrev pub open_library : Blst
open_library = record {
  valid_scalar = λ le. true;
  key_gen = λ ikm. ikm;
  public_key = λ sk. replicate 48 2;
  sign = λ sk msg dst. replicate 96 3;
  length-public_key = λ sk. refl;
}

pub accepting : IsAccepting open_library
accepting = record { accepts = λ le x. refl }

abbrev some_secret : List ℕ
some_secret = replicate 32 5

hkdf_expand_lem_example :
    hkdf_expand constant some_secret [] 48 ≡ some (take 48 (blocks constant some_secret [] 2))
hkdf_expand_lem_example =
    hkdf_expand_lem constant some_secret [] 48 2 (omega arith) (omega arith) (omega arith)

pub always_finds : (salt : List ℕ) → Finds constant open_library accepting 1 salt
unfolding finds blocks block set_bytes hkdf_extract bls12381_r
always_finds salt ikm = refl

generate_hd_key-IsScalar_example :
    (le : List ℕ) × (generate_hd_key constant open_library plain_text 1 [] some_secret 1
      ≡ ok (hd_key constant open_library plain_text le))
    × IsScalar le
generate_hd_key-IsScalar_example =
    generate_hd_key-IsScalar constant open_library accepting 1 [] plain_text some_secret 1
      (always_finds []) (omega arith)
