-- ===== src/Keychain/Create/Library/Picked.antt =====
-- What `CreateKey` picks over the package signer.
use tezsign.Prelude.{
  ℕ, ◌≡◌, ◌≢◌, sym, arith, ◌==◌, true, not, List, Option, none, some, length, if_rule,
}
use mathlib.Core.Path.{subst}
use tezsign.Keychain.Crypto.{Gcm}
use tezsign.Keychain.Store
use tezsign.Keychain.Store.{
  MasterFile, FileStore, StoreError, StoreResult, Kdf, key_exists, has_key, read_master,
}
use tezsign.Keychain.Create.{
  KeyPair, Signer, CreateWorld, CreateError, derive_failed, pop_failed, Mode, random_mode,
  deterministic_mode, Material, material, no_material, material_panics, derived, reserve_once,
  pick_pair,
}
use tezsign.Signer.Scalar.{Hash, Blst}
use tezsign.Signer.Text.{Base58, public_key_from_secret, generate_random_key, sign_pop_compressed}
use tezsign.Signer.Hd.{hd_key, generate_hd_key}
use tezsign.Signer.Hd.Derives.{IsAccepting, Finds, generate_hd_key-IsScalar}
use tezsign.Keychain.Create.Library.{pair_of, pop_of, signer_library}

-- An error that is not of the package signer.
abbrev pub IsOfStore : CreateError → Type 0
IsOfStore derive_failed = ⊥
IsOfStore pop_failed = ⊥
IsOfStore e = Unit

module _ (gcm : Gcm) (kdf : Kdf) (w : CreateWorld) (h : Hash) (l : Blst) (b : Base58)
    (accepting : IsAccepting l) (salts : ℕ) where
  abbrev pub lib : Signer
  lib = signer_library h l b salts

  -- What is picked is a pair that a proof of possession can be made of, or the store's error.
  abbrev pub Picked : Material → Type 0
  Picked (material pair) = length pair.pubkey_bytes ≡ 48
  Picked (no_material e) = IsOfStore e
  Picked material_panics = Unit

  pub record IsPicked (m : Material) : Type 0 where
    pub picked : Picked m

  abbrev pub IsSeeded : Mode → Type 0
  IsSeeded random_mode = Unit
  IsSeeded (deterministic_mode salt seed) = (length seed ≡ 32) × Finds h l accepting salts salt

  abbrev HasKey : Option KeyPair → Type 0
  HasKey none = ⊥
  HasKey (some pair) = length pair.pubkey_bytes ≡ 48

  generate_hd-HasKey :
      (salt seed : List ℕ) (index : ℕ)
      → length seed ≡ 32
      → Finds h l accepting salts salt
      → HasKey (pair_of h l b (generate_hd_key h l b salts salt seed index))
  unfolding hd_key public_key_from_secret
  generate_hd-HasKey salt seed index size found =
      let (le, is, x) =
        generate_hd_key-IsScalar h l accepting salts salt b seed index found
          (rw (size) (omega arith)) in
      subst (λ r. HasKey (pair_of h l b r)) (sym is) (l.length-public_key le)

  derived-IsPicked :
      (salt seed : List ℕ) (reserved : Option ℕ) (r : FileStore × StoreResult ℕ)
      → length seed ≡ 32
      → Finds h l accepting salts salt
      → IsPicked (derived gcm kdf lib w salt seed reserved r).1.1
  unfolding derived
  derived-IsPicked salt seed reserved (s, Store.err e) size found = record { picked = tt }
  derived-IsPicked salt seed reserved (s, Store.panic) size found = record { picked = tt }
  derived-IsPicked salt seed reserved (s, Store.ok index) size found =
      go (lib.generate_hd salt seed index) (generate_hd-HasKey salt seed index size found)
    where
      go :
          (o : Option KeyPair)
          → HasKey o
          → IsPicked (elim o [ none ↦ no_material derive_failed | some pair ↦ material pair ])
      go none x = absurd x
      go (some pair) x = record { picked = x }

  pub pick_pair-IsPicked :
      (mode : Mode) (reserved : Option ℕ) (s : FileStore)
      → IsSeeded mode
      → IsPicked (pick_pair gcm kdf lib w mode reserved s).1.1
  unfolding pick_pair generate_random_key public_key_from_secret
  pick_pair-IsPicked random_mode reserved s seeded = record {
    picked = l.length-public_key (l.key_gen w.key_bytes);
  }
  pick_pair-IsPicked (deterministic_mode salt seed) reserved s seeded =
      derived-IsPicked salt seed reserved (reserve_once gcm kdf lib w reserved s) (seeded.0)
        (seeded.1)

  pub sign_pop-some : (pair : KeyPair) → length pair.pubkey_bytes ≡ 48 → lib.sign_pop pair ≢ none
  unfolding sign_pop_compressed
  sign_pop-some pair size =
      if_rule (λ r. pop_of h l b r ≢ none) (not (length pair.pubkey_bytes == 48)) _ _
        (λ wrong. absurd (refuted (subst (λ n. not (n == 48) ≡ true) size wrong))) λ _ e. cc
    where
      refuted : not (48 == 48) ≡ true → ⊥
      refuted e = cc
