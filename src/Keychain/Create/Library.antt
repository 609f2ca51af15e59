-- ===== src/Keychain/Create/Library.antt =====
-- What `CreateKey` of keychain/keyring.go takes from the package signer, by the definitions of Signer.
pub mod Picked
pub mod Sound
use tezsign.Prelude.{
  ℕ, zero, suc, ◌≤◌, ◌≡◌, ◌≢◌, refl, sym, arith, ◌==◌, Bool, true, false, not, ◌&&◌, List, [], ◌∷◌,
  Option, none, some, length, if◌then◌else◌, if_rule,
}
use mathlib.Core.Path.{subst}
use tezsign.Keychain.Crypto.{Gcm}
use tezsign.Keychain.Key.{new_gkey}
use tezsign.Keychain.Ring.{keys_insert}
use tezsign.Keychain.Store
use tezsign.Keychain.Store.{
  MasterFile, FileStore, StoreError, StoreResult, Kdf, key_exists, has_key, read_master,
}
use tezsign.Keychain.Store.Keys.{create_key}
use tezsign.Keychain.Store.Seed.{read_seed}
use tezsign.Keychain.Store.Seed.Size.{IsSeed, read_seed-IsSeed}
use tezsign.Keychain.Create.{
  RingState, KeyPair, Signer, CreateWorld, CreateError, invalid_key_id, exists, derive_failed,
  pop_failed, store_failed, CreateReply, created, failed, panics, out_of_fuel, Mode, random_mode,
  deterministic_mode, is_valid_id, is_empty, auto_id, Round, ends, again, Material, material,
  no_material, material_panics, derived, reserve_once, pick_pair, after_create, store_pair,
  try_candidate, create_round, create_loop, choose_mode, with_mode, ring_create,
}
use tezsign.Signer.Scalar.{Hash, Blst}
use tezsign.Signer.Text
use tezsign.Signer.Text.{
  Base58, SignerReply, public_key_from_secret, generate_random_key, tz4_from_bl_pubkey_bytes,
  sign_pop_compressed,
}
use tezsign.Signer.Hd.{HdKey, hd_key, generate_hd_key}
use tezsign.Signer.Hd.Derives.{IsAccepting, Finds, generate_hd_key-IsScalar}

module _ (h : Hash) (l : Blst) (b : Base58) where
  -- With fuel for the salts of a derivation.
  abbrev pub pair_of : SignerReply HdKey → Option KeyPair
  pair_of (Text.ok k) =
      some (record { secret = k.secret; pubkey_bytes = k.pubkey_bytes; bl_pubkey = k.bl_pubkey })
  pair_of (Text.err e) = none
  pair_of Text.out_of_fuel = none

  abbrev random_pair : List ℕ × (List ℕ × List ℕ) → KeyPair
  random_pair (sk, (pubkey, text)) = record { secret = sk; pubkey_bytes = pubkey; bl_pubkey = text }

  abbrev text_or_empty : SignerReply (List ℕ) → List ℕ
  text_or_empty (Text.ok text) = text
  text_or_empty (Text.err e) = []
  text_or_empty Text.out_of_fuel = []

  abbrev pub pop_of : SignerReply (List ℕ × List ℕ) → Option (List ℕ)
  pop_of (Text.ok (sig, text)) = some text
  pop_of (Text.err e) = none
  pop_of Text.out_of_fuel = none

  abbrev pub signer_library : ℕ → Signer
  signer_library fuel = record {
    generate_hd = λ salt seed index. pair_of (generate_hd_key h l b fuel salt seed index);
    generate_random = λ ikm. random_pair (generate_random_key h b l ikm);
    tz4_from = λ pubkey. text_or_empty (tz4_from_bl_pubkey_bytes h b pubkey);
    sign_pop = λ pair. pop_of (sign_pop_compressed h b l pair.secret pair.pubkey_bytes);
  }
