-- ===== src/Keychain/Store/Seed/Size.antt =====
-- A seed that is read has 32 bytes.
use tezsign.Prelude.{
  ℕ, ◌+◌, ◌≡◌, Bool, not, List, take, drop, length, ltb, ◌==◌, ==_iff, if_rule, not-false,
}
use tezsign.Keychain.Crypto.{Gcm}
use tezsign.Keychain.Store.{
  FileStore, StoreResult, ok, err, panic, ◌>>=◌, Kdf, seed_corrupted, from_file, derive_kek,
  open_sealed, master_aad,
}
use tezsign.Keychain.Store.Seed.{read_seed}

abbrev SeedSize : StoreResult (Bool × List ℕ) → Type 0
SeedSize (ok (enabled, seed)) = length seed ≡ 32
SeedSize r = Unit

pub record IsSeed (r : StoreResult (Bool × List ℕ)) : Type 0 where
  pub size : SeedSize r

bind-IsSeed :
    {A : Type 0} (r : StoreResult A) (f : A → StoreResult (Bool × List ℕ))
    → ((a : A) → IsSeed (f a))
    → IsSeed (r >>= f)
bind-IsSeed (ok a) f h = h a
bind-IsSeed (err e) f h = record { size = tt }
bind-IsSeed panic f h = record { size = tt }

pub read_seed-IsSeed :
    (gcm : Gcm) (kdf : Kdf) (password : List ℕ) (s : FileStore)
    → IsSeed (read_seed gcm kdf password s)
unfolding read_seed
read_seed-IsSeed gcm kdf password s = bind-IsSeed (from_file s.seed) _ λ bs.
    if_rule IsSeed (ltb (length bs) (1 + 12 + 16)) _ _ (λ _. record { size = tt })
      λ _. bind-IsSeed (derive_kek kdf password s) _ λ k.
        bind-IsSeed
          (open_sealed gcm seed_corrupted k.0 (take 12 (drop 1 bs)) (drop 13 bs) (master_aad k.1)) _
          λ seed.
            if_rule IsSeed (not (length seed == 32)) _ _ (λ _. record { size = tt })
              λ e. record { size = (==_iff (length seed) 32).0 (not-false _ e) }
