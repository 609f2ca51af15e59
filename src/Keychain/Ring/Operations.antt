-- ===== src/Keychain/Ring/Operations.antt =====
-- What the operations of the ring do to the keys, and that each touches one key only.
use tezsign.Prelude.{
  ℕ, ◌≡◌, ◌⊎◌, inl, inr, refl, sym, ap, ◌∙◌, Bool, true, false, Bool-cases, List, [], ◌∷◌, Option,
  none, some, if◌then◌else◌,
}
use mathlib.Core.Path.{subst}
use tezsign.Prelude.Bytes.{bytes_eq, bytes_eq→eq}
use tezsign.Prelude.Maps.{lookup, lookup-delete}
use tezsign.Keychain.Crypto.{Gcm}
use tezsign.Keychain.Key
use tezsign.Keychain.Key.{GKey, Bls, Env, Reply, sign_and_update}
use tezsign.Keychain.Ring.{
  Keys, RingReply, err, key_not_found, from_key, update, get_by_tz4, ring_sign, after_dispose,
  load_and_delete, dispose, ring_delete, remove_loaded,
}

-- Another entry is as it was.
lookup-update_other :
    (id other : List ℕ) (key : GKey) (keys : Keys)
    → bytes_eq id other ≡ false
    → lookup other (update id key keys) ≡ lookup other keys
unfolding lookup update
lookup-update_other id other key [] ne = refl
lookup-update_other id other key ((i, k) ∷ rest) ne = elim (Bool-cases (bytes_eq i id)) [
  | inl t ↦
      let same : bytes_eq i other ≡ false =
        subst (λ x. bytes_eq x other ≡ false) (sym (bytes_eq→eq i id t)) ne in
      rw t (rw same (lookup-update_other id other key rest ne))
  | inr f ↦
      rw f (
        ap (λ o. if bytes_eq i other then some k else o) (lookup-update_other id other key rest ne))
]

address_of : Option (List ℕ × GKey) → List ℕ
address_of none = []
address_of (some (id, k)) = k.tz4

get_by_tz4_lem :
    (tz4 : List ℕ) (keys : Keys) (id : List ℕ) (k : GKey)
    → get_by_tz4 tz4 keys ≡ some (id, k)
    → k.tz4 ≡ tz4
unfolding get_by_tz4 address_of
get_by_tz4_lem tz4 [] id k e = absurd (cc)
get_by_tz4_lem tz4 ((i, j) ∷ rest) id k e = elim (Bool-cases (bytes_eq j.tz4 tz4)) [
  | inl t ↦ sym (ap address_of (rw t at e)) ∙ bytes_eq→eq j.tz4 tz4 t
  | inr f ↦ get_by_tz4_lem tz4 rest id k (rw f at e)
]

-- No key of the ring has this address.
abbrev pub NoKey : List ℕ → Keys → Type 0
NoKey tz4 [] = Unit {0}
NoKey tz4 ((id, k) ∷ rest) = (bytes_eq k.tz4 tz4 ≡ false) × NoKey tz4 rest

get_by_tz4-NoKey : (tz4 : List ℕ) (keys : Keys) → get_by_tz4 tz4 keys ≡ none → NoKey tz4 keys
unfolding get_by_tz4
get_by_tz4-NoKey tz4 [] e = tt
get_by_tz4-NoKey tz4 ((i, j) ∷ rest) e = elim (Bool-cases (bytes_eq j.tz4 tz4)) [
  | inl t ↦ absurd (cc (rw t at e))
  | inr f ↦ (f, get_by_tz4-NoKey tz4 rest (rw f at e))
]

module _ (gcm : Gcm) (bls : Bls) (tz4 raw : List ℕ) (env : Env) (keys : Keys) where
  -- The key that a call signs with, what becomes of it, and of the others.
  pub record SignedWith (r : Keys × RingReply (List ℕ)) : Type 0 where
    pub id : List ℕ
    pub key : GKey
    pub is_found : get_by_tz4 tz4 keys ≡ some (id, key)
    pub has_address : key.tz4 ≡ tz4
    pub replies : r.1 ≡ from_key (sign_and_update gcm bls id raw env key).1
    pub updates : r.0 ≡ update id (sign_and_update gcm bls id raw env key).0 keys
    pub keeps_others :
        (other : List ℕ) → bytes_eq id other ≡ false → lookup other r.0 ≡ lookup other keys

  signed_with :
      (id : List ℕ) (k : GKey)
      → get_by_tz4 tz4 keys ≡ some (id, k)
      → SignedWith
          (let (k', r) = sign_and_update gcm bls id raw env k in (update id k' keys, from_key r))
  signed_with id k e = record {
    id = id;
    key = k;
    is_found = e;
    has_address = get_by_tz4_lem tz4 keys id k e;
    replies = refl;
    updates = refl;
    keeps_others =
        λ other ne. lookup-update_other id other (sign_and_update gcm bls id raw env k).0 keys ne;
  }

  -- `SignAndUpdate` signs with a key of the address that was asked for, and changes no other key; with
  -- no such key in the ring it fails, and changes none.
  pub ring_sign_cases :
      SignedWith (ring_sign gcm bls tz4 raw env keys)
      ⊎ (NoKey tz4 keys × (ring_sign gcm bls tz4 raw env keys ≡ (keys, err key_not_found)))
  unfolding ring_sign
  ring_sign_cases = go (get_by_tz4 tz4 keys) refl
    where
      go :
          (o : Option (List ℕ × GKey))
          → get_by_tz4 tz4 keys ≡ o
          → SignedWith (ring_sign gcm bls tz4 raw env keys)
            ⊎ (NoKey tz4 keys × (ring_sign gcm bls tz4 raw env keys ≡ (keys, err key_not_found)))
      go none e = inr (get_by_tz4-NoKey tz4 keys e, rw (e, ring_sign) refl)
      go (some (id, k)) e = inl (rw (e, ring_sign) (signed_with id k e))

after_dispose_keys :
    (removed : Bool) (keys : Keys) (r : Reply (Unit {0})) → (after_dispose removed keys r).0 ≡ keys
unfolding after_dispose
after_dispose_keys removed keys (Key.ok u) = refl
after_dispose_keys removed keys (Key.err e) = refl
after_dispose_keys removed keys Key.no_return = refl

remove_loaded_keys :
    (removed close_fails : Bool) (r : Keys × Option GKey)
    → (remove_loaded removed close_fails r).0 ≡ r.0
unfolding remove_loaded
remove_loaded_keys removed close_fails (keys, none) = after_dispose_keys removed keys (Key.ok tt)
remove_loaded_keys removed close_fails (keys, some k) =
    after_dispose_keys removed keys (dispose close_fails k).1

load_and_delete_forgets : (id : List ℕ) (keys : Keys) → lookup id (load_and_delete id keys).0 ≡ none
unfolding load_and_delete lookup
load_and_delete_forgets id keys = go (lookup id keys) refl
  where
    go : (o : Option GKey) → lookup id keys ≡ o → lookup id (load_and_delete id keys).0 ≡ none
    go none e = rw (e, load_and_delete) e
    go (some k) e = rw (e, load_and_delete) (lookup-delete id keys)

-- After a deletion of a name that the store holds, the ring has no key of that name, whatever the
-- store or the closing of the file come to.
pub ring_delete_forgets :
    (removed close_fails : Bool) (c : ℕ) (id : List ℕ) (keys : Keys)
    → lookup (c ∷ id) (ring_delete true removed close_fails (c ∷ id) keys).0 ≡ none
unfolding ring_delete
ring_delete_forgets removed close_fails c id keys =
    ap (lookup (c ∷ id)) (remove_loaded_keys removed close_fails (load_and_delete (c ∷ id) keys))
    ∙ load_and_delete_forgets (c ∷ id) keys
