-- ===== src/Signer/Scalar.antt =====
-- What signer/ takes from the hashes of Go and from the BLS12-381 library blst, and scalars as bytes:
-- SetBytes and FillBytes of math/big, and beToLE32 of signer/hdbls.go.
use tezsign.Prelude.{
  ℕ, zero, suc, ◌+◌, ◌*◌, ◌/◌, ◌%◌, ◌<◌, ◌≡◌, refl, ap, ◌∙◌, arith, Bool, List, [], ◌∷◌, ◌++◌,
  length, take, length-append, take_all,
}
use mathlib.Core.List.{reverse, reverse-cons, reverse-reverse}

-- `hmac key message`, with SHA-256.
pub record Hash : Type 0 where
  pub sha256 : List ℕ → List ℕ
  pub hmac : List ℕ → List ℕ → List ℕ
  pub blake2b_160 : List ℕ → List ℕ
  pub length-sha256 : (bytes : List ℕ) → length (sha256 bytes) ≡ 32
  pub length-hmac : (key bytes : List ℕ) → length (hmac key bytes) ≡ 32

-- A SecretKey is the little-endian bytes of its scalar: `valid_scalar` is what FromLEndian accepts. The
-- domain of a signature is its last argument.
pub record Blst : Type 0 where
  pub valid_scalar : List ℕ → Bool
  pub key_gen : List ℕ → List ℕ
  pub public_key : List ℕ → List ℕ
  pub sign : List ℕ → List ℕ → List ℕ → List ℕ
  pub length-public_key : (sk : List ℕ) → length (public_key sk) ≡ 48

unfoldable pub set_bytes : ℕ → List ℕ → ℕ
set_bytes acc [] = acc
set_bytes acc (b ∷ bs) = set_bytes (acc * 256 + b) bs

unfoldable pub fill_bytes : ℕ → ℕ → List ℕ
fill_bytes zero k = []
fill_bytes (suc n) k = fill_bytes n (k / 256) ++ (k % 256 ∷ [])

-- Of 32 bytes at least.
unfoldable pub be_to_le32 : List ℕ → List ℕ
be_to_le32 be = reverse (take 32 be)

-- The order r of the scalar field.
unfoldable pub bls12381_r : ℕ
bls12381_r = 0x73EDA753299D7D483339D80809A1D80553BDA402FFFE5BFEFFFFFFFF00000001

length-reverse : (xs : List ℕ) → length (reverse xs) ≡ length xs
length-reverse [] = refl
length-reverse (x ∷ xs) =
    ap length (reverse-cons x xs)
    ∙ rw (length-append (reverse xs) (x ∷ []), length-reverse xs) (omega arith)

pub length-be_to_le32 : (be : List ℕ) → length be ≡ 32 → length (be_to_le32 be) ≡ 32
unfolding be_to_le32
length-be_to_le32 be e = rw (take_all 32 be (omega arith)) (length-reverse be ∙ e)

-- The bytes of 32 turned round twice.
pub be_to_le32-be_to_le32 : (be : List ℕ) → length be ≡ 32 → be_to_le32 (be_to_le32 be) ≡ be
unfolding be_to_le32
be_to_le32-be_to_le32 be e =
    ap (λ xs. reverse (take 32 (reverse xs))) (take_all 32 be (omega arith))
    ∙ ap reverse (take_all 32 (reverse be) (rw (length-reverse be) (omega arith)))
    ∙ reverse-reverse be

pub length-fill_bytes : (n k : ℕ) → length (fill_bytes n k) ≡ n
unfolding fill_bytes
length-fill_bytes zero k = refl
length-fill_bytes (suc n) k =
    rw (length-append (fill_bytes n (k / 256)) (k % 256 ∷ []), length-fill_bytes n (k / 256))
      (omega arith)

set_bytes-append :
    (acc b : ℕ) (bs : List ℕ) → set_bytes acc (bs ++ (b ∷ [])) ≡ set_bytes acc bs * 256 + b
unfolding set_bytes
set_bytes-append acc b [] = refl
set_bytes-append acc b (x ∷ bs) = set_bytes-append (acc * 256 + x) b bs

-- `256 ^ n`, by clauses.
abbrev pub pow256 : ℕ → ℕ
pow256 zero = 1
pow256 (suc n) = 256 * pow256 n

pub set_bytes-fill_bytes : (n k : ℕ) → k < pow256 n → set_bytes 0 (fill_bytes n k) ≡ k
unfolding fill_bytes set_bytes
set_bytes-fill_bytes zero k h = omega arith
set_bytes-fill_bytes (suc n) k h =
    set_bytes-append 0 (k % 256) (fill_bytes n (k / 256))
    ∙ ap (λ q. q * 256 + k % 256) (set_bytes-fill_bytes n (k / 256) (part (pow256 n) h))
    ∙ whole
  where
    part : (p : ℕ) → k < 256 * p → k / 256 < p
    part p h = omega arith

    whole : (k / 256) * 256 + k % 256 ≡ k
    whole = omega arith
