-- ===== src/Prelude/Bytes.antt =====
-- Bytes and the fixed-width integers of Go's encoding/binary.
use tezsign.Prelude.Lists.{get_or, drop}
use tezsign.Prelude.Tests.{◌==◌}
use Prim.Native.Char.{code}
use Prim.Native.String.{String}
use mathlib.Core.Bool.{Bool, true, false, ◌&&◌}
use Prim.Native.Nat.{ℕ, ◌+◌, ◌*◌, ◌/◌, ◌%◌, ◌^◌, ◌<◌}
use mathlib.Core.Path.{◌≡◌, refl}
use mathlib.Core.List.{List, [], ◌∷◌, ◌++◌}
use native.Mathlib.Omega.{arith}

abbrev pub IsByte : ℕ → Type 0
IsByte b = b < 256

abbrev pub IsU32 : ℕ → Type 0
IsU32 n = n < 2 ^ 32

abbrev pub IsU64 : ℕ → Type 0
IsU64 n = n < 2 ^ 64

-- binary.LittleEndian.PutUint32 and Uint32.
abbrev pub put_le32 : ℕ → List ℕ
put_le32 v = (v % 256) ∷ (v / 256 % 256) ∷ (v / 65536 % 256) ∷ (v / 16777216 % 256) ∷ []

abbrev pub get_le32 : List ℕ → ℕ
get_le32 bs = get_or bs 0 0 + get_or bs 1 0 * 256 + get_or bs 2 0 * 65536 + get_or bs 3 0 * 16777216

-- binary.BigEndian.PutUint32 and Uint32.
abbrev pub put_be32 : ℕ → List ℕ
put_be32 v = (v / 16777216 % 256) ∷ (v / 65536 % 256) ∷ (v / 256 % 256) ∷ (v % 256) ∷ []

unfoldable pub get_be32 : List ℕ → ℕ
get_be32 bs = get_or bs 0 0 * 16777216 + get_or bs 1 0 * 65536 + get_or bs 2 0 * 256 + get_or bs 3 0

pub get_le32-put_le32 : (v : ℕ) → IsU32 v → get_le32 (put_le32 v) ≡ v
get_le32-put_le32 v h = omega arith

pub get_be32-put_be32 : (v : ℕ) (rest : List ℕ) → IsU32 v → get_be32 (put_be32 v ++ rest) ≡ v
unfolding get_be32
get_be32-put_be32 v rest h = omega arith

-- binary.BigEndian.PutUint64 and Uint64.
unfoldable pub put_be64 : ℕ → List ℕ
put_be64 v = put_be32 (v / 2 ^ 32) ++ put_be32 (v % 2 ^ 32)

unfoldable pub get_be64 : List ℕ → ℕ
get_be64 bs = get_be32 bs * 2 ^ 32 + get_be32 (drop 4 bs)

pub get_be64-put_be64 : (v : ℕ) (rest : List ℕ) → IsU64 v → get_be64 (put_be64 v ++ rest) ≡ v
unfolding get_be64 put_be64 get_be32
get_be64-put_be64 v rest h = omega arith

-- Equality of byte strings.
unfoldable pub bytes_eq : List ℕ → List ℕ → Bool
bytes_eq [] [] = true
bytes_eq [] (y ∷ ys) = false
bytes_eq (x ∷ xs) [] = false
bytes_eq (x ∷ xs) (y ∷ ys) = x == y && bytes_eq xs ys

pub bytes_eq_refl : (xs : List ℕ) → bytes_eq xs xs ≡ true
unfolding bytes_eq
bytes_eq_refl [] = refl
bytes_eq_refl (x ∷ xs) = ground (arith, bytes_eq_refl xs)

pub bytes_eq→eq : (xs ys : List ℕ) → bytes_eq xs ys ≡ true → xs ≡ ys
unfolding bytes_eq
bytes_eq→eq [] [] h = refl
bytes_eq→eq [] (y ∷ ys) h = cc
bytes_eq→eq (x ∷ xs) [] h = cc
bytes_eq→eq (x ∷ xs) (y ∷ ys) h = ground (arith, bytes_eq→eq xs ys)

-- The bytes of an ASCII literal.
abbrev pub codes : String → List ℕ
codes String.[] = []
codes (String.◌∷◌ c s) = code c ∷ codes s
