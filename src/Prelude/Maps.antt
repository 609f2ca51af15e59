-- ===== src/Prelude/Maps.antt =====
-- Maps from byte strings, as Go's maps from ids and from names: a list with one entry for each key.
use tezsign.Prelude.Bytes.{bytes_eq, bytes_eq_refl, bytes_eq→eq}
use tezsign.Prelude.Tests.{if◌then◌else◌, Bool-cases}
use mathlib.Core.Bool.{true, false}
use Prim.Native.Nat.{ℕ}
use mathlib.Core.Path.{◌≡◌, refl, ap}
use mathlib.Core.List.{List, [], ◌∷◌}
use mathlib.Core.Option.{Option, none, some}
use mathlib.Core.Logic.{inl, inr}

abbrev pub Map {ℓ} : Type ℓ → Type ℓ
Map A = List (List ℕ × A)

other_key :
    (x key k : List ℕ) → bytes_eq x key ≡ true → bytes_eq key k ≡ false → bytes_eq x k ≡ false
other_key x key k same ne = rw (bytes_eq→eq x key same) ne

module _ {ℓ} {A : Type ℓ} where
  unfoldable pub lookup : List ℕ → Map A → Option A
  lookup key [] = none
  lookup key ((k, a) ∷ m) = if bytes_eq k key then some a else lookup key m

  unfoldable pub delete : List ℕ → Map A → Map A
  delete key [] = []
  delete key ((k, a) ∷ m) =
      let rest = delete key m in if bytes_eq k key then rest else (k, a) ∷ rest

  unfoldable pub insert : List ℕ → A → Map A → Map A
  unfolding delete
  insert key a m = (key, a) ∷ delete key m

  pub lookup-insert : (key : List ℕ) (a : A) (m : Map A) → lookup key (insert key a m) ≡ some a
  unfolding lookup insert
  lookup-insert key a m = rw (bytes_eq_refl key) refl

  pub lookup-delete : (key : List ℕ) (m : Map A) → lookup key (delete key m) ≡ none
  unfolding lookup delete
  lookup-delete key [] = refl
  lookup-delete key ((k, a) ∷ m) = elim (Bool-cases (bytes_eq k key)) [
    | inl t ↦ rw t (lookup-delete key m)
    | inr f ↦ rw (f, lookup) (rw f (lookup-delete key m))
  ]

  pub lookup-delete_other :
      (key k : List ℕ) (m : Map A) → bytes_eq key k ≡ false → lookup k (delete key m) ≡ lookup k m
  unfolding lookup delete
  lookup-delete_other key k [] ne = refl
  lookup-delete_other key k ((x, a) ∷ m) ne = elim (Bool-cases (bytes_eq x key)) [
    | inl t ↦ rw (t, other_key x key k t ne) (lookup-delete_other key k m ne)
    | inr f ↦ rw f (ap (λ r. if bytes_eq x k then some a else r) (lookup-delete_other key k m ne))
  ]

  pub lookup-insert_other :
      (key k : List ℕ) (a : A) (m : Map A)
      → bytes_eq key k ≡ false
      → lookup k (insert key a m) ≡ lookup k m
  unfolding lookup insert
  lookup-insert_other key k a m ne = rw ne (lookup-delete_other key k m ne)
