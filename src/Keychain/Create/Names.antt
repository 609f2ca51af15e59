-- ===== src/Keychain/Create/Names.antt =====
-- Two automatic names are never the same, and a map has room for only so many of them.
use tezsign.Prelude.{
  ℕ, zero, suc, ◌+◌, ◌-◌, ◌*◌, ◌/◌, ◌%◌, ◌^◌, ◌≤◌, ◌<◌, ◌≡◌, refl, ap, sym, ◌∙◌, arith, Bool-cases,
  inl, inr, true, List, [], ◌∷◌, ◌++◌, some, length, drop, ltb, if_rule,
}
use tezsign.Prelude.Bytes.{bytes_eq, bytes_eq→eq}
use tezsign.Prelude.Maps.{Map, lookup, delete}
use tezsign.Keychain.Create.{decimal_digits, auto_id}

abbrev read_digits : ℕ → List ℕ → ℕ
read_digits acc [] = acc
read_digits acc (d ∷ ds) = read_digits (acc * 10 + (d - 48)) ds

read_digits-append :
    (acc : ℕ) (xs : List ℕ) (d : ℕ)
    → read_digits acc (xs ++ (d ∷ [])) ≡ read_digits acc xs * 10 + (d - 48)
read_digits-append acc [] d = refl
read_digits-append acc (x ∷ xs) d = read_digits-append (acc * 10 + (x - 48)) xs d

abbrev pow10 : ℕ → ℕ
pow10 zero = 1
pow10 (suc k) = 10 * pow10 k

read_digits-decimal_digits :
    (fuel n : ℕ) → n < pow10 fuel → read_digits 0 (decimal_digits fuel n) ≡ n
unfolding decimal_digits
read_digits-decimal_digits zero n h = omega arith
read_digits-decimal_digits (suc fuel) n h =
    if_rule (λ ds. read_digits 0 ds ≡ n) (ltb n 10) _ _ (λ _. omega arith)
      λ _.
        read_digits-append 0 (decimal_digits fuel (n / 10)) (48 + n % 10)
        ∙ joined n (read_digits 0 (decimal_digits fuel (n / 10)))
            (read_digits-decimal_digits fuel (n / 10) (tenth n (pow10 fuel) h))
  where
    joined : (n q : ℕ) → q ≡ n / 10 → q * 10 + (48 + n % 10 - 48) ≡ n
    joined n q e = omega arith

    tenth : (n p : ℕ) → n < 10 * p → n / 10 < p
    tenth n p h = omega arith

pub auto_id-injective :
    (m n : ℕ) → m < 2 ^ 64 → n < 2 ^ 64 → bytes_eq (auto_id m) (auto_id n) ≡ true → m ≡ n
unfolding auto_id
auto_id-injective m n hm hn e =
    sym (read_digits-decimal_digits 20 m (wide m hm))
    ∙ ap (λ name. read_digits 0 (drop 3 name)) (bytes_eq→eq (auto_id m) (auto_id n) e)
    ∙ read_digits-decimal_digits 20 n (wide n hn)
  where
    wide : (k : ℕ) → k < 2 ^ 64 → k < pow10 20
    wide k h = omega arith

module _ {ℓ} {A : Type ℓ} where
  length-delete_le : (key : List ℕ) (m : Map A) → length (delete key m) ≤ length m
  unfolding delete
  length-delete_le key [] = omega arith
  length-delete_le key ((k, a) ∷ m) =
      if_rule (λ r. length r ≤ suc (length m)) (bytes_eq k key) (delete key m)
        ((k, a) ∷ delete key m) (λ _. omega (arith, length-delete_le key m))
        λ _. omega (arith, length-delete_le key m)

  pub length-delete_lt :
      (key : List ℕ) (a : A) (m : Map A) → lookup key m ≡ some a → length (delete key m) < length m
  unfolding delete lookup
  length-delete_lt key a [] e = absurd (cc)
  length-delete_lt key a ((k, b) ∷ m) e = elim (Bool-cases (bytes_eq k key)) [
    | inl t ↦ rw t (omega (arith, length-delete_le key m))
    | inr f ↦ rw f (omega (arith, length-delete_lt key a m (rw f at e)))
  ]
