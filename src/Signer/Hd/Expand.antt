-- ===== src/Signer/Hd/Expand.antt =====
-- HKDF-Expand against its definition in RFC 5869.
use tezsign.Prelude.{
  ℕ, zero, suc, ◌+◌, ◌*◌, ◌%◌, ◌≤◌, ◌<◌, ◌≡◌, refl, ap, ◌∙◌, arith, List, [], ◌∷◌, ◌++◌, some,
  length, take, length-append, lt→ltb, ltb-false,
}
use tezsign.Signer.Scalar.{Hash}
use tezsign.Signer.Hd.{expand_loop, cut, hkdf_expand}

module _ (h : Hash) (prk info : List ℕ) where
  -- T(n) of RFC 5869, and T(1) | T(2) | … | T(n).
  unfoldable pub block : ℕ → List ℕ
  block zero = []
  block (suc n) = h.hmac prk (block n ++ (info ++ (suc n ∷ [])))

  unfoldable pub blocks : ℕ → List ℕ
  unfolding block
  blocks zero = []
  blocks (suc n) = blocks n ++ block (suc n)

  length-blocks : (n : ℕ) → length (blocks n) ≡ 32 * n
  unfolding blocks block
  length-blocks zero = refl
  length-blocks (suc n) =
      rw
        (
          length-append (blocks n) (block (suc n)),
          length-blocks n,
          h.length-hmac prk (block n ++ (info ++ (suc n ∷ []))),
        )
        (omega arith)

  -- From round `i` on, with `n` rounds to go.
  expand_loop_lem :
      (l n i ctr fuel : ℕ)
      → n < fuel
      → i + n ≤ 255
      → l ≤ 32 * (i + n)
      → 32 * (i + n) < l + 32
      → (0 < n → ctr ≡ suc i)
      → expand_loop h fuel prk info l ctr (block i) (blocks i) ≡ some (blocks (i + n))
  unfolding expand_loop blocks block
  expand_loop_lem l n i ctr zero enough fits upper lower at = absurd (omega arith)
  expand_loop_lem l zero i ctr (suc fuel) enough fits upper lower at =
      rw (length-blocks i, ltb-false (32 * i) l (omega arith)) (ap (λ k. some (blocks k)) whole)
    where
      whole : i ≡ i + 0
      whole = omega arith
  expand_loop_lem l (suc n) i ctr (suc fuel) enough fits upper lower at =
      rw (length-blocks i, lt→ltb (32 * i) l (omega arith), at (omega arith))
        (expand_loop_lem l n (suc i) ((suc i + 1) % 256) fuel (omega arith) (omega arith)
            (omega arith) (omega arith) (λ more. omega arith)
          ∙ ap (λ k. some (blocks k)) next)
    where
      next : suc i + n ≡ i + suc n
      next = omega arith

  -- The loop of hkdfExpand gives the output keying material of RFC 5869, the first `l` bytes of T(1) | T(2) |
  -- … | T(n) for the number n of blocks that `l` bytes need, as long as there are 255 at most.
  pub hkdf_expand_lem :
      (l n : ℕ)
      → n ≤ 255
      → l ≤ 32 * n
      → 32 * n < l + 32
      → hkdf_expand h prk info l ≡ some (take l (blocks n))
  unfolding hkdf_expand cut blocks block
  hkdf_expand_lem l n fits upper lower =
      ap (cut h l) (
        expand_loop_lem l n 0 1 (suc l) (omega arith) (omega arith) (omega arith) (omega arith)
          (λ more. refl))
      ∙ ap (λ k. some (take l (blocks k))) start
    where
      start : 0 + n ≡ n
      start = omega arith
