-- ===== src/Keychain/Bundle.antt =====
-- `encodeBundle` and `decodeBundle` of keychain/store.go: the wrapped key and the secret of a key, in
-- one file, each behind its length.
use tezsign.Prelude.{
  ℕ, ◌+◌, ◌*◌, ◌/◌, ◌%◌, ◌≤◌, ◌<◌, ◌≡◌, ◌≢◌, refl, ap, ◌∙◌, arith, List, [], ◌∷◌, ◌++◌, length,
  take, drop, get_or, ltb, if◌then◌else◌, ltb-false, append_assoc, length-append, take-append_exact,
  drop-append_exact, drop-append_right,
}

pub record KeyBundle : Type 0 where
  pub wrapped_dek : List ℕ
  pub enc_secret : List ℕ

-- `panics`: a read behind the end of the slice.
pub data Decoded : Type 0 where
  bundle : KeyBundle → Decoded
  short panics : Decoded

-- The two low bytes of a number.
unfoldable pub put_u16 : ℕ → List ℕ
put_u16 n = n / 256 % 256 ∷ n % 256 ∷ []

-- `getU16`, with what follows it.
unfoldable pub with_u16 : List ℕ → ℕ → (ℕ → Decoded) → Decoded
with_u16 bs p next =
    if ltb (length bs) (p + 2)
    then panics
    else next (get_or (drop p bs) 0 0 * 256 + get_or (drop p bs) 1 0)

unfoldable pub encode_bundle : KeyBundle → List ℕ
unfolding put_u16
encode_bundle b =
    put_u16 (length b.wrapped_dek)
    ++ (b.wrapped_dek ++ (put_u16 (length b.enc_secret) ++ b.enc_secret))

-- Behind the second length.
unfoldable pub take_secret : List ℕ → List ℕ → ℕ → ℕ → Decoded
take_secret bs w p l2 =
    if ltb (length bs) (p + 2 + l2)
    then short
    else bundle (record { wrapped_dek = w; enc_secret = take l2 (drop (p + 2) bs) })

-- Behind the first length.
unfoldable pub take_wrapped : List ℕ → ℕ → Decoded
unfolding take_secret with_u16
take_wrapped bs l1 =
    if ltb (length bs) (2 + l1 + 2)
    then short
    else with_u16 bs (2 + l1) (take_secret bs (take l1 (drop 2 bs)) (2 + l1))

unfoldable pub decode_bundle : List ℕ → Decoded
unfolding take_wrapped with_u16
decode_bundle bs = if ltb (length bs) 2 then short else with_u16 bs 0 (take_wrapped bs)

-- No bytes make a read of the decoder go out of bounds.
pub decode_bundle-ne-panics : (bs : List ℕ) → decode_bundle bs ≢ panics
unfolding decode_bundle take_wrapped take_secret with_u16
decode_bundle-ne-panics bs e = ground arith

u16_lem :
    (n : ℕ) (bs : List ℕ) (p : ℕ) (rest : List ℕ) (next : ℕ → Decoded)
    → n < 65536
    → p + 2 ≤ length bs
    → drop p bs ≡ put_u16 n ++ rest
    → with_u16 bs p next ≡ next n
unfolding with_u16 put_u16
u16_lem n bs p rest next fits long e =
    rw (ltb-false (length bs) (p + 2) long, e) (ap next (omega arith))

module _ (w s rest : List ℕ) where
  abbrev tail : List ℕ
  tail = put_u16 (length s) ++ (s ++ rest)

  abbrev whole : List ℕ
  whole = put_u16 (length w) ++ (w ++ tail)

  abbrev here : ℕ
  here = 2 + length w

  at_tail : drop here whole ≡ tail
  unfolding put_u16
  at_tail =
      drop-append_right 2 (length w) here (put_u16 (length w)) (w ++ tail) (omega arith) refl
      ∙ drop-append_exact (length w) w tail refl

  at_secret : drop (here + 2) whole ≡ s ++ rest
  unfolding put_u16
  at_secret =
      drop-append_right 2 (length w + 2) (here + 2) (put_u16 (length w)) (w ++ tail) (omega arith)
        refl
      ∙ drop-append_right (length w) 2 (length w + 2) w tail (omega arith) refl

  length-whole : length whole ≡ here + 2 + length s + length rest
  unfolding put_u16
  length-whole = omega (arith, length-append w tail, length-append s rest)

  take_secret_lem :
      take_secret whole w here (length s) ≡ bundle (record { wrapped_dek = w; enc_secret = s })
  unfolding take_secret
  take_secret_lem =
      rw
        (
          ltb-false (length whole) (here + 2 + length s) (omega (arith, length-whole)),
          at_secret,
          take-append_exact (length s) s rest refl,
        )
        refl

  take_wrapped_lem :
      length s < 65536
      → take_wrapped whole (length w) ≡ bundle (record { wrapped_dek = w; enc_secret = s })
  unfolding take_wrapped
  take_wrapped_lem hs =
      let found = take_secret whole (take (length w) (drop 2 whole)) here in
      ap (λ c. if c then short else with_u16 whole here found)
        (ltb-false (length whole) (here + 2) (omega (arith, length-whole)))
      ∙ u16_lem (length s) whole here (s ++ rest) found hs (omega (arith, length-whole)) at_tail
      ∙ ap (λ x. take_secret whole x here (length s)) taken
      ∙ take_secret_lem
    where
      taken : take (length w) (drop 2 whole) ≡ w
      taken = unfold put_u16 in take-append_exact (length w) w tail refl

  decode_whole :
      length w < 65536
      → length s < 65536
      → decode_bundle whole ≡ bundle (record { wrapped_dek = w; enc_secret = s })
  unfolding decode_bundle
  decode_whole hw hs =
      ap (λ c. if c then short else with_u16 whole 0 (take_wrapped whole))
        (ltb-false (length whole) 2 (omega (arith, length-whole)))
      ∙ u16_lem (length w) whole 0 (w ++ tail) (take_wrapped whole) hw (omega (arith, length-whole))
          refl
      ∙ take_wrapped_lem hs

-- When both lengths fit two bytes, what is encoded is read back, whatever follows it.
pub decode_bundle-encode_bundle :
    (b : KeyBundle) (rest : List ℕ)
    → length b.wrapped_dek < 65536
    → length b.enc_secret < 65536
    → decode_bundle (encode_bundle b ++ rest) ≡ bundle b
unfolding encode_bundle put_u16
decode_bundle-encode_bundle b rest hw hs =
    ap (λ xs. decode_bundle (put_u16 (length b.wrapped_dek) ++ xs))
      (append_assoc b.wrapped_dek (put_u16 (length b.enc_secret) ++ b.enc_secret) rest)
    ∙ decode_whole b.wrapped_dek b.enc_secret rest hw hs
