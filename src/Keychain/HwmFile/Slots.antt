-- ===== src/Keychain/HwmFile/Slots.antt =====
-- A slot decodes to what was encoded in it, and the two slots are read and written independently.
use tezsign.Prelude.{
  ℕ, ◌≡◌, inl, inr, refl, sym, ap, ◌∙◌, arith, true, false, Bool-cases, List, [], ◌∷◌, ◌++◌, Option,
  some, length, take, drop, replicate, length-append, append-nil, take-append_exact,
  drop-append_exact, ==_refl,
}
use mathlib.Core.Path.{subst}
use tezsign.Prelude.Bytes.{IsU32, put_be32, get_be32, get_be32-put_be32}
use tezsign.Keychain.Crypto.{Gcm, is_aes_key, checksum_ieee}
use tezsign.Keychain.KeyState.{KeyState, slot_is_zero, encode_key_state_plain}
use tezsign.Keychain.KeyState.RoundTrip.{IsEncodable, filled, decode-encode, length-encode}
use tezsign.Keychain.HwmFile.{
  ok, state_aad, encode_key_state_slot, decode_opened, decode_key_state_slot,
}

slot_is_zero-append :
    (xs ys : List ℕ)
    → slot_is_zero (xs ++ ys) ≡ true
    → (slot_is_zero xs ≡ true) × (slot_is_zero ys ≡ true)
unfolding slot_is_zero
slot_is_zero-append [] ys h = (refl, h)
slot_is_zero-append (x ∷ xs) ys h = ground (arith, slot_is_zero-append xs ys)

zeros_of_slot_is_zero : (xs : List ℕ) → slot_is_zero xs ≡ true → xs ≡ replicate (length xs) 0
unfolding slot_is_zero
zeros_of_slot_is_zero [] h = refl
zeros_of_slot_is_zero (x ∷ xs) h = ground (arith, zeros_of_slot_is_zero xs)

checksum_of_zeros : slot_is_zero (put_be32 (checksum_ieee (replicate 96 0))) ≡ false
unfolding checksum_ieee slot_is_zero
checksum_of_zeros = refl

-- A sealed slot is never mistaken for one that was not written yet: the checksum of 96 zero bytes
-- is not zero.
slot_not_zero :
    (sealed : List ℕ)
    → length sealed ≡ 96
    → slot_is_zero (sealed ++ put_be32 (checksum_ieee sealed)) ≡ false
slot_not_zero sealed len =
    elim (Bool-cases (slot_is_zero (sealed ++ put_be32 (checksum_ieee sealed)))) [
      | inl z ↦ impossible (slot_is_zero-append sealed _ z).0 (slot_is_zero-append sealed _ z).1
      | inr f ↦ f
    ]
  where
    impossible :
        slot_is_zero sealed ≡ true
        → slot_is_zero (put_be32 (checksum_ieee sealed)) ≡ true
        → slot_is_zero (sealed ++ put_be32 (checksum_ieee sealed)) ≡ false
    impossible z c =
        let zeros : sealed ≡ replicate 96 0 =
          subst (λ n. sealed ≡ replicate n 0) len (zeros_of_slot_is_zero sealed z) in
        cc (checksum_of_zeros, ap (λ s. slot_is_zero (put_be32 (checksum_ieee s))) zeros)

checksum-IsU32 : (bs : List ℕ) → IsU32 (checksum_ieee bs)
unfolding checksum_ieee
checksum-IsU32 bs = omega arith

module _ (gcm : Gcm) (dek id tz4 : List ℕ) where
  -- The content of a slot that was written with no error.
  abbrev pub sealed_slot : List ℕ → Option KeyState → ℕ → List ℕ
  sealed_slot nonce ks seq =
      let sealed = nonce ++ gcm.seal dek nonce (encode_key_state_plain ks seq) (state_aad id tz4) in
      sealed ++ put_be32 (checksum_ieee sealed)

  length_sealed :
      (nonce : List ℕ) (ks : Option KeyState) (seq : ℕ)
      → length nonce ≡ 12
      → length (nonce ++ gcm.seal dek nonce (encode_key_state_plain ks seq) (state_aad id tz4)) ≡ 96
  length_sealed nonce ks seq h = omega (
    arith,
    length-append nonce (gcm.seal dek nonce (encode_key_state_plain ks seq) (state_aad id tz4)),
    gcm.length-seal dek nonce (encode_key_state_plain ks seq) (state_aad id tz4),
    length-encode ks seq,
  )

  pub length-sealed_slot :
      (nonce : List ℕ) (ks : Option KeyState) (seq : ℕ)
      → length nonce ≡ 12
      → length (sealed_slot nonce ks seq) ≡ 100
  length-sealed_slot nonce ks seq h = omega (
    arith,
    length-append (nonce ++ gcm.seal dek nonce (encode_key_state_plain ks seq) (state_aad id tz4)) (
        put_be32 (
          checksum_ieee
            (nonce ++ gcm.seal dek nonce (encode_key_state_plain ks seq) (state_aad id tz4)))),
    length_sealed nonce ks seq h,
  )

  pub encode_key_state_slot-sealed :
      (slot nonce : List ℕ) (ks : Option KeyState) (seq : ℕ)
      → length slot ≡ 100
      → length nonce ≡ 12
      → is_aes_key dek ≡ true
      → encode_key_state_slot gcm dek id tz4 slot (some nonce) ks seq
        ≡ ok (sealed_slot nonce ks seq)
  unfolding encode_key_state_slot
  encode_key_state_slot-sealed slot nonce ks seq hs hn hk =
      ground (arith, length_sealed nonce ks seq hn)

  opened :
      (ks : Option KeyState) (seq : ℕ)
      → IsEncodable ks seq
      → decode_opened gcm dek id tz4 (some (encode_key_state_plain ks seq))
        ≡ ok (record { ks = filled ks; seq = seq; missing = false })
  unfolding decode_opened
  opened ks seq h = rw (decode-encode ks seq h, decode_opened) refl

  decode_valid :
      (slot payload : List ℕ)
      → length slot ≡ 100
      → slot_is_zero slot ≡ false
      → take 96 slot ≡ payload
      → get_be32 (drop 96 slot) ≡ checksum_ieee payload
      → is_aes_key dek ≡ true
      → decode_key_state_slot gcm dek id tz4 slot
        ≡ decode_opened gcm dek id tz4
            (gcm.unseal dek (take 12 payload) (drop 12 payload) (state_aad id tz4))
  unfolding decode_key_state_slot
  decode_valid slot payload len nonzero e sum key =
      rw (len, decode_key_state_slot)
        (rw nonzero (
          rw (sum ∙ ap checksum_ieee (sym e))
            (rw (==_refl (checksum_ieee (take 96 slot))) (rw key (rw e refl)))))

  -- A slot that was sealed, with a 12-byte nonce and a DEK of an AES size, from marks and a number
  -- that fit their words decodes to these marks and this number, with zeros for a kind that has
  -- none, and is not taken for a slot that was never written.
  pub decode_slot-sealed :
      (nonce : List ℕ) (ks : Option KeyState) (seq : ℕ)
      → length nonce ≡ 12
      → is_aes_key dek ≡ true
      → IsEncodable ks seq
      → decode_key_state_slot gcm dek id tz4 (sealed_slot nonce ks seq)
        ≡ ok (record { ks = filled ks; seq = seq; missing = false })
  decode_slot-sealed nonce ks seq hn key h =
      let ct = gcm.seal dek nonce (encode_key_state_plain ks seq) (state_aad id tz4) in
      let sealed = nonce ++ ct in
      let sum = put_be32 (checksum_ieee sealed) in
      let len = length_sealed nonce ks seq hn in
      decode_valid (sealed ++ sum) sealed (length-sealed_slot nonce ks seq hn)
        (slot_not_zero sealed len) (take-append_exact 96 sealed sum len)
        (ap get_be32 (drop-append_exact 96 sealed sum len)
          ∙ rw append-nil at (get_be32-put_be32 (checksum_ieee sealed) [] (checksum-IsU32 sealed)))
        key
      ∙ ap (decode_opened gcm dek id tz4) (
          rw (take-append_exact 12 nonce ct hn, drop-append_exact 12 nonce ct hn)
            (gcm.unseal-seal dek nonce (encode_key_state_plain ks seq) (state_aad id tz4)))
      ∙ opened ks seq h
