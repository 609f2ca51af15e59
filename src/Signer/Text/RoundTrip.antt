-- ===== src/Signer/Text/RoundTrip.antt =====
-- A secret key is read back from its text.
use tezsign.Prelude.{
  ℕ, ◌≡◌, refl, true, List, ◌++◌, length, take, length-append, length-take, take-append_exact,
}
use tezsign.Prelude.Bytes.{bytes_eq}
use tezsign.Signer.Scalar.{Hash, Blst}
use tezsign.Signer.Text.{
  Base58, ok, pfx_bl_secret_key, b58_check_encode, encode_bl_secret_key, import_raw,
  import_bl_secret_key,
}

module _ (h : Hash) (b : Base58) (l : Blst) (sk : List ℕ) (size : length sk ≡ 32) where
  abbrev buf : List ℕ
  buf = pfx_bl_secret_key ++ sk

  abbrev sum : List ℕ
  sum = take 4 (h.sha256 (h.sha256 buf))

  length-sum : length sum ≡ 4
  length-sum = rw (length-take 4 (h.sha256 (h.sha256 buf)), h.length-sha256 (h.sha256 buf)) refl

  length-raw : length (buf ++ sum) ≡ 40
  length-raw = rw (length-append buf sum, length-sum, size) refl

  -- A secret key that the library takes, of 32 bytes, is read back from the text that it was exported to.
  pub import_bl_secret_key-encode :
      l.valid_scalar sk ≡ true → import_bl_secret_key h b l (encode_bl_secret_key h b sk) ≡ ok sk
  unfolding import_bl_secret_key encode_bl_secret_key b58_check_encode import_raw bytes_eq
  import_bl_secret_key-encode valid =
      rw (b.decode-encode (buf ++ sum), length-raw)
        (rw (take-append_exact 32 sk sum size) (rw (size, valid) refl))
