-- ===== src/Keychain/KeyState/RoundTrip.antt =====
-- The plain text of a slot decodes to the marks that it was encoded from.
use tezsign.Prelude.{ℕ, ◌≡◌, refl, List, ◌++◌, Option, some, length, drop, replicate}
use tezsign.Prelude.Bytes.{
  IsU32, IsU64, put_be64, get_be64, put_be32, get_be32, bytes_eq, get_be64-put_be64,
  get_be32-put_be32,
}
use tezsign.Keychain.Kinds.{block, preattestation, attestation, KindState, for_all_kinds}
use tezsign.Keychain.KeyState.{
  KeyState, state_of, get_level, get_round, encode_kind, encode_key_state_plain,
  decode_key_state_plain,
}

abbrev pub Fits : Option KindState → Type 0
Fits st = IsU64 (get_level st) × IsU32 (get_round st)

pub record IsEncodable (ks : Option KeyState) (seq : ℕ) : Type 0 where
  pub block_fits : Fits (state_of ks block)
  pub preattestation_fits : Fits (state_of ks preattestation)
  pub attestation_fits : Fits (state_of ks attestation)
  pub seq_fits : IsU64 seq

-- A missing entry is written, and read back, as zeros.
abbrev pub filled : Option KeyState → KeyState
filled ks = for_all_kinds (λ kind.
    some (record { level = get_level (state_of ks kind); round = get_round (state_of ks kind) }))

-- One kind's twelve bytes, wherever they stand.
kind_read :
    (st : Option KindState) (rest : List ℕ)
    → Fits st
    → ◌≡◌ {A = KindState}
        (record {
          level = get_be64 (encode_kind st ++ rest);
          round = get_be32 (drop 8 (encode_kind st ++ rest));
        })
        (record { level = get_level st; round = get_round st })
unfolding encode_kind put_be64
kind_read st rest (hl, hr) = λ i. record {
  level = get_be64-put_be64 (get_level st) (put_be32 (get_round st) ++ rest) hl i;
  round = get_be32-put_be32 (get_round st) rest hr i;
}

-- When the marks and the sequence number fit their words, what is encoded is read back: the number,
-- and for every kind its level and round, or zeros where it has none.
pub decode-encode :
    (ks : Option KeyState) (seq : ℕ)
    → IsEncodable ks seq
    → decode_key_state_plain (encode_key_state_plain ks seq) ≡ some (filled ks, seq)
unfolding decode_key_state_plain encode_key_state_plain put_be64 bytes_eq
decode-encode ks seq h =
    let pad : List ℕ = replicate 20 0 in
    let third : List ℕ = encode_kind (state_of ks attestation) ++ pad in
    let second : List ℕ = encode_kind (state_of ks preattestation) ++ third in
    let first : List ℕ = encode_kind (state_of ks block) ++ second in
    λ i. some (
      record {
        for_block = some (kind_read (state_of ks block) second h.block_fits i);
        for_preattestation =
            some (kind_read (state_of ks preattestation) third h.preattestation_fits i);
        for_attestation = some (kind_read (state_of ks attestation) pad h.attestation_fits i);
      },
      get_be64-put_be64 seq first h.seq_fits i,
    )

pub length-encode : (ks : Option KeyState) (seq : ℕ) → length (encode_key_state_plain ks seq) ≡ 68
unfolding encode_key_state_plain put_be64
length-encode ks seq = refl
