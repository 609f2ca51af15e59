-- ===== src/Keychain/Decode/Layout.antt =====
-- The decoder against the layout of the payloads.
use tezsign.Prelude.{
  ℕ, ◌+◌, ◌^◌, ◌≤◌, ◌<◌, ◌≡◌, ◌≢◌, refl, ap, ◌∙◌, arith, List, length, get_or, drop, Bool-cases,
  inl, inr, sym, false, leb, ltb, ◌==◌, if◌then◌else◌,
}
use mathlib.Core.Path.{subst}
use tezsign.Prelude.Bytes.{get_be32}
use tezsign.Keychain.Kinds.{SignKind, block, preattestation, attestation}
use tezsign.Keychain.Decode.{
  Outcome, ok, err, panic, Payload, block_level_off, fitness_off, block_min_len, att_level_off,
  att_round_off, att_min_len, DecodeError, uint32_at, non_negative, ◌>>=◌, decode_block_round,
  decode_block, decode_consensus, decode_and_validate_sign_payload, decode_by_tag, byte_at,
}

-- The watermark byte that stands in front of the payloads of a kind.
abbrev pub watermark_byte : SignKind → ℕ
watermark_byte block = 0x11
watermark_byte preattestation = 0x12
watermark_byte attestation = 0x13

-- What is known of a result that the decoder returns, whichever it is.
abbrev IsSound : List ℕ → SignKind → Outcome Payload → Type 0
IsSound raw kind (ok p) =
    (p.kind ≡ kind) × (p.level < 2 ^ 31) × (p.round < 2 ^ 31) × (p.sign_bytes ≡ raw)
IsSound raw kind (err e) = Unit {0}
IsSound raw kind panic = ⊥

-- Rules for the two steps that the decoder is made of.
module _ (raw : List ℕ) (kind : SignKind) where
  read_rule :
      (off : ℕ) (f : ℕ → Outcome Payload)
      → off + 4 ≤ length raw
      → ((u : ℕ) → IsSound raw kind (f u))
      → IsSound raw kind (uint32_at raw off >>= f)
  unfolding uint32_at
  read_rule off f fits h = ground (arith, h (get_be32 (drop off raw)))

  byte_rule :
      (f : ℕ → Outcome Payload)
      → 1 ≤ length raw
      → IsSound raw kind (f (get_or raw 0 0))
      → IsSound raw kind (byte_at raw 0 >>= f)
  unfolding byte_at
  byte_rule f fits h = ground (arith, h)

  non_negative_rule :
      (e : DecodeError) (u : ℕ) (f : ℕ → Outcome Payload)
      → (u < 2 ^ 31 → IsSound raw kind (f u))
      → IsSound raw kind (non_negative e u >>= f)
  unfolding non_negative
  non_negative_rule e u f h = elim (Bool-cases (leb (2 ^ 31) u)) [
    | inl neg ↦ rw neg tt
    | inr pos ↦ rw pos (h (ground arith))
  ]

  guard_rule :
      (n : ℕ) (e : DecodeError) (o : Outcome Payload)
      → (n ≤ length raw → IsSound raw kind o)
      → IsSound raw kind (if ltb (length raw) n then err e else o)
  guard_rule n e o h = elim (Bool-cases (ltb (length raw) n)) [
    | inl short ↦ rw short tt
    | inr fits ↦ rw fits (h (ground arith))
  ]

decode_block_round-IsSound :
    (raw : List ℕ) (level off : ℕ)
    → level < 2 ^ 31
    → IsSound raw block (decode_block_round raw level off)
unfolding decode_block_round
decode_block_round-IsSound raw level off h = guard_rule raw block (off + 4) _ _ λ fits.
    read_rule raw block off _ fits λ u. non_negative_rule raw block _ u _ λ hu. (refl, h, hu, refl)

decode_block-IsSound : (raw : List ℕ) → IsSound raw block (decode_block raw)
unfolding decode_block
decode_block-IsSound raw = guard_rule raw block block_min_len _ _ λ fits.
    read_rule raw block block_level_off _ (omega arith) λ u. non_negative_rule raw block _ u _ λ hu.
      read_rule raw block fitness_off _ (omega arith) λ v.
        non_negative_rule raw block _ v _
          λ hv. decode_block_round-IsSound raw u (fitness_off + v) hu

decode_consensus-IsSound :
    (kind : SignKind) (raw : List ℕ)
    → (if get_or raw 0 0 == 0x12 then preattestation else attestation) ≡ kind
    → IsSound raw kind (decode_consensus raw)
unfolding decode_consensus
decode_consensus-IsSound kind raw hk = guard_rule raw kind att_min_len _ _ λ fits.
    read_rule raw kind att_level_off _ (omega arith) λ u. non_negative_rule raw kind _ u _ λ hu.
      read_rule raw kind att_round_off _ (omega arith) λ v.
        non_negative_rule raw kind _ v _ λ hv. byte_rule raw kind _ (omega arith) (hk, hu, hv, refl)

-- What the whole decoder returns: a payload is of the kind that the first byte says.
abbrev IsDecoded : List ℕ → Outcome Payload → Type 0
IsDecoded raw (ok p) =
    (get_or raw 0 0 ≡ watermark_byte p.kind)
    × (p.level < 2 ^ 31)
    × (p.round < 2 ^ 31)
    × (p.sign_bytes ≡ raw)
IsDecoded raw (err e) = Unit {0}
IsDecoded raw panic = ⊥

IsDecoded-of_IsSound :
    (raw : List ℕ) (kind : SignKind) (o : Outcome Payload)
    → get_or raw 0 0 ≡ watermark_byte kind
    → IsSound raw kind o
    → IsDecoded raw o
IsDecoded-of_IsSound raw kind (ok p) tag (k, l, r, b) = (tag ∙ ap watermark_byte (sym k), l, r, b)
IsDecoded-of_IsSound raw kind (err e) tag h = tt
IsDecoded-of_IsSound raw kind panic tag h = h

decode_tag_cases : (raw : List ℕ) → IsDecoded raw (decode_by_tag raw (get_or raw 0 0))
unfolding decode_by_tag
decode_tag_cases raw = elim (Bool-cases (get_or raw 0 0 == 0x11)) [
  | inl t ↦ rw t (IsDecoded-of_IsSound raw block _ (ground arith) (decode_block-IsSound raw))
  | inr t ↦ rw t (elim (Bool-cases (get_or raw 0 0 == 0x12)) [
    | inl u ↦ rw u (consensus preattestation (ground arith) (rw u refl))
    | inr u ↦ rw u (elim (Bool-cases (get_or raw 0 0 == 0x13)) [
      | inl v ↦ rw v (consensus attestation (ground arith) (rw u refl))
      | inr v ↦ rw v tt
    ])
  ])
]
  where
    consensus :
        (kind : SignKind)
        → get_or raw 0 0 ≡ watermark_byte kind
        → (if get_or raw 0 0 == 0x12 then preattestation else attestation) ≡ kind
        → IsDecoded raw (decode_consensus raw)
    consensus kind is hk = IsDecoded-of_IsSound raw kind _ is (decode_consensus-IsSound kind raw hk)

decode_cases : (raw : List ℕ) → IsDecoded raw (decode_and_validate_sign_payload raw)
unfolding decode_and_validate_sign_payload byte_at
decode_cases raw = elim (Bool-cases (ltb (length raw) 1)) [
  | inl short ↦ rw short tt
  | inr long ↦
      let fits : leb (length raw) 0 ≡ false = ground arith in rw (long, fits) (decode_tag_cases raw)
]

-- No payload, of any length and content, makes a read of the decoder go out of bounds.
pub decode-ne-panic : (raw : List ℕ) → decode_and_validate_sign_payload raw ≢ panic
decode-ne-panic raw e = subst (IsDecoded raw) e (decode_cases raw)

-- What is accepted has the watermark byte of its kind, a level and a round that an int32 holds,
-- and is handed on whole, as the bytes to sign.
pub decode_sound :
    (raw : List ℕ) (p : Payload)
    → decode_and_validate_sign_payload raw ≡ ok p
    → (get_or raw 0 0 ≡ watermark_byte p.kind)
      × (p.level < 2 ^ 31)
      × (p.round < 2 ^ 31)
      × (p.sign_bytes ≡ raw)
decode_sound raw p e = subst (IsDecoded raw) e (decode_cases raw)
