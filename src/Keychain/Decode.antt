-- ===== src/Keychain/Decode.antt =====
-- keychain/decode.go: the kind, level and round of a Tenderbake payload. A read that Go would
-- refuse at run time is the outcome `panic`.
pub mod Layout
pub mod Accepts
use tezsign.Prelude.{
  ℕ, ◌+◌, ◌^◌, List, [], length, drop, get_or, ltb, leb, ◌==◌, if◌then◌else◌, ◌||◌,
}
use tezsign.Prelude.Bytes.{get_be32}
use tezsign.Keychain.Kinds.{SignKind, block, preattestation, attestation}

pub data DecodeError : Type 0 where
  empty_payload out_of_bounds negative_level negative_round : DecodeError
  negative_fitness_len unsupported_operation : DecodeError

pub data Outcome {ℓ} (A : Type ℓ) : Type ℓ where
  ok : A → Outcome A
  err : DecodeError → Outcome A
  panic : Outcome A

infixl 5 ◌>>=◌
abbrev pub ◌>>=◌ {ℓ κ} : {A : Type ℓ} {B : Type κ} → Outcome A → (A → Outcome B) → Outcome B
ok a >>= f = f a
err e >>= f = err e
panic >>= f = panic

-- raw[i]
unfoldable pub byte_at : List ℕ → ℕ → Outcome ℕ
byte_at raw i = if leb (length raw) i then panic else ok (get_or raw i 0)

-- binary.BigEndian.Uint32(raw[off:])
unfoldable pub uint32_at : List ℕ → ℕ → Outcome ℕ
uint32_at raw off = if ltb (length raw) (off + 4) then panic else ok (get_be32 (drop off raw))

-- `int32(u)` of a uint32, where a negative value ends the call with the error `e`.
unfoldable pub non_negative : DecodeError → ℕ → Outcome ℕ
non_negative e u = if leb (2 ^ 31) u then err e else ok u

pub record Payload : Type 0 where
  pub kind : SignKind
  pub level : ℕ
  pub round : ℕ
  pub sign_bytes : List ℕ

abbrev pub block_level_off : ℕ
block_level_off = 1 + 4

abbrev pub fitness_off : ℕ
fitness_off = 1 + 4 + 4 + 1 + 32 + 8 + 1 + 32

abbrev pub block_min_len : ℕ
block_min_len = fitness_off + 4

abbrev pub att_level_off : ℕ
att_level_off = 1 + 4 + 32 + 1

abbrev pub att_round_off : ℕ
att_round_off = att_level_off + 4

abbrev pub att_min_len : ℕ
att_min_len = att_round_off + 4

-- From the second bounds check on.
unfoldable pub decode_block_round : List ℕ → ℕ → ℕ → Outcome Payload
unfolding uint32_at non_negative
decode_block_round raw level round_off =
    if ltb (length raw) (round_off + 4) then err out_of_bounds else do
      round ← non_negative negative_round (← uint32_at raw round_off)
      ok (record { kind = block; level = level; round = round; sign_bytes = raw })

unfoldable pub decode_block : List ℕ → Outcome Payload
decode_block raw = if ltb (length raw) block_min_len then err out_of_bounds else do
  level ← non_negative negative_level (← uint32_at raw block_level_off)
  fitness_len ← non_negative negative_fitness_len (← uint32_at raw fitness_off)
  decode_block_round raw level (fitness_off + fitness_len)

-- The kind is read from the first byte, again, at the end.
unfoldable pub decode_consensus : List ℕ → Outcome Payload
unfolding uint32_at non_negative byte_at
decode_consensus raw = if ltb (length raw) att_min_len then err out_of_bounds else do
  level ← non_negative negative_level (← uint32_at raw att_level_off)
  round ← non_negative negative_round (← uint32_at raw att_round_off)
  first ← byte_at raw 0
  ok (record {
    kind = if first == 0x12 then preattestation else attestation;
    level = level;
    round = round;
    sign_bytes = raw;
  })

-- `switch raw[0]`
unfoldable pub decode_by_tag : List ℕ → ℕ → Outcome Payload
decode_by_tag raw tag =
    if tag == 0x11
    then decode_block raw
    else if tag == 0x12 || tag == 0x13
    then decode_consensus raw
    else err unsupported_operation

unfoldable pub decode_and_validate_sign_payload : List ℕ → Outcome Payload
unfolding byte_at
decode_and_validate_sign_payload raw =
    if ltb (length raw) 1 then err empty_payload else do tag ← byte_at raw 0; decode_by_tag raw tag
