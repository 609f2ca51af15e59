-- ===== src/Keychain/Decode/Accepts.antt =====
-- The payloads that the decoder accepts, built from their fields.
use tezsign.Prelude.{
  ℕ, ◌+◌, ◌^◌, ◌≤◌, ◌<◌, ◌≡◌, ◌≢◌, refl, ap, ◌∙◌, arith, List, [], ◌∷◌, ◌++◌, length, drop,
  length-append, drop-append_right, ltb-false, ◌==◌, if◌then◌else◌,
}
use tezsign.Prelude.Bytes.{put_be32, get_be32, get_be32-put_be32}
use tezsign.Keychain.Kinds.{SignKind, block, preattestation, attestation}
use tezsign.Keychain.Decode.{
  ok, negative_level, negative_fitness_len, DecodeError, non_negative, fitness_off, block_min_len,
  block_level_off, att_level_off, att_round_off, decode_block_round, decode_block, decode_consensus,
  decode_and_validate_sign_payload, decode_by_tag, byte_at, uint32_at,
}
use tezsign.Keychain.Decode.Layout.{watermark_byte}

-- watermark | chain id (4) | branch (32) | operation kind (1) | level (4) | round (4)
pub record Consensus : Type 0 where
  pub chain : List ℕ
  pub branch : List ℕ
  pub operation : ℕ
  pub level : ℕ
  pub round : ℕ

pub record IsConsensus (c : Consensus) : Type 0 where
  pub chain_length : length c.chain ≡ 4
  pub branch_length : length c.branch ≡ 32
  pub level_fits : c.level < 2 ^ 31
  pub round_fits : c.round < 2 ^ 31

abbrev pub consensus_bytes : ℕ → Consensus → List ℕ → List ℕ
consensus_bytes tag c rest =
    tag
    ∷ (c.chain ++ (c.branch ++ (c.operation ∷ (put_be32 c.level ++ (put_be32 c.round ++ rest)))))

consensus_level :
    (tag : ℕ) (c : Consensus) (rest : List ℕ)
    → IsConsensus c
    → drop att_level_off (consensus_bytes tag c rest)
      ≡ put_be32 c.level ++ (put_be32 c.round ++ rest)
consensus_level tag c rest h =
    drop-append_right 4 33 37 c.chain _ refl h.chain_length
    ∙ drop-append_right 32 1 33 c.branch _ refl h.branch_length

consensus_round :
    (tag : ℕ) (c : Consensus) (rest : List ℕ)
    → IsConsensus c
    → drop att_round_off (consensus_bytes tag c rest) ≡ put_be32 c.round ++ rest
consensus_round tag c rest h =
    drop-append_right 4 37 41 c.chain _ refl h.chain_length
    ∙ drop-append_right 32 5 37 c.branch _ refl h.branch_length

length-consensus :
    (tag : ℕ) (c : Consensus) (rest : List ℕ)
    → IsConsensus c
    → 46 ≤ length (consensus_bytes tag c rest)
length-consensus tag c rest h = omega (
  arith,
  h,
  length-append c.chain
      (c.branch ++ (c.operation ∷ (put_be32 c.level ++ (put_be32 c.round ++ rest)))),
  length-append c.branch (c.operation ∷ (put_be32 c.level ++ (put_be32 c.round ++ rest))),
)

decode_consensus_accepts :
    (tag : ℕ) (c : Consensus) (rest : List ℕ)
    → IsConsensus c
    → decode_consensus (consensus_bytes tag c rest)
      ≡ ok (record {
        kind = if tag == 0x12 then preattestation else attestation;
        level = c.level;
        round = c.round;
        sign_bytes = consensus_bytes tag c rest;
      })
unfolding decode_consensus byte_at
decode_consensus_accepts tag c rest h = ground (
  arith,
  length-consensus tag c rest h,
  ap get_be32 (consensus_level tag c rest h)
      ∙ get_be32-put_be32 c.level (put_be32 c.round ++ rest) (omega (arith, h)),
  ap get_be32 (consensus_round tag c rest h) ∙ get_be32-put_be32 c.round rest (omega (arith, h)),
)

decode_tagged :
    (xs : List ℕ)
    → (decode_and_validate_sign_payload (0x11 ∷ xs) ≡ decode_block (0x11 ∷ xs))
      × (decode_and_validate_sign_payload (0x12 ∷ xs) ≡ decode_consensus (0x12 ∷ xs))
      × (decode_and_validate_sign_payload (0x13 ∷ xs) ≡ decode_consensus (0x13 ∷ xs))
unfolding decode_and_validate_sign_payload decode_by_tag byte_at
decode_tagged xs = (ground arith, ground arith, ground arith)

-- Every preattestation and attestation whose level and round fit an int32 is accepted, with the
-- fields that it was built from; bytes behind the round are allowed, and are signed too.
pub decode-consensus :
    (kind : SignKind) (c : Consensus) (rest : List ℕ)
    → kind ≢ block
    → IsConsensus c
    → let raw = consensus_bytes (watermark_byte kind) c rest in
      decode_and_validate_sign_payload raw
      ≡ ok (record { kind = kind; level = c.level; round = c.round; sign_bytes = raw })
decode-consensus block c rest ne h = absurd (ne refl)
decode-consensus preattestation c rest ne h =
    (decode_tagged _).1 ∙ decode_consensus_accepts 0x12 c rest h
decode-consensus attestation c rest ne h =
    (decode_tagged _).2 ∙ decode_consensus_accepts 0x13 c rest h

-- watermark | chain id (4) | level (4) | proto, predecessor, timestamp, passes, operations (74) |
-- fitness length (4) | fitness, whose last four bytes are the round
pub record BlockFields : Type 0 where
  pub chain : List ℕ
  pub level : ℕ
  pub middle : List ℕ
  pub fitness : List ℕ
  pub round : ℕ

pub record IsBlock (b : BlockFields) : Type 0 where
  pub chain_length : length b.chain ≡ 4
  pub middle_length : length b.middle ≡ 74
  pub level_fits : b.level < 2 ^ 31
  pub fitness_fits : length b.fitness + 4 < 2 ^ 31
  pub round_fits : b.round < 2 ^ 31

uint32_at_fits :
    (raw : List ℕ) (off u : ℕ)
    → off + 4 ≤ length raw
    → get_be32 (drop off raw) ≡ u
    → uint32_at raw off ≡ ok u
unfolding uint32_at
uint32_at_fits raw off u fits e = ground arith

non_negative_fits : (e : DecodeError) (u : ℕ) → u < 2 ^ 31 → non_negative e u ≡ ok u
unfolding non_negative
non_negative_fits e u h = ground arith

decode_block_header :
    (raw : List ℕ) (level fitness_len : ℕ)
    → block_min_len ≤ length raw
    → get_be32 (drop block_level_off raw) ≡ level
    → level < 2 ^ 31
    → get_be32 (drop fitness_off raw) ≡ fitness_len
    → fitness_len < 2 ^ 31
    → decode_block raw ≡ decode_block_round raw level (fitness_off + fitness_len)
unfolding decode_block
decode_block_header raw level fitness_len long el hl ef hf =
    rw (ltb-false (length raw) block_min_len long) (
      rw (uint32_at_fits raw block_level_off level (omega arith) el) (
        rw (non_negative_fits negative_level level hl) (
          rw (uint32_at_fits raw fitness_off fitness_len (omega arith) ef)
            (rw (non_negative_fits negative_fitness_len fitness_len hf) refl))))

module _ (b : BlockFields) (rest : List ℕ) where
  abbrev block_tail : List ℕ
  block_tail = b.fitness ++ (put_be32 b.round ++ rest)

  abbrev block_size : List ℕ
  block_size = put_be32 (length b.fitness + 4) ++ block_tail

  abbrev pub block_bytes : List ℕ
  block_bytes = 0x11 ∷ (b.chain ++ (put_be32 b.level ++ (b.middle ++ block_size)))

  block_level :
      IsBlock b → drop block_level_off block_bytes ≡ put_be32 b.level ++ (b.middle ++ block_size)
  block_level h = drop-append_right 4 0 4 b.chain _ refl h.chain_length

  block_fitness : IsBlock b → drop fitness_off block_bytes ≡ block_size
  block_fitness h =
      drop-append_right 4 78 82 b.chain _ refl h.chain_length
      ∙ drop-append_right 74 0 74 b.middle _ refl h.middle_length

  block_round :
      IsBlock b → drop (fitness_off + (length b.fitness + 4)) block_bytes ≡ put_be32 b.round ++ rest
  block_round h =
      let k = length b.fitness in
      let front = put_be32 (k + 4) in
      drop-append_right 1 (82 + (k + 4)) (83 + (k + 4)) (0x11 ∷ []) _ (omega arith) refl
      ∙ drop-append_right 4 (78 + (k + 4)) (82 + (k + 4)) b.chain _ (omega arith) h.chain_length
      ∙ drop-append_right 4 (74 + (k + 4)) (78 + (k + 4)) (put_be32 b.level) _ (omega arith) refl
      ∙ drop-append_right 74 (k + 4) (74 + (k + 4)) b.middle _ (omega arith) h.middle_length
      ∙ drop-append_right 4 k (k + 4) front _ (omega arith) refl
      ∙ drop-append_right k 0 k b.fitness _ (omega arith) refl

  length-block : IsBlock b → 91 + length b.fitness ≤ length block_bytes
  length-block h = omega (
    arith,
    h,
    length-append b.chain (put_be32 b.level ++ (b.middle ++ block_size)),
    length-append b.middle block_size,
    length-append b.fitness (put_be32 b.round ++ rest),
  )

  block_round_accepts :
      (level : ℕ)
      → IsBlock b
      → decode_block_round block_bytes level (fitness_off + (length b.fitness + 4))
        ≡ ok (record { kind = block; level = level; round = b.round; sign_bytes = block_bytes })
  unfolding decode_block_round
  block_round_accepts level h = ground (
    arith,
    length-block h,
    ap get_be32 (block_round h) ∙ get_be32-put_be32 b.round rest (omega (arith, h)),
  )

  decode_block_accepts :
      IsBlock b
      → decode_block block_bytes
        ≡ ok (record { kind = block; level = b.level; round = b.round; sign_bytes = block_bytes })
  decode_block_accepts h =
      decode_block_header block_bytes b.level (length b.fitness + 4) (omega (arith, length-block h))
        (ap get_be32 (block_level h)
          ∙ get_be32-put_be32 b.level (b.middle ++ block_size) (omega (arith, h)))
        h.level_fits
        (ap get_be32 (block_fitness h)
          ∙ get_be32-put_be32 (length b.fitness + 4) block_tail (omega (arith, h)))
        h.fitness_fits
      ∙ block_round_accepts b.level h

-- Every block header whose numbers fit an int32 is accepted: its level is the one behind the chain
-- id, and its round is the last four bytes of the fitness, whatever stands before them.
pub decode-block :
    (b : BlockFields) (rest : List ℕ)
    → IsBlock b
    → decode_and_validate_sign_payload (block_bytes b rest)
      ≡ ok (record {
        kind = block;
        level = b.level;
        round = b.round;
        sign_bytes = block_bytes b rest;
      })
decode-block b rest h = (decode_tagged _).0 ∙ decode_block_accepts b rest h
