-- ===== src/Keychain/Tests/Decoding.antt =====
-- Runs of keychain/decode.go.
use tezsign.Prelude.{ℕ, ◌^◌, ◌<◌, ◌≡◌, ◌≢◌, refl, arith, List, [], ◌∷◌, take, replicate, get_or}
use tezsign.Keychain.Kinds.{block, preattestation}
use tezsign.Keychain.Decode
use tezsign.Keychain.Decode.{Payload, decode_and_validate_sign_payload}
use tezsign.Keychain.Decode.Layout.{watermark_byte, decode-ne-panic, decode_sound}
use tezsign.Keychain.Decode.Accepts.{
  Consensus, IsConsensus, consensus_bytes, decode-consensus, BlockFields, IsBlock, block_bytes,
  decode-block,
}

abbrev pub vote : Consensus
vote = record {
  chain = 1 ∷ 2 ∷ 3 ∷ 4 ∷ [];
  branch = replicate 32 9;
  operation = 20;
  level = 7;
  round = 1;
}

vote-IsConsensus : IsConsensus vote
vote-IsConsensus = record {
  chain_length = refl;
  branch_length = refl;
  level_fits = omega arith;
  round_fits = omega arith;
}

abbrev pub vote_bytes : List ℕ
vote_bytes = consensus_bytes 0x12 vote (5 ∷ [])

abbrev pub vote_payload : Payload
vote_payload = record { kind = preattestation; level = 7; round = 1; sign_bytes = vote_bytes }

preattestation-ne-block : preattestation ≢ block
preattestation-ne-block e = cc

decode-consensus_example : decode_and_validate_sign_payload vote_bytes ≡ Decode.ok vote_payload
decode-consensus_example =
    decode-consensus preattestation vote (5 ∷ []) preattestation-ne-block vote-IsConsensus

decode_sound_example :
    (get_or vote_bytes 0 0 ≡ watermark_byte preattestation)
    × (7 < 2 ^ 31)
    × (1 < 2 ^ 31)
    × (vote_bytes ≡ vote_bytes)
decode_sound_example = decode_sound vote_bytes vote_payload decode-consensus_example

decode-ne-panic_example : decode_and_validate_sign_payload (take 45 vote_bytes) ≢ Decode.panic
decode-ne-panic_example = decode-ne-panic (take 45 vote_bytes)

abbrev header : BlockFields
header = record {
  chain = 1 ∷ 2 ∷ 3 ∷ 4 ∷ [];
  level = 8;
  middle = replicate 74 3;
  fitness = replicate 30 2;
  round = 2;
}

header-IsBlock : IsBlock header
header-IsBlock = record {
  chain_length = refl;
  middle_length = refl;
  level_fits = omega arith;
  fitness_fits = omega arith;
  round_fits = omega arith;
}

decode-block_example :
    decode_and_validate_sign_payload (block_bytes header (replicate 40 1))
    ≡ Decode.ok (record {
      kind = block;
      level = 8;
      round = 2;
      sign_bytes = block_bytes header (replicate 40 1);
    })
decode-block_example = decode-block header (replicate 40 1) header-IsBlock
