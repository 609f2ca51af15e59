-- ===== src/Keychain/Tests/States.antt =====
-- Runs of the marks on disk.
use tezsign.Prelude.{
  ℕ, ◌≡◌, ◌⊎◌, inl, refl, arith, true, false, List, [], ◌++◌, none, some, replicate,
}
use tezsign.Prelude.Bytes.{codes, get_be32}
use tezsign.Keychain.Kinds.{block, preattestation, attestation, AtLeast, Above}
use tezsign.Keychain.Crypto.{is_aes_key, checksum_ieee}
use tezsign.Keychain.KeyState.{
  new_zero_key_state, slot_is_zero, KeyState, state_plus_one, merge_key_states,
}
use tezsign.Keychain.KeyState.RoundTrip.{IsEncodable}
use tezsign.Keychain.KeyState.Marks.{mark_at, merge_key_states_max, state_plus_one-Above}
use tezsign.Keychain.HwmFile.{ok, decode_key_state_slot, read_double_buffer_key_state, write_at}
use tezsign.Keychain.HwmFile.Slots.{sealed_slot, decode_slot-sealed, length-sealed_slot}
use tezsign.Keychain.HwmFile.Recovery.{LoadCovers, HasRoom, IsHarmless, Covers-refl}
use tezsign.Keychain.HwmFile.Choice.{IsGood}
use tezsign.Keychain.HwmWorker.{HwmFile, worker_round, blank_slot}
use tezsign.Keychain.HwmWorker.Durable.{
  IsCurrent, Replaced, torn_write_covers, worker_round-Replaced,
}
use tezsign.Keychain.Tests.Setup.{open_cipher}

abbrev pub some_key : List ℕ
some_key = replicate 32 1

abbrev pub some_nonce : List ℕ
some_nonce = replicate 12 2

abbrev pub key_id : List ℕ
key_id = codes "k1"

abbrev pub address : List ℕ
address = codes "tz4a"

abbrev pub old_marks : KeyState
old_marks = record {
  for_block = some (record { level = 5; round = 0 });
  for_preattestation = some (record { level = 6; round = 2 });
  for_attestation = some (record { level = 6; round = 1 });
}

abbrev new_marks : KeyState
new_marks = record {
  for_block = some (record { level = 5; round = 0 });
  for_preattestation = some (record { level = 7; round = 0 });
  for_attestation = some (record { level = 6; round = 1 });
}

pub old_marks-IsEncodable : IsEncodable (some old_marks) 41
old_marks-IsEncodable = record {
  block_fits = (omega arith, omega arith);
  preattestation_fits = (omega arith, omega arith);
  attestation_fits = (omega arith, omega arith);
  seq_fits = omega arith;
}

new_marks-IsEncodable : IsEncodable (some new_marks) 42
new_marks-IsEncodable = record {
  block_fits = (omega arith, omega arith);
  preattestation_fits = (omega arith, omega arith);
  attestation_fits = (omega arith, omega arith);
  seq_fits = omega arith;
}

pub old_marks-HasRoom : HasRoom old_marks
old_marks-HasRoom block = omega arith
old_marks-HasRoom preattestation = omega arith
old_marks-HasRoom attestation = omega arith

merge_key_states_max_example :
    let merged =
      mark_at (some (merge_key_states (some old_marks) (some new_marks))) preattestation in
    AtLeast (mark_at (some old_marks) preattestation) merged
    × AtLeast (mark_at (some new_marks) preattestation) merged
    × ((merged ≡ mark_at (some old_marks) preattestation)
        ⊎ (merged ≡ mark_at (some new_marks) preattestation))
merge_key_states_max_example = merge_key_states_max (some old_marks) (some new_marks) preattestation

state_plus_one-Above_example :
    Above
      (record { level = 6; round = 9 })
      (mark_at (some (state_plus_one (some old_marks))) attestation)
state_plus_one-Above_example = state_plus_one-Above (some old_marks) attestation 9 (omega arith)

abbrev pub old_slot : List ℕ
old_slot = sealed_slot open_cipher some_key key_id address some_nonce (some old_marks) 41

pub some_key-is_aes_key : is_aes_key some_key ≡ true
unfolding is_aes_key
some_key-is_aes_key = refl

decode_slot-sealed_example :
    decode_key_state_slot open_cipher some_key key_id address old_slot
    ≡ ok (record { ks = old_marks; seq = 41; missing = false })
decode_slot-sealed_example =
    decode_slot-sealed open_cipher some_key key_id address some_nonce (some old_marks) 41 refl
      some_key-is_aes_key old_marks-IsEncodable

-- The second slot holds the marks, and the first is written next.
abbrev pub current_file : HwmFile
current_file = record { file = blank_slot ++ old_slot; next_slot = 0; responses = [] }

decoded_blank :
    decode_key_state_slot open_cipher some_key key_id address blank_slot
    ≡ ok (record { ks = new_zero_key_state; seq = 0; missing = true })
unfolding decode_key_state_slot slot_is_zero new_zero_key_state
decoded_blank = refl

pub current_file-IsCurrent : IsCurrent open_cipher some_key key_id address old_marks 41 current_file
current_file-IsCurrent = record {
  slot_a = blank_slot;
  slot_b = old_slot;
  length_a = refl;
  length_b =
      length-sealed_slot open_cipher some_key key_id address some_nonce (some old_marks) 41 refl;
  whole = refl;
  side = inl (refl, decode_slot-sealed_example, rw decoded_blank (inl refl));
}

-- A cut that leaves nothing but zeros in the first slot, or the first bytes of a new one.
abbrev torn : List ℕ
torn = replicate 60 2 ++ replicate 40 0

torn-IsHarmless :
    IsHarmless old_marks 41 (decode_key_state_slot open_cipher some_key key_id address torn)
unfolding decode_key_state_slot slot_is_zero checksum_ieee get_be32
torn-IsHarmless = tt

torn_write_covers_example : LoadCovers old_marks (
    read_double_buffer_key_state open_cipher some_key key_id address
      (write_at current_file.file torn 0))
torn_write_covers_example =
    torn_write_covers open_cipher some_key key_id address old_marks 41 current_file torn
      old_marks-HasRoom current_file-IsCurrent refl torn-IsHarmless

worker_round-Replaced_example :
    Replaced open_cipher some_key key_id address old_marks 41 new_marks 42 (
      worker_round open_cipher some_key key_id address
        (some some_nonce)
        none
        new_marks
        42
        current_file)
worker_round-Replaced_example =
    worker_round-Replaced open_cipher some_key key_id address old_marks new_marks 41 42 current_file
      some_nonce refl some_key-is_aes_key new_marks-IsEncodable refl (omega arith)
      current_file-IsCurrent

old_marks-IsGood : IsGood old_marks 41 (ok (record { ks = old_marks; seq = 41; missing = false }))
old_marks-IsGood = record {
  ks = old_marks;
  holds = refl;
  covers = Covers-refl old_marks;
  room = old_marks-HasRoom;
}
