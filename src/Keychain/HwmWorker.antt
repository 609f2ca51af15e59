-- ===== src/Keychain/HwmWorker.antt =====
-- keychain/key_hwm_file.go, third part: opening the file, and the worker that owns it. The file's
-- bytes, the index of the slot to write next and the answers that nobody has received yet are one
-- state. What the system does is an argument: the random bytes, and the calls that fail.
pub mod Durable
pub mod Guard
pub mod Fresh
use tezsign.Prelude.{
  ℕ, ◌+◌, ◌-◌, ◌*◌, ◌%◌, Bool, true, false, not, ◌&&◌, ◌||◌, List, [], ◌∷◌, ◌++◌, Option, none,
  some, length, take, replicate, ltb, ◌==◌, if◌then◌else◌, bit_xor,
}
use tezsign.Keychain.Crypto.{Gcm}
use tezsign.Keychain.KeyState.{
  KeyState, key_state_slot_size, key_state_file_size, new_zero_key_state, ensure_key_state,
}
use tezsign.Keychain.HwmFile.{
  HwmError, bad_dek_length, os_error, Result, ok, err, Loaded, LoadResult, loaded, load_failed,
  write_at, encode_key_state_slot, read_double_buffer_key_state, choose_next_key_hwm_file_slot,
}

-- keyHWMFile, with its worker. `respCh` holds one answer, and a worker that has a second one waits
-- for a receiver.
pub record HwmFile : Type 0 where
  pub file : List ℕ
  pub next_slot : ℕ
  pub responses : List (Option HwmError)

-- The calls that fail: a failing write leaves the content that it names.
pub record Faults : Type 0 where
  pub open_read : Bool
  pub open_write : Bool
  pub stat : Bool
  pub truncate : Bool
  pub write_a : Option (List ℕ)
  pub write_b : Option (List ℕ)
  pub sync : Bool
  pub sync_dir : Bool

pub data OpenResult : Type 0 where
  opened : HwmFile → KeyState → ℕ → Bool → OpenResult
  open_failed : HwmError → Bool → OpenResult

unfoldable pub new_key_hwm_file : List ℕ → ℕ → HwmFile
new_key_hwm_file file next_slot = record { file = file; next_slot = next_slot % 2; responses = [] }

abbrev pub blank_slot : List ℕ
blank_slot = replicate key_state_slot_size 0

-- What a write leaves, and whether it failed.
abbrev pub after_write : Option (List ℕ) → List ℕ → List ℕ × Option HwmError
after_write none written = (written, none)
after_write (some left) written = (left, some os_error)

-- O_CREATE makes an empty file where there is none.
abbrev pub file_or_empty : Option (List ℕ) → List ℕ
file_or_empty none = []
file_or_empty (some file) = file

module _ (gcm : Gcm) (dek id tz4 : List ℕ) where
  unfoldable pub write_mirrored_key_state :
      Faults → Option (List ℕ) → List ℕ → KeyState → ℕ → List ℕ × Option HwmError
  write_mirrored_key_state faults nonce file ks seq =
      elim (encode_key_state_slot gcm dek id tz4 blank_slot nonce (some ks) seq) [
        | err e ↦ (file, some e)
        | ok slot ↦
            let (file_a, err_a) = after_write faults.write_a (write_at file slot 0) in
            elim err_a [
              | some e ↦ (file_a, some e)
              | none ↦ after_write faults.write_b (write_at file_a slot key_state_slot_size)
            ]
      ]

  -- The disk is `none` where there is no file.
  unfoldable pub read_key_hwm_state : Faults → Option (List ℕ) → LoadResult
  read_key_hwm_state faults none =
      if not (length dek == 32)
      then load_failed bad_dek_length false false
      else loaded
          (record { ks = new_zero_key_state; seq = 0; missing = true; corrupted_slot = false })
  read_key_hwm_state faults (some file) =
      if not (length dek == 32)
      then load_failed bad_dek_length false false
      else if faults.open_read
      then load_failed os_error false false
      else read_double_buffer_key_state gcm dek id tz4 file

  -- From `file.Truncate` on: both slots get the marks that were read.
  unfoldable pub init_key_hwm_file :
      Faults → Option (List ℕ) → List ℕ → Loaded → List ℕ × OpenResult
  init_key_hwm_file faults nonce file l =
      let resized =
        take key_state_file_size (file ++ replicate (key_state_file_size - length file) 0) in
      let ks = ensure_key_state (some l.ks) in
      let seq : ℕ = if l.missing then 0 else if l.seq == 0 then 1 else l.seq in
      let (written, failure) = write_mirrored_key_state faults nonce resized ks seq in
      if faults.truncate then (file, open_failed os_error l.corrupted_slot) else elim failure [
        | some e ↦ (written, open_failed e l.corrupted_slot)
        | none ↦
            if (l.missing && faults.sync) || faults.sync_dir
            then (written, open_failed os_error l.corrupted_slot)
            else (written, opened (new_key_hwm_file written 0) ks seq l.corrupted_slot)
      ]

  -- The result holds the file as it is left, `none` where it still does not exist.
  unfoldable pub open_key_hwm_file :
      Faults → Option (List ℕ) → Option (List ℕ) → Option (List ℕ) × OpenResult
  open_key_hwm_file faults nonce disk = elim (read_key_hwm_state faults disk) [
    | load_failed e missing corrupted_slot ↦ (disk, open_failed e corrupted_slot)
    | loaded l ↦
        let file = file_or_empty disk in
        let (left, result) = init_key_hwm_file faults nonce file l in
        if faults.open_write
        then (disk, open_failed os_error l.corrupted_slot)
        else if not l.missing && faults.stat
        then (some file, open_failed os_error l.corrupted_slot)
        else if l.missing || not (length file == key_state_file_size)
        then (some left, result)
        else (
          some file,
          opened (new_key_hwm_file file (choose_next_key_hwm_file_slot gcm dek id tz4 file)) l.ks
              l.seq l.corrupted_slot,
        )
  ]

  -- One request served by the worker: the write is made, the answer is sent, and the other slot is
  -- next. `fault` is what a failing write leaves of the file.
  unfoldable pub worker_round : Option (List ℕ) → Option (List ℕ) → KeyState → ℕ → HwmFile → HwmFile
  worker_round nonce fault ks seq h =
      elim (encode_key_state_slot gcm dek id tz4 blank_slot nonce (some ks) seq) [
        | err e ↦ record h { responses = h.responses ++ (some e ∷ []) }
        | ok slot ↦
            let (left, answer) =
              after_write fault (write_at h.file slot (h.next_slot * key_state_slot_size)) in
            record {
              file = left;
              next_slot = bit_xor h.next_slot 1;
              responses = h.responses ++ (answer ∷ []);
            }
      ]

  -- `none`: the worker is still waiting for its last answer to be received, and the call blocks.
  unfoldable pub persist_async :
      Option (List ℕ) → Option (List ℕ) → KeyState → ℕ → HwmFile → Option HwmFile
  persist_async nonce fault ks seq h =
      if ltb (length h.responses) 2 then some (worker_round nonce fault ks seq h) else none

-- The next answer, whichever request it belongs to; `none` blocks.
unfoldable pub wait_persist : HwmFile → Option (Option HwmError × HwmFile)
wait_persist h = elim h.responses [
  | [] ↦ none
  | r ∷ rs ↦ some (r, record { file = h.file; next_slot = h.next_slot; responses = rs })
]

module _ (gcm : Gcm) (dek id tz4 : List ℕ) where
  unfoldable pub persist :
      Option (List ℕ)
      → Option (List ℕ)
      → KeyState
      → ℕ
      → HwmFile
      → Option (Option HwmError × HwmFile)
  persist nonce fault ks seq h = elim (persist_async gcm dek id tz4 nonce fault ks seq h) [
    | none ↦ none
    | some h' ↦ wait_persist h'
  ]

  unfoldable pub load : HwmFile → LoadResult
  load h =
      if not (length dek == 32)
      then load_failed bad_dek_length false false
      else read_double_buffer_key_state gcm dek id tz4 h.file
