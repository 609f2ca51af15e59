-- ===== src/Broker/Stash.antt =====
-- broker/stash.go: the buffer of received bytes, from which complete frames are cut. The
-- `bytes.Buffer` is the list of its unread bytes; log calls have no effect.
pub mod Frames
pub mod Process
pub mod Ends
pub mod Split
pub mod Write
use tezsign.Prelude.{
  ℕ, zero, suc, ◌+◌, ◌-◌, ◌%◌, ◌^◌, List, [], ◌∷◌, ◌++◌, Option, none, some, length, take, drop,
  ltb, ◌==◌, if◌then◌else◌,
}
use mathlib.Core.Option
use tezsign.Broker.Wire.{
  magic_byte, header_len, max_message_payload, payload_type_unknown, WireError, incomplete_header,
  Result, ok, err, Header, decode_header,
}

pub record Stash : Type 0 where
  pub buf : List ℕ
  pub capacity : ℕ

-- `invalid_payload e` is errors.Join(ErrInvalidPayload, e).
pub data StashError : Type 0 where
  no_payload_found incomplete_payload invalid_payload_size : StashError
  invalid_payload : WireError → StashError

-- What `ReadPayload` returns with no error: the id, the type and a copy of the payload.
pub record Message : Type 0 where
  pub id : List ℕ
  pub type : ℕ
  pub payload : List ℕ

pub data Read : Type 0 where
  message : Message → Read
  failed : StashError → Read

unfoldable pub new_stash : ℕ → Stash
new_stash size = record { buf = []; capacity = size }

-- `s.buf.Next(n)`, for its effect on the buffer: at most the bytes that there are.
abbrev pub next : ℕ → Stash → Stash
next n s = record s { buf = drop n s.buf }

-- `bytes.IndexByte`.
unfoldable pub index_byte : List ℕ → ℕ → Option ℕ
index_byte [] c = none
index_byte (b ∷ bs) c = if b == c then some 0 else Option.map suc (index_byte bs c)

unfoldable pub write : Stash → List ℕ → Stash
write s bytes =
    let data_len = length bytes in
    let s' =
      if ltb s.capacity (length s.buf + data_len)
      then next (length s.buf + data_len - s.capacity) s
      else s in
    record s' { buf = s'.buf ++ bytes }

-- The part of `ReadPayload` behind `s.buf.Next(idx)`. The sum of the header's length and the size
-- is a uint32.
unfoldable pub read_frame : Stash → Result Header → Stash × Read
read_frame s (err incomplete_header) = (s, failed (invalid_payload incomplete_header))
read_frame s (err e) = (next 1 s, failed (invalid_payload e))
read_frame s (ok h) =
    if ltb max_message_payload h.size
    then (next header_len s, failed invalid_payload_size)
    else if ltb (length s.buf) ((header_len + h.size) % 2 ^ 32)
    then (s, failed incomplete_payload)
    else (
      next h.size (next header_len s),
      message (record { id = h.id; type = h.type; payload = take h.size (drop header_len s.buf) }),
    )

-- With no magic byte all but a tail of 22 bytes is dropped; `drop > 0` is the test on an int.
unfoldable pub drop_garbage : Stash → Stash
drop_garbage s =
    if ltb (header_len - 1) (length s.buf) then next (length s.buf - (header_len - 1)) s else s

unfoldable pub read_at : Stash → Option ℕ → Stash × Read
unfolding read_frame drop_garbage
read_at s none = (drop_garbage s, failed no_payload_found)
read_at s (some idx) = let s' = next idx s in read_frame s' (decode_header s'.buf)

unfoldable pub read_payload : Stash → Stash × Read
unfolding read_at
read_payload s = read_at s (index_byte s.buf magic_byte)

-- `processStash` of broker/broker.go. The goroutine started for each message is left to the
-- caller: the messages are listed in the order in which they are started. `none` is no return: the
-- loop is still running after that many rounds.
unfoldable pub process_stash : ℕ → Stash → Option (Stash × List Message)
process_stash zero s = none
process_stash (suc fuel) s =
    let (s', r) = read_payload s in
    elim r [
      | failed no_payload_found ↦ some (s', [])
      | failed incomplete_payload ↦ some (s', [])
      | failed invalid_payload_size ↦ process_stash fuel s'
      | failed (invalid_payload e) ↦ process_stash fuel s'
      | message m ↦ Option.map (λ (t, ms). (t, m ∷ ms)) (process_stash fuel s')
    ]
