-- ===== src/Broker/Wire.antt =====
-- broker/wire.go and broker/constants.go: message headers and frames. A byte slice is a list of
-- numbers, `[16]byte` a list of length 16, and a Go pair (value, error) a `Result`.
pub mod RoundTrip
use tezsign.Prelude.{
  ℕ, ◌+◌, ◌-◌, ◌*◌, ◌/◌, ◌^◌, Bool, not, List, [], ◌∷◌, ◌++◌, length, get_or, take, drop, bit_xor,
  ltb, ◌==◌, if◌then◌else◌,
}
use tezsign.Prelude.Bytes.{put_le32, get_le32}

abbrev pub magic_byte : ℕ
magic_byte = 0x56

-- magic(1) + type(1) + id(16) + size(4) + parity(1)
abbrev pub header_len : ℕ
header_len = 1 + 1 + 16 + 4 + 1

abbrev pub default_broker_capacity : ℕ
default_broker_capacity = 50 * 1048576

abbrev pub max_message_payload : ℕ
max_message_payload = default_broker_capacity / 2

-- The values of `payloadType`, a byte that may hold any other value too.
abbrev pub payload_type_unknown : ℕ
payload_type_unknown = 0x00

abbrev pub payload_type_request : ℕ
payload_type_request = 0x01

abbrev pub payload_type_response : ℕ
payload_type_response = 0x02

abbrev pub payload_type_accept_request : ℕ
payload_type_accept_request = 0x03

abbrev pub payload_type_retry : ℕ
payload_type_retry = 0x04

abbrev pub payload_type_keep_alive : ℕ
payload_type_keep_alive = 0x05

-- The errors of broker/errors.go that the codec returns.
pub data WireError : Type 0 where
  invalid_header_parity incomplete_header invalid_header_bad_magic : WireError
  encode_header_dest_too_small encode_header_payload_large : WireError

pub data Result {ℓ} (A : Type ℓ) : Type ℓ where
  ok : A → Result A
  err : WireError → Result A

pub record Header : Type 0 where
  pub magic : ℕ
  pub type : ℕ
  pub id : List ℕ
  pub size : ℕ

-- `for _, b := range bytes22 { x ^= b }`
unfoldable pub xor_bytes : ℕ → List ℕ → ℕ
xor_bytes x [] = x
xor_bytes x (b ∷ bs) = xor_bytes (bit_xor x b) bs

unfoldable pub header_parity : List ℕ → Result ℕ
header_parity bytes22 =
    if not (length bytes22 == header_len - 1)
    then err invalid_header_parity
    else ok (xor_bytes 0 bytes22)

-- `p, _ := headerParity(…)`: on an error the value is 0.
abbrev pub value_or_zero : Result ℕ → ℕ
value_or_zero (ok p) = p
value_or_zero (err e) = 0

unfoldable pub decode_header : List ℕ → Result Header
decode_header src =
    if ltb (length src) header_len
    then err incomplete_header
    else if not (get_or src 0 0 == magic_byte)
    then err invalid_header_bad_magic
    else if not (get_or src 22 0 == value_or_zero (header_parity (take 22 src)))
    then err invalid_header_bad_magic
    else ok (record {
      magic = get_or src 0 0;
      type = get_or src 1 0;
      id = take 16 (drop 2 src);
      size = get_le32 (take 4 (drop 18 src));
    })

-- The first 22 bytes of the frame.
unfoldable pub frame_fields : ℕ → List ℕ → ℕ → List ℕ
frame_fields msg_type id payload_len = magic_byte ∷ msg_type ∷ (id ++ put_le32 payload_len)

-- `make` gives a slice whose capacity is the size asked for, so the first guard never fires.
unfoldable pub new_message : ℕ → List ℕ → List ℕ → Result (List ℕ)
unfolding frame_fields
new_message msg_type id payload =
    let payload_len = length payload in
    let required_size = header_len + payload_len in
    let capacity = required_size in
    let fields = frame_fields msg_type id payload_len in
    if ltb capacity required_size
    then err encode_header_dest_too_small
    else if ltb (2 ^ 32 - 1) payload_len
    then err encode_header_payload_large
    else ok (fields ++ (value_or_zero (header_parity fields) ∷ payload))
