-- ===== src/Broker/Wire/RoundTrip.antt =====
-- A frame decodes to the header that it was made from, and every decoded header is well formed.
use tezsign.Prelude.{
  ℕ, ◌+◌, ◌≤◌, ◌≡◌, refl, ap, sym, ◌∙◌, arith, List, [], ◌∷◌, ◌++◌, length, get_or, take, drop,
  append_assoc, length-append, take-append_exact, drop-append_exact, get_or-append_right,
  get_or-append_left, take-append_left, drop-append_left, length-drop,
}
use tezsign.Prelude.Bytes.{IsU32, put_le32, get_le32, get_le32-put_le32}
use tezsign.Broker.Wire.{
  magic_byte, header_len, ok, header_parity, value_or_zero, decode_header, frame_fields,
  new_message,
}

-- The frame of a message, when its payload's size fits.
unfoldable pub frame : ℕ → List ℕ → List ℕ → List ℕ
frame msg_type id payload =
    let fields = frame_fields msg_type id (length payload) in
    fields ++ (value_or_zero (header_parity fields) ∷ payload)

pub new_message-frame :
    (msg_type : ℕ) (id payload : List ℕ)
    → IsU32 (length payload)
    → new_message msg_type id payload ≡ ok (frame msg_type id payload)
unfolding new_message frame
new_message-frame msg_type id payload h = ground arith

length-frame_fields :
    (t : ℕ) (id : List ℕ) (n : ℕ) → length id ≡ 16 → length (frame_fields t id n) ≡ 22
unfolding frame_fields
length-frame_fields t id n h = omega (arith, length-append id (put_le32 n))

starts :
    (t : ℕ) (id : List ℕ) (n : ℕ) (tail : List ℕ)
    → get_or (frame_fields t id n ++ tail) 0 0 ≡ magic_byte
unfolding frame_fields
starts t id n tail = refl

type_at :
    (t : ℕ) (id : List ℕ) (n : ℕ) (tail : List ℕ) → get_or (frame_fields t id n ++ tail) 1 0 ≡ t
unfolding frame_fields
type_at t id n tail = refl

-- What the reads of `decode_header` find behind the 22 bytes of the fields.
parity_at :
    (fields tail : List ℕ) → length fields ≡ 22 → get_or (fields ++ tail) 22 0 ≡ get_or tail 0 0
parity_at fields tail h = get_or-append_right 22 fields tail 0 0 h

id_at :
    (t : ℕ) (id : List ℕ) (n : ℕ) (tail : List ℕ)
    → length id ≡ 16
    → take 16 (drop 2 (frame_fields t id n ++ tail)) ≡ id
unfolding frame_fields
id_at t id n tail h =
    ap (take 16) (append_assoc id (put_le32 n) tail)
    ∙ take-append_exact 16 id (put_le32 n ++ tail) h

size_at :
    (t : ℕ) (id : List ℕ) (n : ℕ) (tail : List ℕ)
    → length id ≡ 16
    → take 4 (drop 18 (frame_fields t id n ++ tail)) ≡ put_le32 n
unfolding frame_fields
size_at t id n tail h =
    ap (λ l. take 4 (drop 16 l)) (append_assoc id (put_le32 n) tail)
    ∙ ap (take 4) (drop-append_exact 16 id (put_le32 n ++ tail) h)

decode_header_step :
    (src : List ℕ) (t n : ℕ) (id : List ℕ)
    → header_len ≤ length src
    → get_or src 0 0 ≡ magic_byte
    → get_or src 22 0 ≡ value_or_zero (header_parity (take 22 src))
    → get_or src 1 0 ≡ t
    → take 16 (drop 2 src) ≡ id
    → get_le32 (take 4 (drop 18 src)) ≡ n
    → decode_header src ≡ ok (record { magic = magic_byte; type = t; id = id; size = n })
unfolding decode_header
decode_header_step src t n id long magic parity et eid en = rw (← et, ← eid, ← en) (ground arith)

-- The fields of a header followed by their parity decode to that header, whatever comes behind.
decode_header-fields :
    (t : ℕ) (id : List ℕ) (n : ℕ) (tail : List ℕ)
    → length id ≡ 16
    → IsU32 n
    → decode_header
        (frame_fields t id n ++ (value_or_zero (header_parity (frame_fields t id n)) ∷ tail))
      ≡ ok (record { magic = magic_byte; type = t; id = id; size = n })
decode_header-fields t id n tail hid hn =
    let fields = frame_fields t id n in
    let len = length-frame_fields t id n hid in
    let more = value_or_zero (header_parity fields) ∷ tail in
    decode_header_step (fields ++ more) t n id (omega (arith, length-append fields more))
      (starts t id n more)
      (parity_at fields more len
        ∙ ap (λ l. value_or_zero (header_parity l)) (sym (take-append_exact 22 fields more len)))
      (type_at t id n more) (id_at t id n more hid)
      (ap get_le32 (size_at t id n more hid) ∙ get_le32-put_le32 n hn)

-- `decode_header` reads the frame of a message back, with its payload's size, and does not look
-- at the payload or at what follows the frame.
pub decode_header-frame :
    (t : ℕ) (id payload rest : List ℕ)
    → length id ≡ 16
    → IsU32 (length payload)
    → decode_header (frame t id payload ++ rest)
      ≡ ok (record { magic = magic_byte; type = t; id = id; size = length payload })
unfolding frame
decode_header-frame t id payload rest hid hsize =
    ap decode_header (append_assoc (frame_fields t id (length payload)) _ rest)
    ∙ decode_header-fields t id (length payload) (payload ++ rest) hid hsize

cut_left :
    (n m : ℕ) (xs ys : List ℕ) → n + m ≤ length xs → take m (drop n (xs ++ ys)) ≡ take m (drop n xs)
cut_left n m xs ys h =
    ap (take m) (drop-append_left n xs ys (omega arith))
    ∙ take-append_left m (drop n xs) ys (omega (arith, length-drop n xs))

-- `decode_header` looks at the first 23 bytes only.
pub decode_header-append :
    (xs ys : List ℕ) → header_len ≤ length xs → decode_header (xs ++ ys) ≡ decode_header xs
unfolding decode_header
decode_header-append xs ys h = ground (
  arith,
  length-append xs ys,
  get_or-append_left 0 xs ys 0 (omega arith),
  get_or-append_left 1 xs ys 0 (omega arith),
  get_or-append_left 22 xs ys 0 (omega arith),
  take-append_left 22 xs ys (omega arith),
  cut_left 2 16 xs ys (omega arith),
  cut_left 18 4 xs ys (omega arith),
)

-- The payload stands behind the 23 bytes of the header.
pub drop-frame :
    (t : ℕ) (id payload rest : List ℕ)
    → length id ≡ 16
    → drop header_len (frame t id payload ++ rest) ≡ payload ++ rest
unfolding frame
drop-frame t id payload rest h =
    let fields = frame_fields t id (length payload) in
    let p = value_or_zero (header_parity fields) in
    ap (drop 23) (
      append_assoc fields (p ∷ payload) rest ∙ sym (append_assoc fields (p ∷ []) (payload ++ rest)))
    ∙ drop-append_exact 23 (fields ++ (p ∷ [])) (payload ++ rest)
        (omega (arith, length-append fields (p ∷ []), length-frame_fields t id (length payload) h))

pub length-frame :
    (t : ℕ) (id payload : List ℕ)
    → length id ≡ 16
    → length (frame t id payload) ≡ header_len + length payload
unfolding frame
length-frame t id payload h =
    let fields = frame_fields t id (length payload) in
    let p = value_or_zero (header_parity fields) in
    omega (arith, length-append fields (p ∷ payload), length-frame_fields t id (length payload) h)

-- For a 16-byte id and a payload whose length fits a uint32, `newMessage` gives bytes from which,
-- whatever follows them, `DecodeHeader` reads the type, the id and the payload's length, and behind
-- whose header the payload stands.
pub new_message_round_trip :
    (t : ℕ) (id payload rest : List ℕ)
    → length id ≡ 16
    → IsU32 (length payload)
    → (bytes : List ℕ) × (new_message t id payload ≡ ok bytes)
      × (decode_header (bytes ++ rest)
          ≡ ok (record { magic = magic_byte; type = t; id = id; size = length payload }))
      × (drop header_len (bytes ++ rest) ≡ payload ++ rest)
new_message_round_trip t id payload rest hid hsize = (
  frame t id payload,
  new_message-frame t id payload hsize,
  decode_header-frame t id payload rest hid hsize,
  drop-frame t id payload rest hid,
)
