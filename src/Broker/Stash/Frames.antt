-- ===== src/Broker/Stash/Frames.antt =====
-- `ReadPayload` on a buffer that begins with a frame, and on one that ends inside a frame.
use tezsign.Prelude.{
  ℕ, ◌≤◌, ◌<◌, ◌≡◌, refl, ap, sym, ◌∙◌, arith, List, [], ◌∷◌, ◌++◌, some, length, take-append_exact,
  drop-append_exact, length-append, append-nil,
}
use tezsign.Broker.Wire.{
  magic_byte, header_len, max_message_payload, ok, decode_header, frame_fields,
}
use tezsign.Broker.Wire.RoundTrip.{
  frame, decode_header-frame, decode_header-append, drop-frame, length-frame,
}
use tezsign.Broker.Stash.{
  Message, message, failed, incomplete_payload, index_byte, read_frame, read_payload,
}

-- What `newMessage` is given: a 16-byte id, and a payload of at most MAX_MESSAGE_PAYLOAD bytes.
pub record IsSendable (m : Message) : Type 0 where
  pub id_length : length m.id ≡ 16
  pub payload_fits : length m.payload ≤ max_message_payload

abbrev pub message_frame : Message → List ℕ
message_frame m = frame m.type m.id m.payload

index_byte-frame :
    (m : Message) (rest : List ℕ) → index_byte (message_frame m ++ rest) magic_byte ≡ some 0
unfolding frame frame_fields index_byte
index_byte-frame m rest = refl

read_frame_complete :
    (m : Message) (rest : List ℕ) (size : ℕ)
    → IsSendable m
    → read_frame
        (record { buf = message_frame m ++ rest; capacity = size })
        (ok (record { magic = magic_byte; type = m.type; id = m.id; size = length m.payload }))
      ≡ (record { buf = rest; capacity = size }, message m)
unfolding read_frame
read_frame_complete m rest size h = ground (
  arith,
  length-append (message_frame m) rest,
  length-frame m.type m.id m.payload h.id_length,
  drop-frame m.type m.id m.payload rest h.id_length,
  take-append_exact (length m.payload) m.payload rest refl,
  drop-append_exact (length m.payload) m.payload rest refl,
)

-- A complete frame at the front of the buffer is returned as its message, and is consumed.
pub read_payload-frame :
    (m : Message) (rest : List ℕ) (size : ℕ)
    → IsSendable m
    → read_payload (record { buf = message_frame m ++ rest; capacity = size })
      ≡ (record { buf = rest; capacity = size }, message m)
unfolding read_payload
read_payload-frame m rest size h = rw (index_byte-frame m rest) (
    rw (decode_header-frame m.type m.id m.payload rest h.id_length (omega (arith, h)))
      (read_frame_complete m rest size h))

index_byte-front :
    (m : Message) (front back : List ℕ)
    → header_len ≤ length front
    → front ++ back ≡ message_frame m
    → index_byte front magic_byte ≡ some 0
unfolding frame frame_fields index_byte
index_byte-front m [] back h e = absurd (omega arith)
index_byte-front m (x ∷ xs) back h e = ground arith

decode_header-front :
    (m : Message) (front back : List ℕ)
    → IsSendable m
    → header_len ≤ length front
    → front ++ back ≡ message_frame m
    → decode_header front
      ≡ ok (record { magic = magic_byte; type = m.type; id = m.id; size = length m.payload })
decode_header-front m front back s h e =
    sym (decode_header-append front back h)
    ∙ ap decode_header (e ∙ sym (append-nil (message_frame m)))
    ∙ decode_header-frame m.type m.id m.payload [] s.id_length (omega (arith, s))

-- A buffer that ends inside a frame, behind its header, is kept as it is until more bytes come.
pub read_payload-front :
    (m : Message) (front back : List ℕ) (size : ℕ)
    → IsSendable m
    → header_len ≤ length front
    → length front < length (message_frame m)
    → front ++ back ≡ message_frame m
    → read_payload (record { buf = front; capacity = size })
      ≡ (record { buf = front; capacity = size }, failed incomplete_payload)
unfolding read_payload
read_payload-front m front back size s h short e = rw (index_byte-front m front back h e) (
    rw (decode_header-front m front back s h e)
      (ground (arith, length-frame m.type m.id m.payload s.id_length)))
