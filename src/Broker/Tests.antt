-- ===== src/Broker/Tests.antt =====
-- Runs of broker/ on concrete frames.
use tezsign.Prelude.{
  zero, suc, false, ℕ, ◌+◌, ◌-◌, ◌≡◌, ◌⊎◌, refl, arith, List, [], ◌∷◌, ◌++◌, none, some, drop,
  replicate,
}
use tezsign.Broker.Wire.{
  new_message, header_len, ok, decode_header, frame_fields, header_parity, xor_bytes,
}
use tezsign.Broker.Wire.RoundTrip.{frame, new_message_round_trip}
use tezsign.Prelude.Maps.{lookup}
use tezsign.Broker.Wire.{payload_type_retry}
use tezsign.Broker.Session.{Session, new_session, dispatch, done}
use tezsign.Broker.Session.Exchange.{IsReady, Exchanged, request-Exchanged}
use tezsign.Broker.Session.Retry.{request_frames, with_frames, retry_resends}
use tezsign.Broker.Session.Loops.{Attempt, failed, written, errno, enodev}
use tezsign.Broker.Stash.{Stash, Message, message, write, read_payload, process_stash, index_byte}
use tezsign.Broker.Stash.Frames.{IsSendable, message_frame, read_payload-frame}
use tezsign.Broker.Stash.Process.{frames, process_stash-whole}
use tezsign.Broker.Stash.Ends.{Returns, NeverReturns, EndsCut, process_stash_ends}
use tezsign.Broker.Stash.Split.{process_stash-cut_header, process_stash-cut_payload}
use tezsign.Broker.Stash.Write.{write_keeps_newest}

abbrev some_id : List ℕ
some_id = 1 ∷ 2 ∷ 3 ∷ 4 ∷ 5 ∷ 6 ∷ 7 ∷ 8 ∷ 9 ∷ 10 ∷ 11 ∷ 12 ∷ 13 ∷ 14 ∷ 15 ∷ 16 ∷ []

-- A request of three bytes, and a retry, which has none.
abbrev request : Message
request = record { id = some_id; type = 1; payload = 0xaa ∷ 0x55 ∷ 7 ∷ [] }

abbrev retry : Message
retry = record { id = replicate 16 0; type = 4; payload = [] }

request-IsSendable : IsSendable request
request-IsSendable = record { id_length = refl; payload_fits = omega arith }

retry-IsSendable : IsSendable retry
retry-IsSendable = record { id_length = refl; payload_fits = omega arith }

new_message_round_trip_example :
    (bytes : List ℕ) × (new_message 1 some_id (0xaa ∷ 0x55 ∷ []) ≡ ok bytes)
    × (decode_header (bytes ++ (9 ∷ []))
        ≡ ok (record { magic = 0x56; type = 1; id = some_id; size = 2 }))
    × (drop header_len (bytes ++ (9 ∷ [])) ≡ (0xaa ∷ 0x55 ∷ []) ++ (9 ∷ []))
new_message_round_trip_example =
    new_message_round_trip 1 some_id (0xaa ∷ 0x55 ∷ []) (9 ∷ []) refl (omega arith)

read_payload-frame_example :
    read_payload (record { buf = message_frame request ++ (3 ∷ []); capacity = 64 })
    ≡ (record { buf = 3 ∷ []; capacity = 64 }, message request)
read_payload-frame_example = read_payload-frame request (3 ∷ []) 64 request-IsSendable

process_stash-whole_example :
    process_stash 5 (record { buf = frames (request ∷ retry ∷ []); capacity = 64 })
    ≡ some (record { buf = []; capacity = 64 }, request ∷ retry ∷ [])
process_stash-whole_example =
    process_stash-whole (request ∷ retry ∷ []) 2 64 (request-IsSendable, (retry-IsSendable, tt))

process_stash_ends_example :
    Returns 4 (record { buf = 1 ∷ 0x56 ∷ 3 ∷ []; capacity = 64 })
    ⊎ (NeverReturns (record { buf = 1 ∷ 0x56 ∷ 3 ∷ []; capacity = 64 })
        × EndsCut (1 ∷ 0x56 ∷ 3 ∷ []))
process_stash_ends_example =
    process_stash_ends 4 (record { buf = 1 ∷ 0x56 ∷ 3 ∷ []; capacity = 64 }) (omega arith)

-- Twenty-two of the twenty-three bytes of a header have come.
process_stash-cut_header_example :
    process_stash 1000
      (record { buf = frames (request ∷ []) ++ (0x56 ∷ 4 ∷ replicate 20 0); capacity = 64 })
    ≡ none
process_stash-cut_header_example =
    process_stash-cut_header (request ∷ []) retry 0x56 (4 ∷ replicate 20 0) (0x52 ∷ []) 64
      (request-IsSendable, tt) (unfold frame frame_fields header_parity xor_bytes in refl)
      (omega arith) 1000

abbrev request_front : List ℕ
request_front = 0x56 ∷ 1 ∷ (some_id ++ (3 ∷ 0 ∷ 0 ∷ 0 ∷ 0x44 ∷ 0xaa ∷ []))

abbrev kept_front : Stash
kept_front = record { buf = request_front; capacity = 64 }

-- The header and one byte of the payload come first, behind a whole frame.
process_stash-cut_payload_example :
    (process_stash 2 (record { buf = frames (retry ∷ []) ++ request_front; capacity = 64 })
      ≡ some (kept_front, retry ∷ []))
    × (process_stash 2 (write kept_front (0x55 ∷ 7 ∷ []))
        ≡ some (record { buf = []; capacity = 64 }, request ∷ []))
process_stash-cut_payload_example =
    process_stash-cut_payload (retry ∷ []) request request_front (0x55 ∷ 7 ∷ []) 64
      (retry-IsSendable, tt) request-IsSendable
      (unfold frame frame_fields header_parity xor_bytes in refl) (omega arith)
      (unfold frame frame_fields header_parity xor_bytes in omega arith)
      (unfold frame frame_fields header_parity xor_bytes in omega arith)

abbrev full : Stash
full = record { buf = 1 ∷ 2 ∷ 3 ∷ []; capacity = 4 }

write_keeps_newest_example :
    (write full (4 ∷ 5 ∷ 6 ∷ [])).buf ≡ drop (3 + 3 - 4) ((1 ∷ 2 ∷ 3 ∷ []) ++ (4 ∷ 5 ∷ 6 ∷ []))
write_keeps_newest_example = write_keeps_newest full (4 ∷ 5 ∷ 6 ∷ []) (omega arith)

-- Bytes that are no frame are skipped up to the next one.
skips_garbage :
    process_stash 9 (record { buf = 7 ∷ 0x56 ∷ message_frame retry; capacity = 64 })
    ≡ some (record { buf = []; capacity = 64 }, retry ∷ [])
unfolding process_stash read_payload index_byte decode_header frame frame_fields header_parity
    xor_bytes
skips_garbage = refl

abbrev reply : List ℕ
reply = 9 ∷ 8 ∷ []

new_session-IsReady : IsReady new_session
unfolding new_session
new_session-IsReady = record { running = refl; has_room = omega arith }

request-Exchanged_example : Exchanged some_id (0xaa ∷ 0x55 ∷ []) reply new_session new_session 64
request-Exchanged_example =
    request-Exchanged some_id (0xaa ∷ 0x55 ∷ []) reply new_session new_session 64 refl (omega arith)
      (omega arith) new_session-IsReady (new_session-IsReady.running)
      (unfold new_session in omega arith) (unfold new_session lookup in refl)
      (unfold new_session in refl)

-- Two requests that are not confirmed.
abbrev unconfirmed : Session
unconfirmed = record new_session {
  unconfirmed_requests = (some_id, reply) ∷ (replicate 16 7, []) ∷ [];
}

retry_resends_example :
    dispatch (record { id = replicate 16 0; type = payload_type_retry; payload = [] }) unconfirmed
    ≡ (with_frames unconfirmed (request_frames unconfirmed.unconfirmed_requests), done)
retry_resends_example =
    retry_resends (replicate 16 0) [] unconfirmed (unfold new_session in refl)
      (omega arith, (omega arith, tt)) (unfold new_session in omega arith)

-- The device goes away at the first attempt, and is back at the second.
abbrev bounces : ℕ → Attempt
bounces zero = failed (errno enodev ∷ []) false
bounces (suc n) = written
