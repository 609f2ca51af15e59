-- ===== src/Broker/Stash/Split.antt =====
-- A frame that arrives in two reads: cut behind its header it is delivered with the second read,
-- cut inside its header the loop never returns, so that the second read never happens.
use tezsign.Prelude.{
  ℕ, zero, suc, ◌+◌, ◌≤◌, ◌<◌, ◌≡◌, inr, refl, ap, sym, ◌∙◌, arith, List, [], ◌∷◌, ◌++◌, none, some,
  All, length, length-append, append-nil, append_assoc,
}
use tezsign.Broker.Wire.{
  magic_byte, header_len, incomplete_header, decode_header, err, frame_fields,
}
use tezsign.Broker.Wire.RoundTrip.{frame}
use tezsign.Broker.Stash.{Stash, Message, write, process_stash, index_byte}
use tezsign.Broker.Stash.Frames.{IsSendable, message_frame, read_payload-frame, read_payload-front}
use tezsign.Broker.Stash.Process.{
  frames, before, process_stash-frames, round_stops, round_message, process_stash-whole,
}
use tezsign.Broker.Stash.Ends.{NeverReturns, spins, read_payload_again}

decode_header_short :
    (src : List ℕ) → length src < header_len → decode_header src ≡ err incomplete_header
unfolding decode_header
decode_header_short src h = ground arith

cut_starts :
    (m : Message) (x : ℕ) (xs back : List ℕ)
    → (x ∷ xs) ++ back ≡ message_frame m
    → index_byte (x ∷ xs) magic_byte ≡ some 0
unfolding frame frame_fields index_byte
cut_starts m x xs back e = ground arith

never_behind_frame :
    (m : Message) (rest : List ℕ) (size : ℕ)
    → IsSendable m
    → NeverReturns (record { buf = rest; capacity = size })
    → NeverReturns (record { buf = message_frame m ++ rest; capacity = size })
never_behind_frame m rest size h never zero = unfold process_stash in refl
never_behind_frame m rest size h never (suc k) =
    round_message k _ _ m (read_payload-frame m rest size h) ∙ ap (before (m ∷ [])) (never k)

-- When the buffer ends inside the header of a frame, behind its first byte and whole frames of
-- messages that may be sent, the loop is still running after any number of rounds.
pub process_stash-cut_header :
    (ms : List Message) (m : Message) (x : ℕ) (xs back : List ℕ) (size : ℕ)
    → All IsSendable ms
    → (x ∷ xs) ++ back ≡ message_frame m
    → length (x ∷ xs) < header_len
    → (fuel : ℕ)
    → process_stash fuel (record { buf = frames ms ++ (x ∷ xs); capacity = size }) ≡ none
process_stash-cut_header [] m x xs back size h e short fuel =
    spins _ (read_payload_again _ (cut_starts m x xs back e) (decode_header_short (x ∷ xs) short))
      fuel
process_stash-cut_header (n ∷ ms) m x xs back size (hn, hms) e short fuel = rw append_assoc (
    never_behind_frame n (frames ms ++ (x ∷ xs)) size hn
      (process_stash-cut_header ms m x xs back size hms e short) fuel)

write_fits :
    (s : Stash) (bytes : List ℕ)
    → length s.buf + length bytes ≤ s.capacity
    → write s bytes ≡ record { buf = s.buf ++ bytes; capacity = s.capacity }
unfolding write
write_fits s bytes h = ground arith

-- With messages whose ids have 16 bytes and whose payloads fit, and a capacity that holds the
-- frame: when a frame behind whole frames is cut anywhere behind its header, the loop delivers the
-- frames before it and keeps the part, and once the rest is written it delivers the message and
-- leaves nothing.
pub process_stash-cut_payload :
    (ms : List Message) (m : Message) (front back : List ℕ) (size : ℕ)
    → All IsSendable ms
    → IsSendable m
    → front ++ back ≡ message_frame m
    → header_len ≤ length front
    → length front < length (message_frame m)
    → length (message_frame m) ≤ size
    → let kept : Stash = record { buf = front; capacity = size } in
      (process_stash (length ms + 1) (record { buf = frames ms ++ front; capacity = size })
        ≡ some (kept, ms))
      × (process_stash 2 (write kept back) ≡ some (record { buf = []; capacity = size }, m ∷ []))
process_stash-cut_payload ms m front back size hms hm e long short fits = (first, second)
  where
    kept : Stash
    kept = record { buf = front; capacity = size }

    first :
        process_stash (length ms + 1) (record { buf = frames ms ++ front; capacity = size })
        ≡ some (kept, ms)
    first =
        process_stash-frames ms 1 front size hms
        ∙ ap (before ms)
            (round_stops 0 kept kept (inr (read_payload-front m front back size hm long short e)))
        ∙ rw append-nil

    written : write kept back ≡ record { buf = frames (m ∷ []); capacity = size }
    written =
        write_fits kept back (omega (arith, length-append front back, ap length e))
        ∙ ap (λ b. record { buf = b; capacity = size }) (e ∙ sym (append-nil (message_frame m)))

    second : process_stash 2 (write kept back) ≡ some (record { buf = []; capacity = size }, m ∷ [])
    second = rw written (process_stash-whole (m ∷ []) 0 size (hm, tt))
