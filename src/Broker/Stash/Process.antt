-- ===== src/Broker/Stash/Process.antt =====
-- `processStash` over whole frames, over a frame that comes in two parts, and where it spins.
use tezsign.Prelude.{
  ℕ, suc, ◌+◌, ◌≡◌, ◌⊎◌, inl, inr, refl, ap, ◌∙◌, arith, List, [], ◌∷◌, ◌++◌, Option, none, some,
  All, length, append-nil, append_assoc,
}
use mathlib.Core.Option
use native.Mathlib.Nat.{suc-add, zero-add}
use tezsign.Broker.Wire.{WireError}
use tezsign.Broker.Stash.{
  Stash, Message, message, failed, no_payload_found, incomplete_payload, invalid_payload_size,
  invalid_payload, index_byte, read_payload, process_stash,
}
use tezsign.Broker.Stash.Frames.{IsSendable, message_frame, read_payload-frame}

abbrev pub frames : List Message → List ℕ
frames [] = []
frames (m ∷ ms) = message_frame m ++ frames ms

abbrev pub before : List Message → Option (Stash × List Message) → Option (Stash × List Message)
before ms = Option.map (λ (t, ns). (t, ms ++ ns))

before_cons :
    (m : Message) (ms : List Message) (o : Option (Stash × List Message))
    → Option.map (λ (t, ns). (t, m ∷ ns)) (before ms o) ≡ before (m ∷ ms) o
before_cons m ms none = refl
before_cons m ms (some r) = refl

before_nil : (o : Option (Stash × List Message)) → o ≡ before [] o
before_nil none = refl
before_nil (some r) = refl

-- One round of the loop, for each result of `ReadPayload`.
pub round_message :
    (fuel : ℕ) (s t : Stash) (m : Message)
    → read_payload s ≡ (t, message m)
    → process_stash (suc fuel) s ≡ before (m ∷ []) (process_stash fuel t)
unfolding process_stash
round_message fuel s t m e = ground arith

pub round_stops :
    (fuel : ℕ) (s t : Stash)
    → (read_payload s ≡ (t, failed no_payload_found))
      ⊎ (read_payload s ≡ (t, failed incomplete_payload))
    → process_stash (suc fuel) s ≡ some (t, [])
unfolding process_stash
round_stops fuel s t (inl e) = ground arith
round_stops fuel s t (inr e) = ground arith

pub round_oversized :
    (fuel : ℕ) (s t : Stash)
    → read_payload s ≡ (t, failed invalid_payload_size)
    → process_stash (suc fuel) s ≡ process_stash fuel t
unfolding process_stash
round_oversized fuel s t e = ground arith

pub round_invalid :
    (fuel : ℕ) (s t : Stash) (x : WireError)
    → read_payload s ≡ (t, failed (invalid_payload x))
    → process_stash (suc fuel) s ≡ process_stash fuel t
unfolding process_stash
round_invalid fuel s t x e = ground arith

-- Complete frames at the front of the buffer are delivered in order, a round for each, and the
-- loop goes on with what follows them.
pub process_stash-frames :
    (ms : List Message) (fuel : ℕ) (rest : List ℕ) (size : ℕ)
    → All IsSendable ms
    → process_stash (length ms + fuel) (record { buf = frames ms ++ rest; capacity = size })
      ≡ before ms (process_stash fuel (record { buf = rest; capacity = size }))
process_stash-frames [] fuel rest size h = rw zero-add (before_nil _)
process_stash-frames (m ∷ ms) fuel rest size (hm, hms) =
    let again = read_payload-frame m (frames ms ++ rest) size hm in
    rw (suc-add, append_assoc)
      (round_message _ _ _ m again
        ∙ ap (before (m ∷ [])) (process_stash-frames ms fuel rest size hms)
        ∙ before_cons m ms (process_stash fuel (record { buf = rest; capacity = size })))

read_payload_empty :
    (size : ℕ)
    → read_payload (record { buf = []; capacity = size })
      ≡ (record { buf = []; capacity = size }, failed no_payload_found)
unfolding read_payload index_byte
read_payload_empty size = refl

-- On whole frames of messages whose ids have 16 bytes and whose payloads fit, and nothing behind
-- them, the loop ends with one round more than there are messages or any greater fuel, delivers the
-- messages in order and leaves an empty buffer.
pub process_stash-whole :
    (ms : List Message) (fuel size : ℕ)
    → All IsSendable ms
    → process_stash (length ms + suc fuel) (record { buf = frames ms; capacity = size })
      ≡ some (record { buf = []; capacity = size }, ms)
process_stash-whole ms fuel size h =
    rw append-nil at (process_stash-frames ms (suc fuel) [] size h)
    ∙ ap (before ms) (round_stops fuel _ _ (inl (read_payload_empty size)))
    ∙ rw append-nil
