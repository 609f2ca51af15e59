-- ===== src/Broker/Stash/Ends.antt =====
-- When the loop of `processStash` ends: every round but one kind of round shortens the buffer.
use tezsign.Prelude.{
  ℕ, zero, suc, ◌<◌, ◌≡◌, ◌⊎◌, inl, inr, refl, ap, ◌∙◌, arith, List, [], ◌∷◌, Option, none, some,
  Bool, true, false, Bool-cases, ◌++◌, ◌==◌, ◌+◌, ◌-◌, ◌%◌, ◌^◌, ltb, length, take, drop,
  length-drop, take-append-drop, append_assoc, if_rule, sym,
}
use mathlib.Core.Option
use mathlib.Core.Path.{subst}
use tezsign.Broker.Wire.{
  magic_byte, header_len, max_message_payload, incomplete_header, decode_header, Result, ok, err,
  Header,
}
use tezsign.Broker.Stash.{
  Stash, Message, Read, message, failed, no_payload_found, incomplete_payload, invalid_payload_size,
  invalid_payload, next, index_byte, drop_garbage, read_frame, read_at, read_payload, process_stash,
}
use tezsign.Broker.Stash.Process.{
  round_message, round_stops, round_oversized, round_invalid, before,
}

-- A result after which the loop goes on with fewer bytes.
abbrev goes_on : Read → Bool
goes_on (message m) = true
goes_on (failed no_payload_found) = false
goes_on (failed incomplete_payload) = false
goes_on (failed invalid_payload_size) = true
goes_on (failed (invalid_payload incomplete_header)) = false
goes_on (failed (invalid_payload x)) = true

pub index_byte_found :
    (bs : List ℕ) (c i : ℕ)
    → index_byte bs c ≡ some i
    → (i < length bs) × (index_byte (drop i bs) c ≡ some 0)
unfolding index_byte
index_byte_found [] c i e = cc
index_byte_found (b ∷ bs) c zero e = (omega arith, e)
index_byte_found (b ∷ bs) c (suc i) e = ground (arith, index_byte_found bs c i)

read_frame_shrinks :
    (s : Stash) (h : Result Header)
    → 0 < length s.buf
    → goes_on (read_frame s h).1 ≡ true
    → length (read_frame s h).0.buf < length s.buf
unfolding read_frame
read_frame_shrinks s (err incomplete_header) pos g = cc
read_frame_shrinks s (err _) pos g = omega (arith, length-drop 1 s.buf)
read_frame_shrinks s (ok h) pos g =
    ground (arith, length-drop header_len s.buf, length-drop h.size (drop header_len s.buf))

read_at_shrinks :
    (s : Stash) (o : Option ℕ)
    → ((i : ℕ) → o ≡ some i → i < length s.buf)
    → goes_on (read_at s o).1 ≡ true
    → length (read_at s o).0.buf < length s.buf
unfolding read_at
read_at_shrinks s none lt g = cc
read_at_shrinks s (some i) lt g =
    let s' = next i s in
    omega (
      arith,
      lt i refl,
      length-drop i s.buf,
      read_frame_shrinks s' (decode_header s'.buf) (omega (arith, lt i refl, length-drop i s.buf))
          g,
    )

read_payload_shrinks :
    (s : Stash) → goes_on (read_payload s).1 ≡ true → length (read_payload s).0.buf < length s.buf
unfolding read_payload
read_payload_shrinks s g =
    read_at_shrinks s (index_byte s.buf magic_byte)
      (λ i e. (index_byte_found s.buf magic_byte i e).0) g

-- A header that is cut off leaves a buffer on which every later round ends in the same way.
abbrev pub cut : Read
cut = failed (invalid_payload incomplete_header)

read_frame-cut :
    (s : Stash) (h : Result Header)
    → (read_frame s h).1 ≡ cut
    → ((read_frame s h).0 ≡ s) × (h ≡ err incomplete_header)
unfolding read_frame
read_frame-cut s (err incomplete_header) e = (refl, refl)
read_frame-cut s (err _) e = cc
read_frame-cut s (ok h) e = ground arith

pub read_payload_again :
    (s : Stash)
    → index_byte s.buf magic_byte ≡ some 0
    → decode_header s.buf ≡ err incomplete_header
    → read_payload s ≡ (s, cut)
unfolding read_payload
read_payload_again s found header = rw found (rw header refl)

read_at-cut :
    (s : Stash) (o : Option ℕ)
    → (index_byte s.buf magic_byte ≡ o)
    → (read_at s o).1 ≡ cut
    → read_payload (read_at s o).0 ≡ ((read_at s o).0, cut)
unfolding read_at
read_at-cut s none io e = cc
read_at-cut s (some i) io e =
    let s' = next i s in
    let (kept, header) = read_frame-cut s' (decode_header s'.buf) e in
    rw kept (read_payload_again s' (index_byte_found s.buf magic_byte i io).1 header)

read_payload-cut :
    (s : Stash)
    → (read_payload s).1 ≡ cut
    → read_payload (read_payload s).0 ≡ ((read_payload s).0, cut)
unfolding read_payload
read_payload-cut s e = read_at-cut s (index_byte s.buf magic_byte) refl e

-- The bytes end in less than a header, behind its first byte.
pub record EndsCut (bytes : List ℕ) : Type 0 where
  pub front : List ℕ
  pub rest : List ℕ
  pub parts : bytes ≡ front ++ (magic_byte ∷ rest)
  pub short : length rest < 22

EndsCut-of_drop : (n : ℕ) (bytes : List ℕ) → EndsCut (drop n bytes) → EndsCut bytes
EndsCut-of_drop n bytes c = record {
  front = take n bytes ++ c.front;
  rest = c.rest;
  parts =
      sym (take-append-drop n bytes)
      ∙ ap (λ b. take n bytes ++ b) c.parts
      ∙ sym (append_assoc (take n bytes) c.front (magic_byte ∷ c.rest));
  short = c.short;
}

decode_header_cut :
    (src : List ℕ) → decode_header src ≡ err incomplete_header → length src < header_len
unfolding decode_header
decode_header_cut src e = ground arith

EndsCut-of_header :
    (bytes : List ℕ)
    → index_byte bytes magic_byte ≡ some 0
    → length bytes < header_len
    → EndsCut bytes
unfolding index_byte
EndsCut-of_header [] found short = cc
EndsCut-of_header (b ∷ bs) found short = elim (Bool-cases (b == magic_byte)) [
  | inl is ↦ record {
    front = [];
    rest = bs;
    parts = ap (λ x. x ∷ bs) (ground arith);
    short = omega arith;
  }
  | inr other ↦ absurd (later (index_byte bs magic_byte) (rw other at found))
]
  where
    later : (o : Option ℕ) → Option.map suc o ≡ some 0 → ⊥
    later none e = cc
    later (some i) e = ground arith

read_at-EndsCut :
    (s : Stash) (o : Option ℕ)
    → index_byte s.buf magic_byte ≡ o
    → (read_at s o).1 ≡ cut
    → EndsCut s.buf
unfolding read_at
read_at-EndsCut s none io e = cc
read_at-EndsCut s (some i) io e =
    let s' = next i s in
    EndsCut-of_drop i s.buf (
      EndsCut-of_header s'.buf (index_byte_found s.buf magic_byte i io).1
        (decode_header_cut s'.buf (read_frame-cut s' (decode_header s'.buf) e).1))

-- What a round leaves is an end of the buffer.
abbrev Keeps : Stash → Stash → Type 0
Keeps s t = EndsCut t.buf → EndsCut s.buf

read_frame-Keeps : (s : Stash) (h : Result Header) → Keeps s (read_frame s h).0
unfolding read_frame
read_frame-Keeps s (err incomplete_header) = λ c. c
read_frame-Keeps s (err _) = EndsCut-of_drop 1 s.buf
read_frame-Keeps s (ok h) =
    if_rule (λ (r : Stash × Read). Keeps s r.0) (ltb max_message_payload h.size) _ _
      (λ big. EndsCut-of_drop header_len s.buf)
      λ fits.
        if_rule (λ (r : Stash × Read). Keeps s r.0)
          (ltb (length s.buf) ((header_len + h.size) % 2 ^ 32)) _ _ (λ early c. c)
          λ whole c.
            EndsCut-of_drop header_len s.buf (EndsCut-of_drop h.size (drop header_len s.buf) c)

read_at-Keeps : (s : Stash) (o : Option ℕ) → Keeps s (read_at s o).0
unfolding read_at drop_garbage
read_at-Keeps s none =
    if_rule (Keeps s) (ltb (header_len - 1) (length s.buf)) _ _
      (λ long. EndsCut-of_drop (length s.buf - (header_len - 1)) s.buf) λ short c. c
read_at-Keeps s (some i) =
    let s' = next i s in λ c. EndsCut-of_drop i s.buf (read_frame-Keeps s' (decode_header s'.buf) c)

-- On such a buffer the loop is still running after any number of rounds.
pub spins : (s : Stash) → read_payload s ≡ (s, cut) → (fuel : ℕ) → process_stash fuel s ≡ none
spins s e zero = unfold process_stash in refl
spins s e (suc fuel) = round_invalid fuel s s incomplete_header e ∙ spins s e fuel

-- The loop returns within `n` rounds, or it never returns.
abbrev pub Returns : ℕ → Stash → Type 0
Returns n s = (r : Stash × List Message) × (process_stash n s ≡ some r)

abbrev pub NeverReturns : Stash → Type 0
NeverReturns s = (n : ℕ) → process_stash n s ≡ none

abbrev Ends : ℕ → Stash → Type 0
Ends n s = Returns n s ⊎ (NeverReturns s × EndsCut s.buf)

-- What a round that is followed by `f` makes of the rounds behind it.
Ends-after :
    (n : ℕ) (s t : Stash) (f : Option (Stash × List Message) → Option (Stash × List Message))
    → ((r : Stash × List Message) → (r' : Stash × List Message) × (f (some r) ≡ some r'))
    → f none ≡ none
    → ((k : ℕ) → process_stash (suc k) s ≡ f (process_stash k t))
    → Keeps s t
    → Ends n t
    → Ends (suc n) s
Ends-after n s t f keeps fails round back (inl (r, e)) =
    inl ((keeps r).0, round n ∙ ap f e ∙ (keeps r).1)
Ends-after n s t f keeps fails round back (inr (never, c)) = inr (never_s, back c)
  where
    never_s : NeverReturns s
    never_s zero = unfold process_stash in refl
    never_s (suc k) = round k ∙ ap f (never k) ∙ fails

round-Ends :
    (n : ℕ) (s t : Stash) (r : Read)
    → read_payload s ≡ (t, r)
    → Keeps s t
    → (r ≡ cut → EndsCut s.buf)
    → (goes_on r ≡ true → Ends n t)
    → Ends (suc n) s
round-Ends n s t (message m) e back c ih =
    Ends-after n s t (before (m ∷ [])) (λ r. ((r.0, m ∷ r.1), refl)) refl
      (λ k. round_message k s t m e) back (ih refl)
round-Ends n s t (failed no_payload_found) e back c ih = inl ((t, []), round_stops n s t (inl e))
round-Ends n s t (failed incomplete_payload) e back c ih = inl ((t, []), round_stops n s t (inr e))
round-Ends n s t (failed invalid_payload_size) e back c ih =
    Ends-after n s t (λ o. o) (λ r. (r, refl)) refl (λ k. round_oversized k s t e) back (ih refl)
round-Ends n s t (failed (invalid_payload incomplete_header)) e back c ih = inr (never_s, c refl)
  where
    again : read_payload t ≡ (t, cut)
    again =
        subst (λ p. read_payload p ≡ (p, cut)) (ap (λ r. r.0) e)
          (read_payload-cut s (ap (λ r. r.1) e))

    never_s : NeverReturns s
    never_s zero = unfold process_stash in refl
    never_s (suc k) = round_invalid k s t incomplete_header e ∙ spins t again k
round-Ends n s t (failed (invalid_payload x)) e back c ih =
    Ends-after n s t (λ o. o) (λ r. (r, refl)) refl (λ k. round_invalid k s t x e) back (ih refl)

-- On every buffer the loop either returns within one round more than the buffer holds bytes, or the
-- buffer ends in less than a header, behind its first byte, and the loop is still running after any
-- number of rounds.
pub process_stash_ends :
    (n : ℕ) (s : Stash) → length s.buf < n → Returns n s ⊎ (NeverReturns s × EndsCut s.buf)
process_stash_ends zero s h = absurd (omega arith)
process_stash_ends (suc n) s h =
    let found = index_byte s.buf magic_byte in
    round-Ends n s (read_payload s).0 (read_payload s).1 refl
      (unfold read_payload in read_at-Keeps s found)
      (unfold read_payload in read_at-EndsCut s found refl)
      λ g. process_stash_ends n (read_payload s).0 (omega (arith, read_payload_shrinks s g))
