-- ===== src/Broker/Stash/Write.antt =====
-- `Write` on a full buffer drops the oldest bytes.
use tezsign.Prelude.{
  ℕ, ◌+◌, ◌-◌, ◌≤◌, ◌≡◌, arith, List, ◌++◌, length, drop, length-append, length-drop,
  drop-append_left,
}
use tezsign.Broker.Stash.{Stash, write}

-- What is kept after a write that is no larger than the capacity: the newest bytes of the buffer
-- and the write, as many as fit.
pub write_keeps_newest :
    (s : Stash) (bytes : List ℕ)
    → length bytes ≤ s.capacity
    → (write s bytes).buf ≡ drop (length s.buf + length bytes - s.capacity) (s.buf ++ bytes)
unfolding write
write_keeps_newest s bytes h =
    ground (arith, drop-append_left (length s.buf + length bytes - s.capacity) s.buf bytes)

-- The buffer stays within the capacity, and the capacity is never changed.
pub write_bounded :
    (s : Stash) (bytes : List ℕ)
    → length bytes ≤ s.capacity
    → length s.buf ≤ s.capacity
    → (length (write s bytes).buf ≤ s.capacity) × ((write s bytes).capacity ≡ s.capacity)
unfolding write
write_bounded s bytes h fits = ground (
  arith,
  length-append s.buf bytes,
  length-append (drop (length s.buf + length bytes - s.capacity) s.buf) bytes,
  length-drop (length s.buf + length bytes - s.capacity) s.buf,
)
