-- ===== src/Keychain/Store/Index.antt =====
-- keychain/store.go: the names of the keys in the store, and the indices that deterministic keys take.
pub mod Rising
use tezsign.Prelude.{
  ℕ, ◌+◌, ◌%◌, ◌^◌, Bool, true, false, List, [], ◌∷◌, length, ltb, ◌==◌, if◌then◌else◌,
}
use tezsign.Prelude.Maps.{Map}
use tezsign.Keychain.Store.{
  MasterFile, KeyDir, FileStore, StoreResult, ok, err, panic, ◌>>=◌, file_error, WriteOutcome,
  write_sync, write_result, is_some, read_master,
}

-- `list`: the directories that hold a key, sorted.
unfoldable pub bytes_lt : List ℕ → List ℕ → Bool
bytes_lt [] [] = false
bytes_lt [] (y ∷ ys) = true
bytes_lt (x ∷ xs) [] = false
bytes_lt (x ∷ xs) (y ∷ ys) = if ltb x y then true else if ltb y x then false else bytes_lt xs ys

unfoldable pub insert_sorted : List ℕ → List (List ℕ) → List (List ℕ)
insert_sorted id [] = id ∷ []
insert_sorted id (x ∷ xs) =
    let rest = insert_sorted id xs in if bytes_lt x id then x ∷ rest else id ∷ (x ∷ xs)

unfoldable pub list_dirs : Map KeyDir → List (List ℕ)
unfolding insert_sorted
list_dirs [] = []
list_dirs ((id, d) ∷ dirs) =
    let rest = list_dirs dirs in if is_some d.meta then insert_sorted id rest else rest

-- `lists`: the directory could be read.
unfoldable pub list : Bool → FileStore → StoreResult (List (List ℕ))
unfolding list_dirs
list lists s = if lists then ok (list_dirs s.keys) else err file_error

-- The index that is reserved, before it is cut to a uint32.
unfoldable pub reserved_index : Bool → FileStore → StoreResult (ℕ × MasterFile)
unfolding read_master list
reserved_index lists s = do
  mf ← read_master s
  if mf.next_index == 0
      then (do ids ← list lists s; ok (length ids + 1, mf))
      else ok (mf.next_index, mf)

unfoldable pub reserve :
    WriteOutcome → FileStore → StoreResult (ℕ × MasterFile) → FileStore × StoreResult ℕ
unfolding write_sync write_result
reserve outcome s (err e) = (s, err e)
reserve outcome s panic = (s, panic)
reserve outcome s (ok (idx, mf)) = (
  record s { master = write_sync outcome (record mf { next_index = (idx + 1) % 2 ^ 64 }) s.master },
  write_result outcome >>= λ _. ok (idx % 2 ^ 32),
)

unfoldable pub next_deterministic_index :
    Bool → WriteOutcome → FileStore → FileStore × StoreResult ℕ
unfolding reserved_index reserve
next_deterministic_index lists outcome s = reserve outcome s (reserved_index lists s)
