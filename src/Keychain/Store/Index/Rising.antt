-- ===== src/Keychain/Store/Index/Rising.antt =====
-- No index is handed out to two deterministic keys.
use tezsign.Prelude.{
  ℕ, ◌+◌, ◌%◌, ◌^◌, ◌≤◌, ◌<◌, ◌≡◌, refl, arith, Bool, false, List, [], ◌∷◌, some, length, ◌==◌,
}
use tezsign.Keychain.Store.{
  MasterFile, FileStore, StoreResult, ok, err, panic, WriteOutcome, written, not_written,
  not_synced, write_sync, write_result, read_master,
}
use tezsign.Keychain.Store.Index.{reserved_index, reserve, next_deterministic_index}

abbrev pub handed_out : StoreResult ℕ → List ℕ → List ℕ
handed_out (ok i) rest = i ∷ rest
handed_out (err e) rest = rest
handed_out panic rest = rest

-- The indices that a sequence of calls hands out, each with the outcome of its write.
unfoldable pub reserve_all : List (Bool × WriteOutcome) → FileStore → List ℕ
unfolding next_deterministic_index
reserve_all [] s = []
reserve_all ((lists, outcome) ∷ calls) s =
    let (s', r) = next_deterministic_index lists outcome s in handed_out r (reserve_all calls s')

abbrev pub RisesFrom : ℕ → List ℕ → Type 0
RisesFrom n [] = Unit {0}
RisesFrom n (i ∷ is) = (n ≤ i) × RisesFrom (i + 1) is

RisesFrom-lower : (m n : ℕ) (is : List ℕ) → m ≤ n → RisesFrom n is → RisesFrom m is
RisesFrom-lower m n [] le h = tt
RisesFrom-lower m n (i ∷ is) le (h, rest) = (omega arith, rest)

reserved_lem :
    (lists : Bool) (s : FileStore) (mf : MasterFile)
    → s.master ≡ some mf
    → 0 < mf.next_index
    → reserved_index lists s ≡ ok (mf.next_index, mf)
unfolding reserved_index read_master
reserved_lem lists s mf e pos = rw e (rw (nonzero mf.next_index pos) refl)
  where
    nonzero : (n : ℕ) → 0 < n → (n == 0) ≡ false
    nonzero n h = ground arith

abbrev advanced : FileStore → MasterFile → FileStore
advanced s mf = record s { master = some (record mf { next_index = mf.next_index + 1 }) }

no_wrap : (n : ℕ) → n + 1 < 2 ^ 32 → ((n + 1) % 2 ^ 64 ≡ n + 1) × (n % 2 ^ 32 ≡ n)
no_wrap n h = (omega arith, omega arith)

one_call :
    (calls : List (Bool × WriteOutcome)) (s : FileStore) (mf : MasterFile) (o : WriteOutcome)
    → mf.next_index + 1 < 2 ^ 32
    → RisesFrom mf.next_index (reserve_all calls s)
    → RisesFrom (mf.next_index + 1) (reserve_all calls (advanced s mf))
    → let r = reserve o s (ok (mf.next_index, mf)) in
      RisesFrom mf.next_index (handed_out r.1 (reserve_all calls r.0))
unfolding reserve write_sync write_result
one_call calls s mf written room same more =
    let (up, low) = no_wrap mf.next_index room in rw (up, low) (omega arith, more)
one_call calls s mf not_written room same more = same
one_call calls s mf not_synced room same more =
    rw ((no_wrap mf.next_index room).0)
      (RisesFrom-lower mf.next_index (mf.next_index + 1) _ (omega arith) more)

-- From a master file whose next index is not zero, as long as the indices fit a uint32: over any
-- calls, whichever of their writes fail, each index that is handed out is above all earlier ones, and
-- none is below the next index of the file.
pub reserve_all-RisesFrom :
    (calls : List (Bool × WriteOutcome)) (s : FileStore) (mf : MasterFile)
    → s.master ≡ some mf
    → 0 < mf.next_index
    → mf.next_index + length calls < 2 ^ 32
    → RisesFrom mf.next_index (reserve_all calls s)
unfolding reserve_all
reserve_all-RisesFrom [] s mf e pos room = tt
reserve_all-RisesFrom ((lists, outcome) ∷ calls) s mf e pos room =
    rw (reserved_lem lists s mf e pos) (
      one_call calls s mf outcome (omega arith)
        (reserve_all-RisesFrom calls s mf e pos (omega arith))
        (reserve_all-RisesFrom calls (advanced s mf) (record mf { next_index = mf.next_index + 1 })
          refl (omega arith) (omega arith)))
