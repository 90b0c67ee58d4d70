-- ===== src/Wal/Log/Numbers.antt =====
-- Log sequence numbers.
use zenith_db.Prelude.{ℕ, ◌+◌, ◌≤◌, ◌<◌, List, [], ◌∷◌, ltb, if◌then◌else◌, All, arith}
use zenith_db.Bytes.{Bytes}
use zenith_db.Wal.Frame.{WalFrame}
use zenith_db.Wal.Log.{WriteAheadLog, max_lsn, recover}

abbrev pub Below : ℕ → List WalFrame → Type 0
Below n = All (λ f. f.lsn < n)

-- The numbers of the frames ascend.
abbrev pub Ascends : List WalFrame → Type 0
Ascends [] = Unit
Ascends (f ∷ fs) = All (λ g. f.lsn < g.lsn) fs × Ascends fs

le-max_lsn : (fs : List WalFrame) (m : ℕ) → m ≤ max_lsn m fs
unfolding max_lsn
le-max_lsn [] m = omega arith
le-max_lsn (f ∷ fs) m = ground (arith, le-max_lsn fs m, le-max_lsn fs f.lsn)

max_lsn-le : (fs : List WalFrame) (m : ℕ) → Below (max_lsn m fs + 1) fs
unfolding max_lsn
max_lsn-le [] m = tt
max_lsn-le (f ∷ fs) m = (
  ground (arith, le-max_lsn fs m, le-max_lsn fs f.lsn),
  max_lsn-le fs (if ltb m f.lsn then f.lsn else m),
)

module _ (crc32 : Bytes → ℕ) where
  -- The frames on disk have ascending numbers, all below the next one.
  pub record IsNumbered (log : WriteAheadLog) : Type 0 where
    pub below : Below log.next_lsn (recover crc32 log).1
    pub ascends : Ascends (recover crc32 log).1

  -- A recovery sets the next number above that of every frame that it found, on any directory.
  pub recover_fresh :
      (log : WriteAheadLog) → Below (recover crc32 log).0.next_lsn (recover crc32 log).1
  unfolding recover
  recover_fresh log = max_lsn-le _ 0
