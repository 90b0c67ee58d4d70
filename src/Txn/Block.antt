-- ===== src/Txn/Block.antt =====
-- What a with-block of a transaction leaves.
use zenith_db.Prelude.{
  ℕ, ◌≡◌, refl, Bool, true, false, ◌||◌, none, inl, inr, Bool-cases, if◌then◌else◌,
}
use zenith_db.Bytes.{Bytes}
use zenith_db.Lsm.Tables.{TableOps, TableLaws}
use zenith_db.Lsm.Tree
use zenith_db.Lsm.Tree.{LsmTree, Outcome, done, raised, Times}
use zenith_db.Lsm.Tree.View.{IsWell}
use zenith_db.Txn.{Transaction, set, rollback, commit, exit}
use zenith_db.Txn.Commit.{IsBuffer, overlay, get-commit}

or_true : (b : Bool) → b || true ≡ true
or_true true = refl
or_true false = refl

-- A transaction that has ended takes no more writes.
set-ended :
    (txn : Transaction) (key value : Bytes)
    → txn.committed || txn.rolled_back ≡ true
    → set txn key value ≡ none
unfolding set
set-ended txn key value h = rw h refl

rollback-ended : (txn : Transaction) → (rollback txn).committed || (rollback txn).rolled_back ≡ true
unfolding rollback
rollback-ended txn = elim (Bool-cases (txn.committed || txn.rolled_back)) [
  | inl over ↦ rw over over
  | inr active ↦ rw active (or_true txn.committed)
]

module _ (ops : TableOps) (laws : TableLaws ops) (crc32 : Bytes → ℕ) where
  -- At the end of a with-block of a transaction that is still active, on a well-formed tree, with
  -- buffers in which each key stands once and none is empty: if the block raised, the tree is as it
  -- was; else, if the exit returns, every key of the tree reads as the metadata buffer, else the
  -- write buffer says, and else as before. Either way the tree is well formed, and a further set is
  -- refused.
  pub get-exit :
      (clock : ℕ → Times) (failed : Bool) (txn : Transaction) (s : LsmTree ops.Table)
      → IsWell ops s
      → IsBuffer txn.write_buffer
      → IsBuffer txn.meta_buffer
      → txn.committed || txn.rolled_back ≡ false
      → (exit ops crc32 clock failed txn s).2 ≡ done
      → IsWell ops (exit ops crc32 clock failed txn s).1
        × ((j : Bytes)
            → Tree.get ops (exit ops crc32 clock failed txn s).1 j ≡ (
                if failed
                then Tree.get ops s j
                else overlay txn.meta_buffer j (overlay txn.write_buffer j (Tree.get ops s j))))
        × ((key value : Bytes) → set (exit ops crc32 clock failed txn s).0 key value ≡ none)
  unfolding exit
  get-exit clock true txn s w b1 b2 active h =
      (w, λ j. refl, λ key value. set-ended (rollback txn) key value (rollback-ended txn))
  get-exit clock false txn s w b1 b2 active h =
      let h' : (commit ops crc32 clock txn s).2 ≡ done = rw active at h in
      let (ended, w', reads) = get-commit ops laws crc32 clock txn s w b1 b2 h' in
      rw active (
        w',
        reads,
        λ key value. set-ended (commit ops crc32 clock txn s).0 key value (rw ended refl),
      )
