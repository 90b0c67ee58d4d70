-- ===== src/Txn.antt =====
-- Transactions, zenith/engine/txn.py. Keys and values are UTF-8 bytes; `decode` is not modelled.
-- The manager's lock is not modelled: a commit holds it to its end.
pub mod Commit
pub mod Reads
pub mod Block
mod Examples
use zenith_db.Prelude.{
  ℕ, ◌+◌, Bool, true, false, ◌||◌, Option, none, some, List, [], ◌∷◌, ◌++◌, if◌then◌else◌, length,
}
use zenith_db.Bytes.{Bytes, bytes_eq, codes}
use zenith_db.Dict
use zenith_db.Dict.{Dict}
use zenith_db.Wal.Frame.{WalOpType}
use zenith_db.Wal.Log
use zenith_db.Lsm.MemTable.{tombstone}
use zenith_db.Lsm.Merge.Newest.{live}
use zenith_db.Lsm.Tables.{TableOps}
use zenith_db.Lsm.Tree
use zenith_db.Lsm.Tree.{LsmTree, Outcome, done, raised, Times}

pub record Transaction : Type 0 where
  pub write_buffer : Dict Bytes
  pub meta_buffer : Dict Bytes
  pub committed : Bool
  pub rolled_back : Bool

abbrev pub begin : Transaction
begin = record { write_buffer = []; meta_buffer = []; committed = false; rolled_back = false }

-- The keys `__V__:…`, `__TYPE__:…` and `__EXP__:…`.
abbrev pub value_key : Bytes → Bytes
value_key key = codes "__V__:" ++ key

abbrev pub type_key : Bytes → Bytes
type_key key = codes "__TYPE__:" ++ key

abbrev pub exp_key : Bytes → Bytes
exp_key key = codes "__EXP__:" ++ key

-- `none` is the RuntimeError of a transaction that has ended.
pub set : Transaction → Bytes → Bytes → Option Transaction
set txn key value =
    if txn.committed || txn.rolled_back
    then none
    else some (record txn {
      write_buffer = Dict.insert (value_key key) value txn.write_buffer;
      meta_buffer = Dict.insert (type_key key) (codes "string") txn.meta_buffer;
    })

pub delete : Transaction → Bytes → Option Transaction
delete txn key =
    if txn.committed || txn.rolled_back
    then none
    else some (record txn {
      write_buffer = Dict.insert (value_key key) tombstone txn.write_buffer;
      meta_buffer =
          Dict.insert (exp_key key) tombstone
            (Dict.insert (type_key key) tombstone txn.meta_buffer);
    })

pub rollback : Transaction → Transaction
rollback txn =
    if txn.committed || txn.rolled_back
    then txn
    else record txn { write_buffer = []; meta_buffer = []; rolled_back = true }

-- `val if val else None`: an empty value is None.
unless_empty : Option Bytes → Option Bytes
unless_empty none = none
unless_empty (some []) = none
unless_empty (some (b ∷ v)) = some (b ∷ v)

module _ (ops : TableOps) where
  pub get : Transaction → LsmTree ops.Table → Bytes → Option Bytes
  get txn s key = elim (Dict.lookup (value_key key) txn.write_buffer) [
    | some value ↦ live (some value)
    | none ↦ unless_empty (Tree.get ops s (value_key key))
  ]

  module _ (crc32 : Bytes → ℕ) where
    -- A marker of the log, TXN_BEGIN or TXN_COMMIT.
    unfoldable pub mark :
        LsmTree ops.Table → WalOpType → Bytes → Times → LsmTree ops.Table × Outcome
    mark s op key t =
        let (wal, lsn) = Log.append crc32 s.wal op key [] t.ts t.now in
        (record s { wal = wal }, elim lsn [ none ↦ raised | some _ ↦ done ])

    -- One entry of a buffer.
    unfoldable pub write_one :
        LsmTree ops.Table → Bytes → Bytes → Times → LsmTree ops.Table × Outcome
    write_one s key value t =
        if bytes_eq value tombstone
        then Tree.delete ops crc32 s key t
        else Tree.put ops crc32 s key value t

    -- The loops of `commit`, from the clock's readings for the entry `i` on.
    pub write_buffered :
        (ℕ → Times) → ℕ → Dict Bytes → LsmTree ops.Table → LsmTree ops.Table × Outcome
    write_buffered clock i [] s = (s, done)
    write_buffered clock i ((key, value) ∷ d) s =
        let (s', outcome) = write_one s key value (clock i) in
        let rest = write_buffered clock (i + 1) d s' in
        elim outcome [ raised ↦ (s', raised) | done ↦ rest ]

    -- A step after a step that has not raised.
    pub and_then :
        (LsmTree ops.Table × Outcome)
        → (LsmTree ops.Table → LsmTree ops.Table × Outcome)
        → LsmTree ops.Table × Outcome
    and_then (s, raised) step = (s, raised)
    and_then (s, done) step = step s

    pub write_all : (ℕ → Times) → Transaction → LsmTree ops.Table → LsmTree ops.Table × Outcome
    write_all clock txn s =
        and_then (mark s WalOpType.txn_begin (codes "TXN_START") (clock 0)) (λ s1.
          and_then (write_buffered clock 1 txn.write_buffer s1) (λ s2.
            and_then (write_buffered clock (1 + length txn.write_buffer) txn.meta_buffer s2) (λ s3.
              and_then
                (mark s3 WalOpType.txn_commit (codes "TXN_COMMIT")
                  (clock (1 + length txn.write_buffer + length txn.meta_buffer)))
                (λ s4. (record s4 { wal = Log.sync s4.wal }, done)))))

    pub commit :
        (ℕ → Times) → Transaction → LsmTree ops.Table → Transaction × LsmTree ops.Table × Outcome
    commit clock txn s =
        if txn.committed || txn.rolled_back
        then (txn, s, raised)
        else let (s', outcome) = write_all clock txn s in
          elim outcome [
            | raised ↦ (txn, s', raised)
            | done ↦ (record txn { committed = true }, s', done)
          ]

    -- `__exit__`, told whether the block raised; `__enter__` gives the transaction itself.
    pub exit :
        (ℕ → Times)
        → Bool
        → Transaction
        → LsmTree ops.Table
        → Transaction × LsmTree ops.Table × Outcome
    exit clock failed txn s =
        if failed
        then (rollback txn, s, done)
        else if txn.committed || txn.rolled_back
        then (txn, s, done)
        else commit clock txn s
