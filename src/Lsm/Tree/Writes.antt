-- ===== src/Lsm/Tree/Writes.antt =====
-- What a write changes: its key, and no other.
use mathlib.Core.List.{reverse}
use zenith_db.Prelude.{
  ℕ, ◌≡◌, ◌≢◌, refl, sym, ap, ◌∙◌, false, Option, none, some, [], inl, inr, Option-cases,
  Bool-cases, if◌then◌else◌,
}
use zenith_db.Bytes.{Bytes, bytes_eq}
use zenith_db.Bytes.Order.{bytes_eq→eq}
use zenith_db.Dict.{lookup, or_else}
use zenith_db.Dict.Laws.{lookup-insert, insert-IsDict}
use zenith_db.Wal.Frame.{WalOpType}
use zenith_db.Wal.Log
use zenith_db.Wal.Log.{WriteAheadLog}
use zenith_db.Lsm.MemTable
use zenith_db.Lsm.MemTable.{MemTable, tombstone}
use zenith_db.Lsm.MemTable.Laws.{get-put}
use zenith_db.Lsm.Merge.Newest.{live}
use zenith_db.Lsm.Tables.{TableOps, TableLaws}
use zenith_db.Lsm.Tree.{
  LsmTree, done, raised, Times, first_found, raw_get, get, write_memory, write, put, delete,
}
use zenith_db.Lsm.Tree.View.{IsWell, raw_get-settled}
use zenith_db.Lsm.Tree.Flush.{flush_memtable-SameView}

live-value : (v : Bytes) → bytes_eq v tombstone ≡ false → live (some v) ≡ some v
unfolding live
live-value v h = rw h

live-tombstone : live (some tombstone) ≡ none
unfolding live bytes_eq
live-tombstone = refl

module _ (ops : TableOps) (laws : TableLaws ops) where
  -- The well-formed successor of a tree, in which one key reads as a value, up to the tombstone.
  pub record Written (s : LsmTree ops.Table) (key value : Bytes) (s' : LsmTree ops.Table)
      : Type 0 where
    pub well : IsWell ops s'
    pub reads :
        (j : Bytes) → get ops s' j ≡ (if bytes_eq key j then live (some value) else get ops s j)

  -- The tree with the entry in memory.
  unfoldable pub stored : LsmTree ops.Table → Bytes → Bytes → LsmTree ops.Table
  stored s key value = record s { memtable = MemTable.put s.memtable key value }

  pub stored-IsWell :
      (s : LsmTree ops.Table) (key value : Bytes)
      → IsWell ops s
      → key ≢ []
      → IsWell ops (stored s key value)
  unfolding stored MemTable.put
  stored-IsWell s key value w ne = record {
    settled = w.settled;
    memory = insert-IsDict key value s.memtable.entries w.memory;
    named = lookup-insert key [] value s.memtable.entries ∙ named_still;
    tables = w.tables;
  }
    where
      named_still : (if bytes_eq key [] then some value else lookup [] s.memtable.entries) ≡ none
      named_still = elim (Bool-cases (bytes_eq key [])) [
        | inl e ↦ absurd (ne (bytes_eq→eq key [] e))
        | inr e ↦ rw e w.named
      ]

  pub stored-reads :
      (s : LsmTree ops.Table) (key value j : Bytes)
      → IsWell ops s
      → get ops (stored s key value) j ≡ (if bytes_eq key j then live (some value) else get ops s j)
  unfolding get stored
  stored-reads s key value j w =
      ap live (
        raw_get-settled ops (stored s key value) j w.settled
        ∙ ap (λ (o : Option Bytes). or_else o (first_found ops j (reverse s.readers)))
            (get-put s.memtable key j value))
      ∙ elim (Bool-cases (bytes_eq key j)) [
        | inl e ↦ rw e
        | inr e ↦ rw e (sym (ap live (raw_get-settled ops s j w.settled)))
      ]

  write_memory-Written :
      (crc32 : Bytes → ℕ) (s : LsmTree ops.Table) (key value : Bytes)
      → IsWell ops s
      → key ≢ []
      → (write_memory ops crc32 s key value).1 ≡ done
      → Written s key value (write_memory ops crc32 s key value).0
  unfolding write_memory stored
  write_memory-Written crc32 s key value w ne h =
      let w1 = stored-IsWell s key value w ne in
      elim (Bool-cases (MemTable.is_full (stored s key value).memtable)) [
        | inl full ↦
            let v = flush_memtable-SameView ops laws (stored s key value) w1 (rw full at h) in
            rw full
              (record { well = v.well; reads = λ j. v.views j ∙ stored-reads s key value j w })
        | inr room ↦ rw room (record { well = w1; reads = λ j. stored-reads s key value j w })
      ]

  write-Written :
      (crc32 : Bytes → ℕ) (s : LsmTree ops.Table) (op : WalOpType) (key value : Bytes) (t : Times)
      → IsWell ops s
      → key ≢ []
      → (write ops crc32 s op key value t).1 ≡ done
      → Written s key value (write ops crc32 s op key value t).0
  unfolding write get raw_get
  write-Written crc32 s op key value t w ne h =
      let a = Log.append crc32 s.wal op key value t.ts t.now in
      elim (Option-cases a.1) [
        | inl bad ↦ let q : raised ≡ done = rw (bad, write) at h in cc
        | inr (lsn, ok) ↦
            let s1 : LsmTree ops.Table = record s { wal = a.0 } in
            let w1 : IsWell ops s1 = record {
              settled = w.settled;
              memory = w.memory;
              named = w.named;
              tables = w.tables;
            } in
            let v = write_memory-Written crc32 s1 key value w1 ne (rw (ok, write) at h) in
            rw (ok, write) (record { well = v.well; reads = v.reads })
      ]

  pub put-Written :
      (crc32 : Bytes → ℕ) (s : LsmTree ops.Table) (key value : Bytes) (t : Times)
      → IsWell ops s
      → key ≢ []
      → (put ops crc32 s key value t).1 ≡ done
      → Written s key value (put ops crc32 s key value t).0
  unfolding put
  put-Written crc32 s key value t w ne h = write-Written crc32 s WalOpType.set key value t w ne h

  pub delete-Written :
      (crc32 : Bytes → ℕ) (s : LsmTree ops.Table) (key value : Bytes) (t : Times)
      → IsWell ops s
      → key ≢ []
      → value ≡ tombstone
      → (delete ops crc32 s key t).1 ≡ done
      → Written s key value (delete ops crc32 s key t).0
  unfolding delete
  delete-Written crc32 s key value t w ne e h =
      rw e (write-Written crc32 s WalOpType.del key tombstone t w ne h)

  -- After a put that returns, of a key that is not empty and a value that is not the tombstone, on
  -- a well-formed tree, the tree is well formed, the key reads as the value, and every other key
  -- reads as before, whatever the put flushed and compacted.
  pub get-put_tree :
      (crc32 : Bytes → ℕ) (s : LsmTree ops.Table) (key value : Bytes) (t : Times)
      → IsWell ops s
      → key ≢ []
      → bytes_eq value tombstone ≡ false
      → (put ops crc32 s key value t).1 ≡ done
      → IsWell ops (put ops crc32 s key value t).0
        × ((j : Bytes)
            → get ops (put ops crc32 s key value t).0 j
              ≡ (if bytes_eq key j then some value else get ops s j))
  unfolding put
  get-put_tree crc32 s key value t w ne nt h =
      let v = write-Written crc32 s WalOpType.set key value t w ne h in
      (
        v.well,
        λ j.
            v.reads j
            ∙ ap (λ (o : Option Bytes). if bytes_eq key j then o else get ops s j)
                (live-value value nt),
      )

  -- After a delete that returns, of a key that is not empty, on a well-formed tree, the tree is
  -- well formed, the key reads as nothing, and every other key reads as before, whatever the delete
  -- flushed and compacted.
  pub get-delete_tree :
      (crc32 : Bytes → ℕ) (s : LsmTree ops.Table) (key : Bytes) (t : Times)
      → IsWell ops s
      → key ≢ []
      → (delete ops crc32 s key t).1 ≡ done
      → IsWell ops (delete ops crc32 s key t).0
        × ((j : Bytes)
            → get ops (delete ops crc32 s key t).0 j
              ≡ (if bytes_eq key j then none else get ops s j))
  unfolding delete
  get-delete_tree crc32 s key t w ne h =
      let v = write-Written crc32 s WalOpType.del key tombstone t w ne h in
      (
        v.well,
        λ j.
            v.reads j
            ∙ ap (λ (o : Option Bytes). if bytes_eq key j then o else get ops s j) live-tombstone,
      )
