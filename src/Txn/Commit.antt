-- ===== src/Txn/Commit.antt =====
-- What a commit changes.
use zenith_db.Prelude.{
  ℕ, ◌+◌, ◌≡◌, ◌≢◌, refl, sym, ap, ◌∙◌, true, ◌||◌, Option, none, some, [], ◌∷◌, inl, inr, arith,
  Bool-cases, if◌then◌else◌,
}
use zenith_db.Bytes.{Bytes, bytes_eq, codes}
use zenith_db.Bytes.Order.{bytes_eq→eq}
use zenith_db.Dict.{Dict, lookup, IsDict}
use zenith_db.Wal.Frame.{WalOpType}
use zenith_db.Lsm.MemTable.{tombstone}
use zenith_db.Lsm.Merge.Newest.{live}
use zenith_db.Lsm.Tables.{TableOps, TableLaws, IsNamed}
use zenith_db.Lsm.Tree
use zenith_db.Lsm.Tree.{LsmTree, Outcome, done, raised, Times}
use zenith_db.Lsm.Tree.View.{Outcome-cases, IsWell, SameView, wal-SameView}
use zenith_db.Lsm.Tree.Writes.{Written, put-Written, delete-Written}
use zenith_db.Txn.{Transaction, mark, write_one, write_buffered, and_then, write_all, commit}

-- A buffer over what was read before.
pub overlay : Dict Bytes → Bytes → Option Bytes → Option Bytes
overlay [] j o = o
overlay ((k, v) ∷ d) j o = if bytes_eq k j then live (some v) else overlay d j o

overlay-none :
    (d : Dict Bytes) (j : Bytes) (o : Option Bytes) → lookup j d ≡ none → overlay d j o ≡ o
unfolding overlay lookup
overlay-none [] j o h = refl
overlay-none ((k, v) ∷ d) j o h = ground (arith, overlay-none d j o)

IsNamed-parts : (k v : Bytes) (d : Dict Bytes) → IsNamed ((k, v) ∷ d) → (k ≢ []) × IsNamed d
unfolding lookup bytes_eq
IsNamed-parts [] v d h = absurd (let k : ◌≡◌ {A = Option Bytes} (some v) none = h in cc)
IsNamed-parts (b ∷ k) v d h = (cc, h)

-- A buffer has each key once, and none is empty.
abbrev pub IsBuffer : Dict Bytes → Type 0
IsBuffer d = IsDict d × IsNamed d

module _ (ops : TableOps) (laws : TableLaws ops) (crc32 : Bytes → ℕ) where
  write_one-Written :
      (s : LsmTree ops.Table) (key value : Bytes) (t : Times)
      → IsWell ops s
      → key ≢ []
      → (write_one ops crc32 s key value t).1 ≡ done
      → Written ops laws s key value (write_one ops crc32 s key value t).0
  unfolding write_one
  write_one-Written s key value t w ne h = elim (Bool-cases (bytes_eq value tombstone)) [
    | inl gone ↦ rw gone (
        delete-Written ops laws crc32 s key value t w ne (bytes_eq→eq value tombstone gone)
          (rw gone at h))
    | inr kept ↦ rw kept (put-Written ops laws crc32 s key value t w ne (rw kept at h))
  ]

  write_buffered-overlay :
      (clock : ℕ → Times) (i : ℕ) (d : Dict Bytes) (s : LsmTree ops.Table)
      → IsWell ops s
      → IsDict d
      → IsNamed d
      → (write_buffered ops crc32 clock i d s).1 ≡ done
      → IsWell ops (write_buffered ops crc32 clock i d s).0
        × ((j : Bytes)
            → Tree.get ops (write_buffered ops crc32 clock i d s).0 j
              ≡ overlay d j (Tree.get ops s j))
  unfolding write_buffered overlay
  write_buffered-overlay clock i [] s w u n h = (w, λ j. refl)
  write_buffered-overlay clock i ((k, v) ∷ d) s w (fresh, u) n h =
      let one = write_one ops crc32 s k v (clock i) in
      let (ne, n') = IsNamed-parts k v d n in
      elim (Outcome-cases one.1) [
        | inl bad ↦ let q : raised ≡ done = rw (bad, write_buffered) at h in cc
        | inr ok ↦
            let v1 = write_one-Written s k v (clock i) w ne ok in
            let (w2, reads) =
              write_buffered-overlay clock (i + 1) d one.0 v1.well u n'
                (rw (ok, write_buffered) at h) in
            rw (ok, write_buffered) (w2, λ j. reads j ∙ ap (overlay d j) (v1.reads j) ∙ step j)
      ]
    where
      step :
          (j : Bytes)
          → overlay d j (if bytes_eq k j then live (some v) else Tree.get ops s j)
            ≡ (if bytes_eq k j then live (some v) else overlay d j (Tree.get ops s j))
      step j = elim (Bool-cases (bytes_eq k j)) [
        | inl e ↦ rw e (
            overlay-none d j (live (some v))
              (ap (λ i. lookup i d) (sym (bytes_eq→eq k j e)) ∙ fresh))
        | inr e ↦ rw e
      ]

  and_then-done :
      (r : LsmTree ops.Table × Outcome) (step : LsmTree ops.Table → LsmTree ops.Table × Outcome)
      → (and_then ops crc32 r step).1 ≡ done
      → (r.1 ≡ done) × (and_then ops crc32 r step ≡ step r.0)
  unfolding and_then
  and_then-done (s, raised) step h = absurd (let q : raised ≡ done = h in cc)
  and_then-done (s, done) step h = (refl, refl)

  mark-SameView :
      (s : LsmTree ops.Table) (op : WalOpType) (key : Bytes) (t : Times)
      → IsWell ops s
      → SameView ops s (mark ops crc32 s op key t).0
  unfolding mark
  mark-SameView s op key t w = wal-SameView ops s _ w

  -- The two buffers over what a tree shows, in a successor.
  Committed : Transaction → LsmTree ops.Table → LsmTree ops.Table → Type 0
  Committed txn s s' =
      IsWell ops s'
      × ((j : Bytes)
          → Tree.get ops s' j
            ≡ overlay txn.meta_buffer j (overlay txn.write_buffer j (Tree.get ops s j)))

  write_all-Committed :
      (clock : ℕ → Times) (txn : Transaction) (s : LsmTree ops.Table)
      → IsWell ops s
      → IsBuffer txn.write_buffer
      → IsBuffer txn.meta_buffer
      → (write_all ops crc32 clock txn s).1 ≡ done
      → Committed txn s (write_all ops crc32 clock txn s).0
  unfolding write_all Committed
  write_all-Committed clock txn s w (u1, n1) (u2, n2) h =
      let (_, e1) = and_then-done _ _ h in
      let v1 = mark-SameView s WalOpType.txn_begin (codes "TXN_START") (clock 0) w in
      let h1 = ap (λ (r : LsmTree ops.Table × Outcome). r.1) (sym e1) ∙ h in
      let (d2, e2) = and_then-done _ _ h1 in
      let (w2, reads2) = write_buffered-overlay clock 1 txn.write_buffer _ v1.well u1 n1 d2 in
      let h2 = ap (λ (r : LsmTree ops.Table × Outcome). r.1) (sym e2) ∙ h1 in
      let (d3, e3) = and_then-done _ _ h2 in
      let (w3, reads3) = write_buffered-overlay clock _ txn.meta_buffer _ w2 u2 n2 d3 in
      let h3 = ap (λ (r : LsmTree ops.Table × Outcome). r.1) (sym e3) ∙ h2 in
      let (_, e4) = and_then-done _ _ h3 in
      let v4 = mark-SameView _ WalOpType.txn_commit (codes "TXN_COMMIT") _ w3 in
      let v5 = wal-SameView ops _ _ v4.well in
      rw (e1 ∙ e2 ∙ e3 ∙ e4) (
        v5.well,
        λ j.
            v5.views j
            ∙ v4.views j
            ∙ reads3 j
            ∙ ap (overlay txn.meta_buffer j)
                (reads2 j ∙ ap (overlay txn.write_buffer j) (v1.views j)),
      )

  -- After a commit that returns, on a well-formed tree, of buffers in which each key stands once
  -- and none is empty, the transaction is marked committed, the tree is well formed, and every key
  -- reads as the metadata buffer, else the write buffer says, and else as before.
  pub get-commit :
      (clock : ℕ → Times) (txn : Transaction) (s : LsmTree ops.Table)
      → IsWell ops s
      → IsBuffer txn.write_buffer
      → IsBuffer txn.meta_buffer
      → (commit ops crc32 clock txn s).2 ≡ done
      → ((commit ops crc32 clock txn s).0.committed ≡ true)
        × IsWell ops (commit ops crc32 clock txn s).1
        × ((j : Bytes)
            → Tree.get ops (commit ops crc32 clock txn s).1 j
              ≡ overlay txn.meta_buffer j (overlay txn.write_buffer j (Tree.get ops s j)))
  unfolding commit Committed
  get-commit clock txn s w b1 b2 h = elim (Bool-cases (txn.committed || txn.rolled_back)) [
    | inl over ↦ let q : raised ≡ done = rw over at h in cc
    | inr active ↦ elim (Outcome-cases (write_all ops crc32 clock txn s).1) [
      | inl bad ↦ let q : raised ≡ done = rw (active, bad) at h in cc
      | inr ok ↦
          let (w', reads) = write_all-Committed clock txn s w b1 b2 ok in
          rw (active, ok) (refl, w', reads)
    ]
  ]
