-- ===== src/Txn/Reads.antt =====
-- What a transaction reads of its own writes.
use zenith_db.Prelude.{◌≡◌, ◌∙◌, ◌||◌, Option, none, some, [], inl, inr, Bool-cases, if◌then◌else◌}
use zenith_db.Bytes.{Bytes, bytes_eq, codes}
use zenith_db.Dict
use zenith_db.Dict.{Dict, lookup}
use zenith_db.Dict.Laws.{lookup-insert, insert-IsDict}
use zenith_db.Lsm.Merge.Newest.{live}
use zenith_db.Lsm.Tables.{TableOps}
use zenith_db.Lsm.Tree.{LsmTree}
use zenith_db.Txn.{Transaction, value_key, type_key, set, get}
use zenith_db.Txn.Commit.{IsBuffer}

value_entry :
    (key value : Bytes) (d : Dict Bytes)
    → IsBuffer d
    → IsBuffer (Dict.insert (value_key key) value d)
unfolding bytes_eq
value_entry key value d (u, n) =
    (insert-IsDict (value_key key) value d u, lookup-insert (value_key key) [] value d ∙ n)

type_entry :
    (key value : Bytes) (d : Dict Bytes)
    → IsBuffer d
    → IsBuffer (Dict.insert (type_key key) value d)
unfolding bytes_eq
type_entry key value d (u, n) =
    (insert-IsDict (type_key key) value d u, lookup-insert (type_key key) [] value d ∙ n)

lookup-value_key :
    (key j value : Bytes) (d : Dict Bytes)
    → lookup (value_key j) (Dict.insert (value_key key) value d)
      ≡ (if bytes_eq key j then some value else lookup (value_key j) d)
unfolding bytes_eq
lookup-value_key key j value d = lookup-insert (value_key key) (value_key j) value d

-- After a set that is not refused, the buffers keep what a commit needs of them, the transaction
-- reads the key as the value, and every other key as before, whatever the tree.
pub get-set :
    (ops : TableOps) (txn : Transaction) (s : LsmTree ops.Table) (key value : Bytes)
    {txn' : Transaction}
    → IsBuffer txn.write_buffer
    → IsBuffer txn.meta_buffer
    → set txn key value ≡ some txn'
    → IsBuffer txn'.write_buffer
      × IsBuffer txn'.meta_buffer
      × ((j : Bytes)
          → get ops txn' s j ≡ (if bytes_eq key j then live (some value) else get ops txn s j))
unfolding set get
get-set ops txn s key value {txn'} b1 b2 h = elim (Bool-cases (txn.committed || txn.rolled_back)) [
  | inl over ↦ let q : ◌≡◌ {A = Option Transaction} none (some txn') = rw over at h in cc
  | inr active ↦
      let txn1 : Transaction = record txn {
        write_buffer = Dict.insert (value_key key) value txn.write_buffer;
        meta_buffer = Dict.insert (type_key key) (codes "string") txn.meta_buffer;
      } in
      let q : ◌≡◌ {A = Option Transaction} (some txn1) (some txn') = rw active at h in
      let e : txn1 ≡ txn' = cc in
      rw (← e) (
        value_entry key value txn.write_buffer b1,
        type_entry key (codes "string") txn.meta_buffer b2,
        λ j. elim (Bool-cases (bytes_eq key j)) [
          | inl same ↦ rw (lookup-value_key key j value txn.write_buffer, same, get)
          | inr other ↦ rw (lookup-value_key key j value txn.write_buffer, other, get)
        ],
      )
]
