-- ===== src/Doc/Examples.antt =====
-- The theorem on inserts at a document of one indexed field.
use zenith_db.Prelude.{ℕ, zero, suc, ◌≡◌, refl, none, some, List, [], ◌∷◌, ◌++◌, length, take, drop}
use zenith_db.Bytes.{Bytes, bytes_eq, codes}
use zenith_db.Dict.{Dict, lookup}
use zenith_db.Python.Text.{split_on}
use zenith_db.Kv.{Result, returned, raises}
use zenith_db.Kv.Examples.{store, store-StoreLaws}
use zenith_db.Doc.{
  Json, scalar, object, Fields, no_fields, field, with_field, find, step, follow, get_nested_field,
}
use zenith_db.Doc.Store.{Codec, Doc, stamped, insert, insert_fields, get, index_doc, unindex_doc}
use zenith_db.Doc.Reads.{RoundTrips, Inserted, get-insert_doc}

-- Texts under names, each behind its length.
write_fields : Fields Bytes → Bytes
write_fields (field k (scalar v) fs) = (length k ∷ k) ++ ((length v ∷ v) ++ write_fields fs)
write_fields _ = []

abbrev text_and_rest : Bytes → Bytes × Bytes
text_and_rest [] = ([], [])
text_and_rest (n ∷ b) = (take n b, drop n b)

read_fields : ℕ → Bytes → Fields Bytes
read_fields zero b = no_fields
read_fields (suc n) [] = no_fields
read_fields (suc n) (c ∷ b) =
    let (v, rest) = text_and_rest (drop c b) in field (take c b) (scalar v) (read_fields n rest)

abbrev write_doc : Json Bytes → Bytes
write_doc (object fs) = write_fields fs
write_doc (scalar a) = a
write_doc _ = []

abbrev codec : Codec
codec = record {
  Scalar = Bytes;
  dumps = write_doc;
  dumps_sorted = write_doc;
  loads = λ b. some (object (read_fields (length b) b));
  text = λ b. b;
}

abbrev indexes : Dict (List Bytes)
indexes = (codes "c", codes "name" ∷ []) ∷ []

abbrev document : Fields Bytes
document = field (codes "name") (scalar (codes "x")) no_fields

abbrev empty_store : store.Store
empty_store = λ k. none

abbrev left_by : Result store.Store (Doc store codec) → store.Store
left_by (returned _ s) = s
left_by (raises _ s) = s

after_insert : store.Store
after_insert =
    left_by (insert store codec indexes (codes "c") (codes "1") (object document) empty_store)

new-RoundTrips : RoundTrips codec (stamped store codec (codes "1") document)
unfolding write_fields read_fields with_field bytes_eq
new-RoundTrips = record { loads_dumps = refl; dumps-ne = λ h. cc }

insert_returns :
    insert store codec indexes (codes "c") (codes "1") (object document) empty_store
    ≡ returned (stamped store codec (codes "1") document) after_insert
unfolding after_insert insert insert_fields get index_doc unindex_doc get_nested_field follow step
    find split_on with_field lookup bytes_eq
insert_returns = refl

get-insert_doc_example :
    Inserted store codec store-StoreLaws indexes
      (codes "c")
      (codes "1")
      document
      empty_store
      (stamped store codec (codes "1") document)
      after_insert
unfolding store-StoreLaws
get-insert_doc_example =
    get-insert_doc store codec store-StoreLaws indexes (codes "c") (codes "1") document
      (stamped store codec (codes "1") document) empty_store after_insert new-RoundTrips tt
      insert_returns
