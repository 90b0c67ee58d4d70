-- ===== src/Doc/Store.antt =====
-- DocumentStore. Its `_indexes` are an argument of the methods, which do not change them.
use zenith_db.Prelude.{ℕ, Bool, true, false, Option, none, some, List, [], ◌∷◌, ◌++◌, length}
use zenith_db.Bytes.{Bytes, codes}
use zenith_db.Dict.{Dict, lookup}
use zenith_db.Kv.{Result, returned, raises, other_error, ◌>>=◌, StoreOps}
use zenith_db.Kv.Keys.{with_prefix}
use zenith_db.Doc.{
  Json, null, scalar, array, object, Fields, with_field, updated, unless_null, get_nested_field,
}

-- `json.dumps(d)`, `json.dumps(d, sort_keys=True)`, `json.loads`, where `none` is the error that
-- `get` catches, and a text as a scalar.
pub record Codec : Type 1 where
  pub Scalar : Type 0
  pub dumps : Json Scalar → Bytes
  pub dumps_sorted : Json Scalar → Bytes
  pub loads : Bytes → Option (Json Scalar)
  pub text : Bytes → Scalar

abbrev pub doc_key : Bytes → Bytes → Bytes
doc_key collection doc_id = codes "__DOC__:" ++ (collection ++ (codes ":" ++ doc_id))

module _ (ops : StoreOps) (codec : Codec) where
  abbrev pub Doc : Type 0
  Doc = Json codec.Scalar

  abbrev pub Method : Type 0 → Type 0
  Method X = ops.Store → Result ops.Store X

  abbrev pub idx_key : Bytes → Bytes → Doc → Bytes → Bytes
  idx_key collection path val doc_id =
      codes "__DIDX__:"
      ++ (collection
          ++ (codes ":"
              ++ (path ++ (codes ":" ++ (codec.dumps_sorted val ++ (codes ":" ++ doc_id))))))

  -- `self._indexes.get(collection, set())`
  abbrev pub indexed_fields : Dict (List Bytes) → Bytes → List Bytes
  indexed_fields indexes collection = elim (lookup collection indexes) [
    | none ↦ []
    | some paths ↦ paths
  ]

  -- What the raw bytes of a document give.
  abbrev pub loaded : Option Bytes → Option Doc
  loaded none = none
  loaded (some raw) = unless_null (codec.loads raw)

  unfoldable pub get : Bytes → Bytes → Method (Option Doc)
  get collection doc_id s = returned (loaded (ops.get s (doc_key collection doc_id))) s

  -- One field of `_index_doc` and of `_unindex_doc`, by its value in the document.
  abbrev pub index_value : Bytes → Bytes → Bytes → Option Doc → Method (Unit {0})
  index_value collection doc_id path none s = returned tt s
  index_value collection doc_id path (some val) s =
      ops.put (idx_key collection path val doc_id) (codes "1") s

  abbrev pub unindex_value : Bytes → Bytes → Bytes → Option Doc → Method (Unit {0})
  unindex_value collection doc_id path none s = returned tt s
  unindex_value collection doc_id path (some val) s =
      ops.delete (idx_key collection path val doc_id) s

  unfoldable pub index_doc : Bytes → Bytes → Doc → List Bytes → Method (Unit {0})
  index_doc collection doc_id doc [] s = returned tt s
  index_doc collection doc_id doc (path ∷ paths) s =
      (index_value collection doc_id path (get_nested_field doc path) >>= λ _.
      index_doc collection doc_id doc paths)
        s

  unfoldable pub unindex_doc : Bytes → Bytes → Doc → List Bytes → Method (Unit {0})
  unindex_doc collection doc_id doc [] s = returned tt s
  unindex_doc collection doc_id doc (path ∷ paths) s =
      (unindex_value collection doc_id path (get_nested_field doc path) >>= λ _.
      unindex_doc collection doc_id doc paths)
        s

  -- `if old_doc`: an old document that is empty has no field to remove.
  abbrev pub unindex_old : Bytes → Bytes → List Bytes → Option Doc → Method (Unit {0})
  unindex_old collection doc_id paths none s = returned tt s
  unindex_old collection doc_id paths (some old) s = unindex_doc collection doc_id old paths s

  abbrev pub stamped : Bytes → Fields codec.Scalar → Doc
  stamped doc_id fs = object (with_field (codes "_id") (scalar (codec.text doc_id)) fs)

  unfoldable pub insert_fields :
      Dict (List Bytes) → Bytes → Bytes → Fields codec.Scalar → Method Doc
  insert_fields indexes collection doc_id fs = get collection doc_id >>= λ old.
      unindex_old collection doc_id (indexed_fields indexes collection) old >>= λ _.
      ops.put (doc_key collection doc_id) (codec.dumps (stamped doc_id fs)) >>= λ _.
      index_doc collection doc_id (stamped doc_id fs) (indexed_fields indexes collection) >>= λ _ s.
      returned (stamped doc_id fs) s

  -- The TypeError of what is no dict is `raises`.
  unfoldable pub insert : Dict (List Bytes) → Bytes → Bytes → Doc → Method Doc
  insert indexes collection doc_id null s = raises other_error s
  insert indexes collection doc_id (scalar a) s = raises other_error s
  insert indexes collection doc_id (array vs) s = raises other_error s
  insert indexes collection doc_id (object fs) s = insert_fields indexes collection doc_id fs s

  -- `update`, of what it finds; what has no `update` method raises.
  abbrev pub update_found :
      Dict (List Bytes) → Bytes → Bytes → Fields codec.Scalar → Option Doc → Method (Option Doc)
  update_found indexes collection doc_id patch none s = returned none s
  update_found indexes collection doc_id patch (some (object fs)) s =
      (insert_fields indexes collection doc_id (updated fs patch) >>= λ doc s'.
      returned (some doc) s')
        s
  update_found indexes collection doc_id patch (some _) s = raises other_error s

  unfoldable pub update :
      Dict (List Bytes) → Bytes → Bytes → Fields codec.Scalar → Method (Option Doc)
  update indexes collection doc_id patch =
      get collection doc_id >>= λ found. update_found indexes collection doc_id patch found

  abbrev pub delete_found : Dict (List Bytes) → Bytes → Bytes → Option Doc → Method Bool
  delete_found indexes collection doc_id none s = returned false s
  delete_found indexes collection doc_id (some old) s =
      (unindex_doc collection doc_id old (indexed_fields indexes collection) >>= λ _.
      ops.delete (doc_key collection doc_id) >>= λ _ s'. returned true s')
        s

  unfoldable pub delete : Dict (List Bytes) → Bytes → Bytes → Method Bool
  delete indexes collection doc_id =
      get collection doc_id >>= λ found. delete_found indexes collection doc_id found

  unfoldable pub count : Bytes → Method ℕ
  count collection s =
      let prefix = codes "__DOC__:" ++ (collection ++ codes ":") in
      returned (length (with_prefix prefix (ops.scan s prefix))) s
