-- ===== src/Doc/Reads.antt =====
-- What a document reads as after an insert, and its entries in the indexes.
use mathlib.Core.List.{cons-ne-nil}
use mathlib.Core.Path.{subst}
use zenith_db.Prelude.{
  ◌≡◌, ◌≢◌, refl, sym, ap, ◌∙◌, Bool, true, false, Option, none, some, List, [], ◌∷◌, All,
  if◌then◌else◌,
}
use zenith_db.Bytes.{Bytes, bytes_eq, codes}
use zenith_db.Bytes.Order.{bytes_eq_refl}
use zenith_db.Dict.{Dict}
use zenith_db.Lsm.MemTable.{tombstone}
use zenith_db.Kv.{returned, StoreOps, StoreLaws, >>=-returned, returned_injective}
use zenith_db.Doc.{Json, object, Fields, get_nested_field}
use zenith_db.Doc.Store.{
  Codec, Doc, doc_key, idx_key, indexed_fields, loaded, get, index_value, unindex_value, index_doc,
  unindex_doc, unindex_old, stamped, insert_fields, insert,
}

-- The document, when written, is read back.
pub record RoundTrips (codec : Codec) (d : Json codec.Scalar) : Type 0 where
  pub loads_dumps : codec.loads (codec.dumps d) ≡ some d
  pub dumps-ne : codec.dumps d ≢ tombstone

module _ (ops : StoreOps) (codec : Codec) (laws : StoreLaws ops) where
  -- No document has changed.
  record SameDocs (s s' : ops.Store) : Type 0 where
    good : laws.IsStore s'
    docs : (c i : Bytes) → ops.get s' (doc_key c i) ≡ ops.get s (doc_key c i)

  -- An entry of an index stays.
  Marks : ops.Store → ops.Store → Type 0
  Marks s s' = (k : Bytes) → ops.get s k ≡ some (codes "1") → ops.get s' k ≡ some (codes "1")

  SameDocs-trans : (s t u : ops.Store) → SameDocs s t → SameDocs t u → SameDocs s u
  SameDocs-trans s t u p q = record { good = q.good; docs = λ c i. q.docs c i ∙ p.docs c i }

  SameDocs-same : (s s' : ops.Store) → laws.IsStore s → s ≡ s' → SameDocs s s'
  SameDocs-same s s' g e = subst (SameDocs s) e (record { good = g; docs = λ c i. refl })

  marked :
      (b : Bool) (o : Option Bytes)
      → o ≡ some (codes "1")
      → (if b then some (codes "1") else o) ≡ some (codes "1")
  marked true o h = refl
  marked false o h = h

  -- A value that is there has its entry.
  abbrev pub IndexedAs : Bytes → Bytes → ops.Store → Bytes → Option (Doc ops codec) → Type 0
  IndexedAs c id s path none = Unit
  IndexedAs c id s path (some v) = ops.get s (idx_key ops codec c path v id) ≡ some (codes "1")

  abbrev pub Indexed : Bytes → Bytes → Doc ops codec → ops.Store → Bytes → Type 0
  Indexed c id doc s path = IndexedAs c id s path (get_nested_field doc path)

  IndexedAs-later :
      (c id path : Bytes) (o : Option (Doc ops codec)) (s s' : ops.Store)
      → Marks s s'
      → IndexedAs c id s path o
      → IndexedAs c id s' path o
  unfolding Marks
  IndexedAs-later c id path none s s' m i = tt
  IndexedAs-later c id path (some v) s s' m i = m (idx_key ops codec c path v id) i

  index_value-Indexed :
      (c id path : Bytes) (o : Option (Doc ops codec)) (s s' : ops.Store)
      → laws.IsStore s
      → index_value ops codec c id path o s ≡ returned tt s'
      → SameDocs s s' × Marks s s' × IndexedAs c id s' path o
  unfolding bytes_eq Marks
  index_value-Indexed c id path none s s' g h =
      let (_, e) = returned_injective h in
      (SameDocs-same s s' g e, λ k m. ap (λ x. ops.get x k) (sym e) ∙ m, tt)
  index_value-Indexed c id path (some val) s s' g h =
      let key = idx_key ops codec c path val id in
      let (g', r) = laws.puts key (codes "1") s s' g (cons-ne-nil _ _) (λ q. cc) h in
      (
        record { good = g'; docs = λ c i. r (doc_key c i) },
        λ k m. r k ∙ marked (bytes_eq key k) (ops.get s k) m,
        r key
            ∙ ap (λ (b : Bool). if b then some (codes "1") else ops.get s key) (bytes_eq_refl key),
      )

  index_doc-Indexed :
      (c id : Bytes) (doc : Doc ops codec) (paths : List Bytes) (s s' : ops.Store)
      → laws.IsStore s
      → index_doc ops codec c id doc paths s ≡ returned tt s'
      → SameDocs s s' × Marks s s' × All (Indexed c id doc s') paths
  unfolding index_doc Marks
  index_doc-Indexed c id doc [] s s' g h =
      let (_, e) = returned_injective h in
      (SameDocs-same s s' g e, λ k m. ap (λ x. ops.get x k) (sym e) ∙ m, tt)
  index_doc-Indexed c id doc (path ∷ paths) s s' g h =
      let (_, t, h1, k1) =
        >>=-returned (index_value ops codec c id path (get_nested_field doc path)) _ s h in
      let (d1, m1, i1) = index_value-Indexed c id path (get_nested_field doc path) s t g h1 in
      let (d2, m2, i2) = index_doc-Indexed c id doc paths t s' d1.good k1 in
      (
        SameDocs-trans s t s' d1 d2,
        λ k m. m2 k (m1 k m),
        (IndexedAs-later c id path (get_nested_field doc path) t s' m2 i1, i2),
      )

  unindex_value-SameDocs :
      (c id path : Bytes) (o : Option (Doc ops codec)) (s s' : ops.Store)
      → laws.IsStore s
      → unindex_value ops codec c id path o s ≡ returned tt s'
      → SameDocs s s'
  unfolding bytes_eq
  unindex_value-SameDocs c id path none s s' g h =
      let (_, e) = returned_injective h in SameDocs-same s s' g e
  unindex_value-SameDocs c id path (some val) s s' g h =
      let (g', r) = laws.deletes (idx_key ops codec c path val id) s s' g (cons-ne-nil _ _) h in
      record { good = g'; docs = λ c i. r (doc_key c i) }

  unindex_doc-SameDocs :
      (c id : Bytes) (doc : Doc ops codec) (paths : List Bytes) (s s' : ops.Store)
      → laws.IsStore s
      → unindex_doc ops codec c id doc paths s ≡ returned tt s'
      → SameDocs s s'
  unfolding unindex_doc
  unindex_doc-SameDocs c id doc [] s s' g h =
      let (_, e) = returned_injective h in SameDocs-same s s' g e
  unindex_doc-SameDocs c id doc (path ∷ paths) s s' g h =
      let (_, t, h1, k1) =
        >>=-returned (unindex_value ops codec c id path (get_nested_field doc path)) _ s h in
      let d = unindex_value-SameDocs c id path (get_nested_field doc path) s t g h1 in
      SameDocs-trans s t s' d (unindex_doc-SameDocs c id doc paths t s' d.good k1)

  unindex_old-SameDocs :
      (c id : Bytes) (paths : List Bytes) (o : Option (Doc ops codec)) (s s' : ops.Store)
      → laws.IsStore s
      → unindex_old ops codec c id paths o s ≡ returned tt s'
      → SameDocs s s'
  unindex_old-SameDocs c id paths none s s' g h =
      let (_, e) = returned_injective h in SameDocs-same s s' g e
  unindex_old-SameDocs c id paths (some old) s s' g h = unindex_doc-SameDocs c id old paths s s' g h

  -- What an insert leaves.
  abbrev pub Inserted :
      Dict (List Bytes)
      → Bytes
      → Bytes
      → Fields codec.Scalar
      → ops.Store
      → Doc ops codec
      → ops.Store
      → Type 0
  Inserted indexes c id fs s doc s' =
      laws.IsStore s'
      × (doc ≡ stamped ops codec id fs)
      × ((c' i' : Bytes)
          → get ops codec c' i' s'
            ≡ returned
                (if bytes_eq (doc_key c id) (doc_key c' i')
                  then some doc
                  else loaded ops codec (ops.get s (doc_key c' i')))
                s')
      × All (Indexed c id doc s') (indexed_fields ops codec indexes c)

  by_key :
      (b : Bool) (o : Option Bytes) (d : Option (Doc ops codec)) (p : Option Bytes)
      (d' : Option (Doc ops codec))
      → loaded ops codec o ≡ d
      → loaded ops codec p ≡ d'
      → loaded ops codec (if b then o else p) ≡ (if b then d else d')
  by_key true o d p d' h k = h
  by_key false o d p d' h k = k

  -- After an insert of a document that returns, through the removal of the old document's entries,
  -- the store is well formed, the insert gives the document with its identifier as _id, get gives
  -- the same under its key and under every other key what was there before, and each indexed field
  -- that the document has has its entry.
  pub get-insert_doc :
      (indexes : Dict (List Bytes)) (c id : Bytes) (fs : Fields codec.Scalar) (doc : Doc ops codec)
      (s s' : ops.Store)
      → RoundTrips codec (stamped ops codec id fs)
      → laws.IsStore s
      → insert ops codec indexes c id (object fs) s ≡ returned doc s'
      → Inserted indexes c id fs s doc s'
  unfolding insert insert_fields get
  get-insert_doc indexes c id fs doc s s' cl g h =
      let paths = indexed_fields ops codec indexes c in
      let new = stamped ops codec id fs in
      let key = doc_key c id in
      let (_, t, h1, k1) =
        >>=-returned (unindex_old ops codec c id paths (loaded ops codec (ops.get s key))) _ s h in
      let (_, u, h2, k2) = >>=-returned (ops.put key (codec.dumps new)) _ t k1 in
      let (_, w, h3, k3) = >>=-returned (index_doc ops codec c id new paths) _ u k2 in
      let (shown, e) = returned_injective k3 in
      let d1 = unindex_old-SameDocs c id paths (loaded ops codec (ops.get s key)) s t g h1 in
      let (g2, r2) = laws.puts key (codec.dumps new) t u d1.good (cons-ne-nil _ _) cl.dumps-ne h2 in
      let (d3, _, i3) = index_doc-Indexed c id new paths u w g2 h3 in
      let written : loaded ops codec (some (codec.dumps new)) ≡ some new = rw cl.loads_dumps refl in
      let outcome : Inserted indexes c id fs s new w = (
        d3.good,
        refl,
        λ c' i'.
            ap (λ (o : Option Bytes). returned (loaded ops codec o) w)
              (d3.docs c' i' ∙ r2 (doc_key c' i'))
            ∙ ap (λ (o : Option (Doc ops codec)). returned o w)
                (by_key (bytes_eq key (doc_key c' i')) (some (codec.dumps new)) (some new) _ _
                  written (ap (loaded ops codec) (d1.docs c' i'))),
        i3,
      ) in
      subst (λ (x : Doc ops codec). Inserted indexes c id fs s x s') shown
        (subst (λ (x : ops.Store). Inserted indexes c id fs s new x) e outcome)
