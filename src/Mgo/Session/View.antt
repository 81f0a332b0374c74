-- ===== src/Mgo/Session/View.antt =====
-- What a fake session holds for two names, and what a method behind two names changes.
use onedb.Prelude.{
  [], ◌≡◌, refl, ap, ◌∙◌, ◌&&◌, Bool-cases, inl, inr, Option, none, some, Bytes, text_eq,
  text_eq→eq, if◌then◌else◌, arith,
}
use onedb.Go.Maps.{lookup, insert, lookup-insert, or_default, or_default-insert}
use onedb.Mgo.Session.{
  FakeCollection, empty_collection, FakeDatabase, FakeSession, get_database, get_collection,
  found_database, found_collection, on_collection,
}

unfoldable pub database_of : FakeSession → Bytes → FakeDatabase
database_of s database = or_default [] (lookup database s)

unfoldable pub collection_in : FakeDatabase → Bytes → FakeCollection
collection_in d collection = or_default empty_collection (lookup collection d)

-- The collection behind two names; one that was not opened is empty.
unfoldable pub collection_of : FakeSession → Bytes → Bytes → FakeCollection
unfolding database_of collection_in
collection_of s database collection = collection_in (database_of s database) collection

database_of-insert :
    (s : FakeSession) (k j : Bytes) (d : FakeDatabase)
    → database_of (insert k d s) j ≡ (if text_eq k j then d else database_of s j)
unfolding database_of
database_of-insert s k j d = rw (lookup-insert k j d s) (ground arith)

collection_in-insert :
    (d : FakeDatabase) (k j : Bytes) (c : FakeCollection)
    → collection_in (insert k c d) j ≡ (if text_eq k j then c else collection_in d j)
unfolding collection_in
collection_in-insert d k j c = rw (lookup-insert k j c d) (ground arith)

-- To open a database or a collection changes no view.
pub found_database-view :
    (s : FakeSession) (k j : Bytes) (o : Option FakeDatabase)
    → lookup k s ≡ o
    → ((found_database s k o).1 ≡ or_default [] o)
      × (database_of (found_database s k o).0 j ≡ database_of s j)
unfolding found_database database_of
found_database-view s k j none missing = (refl, or_default-insert k j [] s missing)
found_database-view s k j (some d) e = (refl, refl)

found_collection-view :
    (d : FakeDatabase) (k j : Bytes) (o : Option FakeCollection)
    → lookup k d ≡ o
    → ((found_collection d k o).1 ≡ or_default empty_collection o)
      × (collection_in (found_collection d k o).0 j ≡ collection_in d j)
unfolding found_collection collection_in
found_collection-view d k j none missing = (refl, or_default-insert k j empty_collection d missing)
found_collection-view d k j (some c) e = (refl, refl)

module _ (s : FakeSession) (database collection : Bytes) where
  -- The pair of maps that a method runs on.
  abbrev pub opened : FakeSession × FakeDatabase
  opened = get_database s database

  abbrev pub reached : FakeDatabase × FakeCollection
  reached = get_collection opened.1 collection

  pub reached_lem : reached.1 ≡ collection_of s database collection
  unfolding get_database get_collection collection_of
  reached_lem =
      (found_collection-view opened.1 collection collection (lookup collection opened.1) refl).0
      ∙ ap (λ d. collection_in d collection)
          (found_database-view s database database (lookup database s) refl).0

  others_lem : (j i : Bytes) → database ≡ j → collection_in reached.0 i ≡ collection_of s j i
  unfolding get_database get_collection collection_of
  others_lem j i e =
      (found_collection-view opened.1 collection i (lookup collection opened.1) refl).1
      ∙ ap (λ d. collection_in d i) (found_database-view s database j (lookup database s) refl).0
      ∙ ap (λ k. collection_of s k i) e

  -- A method changes the collection behind its names, and no other.
  collection_of-on_collection :
      {A : Type 0} (method : FakeCollection → FakeCollection × A) (j i : Bytes)
      → collection_of (on_collection s database collection method).0 j i ≡ (
          if text_eq database j && text_eq collection i
          then (method (collection_of s database collection)).0
          else collection_of s j i)
  unfolding on_collection collection_of get_database get_collection
  collection_of-on_collection method j i = elim (Bool-cases (text_eq database j)) [
    | inl same ↦
        rw
          (
            database_of-insert opened.0 database j
                (insert collection (method reached.1).0 reached.0),
            same,
          )
          (collection_in-insert reached.0 collection i (method reached.1).0
            ∙ inside (text_eq→eq database j same))
    | inr other ↦
        rw
          (
            database_of-insert opened.0 database j
                (insert collection (method reached.1).0 reached.0),
            other,
          )
          (ap (λ d. collection_in d i)
            (found_database-view s database j (lookup database s) refl).1)
  ]
    where
      inside :
          database ≡ j
          → (if text_eq collection i then (method reached.1).0 else collection_in reached.0 i) ≡ (
              if text_eq collection i
              then (method (collection_of s database collection)).0
              else collection_of s j i)
      inside e =
          ap (λ c. if text_eq collection i then (method c).0 else collection_in reached.0 i)
            reached_lem
          ∙ ap
              (λ c.
                if text_eq collection i
                then (method (collection_of s database collection)).0
                else c)
              (others_lem j i e)

pub on_collection-view :
    {A : Type 0} (s : FakeSession) (database collection : Bytes)
    (method : FakeCollection → FakeCollection × A) (j i : Bytes)
    → collection_of (on_collection s database collection method).0 j i ≡ (
        if text_eq database j && text_eq collection i
        then (method (collection_of s j i)).0
        else collection_of s j i)
on_collection-view s database collection method j i =
    collection_of-on_collection s database collection method j i
    ∙ ground (arith, text_eq→eq database j, text_eq→eq collection i)
