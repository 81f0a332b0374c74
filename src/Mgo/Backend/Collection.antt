-- ===== src/Mgo/Backend/Collection.antt =====
-- `Collectioner` of mgo/backend.go, and the wrapper that has it.
use onedb.Prelude.{[], Option, some, List, Bytes}
use onedb.Go.Ints.{ℤ}
use onedb.Go.Outcome.{Error}
use onedb.Mgo.Backend.{Method, Checked, Heap, Ref, on_world, new_query}
use onedb.Mgo.Session.{MethodCall}

-- The methods that mgo has as well. `X` is `*mgo.Session`, and `I` is `*mgo.Iter`.
pub record CollectionMethods (W X C Q I V : Type 0) : Type 0 where
  pub count : Method W C (Checked ℤ)
  pub create : V → Method W C (Option Error)
  pub drop_collection : Method W C (Option Error)
  pub drop_index : (List Bytes) → Method W C (Option Error)
  pub drop_index_name : Bytes → Method W C (Option Error)
  pub ensure_index : V → Method W C (Option Error)
  pub ensure_index_key : (List Bytes) → Method W C (Option Error)
  pub find : V → Method W C Q
  pub find_id : V → Method W C Q
  pub insert : (List V) → Method W C (Option Error)
  pub update : V → V → Method W C (Option Error)
  pub update_id : V → V → Method W C (Option Error)
  pub update_all : V → V → Method W C (Checked V)
  pub upsert : V → V → Method W C (Checked V)
  pub upsert_id : V → V → Method W C (Checked V)
  pub remove : V → Method W C (Option Error)
  pub remove_id : V → Method W C (Option Error)
  pub remove_all : V → Method W C (Checked V)
  pub indexes : Method W C (Checked (List V))
  pub new_iter : X → (List V) → ℤ → (Option Error) → Method W C I
  pub pipe : V → Method W C V
  pub repair : Method W C I
  pub with_session : X → Method W C C

pub record Collectioner (W X C Q I V : Type 0) : Type 0 where
  pub methods : CollectionMethods W X C Q I V
  pub method_calls : Method W C (List MethodCall)

module _ {W S C Q I V : Type 0} where
  -- The methods of `*mcollection`.
  unfoldable pub collection_methods :
      CollectionMethods W S C Q I V → CollectionMethods (Heap W S Q) S C Ref I V
  unfolding on_world new_query
  collection_methods m = record {
    count = λ h c. on_world (λ w. m.count w c) h;
    create = λ info h c. on_world (λ w. m.create info w c) h;
    drop_collection = λ h c. on_world (λ w. m.drop_collection w c) h;
    drop_index = λ key h c. on_world (λ w. m.drop_index key w c) h;
    drop_index_name = λ name h c. on_world (λ w. m.drop_index_name name w c) h;
    ensure_index = λ index h c. on_world (λ w. m.ensure_index index w c) h;
    ensure_index_key = λ key h c. on_world (λ w. m.ensure_index_key key w c) h;
    find = λ query h c. new_query (on_world (λ w. m.find query w c) h);
    find_id = λ id h c. new_query (on_world (λ w. m.find_id id w c) h);
    insert = λ docs h c. on_world (λ w. m.insert docs w c) h;
    update = λ selector update h c. on_world (λ w. m.update selector update w c) h;
    update_id = λ id update h c. on_world (λ w. m.update_id id update w c) h;
    update_all = λ selector update h c. on_world (λ w. m.update_all selector update w c) h;
    upsert = λ selector update h c. on_world (λ w. m.upsert selector update w c) h;
    upsert_id = λ id update h c. on_world (λ w. m.upsert_id id update w c) h;
    remove = λ selector h c. on_world (λ w. m.remove selector w c) h;
    remove_id = λ id h c. on_world (λ w. m.remove_id id w c) h;
    remove_all = λ selector h c. on_world (λ w. m.remove_all selector w c) h;
    indexes = λ h c. on_world (λ w. m.indexes w c) h;
    new_iter = λ session first_batch cursor_id err h c.
        on_world (λ w. m.new_iter session first_batch cursor_id err w c) h;
    pipe = λ pipeline h c. on_world (λ w. m.pipe pipeline w c) h;
    repair = λ h c. on_world (λ w. m.repair w c) h;
    with_session = λ s h c. on_world (λ w. m.with_session s w c) h;
  }

  unfoldable pub mcollection : CollectionMethods W S C Q I V → Collectioner (Heap W S Q) S C Ref I V
  unfolding collection_methods
  mcollection m = record { methods = collection_methods m; method_calls = λ h c. (h, some []) }
