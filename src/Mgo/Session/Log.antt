-- ===== src/Mgo/Session/Log.antt =====
-- The names and arguments under which the calls of a fake collection should be logged, from the
-- methods that mgo declares.
use onedb.Prelude.{[], ◌∷◌, ◌≡◌, refl, List, Bytes, codes}
use onedb.Go.Values.{Value}
use onedb.Mgo.Session.{
  MethodCall, CollectionMethod, count, drop_collection, indexes, repair, create, drop_index,
  drop_index_name, ensure_index, ensure_index_key, find, find_id, insert_docs, remove, remove_id,
  remove_all, pipe, with_session, update, update_id, update_all, upsert, upsert_id, new_iter,
  method_call,
}

-- The name of the method that mgo declares, and the arguments of a call of it, in order.
abbrev go_name : CollectionMethod → Bytes
go_name count = codes "Count"
go_name drop_collection = codes "DropCollection"
go_name indexes = codes "Indexes"
go_name repair = codes "Repair"
go_name (create _) = codes "Create"
go_name (drop_index _) = codes "DropIndex"
go_name (drop_index_name _) = codes "DropIndexName"
go_name (ensure_index _) = codes "EnsureIndex"
go_name (ensure_index_key _) = codes "EnsureIndexKey"
go_name (find _) = codes "Find"
go_name (find_id _) = codes "FindId"
go_name (insert_docs _) = codes "Insert"
go_name (remove _) = codes "Remove"
go_name (remove_id _) = codes "RemoveId"
go_name (remove_all _) = codes "RemoveAll"
go_name (pipe _) = codes "Pipe"
go_name (with_session _) = codes "With"
go_name (update _ _) = codes "Update"
go_name (update_id _ _) = codes "UpdateId"
go_name (update_all _ _) = codes "UpdateAll"
go_name (upsert _ _) = codes "Upsert"
go_name (upsert_id _ _) = codes "UpsertId"
go_name (new_iter _ _ _ _) = codes "NewIter"

abbrev arguments : CollectionMethod → List Value
arguments (create x) = x ∷ []
arguments (drop_index x) = x ∷ []
arguments (drop_index_name x) = x ∷ []
arguments (ensure_index x) = x ∷ []
arguments (ensure_index_key x) = x ∷ []
arguments (find x) = x ∷ []
arguments (find_id x) = x ∷ []
arguments (insert_docs x) = x ∷ []
arguments (remove x) = x ∷ []
arguments (remove_id x) = x ∷ []
arguments (remove_all x) = x ∷ []
arguments (pipe x) = x ∷ []
arguments (with_session x) = x ∷ []
arguments (update x y) = x ∷ y ∷ []
arguments (update_id x y) = x ∷ y ∷ []
arguments (update_all x y) = x ∷ y ∷ []
arguments (upsert x y) = x ∷ y ∷ []
arguments (upsert_id x y) = x ∷ y ∷ []
arguments (new_iter x y z w) = x ∷ y ∷ z ∷ w ∷ []
arguments _ = []

-- A call of the method under its own name, with its own arguments.
abbrev pub own_call : CollectionMethod → MethodCall
own_call method = record { name = go_name method; args = arguments method }

pub method_call_lem : (method : CollectionMethod) → method_call method ≡ own_call method
unfolding method_call
method_call_lem count = refl
method_call_lem drop_collection = refl
method_call_lem indexes = refl
method_call_lem repair = refl
method_call_lem (create x) = refl
method_call_lem (drop_index x) = refl
method_call_lem (drop_index_name x) = refl
method_call_lem (ensure_index x) = refl
method_call_lem (ensure_index_key x) = refl
method_call_lem (find x) = refl
method_call_lem (find_id x) = refl
method_call_lem (insert_docs x) = refl
method_call_lem (remove x) = refl
method_call_lem (remove_id x) = refl
method_call_lem (remove_all x) = refl
method_call_lem (pipe x) = refl
method_call_lem (with_session x) = refl
method_call_lem (update x y) = refl
method_call_lem (update_id x y) = refl
method_call_lem (update_all x y) = refl
method_call_lem (upsert x y) = refl
method_call_lem (upsert_id x y) = refl
method_call_lem (new_iter x y z w) = refl
