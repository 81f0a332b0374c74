-- ===== src/Mgo/Backend/Laws.antt =====
-- What a client of the wrappers sees, against the same calls on mgo itself.
use onedb.Prelude.{
  [], ◌∷◌, ◌++◌, append-nil, ◌≡◌, refl, sym, ap, ◌∙◌, Option, none, some, List, length,
  get_elem?-append_self, set-append_self,
}
use onedb.Mgo.Backend.{Method, Heap, Ref, on_world, on_query, put_query, new_query}
use onedb.Mgo.Backend.Client.{
  QueryStep, batch, limit, set_max_scan, set_max_time, skip, comment, hint, sort, prefetch, select,
  log_replay, snapshot, QueryEnd, all, one, explain, distinct, apply, map_reduce, count, iter, tail,
  Reply, checked, counted, informed, iterator, Opening, find, find_id, and_then, open_query,
  query_step, query_steps, replied, query_end, fetch,
}
use onedb.Mgo.Backend.Collection.{CollectionMethods, collection_methods}
use onedb.Mgo.Backend.Query.{Querier, mquery}

module _ {W S Q I V : Type 0} (qm : Querier W Q I V) (ss : List S) (qs : List Q) where
  -- The heap whose last wrapper of a query holds `q`.
  abbrev heap : W → Q → Heap W S Q
  heap w q = record { world = w; sessions = ss; queries = qs ++ q ∷ [] }

  -- What the wrapper shows of a call on `q`.
  abbrev seen : Q → W × Option Q → Heap W S Q × Option Ref
  seen q (w, none) = (heap w q, none)
  seen q (w, some q') = (heap w q', some (length qs))

  on_query-last :
      {A : Type 0} (call : Method W Q A) (w : W) (q : Q)
      → on_query call (heap w q) (length qs) ≡ (heap (call w q).0 q, (call w q).1)
  unfolding on_query
  on_query-last call w q = rw (get_elem?-append_self qs q []) refl

  put_query-seen :
      (call : Method W Q Q) (w : W) (q : Q)
      → put_query (length qs) (on_query call (heap w q) (length qs)) ≡ seen q (call w q)
  unfolding put_query
  put_query-seen call w q = ap (put_query (length qs)) (on_query-last call w q) ∙ stored (call w q)
    where
      stored : (r : W × Option Q) → put_query (length qs) (heap r.0 q, r.1) ≡ seen q r
      stored (w', none) = refl
      stored (w', some q') =
          ap (λ l. (record (heap w' q) { queries = l }, some (length qs)))
            (set-append_self qs q q' [])

  query_step-seen :
      (s : QueryStep V) (w : W) (q : Q)
      → query_step (mquery {S = S} qm) s (heap w q) (length qs) ≡ seen q (query_step qm s w q)
  unfolding query_step mquery
  query_step-seen (batch n) w q = put_query-seen (qm.batch n) w q
  query_step-seen (limit n) w q = put_query-seen (qm.limit n) w q
  query_step-seen (set_max_scan n) w q = put_query-seen (qm.set_max_scan n) w q
  query_step-seen (set_max_time d) w q = put_query-seen (qm.set_max_time d) w q
  query_step-seen (skip n) w q = put_query-seen (qm.skip n) w q
  query_step-seen (comment c) w q = put_query-seen (qm.comment c) w q
  query_step-seen (hint index_key) w q = put_query-seen (qm.hint index_key) w q
  query_step-seen (sort fields) w q = put_query-seen (qm.sort fields) w q
  query_step-seen (prefetch p) w q = put_query-seen (qm.prefetch p) w q
  query_step-seen (select selector) w q = put_query-seen (qm.select selector) w q
  query_step-seen log_replay w q = put_query-seen qm.log_replay w q
  query_step-seen snapshot w q = put_query-seen qm.snapshot w q

  -- What goes on behind a call.
  followed :
      (rest : Method W Q Q) (wrapped : Method (Heap W S Q) Ref Ref)
      → ((w : W) (q : Q) → (q' : Q) × (wrapped (heap w q) (length qs) ≡ seen q' (rest w q)))
      → (q : Q) (r : W × Option Q)
      → (q' : Q) × (and_then (seen q r) wrapped ≡ seen q' (and_then r rest))
  unfolding and_then
  followed rest wrapped each q (w, none) = (q, refl)
  followed rest wrapped each q (w, some q') = each w q'

  query_steps-seen :
      (steps : List (QueryStep V)) (w : W) (q : Q)
      → (q' : Q) × (query_steps (mquery {S = S} qm) steps (heap w q) (length qs)
          ≡ seen q' (query_steps qm steps w q))
  unfolding query_steps
  query_steps-seen [] w q = (q, refl)
  query_steps-seen (s ∷ steps) w q =
      let rest = query_steps (mquery {S = S} qm) steps in
      let (q', e) =
        followed (query_steps qm steps) rest (query_steps-seen steps) q (query_step qm s w q) in
      (q', ap (λ r. and_then r rest) (query_step-seen s w q) ∙ e)

  -- A call on the wrapper that returns no query.
  call_seen :
      {A : Type 0} (reply : A → Reply I V) (call : Method W Q A) (w : W) (q : Q)
      → replied reply (on_query call (heap w q) (length qs))
        ≡ (heap (replied reply (call w q)).0 q, (replied reply (call w q)).1)
  unfolding replied
  call_seen {A = A} reply call w q = ap (replied reply) (on_query-last call w q) ∙ kept (call w q)
    where
      kept :
          (r : W × Option A)
          → replied reply (heap r.0 q, r.1) ≡ (heap (replied reply r).0 q, (replied reply r).1)
      kept (w', none) = refl
      kept (w', some a) = refl

  query_end-seen :
      (end : QueryEnd V) (w : W) (q : Q)
      → query_end (mquery {S = S} qm) end (heap w q) (length qs)
        ≡ (heap (query_end qm end w q).0 q, (query_end qm end w q).1)
  unfolding query_end mquery
  query_end-seen (all result) w q = call_seen checked (qm.all result) w q
  query_end-seen (one result) w q = call_seen checked (qm.one result) w q
  query_end-seen (explain result) w q = call_seen checked (qm.explain result) w q
  query_end-seen (distinct key result) w q = call_seen checked (qm.distinct key result) w q
  query_end-seen (apply change result) w q = call_seen informed (qm.apply change result) w q
  query_end-seen (map_reduce job result) w q = call_seen informed (qm.map_reduce job result) w q
  query_end-seen count w q = call_seen counted qm.count w q
  query_end-seen iter w q = call_seen iterator qm.iter w q
  query_end-seen (tail timeout) w q = call_seen iterator (qm.tail timeout) w q

module _ {W S C Q I V : Type 0} (cm : CollectionMethods W S C Q I V) (qm : Querier W Q I V) where
  -- The heap with more wrappers of queries.
  abbrev extended : Heap W S Q → W → List Q → Heap W S Q
  extended h w more = record { world = w; sessions = h.sessions; queries = h.queries ++ more }

  open_query-new_query :
      (o : Opening V) (h : Heap W S Q) (c : C)
      → open_query (collection_methods cm) o h c ≡ new_query (on_world (λ w. open_query cm o w c) h)
  unfolding open_query collection_methods
  open_query-new_query (find query) h c = refl
  open_query-new_query (find_id id) h c = refl

  -- What the client gets on the wrappers, for what it gets on mgo.
  abbrev Wrapped : Heap W S Q → Heap W S Q × Option (Reply I V) → W × Option (Reply I V) → Type 0
  Wrapped h got (w, reply) = (more : List Q) × (got ≡ (extended h w more, reply))

  query_end-Wrapped :
      (end : QueryEnd V) (h : Heap W S Q) (q : Q) (r : W × Option Q)
      → Wrapped h
          (and_then (seen qm h.sessions h.queries q r) (query_end (mquery {S = S} qm) end))
          (and_then r (query_end qm end))
  unfolding and_then
  query_end-Wrapped end h q (w, none) = (q ∷ [], refl)
  query_end-Wrapped end h q (w, some q') =
      (q' ∷ [], query_end-seen qm h.sessions h.queries end w q')

  query_steps-Wrapped :
      (steps : List (QueryStep V)) (end : QueryEnd V) (h : Heap W S Q) (w : W) (q : Q)
      → Wrapped h
          (and_then
            (query_steps (mquery {S = S} qm) steps (extended h w (q ∷ [])) (length h.queries))
            (query_end (mquery {S = S} qm) end))
          (and_then (query_steps qm steps w q) (query_end qm end))
  unfolding and_then
  query_steps-Wrapped steps end h w q =
      let (q', e) = query_steps-seen qm h.sessions h.queries steps w q in
      let (more, f) = query_end-Wrapped end h q' (query_steps qm steps w q) in
      (more, ap (λ r. and_then r (query_end (mquery {S = S} qm) end)) e ∙ f)

  open_query-Wrapped :
      (steps : List (QueryStep V)) (end : QueryEnd V) (h : Heap W S Q) (r : W × Option Q)
      → Wrapped h
          (and_then (new_query (record h { world = r.0 }, r.1)) (λ h' q.
            and_then
              (query_steps (mquery {S = S} qm) steps h' q)
              (query_end (mquery {S = S} qm) end)))
          (and_then r (λ w q. and_then (query_steps qm steps w q) (query_end qm end)))
  unfolding and_then new_query
  open_query-Wrapped steps end h (w, none) =
      ([], ap (λ l. (record h { world = w; queries = l }, none)) (sym (append-nil h.queries)))
  open_query-Wrapped steps end h (w, some q) = query_steps-Wrapped steps end h w q

  -- A client that opens a query with `Find` or `FindId`, calls any chain of methods that return
  -- the query, and ends it: on the wrappers it gets exactly what it gets on mgo itself, a panic
  -- included, mgo is left in the same state, and every wrapper that was there holds what it held.
  pub fetch-wrapped :
      (o : Opening V) (steps : List (QueryStep V)) (end : QueryEnd V) (h : Heap W S Q) (c : C)
      → (more : List Q) × (fetch (collection_methods cm) (mquery {S = S} qm) o steps end h c ≡ (
        record {
          world = (fetch cm qm o steps end h.world c).0;
          sessions = h.sessions;
          queries = h.queries ++ more;
        },
        (fetch cm qm o steps end h.world c).1,
      ))
  unfolding fetch on_world
  fetch-wrapped o steps end h c =
      let (more, e) = open_query-Wrapped steps end h (open_query cm o h.world c) in
      (
        more,
        ap
              (λ r. and_then r (λ h' q.
                and_then (query_steps (mquery {S = S} qm) steps h' q)
                  (query_end (mquery {S = S} qm) end)))
              (open_query-new_query o h c)
            ∙ e,
      )
