-- ===== src/Redis/Client/Store.antt =====
-- The redis client against the map that the server keeps, and against the pool.
use onedb.Prelude.{
  ℕ, suc, [], ◌∷◌, ◌≡◌, refl, sym, ap, ◌∙◌, Bool, true, false, Option, none, some, List, Bytes,
  codes, text_eq, text_eq_refl, if◌then◌else◌,
}
use onedb.Go.Ints.{pos}
use onedb.Go.Outcome.{foreign, Outcome, ok, err, panic, out_of_fuel}
use onedb.Go.Types.{IntKind}
use onedb.Go.Values.{string_value, int_value}
use onedb.Redis.Client.{
  Redigo, run_do, get, get_struct, set_with_expire, expiring, del, unmarshalled, error_of, or_ok,
}

-- `redis.ErrNil`, for a key that is not there.
abbrev pub read : Option Bytes → Outcome Bytes
read none = err (foreign (codes "redigo: nil returned"))
read (some text) = ok text

-- What the operations change, for a map from keys to texts.
pub data StoreCall (A : Type 0) : Type 0 where
  sets : Bytes → A → ℕ → StoreCall A
  dels : Bytes → StoreCall A

either_way : {A : Type 0} (a : A) (b : Bool) → (if b then a else a) ≡ a
either_way a true = refl
either_way a false = refl

module _ {W N C Y : Type 0} (redigo : Redigo W N C Y) where
  -- The documented behaviour of a server that keeps a text under each key, as long as nothing expires:
  -- borrowing and giving back a connection change no key, `GET` replies with the text, `SETEX` with a
  -- positive number of seconds stores it, and `DEL` removes it.
  pub record IsStore (stored : W → Bytes → Option Bytes) : Type 0 where
    pub keeps_get : (w : W) (k : Bytes) → stored (redigo.pool_get w).0 k ≡ stored w k
    pub keeps_close : (w : W) (c : C) (k : Bytes) → stored (redigo.close_conn w c) k ≡ stored w k
    pub gets :
        (w : W) (c : C) (key : Bytes)
        → let (w', y, e) = redigo.do_command w c (codes "GET") (string_value key ∷ []) in
          (redigo.string_of y e ≡ read (stored w key)) × (redigo.bytes_of y e ≡ read (stored w key))
    pub sets :
        (w : W) (c : C) (key text : Bytes) (n : ℕ)
        → let (w', y, e) =
            redigo.do_command w c
              (codes "SETEX")
              (string_value key ∷ int_value IntKind.int (pos (suc n)) ∷ string_value text ∷ []) in
          (e ≡ none)
          × ((k : Bytes) → stored w' k ≡ (if text_eq key k then some text else stored w k))
    pub dels :
        (w : W) (c : C) (key : Bytes)
        → let (w', y, e) = redigo.do_command w c (codes "DEL") (string_value key ∷ []) in
          (e ≡ none) × ((k : Bytes) → stored w' k ≡ (if text_eq key k then none else stored w k))

  module _ {A : Type 0} (marshal : A → Outcome Bytes) where
    -- The operations in order, as the client runs them.
    abbrev pub run_store : W → List (StoreCall A) → W
    run_store w [] = w
    run_store w (sets key value n ∷ calls) =
        run_store (set_with_expire redigo marshal w key value (pos (suc n))).0 calls
    run_store w (dels key ∷ calls) = run_store (del redigo w key).0 calls

    -- What is under a key after them, if they started on `before`; a value without a text is not stored.
    abbrev pub updated : Bytes → Option Bytes → Outcome Bytes → Option Bytes
    updated k before (ok text) = some text
    updated k before _ = before

    abbrev pub map_after : Bytes → Option Bytes → List (StoreCall A) → Option Bytes
    map_after k before [] = before
    map_after k before (sets key value n ∷ calls) =
        map_after k (if text_eq key k then updated k before (marshal value) else before) calls
    map_after k before (dels key ∷ calls) =
        map_after k (if text_eq key k then none else before) calls

    module _ (stored : W → Bytes → Option Bytes) (store : IsStore stored) where
      set-stored :
          (w : W) (key : Bytes) (value : A) (n : ℕ) (k : Bytes)
          → stored (set_with_expire redigo marshal w key value (pos (suc n))).0 k
            ≡ (if text_eq key k then updated k (stored w k) (marshal value) else stored w k)
      unfolding set_with_expire expiring run_do
      set-stored w key value n k = encoded (marshal value)
        where
          encoded :
              (text : Outcome Bytes)
              → stored (expiring redigo w key (pos (suc n)) text).0 k
                ≡ (if text_eq key k then updated k (stored w k) text else stored w k)
          encoded (ok text) =
              store.keeps_close _ _ k
              ∙ (store.sets (redigo.pool_get w).0 (redigo.pool_get w).1 key text n).1 k
              ∙ ap (λ before. if text_eq key k then some text else before) (store.keeps_get w k)
          encoded (err e) = sym (either_way (stored w k) (text_eq key k))
          encoded panic = sym (either_way (stored w k) (text_eq key k))
          encoded out_of_fuel = sym (either_way (stored w k) (text_eq key k))

      del-stored :
          (w : W) (key k : Bytes)
          → stored (del redigo w key).0 k ≡ (if text_eq key k then none else stored w k)
      unfolding del run_do error_of
      del-stored w key k =
          store.keeps_close _ _ k
          ∙ (store.dels (redigo.pool_get w).0 (redigo.pool_get w).1 key).1 k
          ∙ ap (λ before. if text_eq key k then none else before) (store.keeps_get w k)

      run_store-map_after :
          (w : W) (calls : List (StoreCall A)) (k : Bytes)
          → stored (run_store w calls) k ≡ map_after k (stored w k) calls
      run_store-map_after w [] k = refl
      run_store-map_after w (sets key value n ∷ calls) k =
          run_store-map_after (set_with_expire redigo marshal w key value (pos (suc n))).0 calls k
          ∙ ap (λ before. map_after k before calls) (set-stored w key value n k)
      run_store-map_after w (dels key ∷ calls) k =
          run_store-map_after (del redigo w key).0 calls k
          ∙ ap (λ before. map_after k before calls) (del-stored w key k)

      get-read : (w : W) (key : Bytes) → (get redigo w key).1 ≡ read (stored w key)
      unfolding get run_do
      get-read w key =
          (store.gets (redigo.pool_get w).0 (redigo.pool_get w).1 key).0
          ∙ ap read (store.keeps_get w key)

      -- What `redis.Bytes` makes of the reply to `GET`.
      abbrev reply_bytes : W → Bytes → Outcome Bytes
      reply_bytes w key =
          let (w', y, e) =
            redigo.do_command (redigo.pool_get w).0 (redigo.pool_get w).1 (codes "GET")
              (string_value key ∷ []) in
          redigo.bytes_of y e

      -- On a server that keeps a text under each key, as long as nothing expires: after any
      -- `SetWithExpire` with a positive number of seconds and any `Del`, in any order, `Get`
      -- returns the text that a map holds under the key after the same changes, or the error for
      -- a missing key. A value that has no JSON changes nothing.
      pub get-map_after :
          (w : W) (calls : List (StoreCall A)) (key : Bytes)
          → (get redigo (run_store w calls) key).1 ≡ read (map_after key (stored w key) calls)
      get-map_after w calls key =
          get-read (run_store w calls) key ∙ ap read (run_store-map_after w calls key)

      -- On a server that keeps a text under each key, as long as nothing expires: `SetWithExpire`
      -- of a value that has a JSON, with a positive number of seconds, has no error, and a
      -- `GetStruct` of the key after it, where `json.Unmarshal` reads the value back from its
      -- JSON, stores the value without an error.
      pub get_struct-set :
          (unmarshal : Bytes → A → A × Outcome (Unit {0})) (w : W) (key : Bytes) (value result : A)
          (n : ℕ) {text : Bytes}
          → marshal value ≡ ok text
          → unmarshal text result ≡ (value, ok tt)
          → let (w', r) = set_with_expire redigo marshal w key value (pos (suc n)) in
            (r ≡ ok tt)
            × ((get_struct redigo unmarshal w' key result).1 ≡ value)
            × ((get_struct redigo unmarshal w' key result).2 ≡ ok tt)
      unfolding set_with_expire expiring run_do or_ok get_struct
      get_struct-set unmarshal w key value result n {text} encodes decodes =
          let w' = (set_with_expire redigo marshal w key value (pos (suc n))).0 in
          let kept : stored w' key ≡ some text =
            set-stored w key value n key ∙ rw (text_eq_refl key, encodes) refl in
          let found : unmarshalled redigo unmarshal result (reply_bytes w' key) ≡ (value, ok tt) =
            ap (unmarshalled redigo unmarshal result) (
              (store.gets (redigo.pool_get w').0 (redigo.pool_get w').1 key).1
              ∙ ap read (store.keeps_get w' key ∙ kept))
            ∙ decodes in
          (
            rw encodes (
                ap (or_ok redigo)
                  (store.sets (redigo.pool_get w).0 (redigo.pool_get w).1 key text n).0),
            ap (λ p. p.0) found,
            ap (λ p. p.1) found,
          )
