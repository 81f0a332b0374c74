-- ===== src/Redis/Client/Pool.antt =====
-- The connections that the redis client has taken out of its pool.
use onedb.Prelude.{ℕ, suc, ◌-◌, [], ◌∷◌, ◌≡◌, refl, ◌∙◌, List, Bytes, codes, arith}
use onedb.Go.Ints.{ℤ}
use onedb.Go.Outcome.{Outcome, ok, err, panic, out_of_fuel}
use onedb.Go.Types.{IntKind}
use onedb.Go.Values.{Value, string_value, int_value}
use onedb.Redis.Client.{Redigo, run_do, get, get_struct, set_with_expire, expiring, del, error_of}

-- The operations of the client, on values of one type.
pub data ClientCall (A : Type 0) : Type 0 where
  does : Bytes → List Value → ClientCall A
  gets : Bytes → ClientCall A
  gets_struct : Bytes → A → ClientCall A
  sets : Bytes → A → ℤ → ClientCall A
  dels : Bytes → ClientCall A

module _ {W N C Y : Type 0} (redigo : Redigo W N C Y) where
  -- The documented behaviour of a pool that counts the connections taken out of it: `Get` takes one, a
  -- command none, and `Close` gives one back.
  pub record IsCounted (borrowed : W → ℕ) : Type 0 where
    pub borrows : (w : W) → borrowed (redigo.pool_get w).0 ≡ suc (borrowed w)
    pub runs :
        (w : W) (c : C) (command : Bytes) (args : List Value)
        → borrowed (redigo.do_command w c command args).0 ≡ borrowed w
    pub gives_back : (w : W) (c : C) → borrowed (redigo.close_conn w c) ≡ borrowed w - 1

  module _ {A : Type 0} (marshal : A → Outcome Bytes)
      (unmarshal : Bytes → A → A × Outcome (Unit {0})) where
    abbrev pub run_call : W → ClientCall A → W
    run_call w (does command args) = (run_do redigo w command args).0
    run_call w (gets key) = (get redigo w key).0
    run_call w (gets_struct key result) = (get_struct redigo unmarshal w key result).0
    run_call w (sets key value expire_seconds) =
        (set_with_expire redigo marshal w key value expire_seconds).0
    run_call w (dels key) = (del redigo w key).0

    abbrev pub run_client : W → List (ClientCall A) → W
    run_client w [] = w
    run_client w (call ∷ calls) = run_client (run_call w call) calls

    module _ (borrowed : W → ℕ) (counted : IsCounted borrowed) where
      run_do-borrowed :
          (w : W) (command : Bytes) (args : List Value)
          → borrowed (run_do redigo w command args).0 ≡ borrowed w
      unfolding run_do
      run_do-borrowed w command args =
          let (w1, c) = redigo.pool_get w in
          omega (
            arith,
            counted.gives_back (redigo.do_command w1 c command args).0 c,
            counted.runs w1 c command args,
            counted.borrows w,
          )

      expiring-borrowed :
          (w : W) (key : Bytes) (expire_seconds : ℤ) (text : Outcome Bytes)
          → borrowed (expiring redigo w key expire_seconds text).0 ≡ borrowed w
      unfolding expiring
      expiring-borrowed w key expire_seconds (ok text) =
          run_do-borrowed w (codes "SETEX")
            (string_value key ∷ int_value IntKind.int expire_seconds ∷ string_value text ∷ [])
      expiring-borrowed w key expire_seconds (err e) = refl
      expiring-borrowed w key expire_seconds panic = refl
      expiring-borrowed w key expire_seconds out_of_fuel = refl

      run_call-borrowed : (w : W) (call : ClientCall A) → borrowed (run_call w call) ≡ borrowed w
      unfolding get get_struct set_with_expire del error_of
      run_call-borrowed w (does command args) = run_do-borrowed w command args
      run_call-borrowed w (gets key) = run_do-borrowed w (codes "GET") (string_value key ∷ [])
      run_call-borrowed w (gets_struct key result) =
          run_do-borrowed w (codes "GET") (string_value key ∷ [])
      run_call-borrowed w (sets key value expire_seconds) =
          expiring-borrowed w key expire_seconds (marshal value)
      run_call-borrowed w (dels key) = run_do-borrowed w (codes "DEL") (string_value key ∷ [])

      -- On a pool that counts the connections taken out of it: any sequence of `Do`, `Get`,
      -- `GetStruct`, `SetWithExpire` and `Del`, whether they succeed or fail, leaves as many
      -- connections taken as before.
      pub run_client-borrowed :
          (w : W) (calls : List (ClientCall A)) → borrowed (run_client w calls) ≡ borrowed w
      run_client-borrowed w [] = refl
      run_client-borrowed w (call ∷ calls) =
          run_client-borrowed (run_call w call) calls ∙ run_call-borrowed w call
