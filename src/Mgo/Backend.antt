-- ===== src/Mgo/Backend.antt =====
-- The wrappers of mgo/backend.go around the package mgo. A `*msession` and an `*mquery` are assigned to
-- after they are made, so each is a reference to a cell that holds what it wraps; an `*mdatabase` and
-- an `*mcollection` never are, so each is what it wraps.
pub mod Session
pub mod Collection
pub mod Query
pub mod Client
pub mod Handles
pub mod Laws
use onedb.Prelude.{
  ◌⊎◌, inl, inr, ℕ, ◌∷◌, [], ◌++◌, Option, none, some, List, Bytes, length, get_elem?, set,
}
use onedb.Go.Outcome.{Error}

-- A method on an `X` in a world `W`: the world after the call and what it returns, or `none` if it
-- panics.
abbrev pub Method : Type 0 → Type 0 → Type 0 → Type 0
Method W X A = W → X → W × Option A

-- A result and an error as Go returns them, side by side.
abbrev pub Checked : Type 0 → Type 0
Checked A = A × Option Error

-- The objects of mgo and its servers are the world; `S` and `Q` are `*mgo.Session` and `*mgo.Query`.
pub record Heap (W S Q : Type 0) : Type 0 where
  pub world : W
  pub sessions : List S
  pub queries : List Q

-- A pointer to a wrapper.
abbrev pub Ref : Type 0
Ref = ℕ

module _ {W S Q : Type 0} where
  module _ {A : Type 0} where
    unfoldable pub on_world : (W → W × Option A) → Heap W S Q → Heap W S Q × Option A
    on_world call h = let (w, a) = call h.world in (record h { world = w }, a)

    -- Call a method of what the cell holds.
    unfoldable pub held_by :
        {X : Type 0} → Method W X A → Option X → Heap W S Q → Heap W S Q × Option A
    unfolding on_world
    held_by call none h = (h, none)
    held_by call (some x) h = on_world (λ w. call w x) h

    unfoldable pub on_session : Method W S A → Method (Heap W S Q) Ref A
    unfolding held_by
    on_session call h s = held_by call (get_elem? h.sessions s) h

    unfoldable pub on_query : Method W Q A → Method (Heap W S Q) Ref A
    unfolding held_by
    on_query call h q = held_by call (get_elem? h.queries q) h

  -- `&msession{x}`
  unfoldable pub new_session : Heap W S Q × Option S → Heap W S Q × Option Ref
  new_session (h, none) = (h, none)
  new_session (h, some x) = (record h { sessions = h.sessions ++ x ∷ [] }, some (length h.sessions))

  -- `&mquery{x}`
  unfoldable pub new_query : Heap W S Q × Option Q → Heap W S Q × Option Ref
  new_query (h, none) = (h, none)
  new_query (h, some x) = (record h { queries = h.queries ++ x ∷ [] }, some (length h.queries))

  -- `s.s = x` and `return s`
  unfoldable pub put_session : Ref → Heap W S Q × Option S → Heap W S Q × Option Ref
  put_session s (h, none) = (h, none)
  put_session s (h, some x) = (record h { sessions = set h.sessions s x }, some s)

  -- `q.q = x` and `return q`
  unfoldable pub put_query : Ref → Heap W S Q × Option Q → Heap W S Q × Option Ref
  put_query q (h, none) = (h, none)
  put_query q (h, some x) = (record h { queries = set h.queries q x }, some q)

  dialed : Heap W S Q → W × (S ⊎ Error) → Heap W S Q × (Ref ⊎ Error)
  dialed h (w, inr e) = (record h { world = w }, inr e)
  dialed h (w, inl x) =
      (record h { world = w; sessions = h.sessions ++ x ∷ [] }, inl (length h.sessions))

  -- `Dial`, for the `Dial` of mgo, which returns a session or an error.
  unfoldable pub dial :
      (W → Bytes → W × (S ⊎ Error)) → Heap W S Q → Bytes → Heap W S Q × (Ref ⊎ Error)
  unfolding dialed
  dial mgo_dial h url = dialed h (mgo_dial h.world url)
