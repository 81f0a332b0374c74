-- ===== src/Mgo/Backend/Handles.antt =====
-- Which session of mgo the wrappers hold, after `Clone`, `Copy` and `New`.
use onedb.Prelude.{ℕ, zero, suc, [], ◌∷◌, ◌++◌, ◌≡◌, refl, Option, none, some, List, get_elem?, set}
use onedb.Mgo.Backend.{Heap, Ref, on_world, on_session, held_by, new_session, put_session}
use onedb.Mgo.Backend.Session.{Sessioner, msession}

get_elem?-append :
    {A : Type 0} (xs ys : List A) (i : ℕ) (x : A)
    → get_elem? xs i ≡ some x
    → get_elem? (xs ++ ys) i ≡ some x
get_elem?-append [] ys i x h = cc
get_elem?-append (y ∷ xs) ys zero x h = h
get_elem?-append (y ∷ xs) ys (suc i) x h = get_elem?-append xs ys i x h

get_elem?-set :
    {A : Type 0} (xs : List A) (i : ℕ) (x y : A)
    → get_elem? xs i ≡ some x
    → get_elem? (set xs i y) i ≡ some y
get_elem?-set [] i x y h = cc
get_elem?-set (z ∷ xs) zero x y h = refl
get_elem?-set (z ∷ xs) (suc i) x y h = get_elem?-set xs i x y h

-- A call that makes a wrapper.
pub data SessionCopy : Type 0 where
  clones copies : Ref → SessionCopy

module _ {W S D Q V : Type 0} (m : Sessioner W S D Q V) where
  unfoldable pub run_copy : Heap W S Q → SessionCopy → Heap W S Q
  unfolding msession
  run_copy h (clones s) = ((msession m).clone h s).0
  run_copy h (copies s) = ((msession m).copy h s).0

  unfoldable pub run_copies : Heap W S Q → List SessionCopy → Heap W S Q
  unfolding run_copy
  run_copies h [] = h
  run_copies h (call ∷ calls) = run_copies (run_copy h call) calls

  -- `s` wraps `x`.
  abbrev pub Wraps : Heap W S Q → Ref → S → Type 0
  Wraps h s x = get_elem? h.sessions s ≡ some x

  Wraps-held_by :
      (call : W → S → W × Option S) (o : Option S) (h : Heap W S Q) (r : Ref) (x : S)
      → Wraps h r x
      → Wraps (new_session (held_by call o h)).0 r x
  unfolding new_session held_by on_world
  Wraps-held_by call none h r x e = e
  Wraps-held_by call (some y) h r x e = returned (call h.world y)
    where
      returned : (o : W × Option S) → Wraps (new_session (record h { world = o.0 }, o.1)).0 r x
      returned (w, none) = e
      returned (w, some y') = get_elem?-append h.sessions (y' ∷ []) r x e

  Wraps-run_copies :
      (calls : List SessionCopy) (h : Heap W S Q) (r : Ref) (x : S)
      → Wraps h r x
      → Wraps (run_copies h calls) r x
  unfolding run_copies run_copy msession on_session
  Wraps-run_copies [] h r x e = e
  Wraps-run_copies (clones s ∷ calls) h r x e =
      Wraps-run_copies calls (run_copy h (clones s)) r x
        (Wraps-held_by m.clone (get_elem? h.sessions s) h r x e)
  Wraps-run_copies (copies s ∷ calls) h r x e =
      Wraps-run_copies calls (run_copy h (copies s)) r x
        (Wraps-held_by m.copy (get_elem? h.sessions s) h r x e)

  -- After any `Clone`s and `Copy`s of any wrappers of sessions, a wrapper holds the session that
  -- it held before. Where `New` of mgo then gives a session for it, `New` of the wrapper returns
  -- the same wrapper, which holds the new session in place of its own.
  pub session_handles :
      (calls : List SessionCopy) (h : Heap W S Q) (r : Ref) (x x' : S) (w : W)
      → Wraps h r x
      → m.new (run_copies h calls).world x ≡ (w, some x')
      → Wraps (run_copies h calls) r x
        × (((msession m).new (run_copies h calls) r).1 ≡ some r)
        × Wraps ((msession m).new (run_copies h calls) r).0 r x'
  unfolding msession on_session held_by on_world put_session
  session_handles calls h r x x' w e new =
      let kept = Wraps-run_copies calls h r x e in
      (
        kept,
        rw (kept, new) refl,
        rw (kept, new) (get_elem?-set (run_copies h calls).sessions r x x' kept),
      )
