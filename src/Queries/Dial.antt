-- ===== src/Queries/Dial.antt =====
-- `DialTCP` and `NewMockDialer` of onedb.go.
use onedb.Prelude.{ℕ, ◌*◌, ◌≡◌, refl, Bool, true, Option, none, some, Bytes}
use onedb.Go.Outcome.{Error}

-- A connection, or the error of the attempt.
pub data Dialed (N : Type 0) : Type 0 where
  dialed : N → Dialed N
  refused : Error → Dialed N

-- What the code uses of the package net, for a world `W`, addresses `A` and connections `N`; the period is
-- in nanoseconds.
pub record Net (W A N : Type 0) : Type 0 where
  pub resolve_tcp_addr : W → Bytes → Bytes → W × Dialed A
  pub dial : W → Bytes → A → W × Dialed N
  pub set_keep_alive : W → N → Bool → W × Option Error
  pub set_keep_alive_period : W → N → ℕ → W × Option Error

abbrev pub minute : ℕ
minute = 60000000000

module _ {W A N : Type 0} (net : Net W A N) where
  last_step : N → W × Option Error → W × Dialed N
  last_step tc (w, none) = (w, dialed tc)
  last_step tc (w, some e) = (w, refused e)

  kept_alive : N → W × Option Error → W × Dialed N
  unfolding last_step
  kept_alive tc (w, none) = last_step tc (net.set_keep_alive_period w tc (2 * minute))
  kept_alive tc (w, some e) = (w, refused e)

  connected : W × Dialed N → W × Dialed N
  unfolding kept_alive
  connected (w, dialed tc) = kept_alive tc (net.set_keep_alive w tc true)
  connected (w, refused e) = (w, refused e)

  resolved : Bytes → W × Dialed A → W × Dialed N
  unfolding connected
  resolved network (w, dialed addr) = connected (net.dial w network addr)
  resolved network (w, refused e) = (w, refused e)

  unfoldable pub dial_tcp : W → Bytes → Bytes → W × Dialed N
  unfolding resolved
  dial_tcp w network addr = resolved network (net.resolve_tcp_addr w network addr)

  -- Where a step behind `net.DialTCP` fails, the error is all that comes back of the connection.
  dial_tcp-not_kept :
      {w w1 w2 w3 : W} (network addr : Bytes) {a : A} {tc : N} {e : Error}
      → net.resolve_tcp_addr w network addr ≡ (w1, dialed a)
      → net.dial w1 network a ≡ (w2, dialed tc)
      → net.set_keep_alive w2 tc true ≡ (w3, some e)
      → dial_tcp w network addr ≡ (w3, refused e)
  unfolding dial_tcp resolved connected kept_alive
  dial_tcp-not_kept network addr resolves dials fails = rw (resolves, dials, fails) refl

-- `NewMockDialer(err)`, for an error.
unfoldable pub mock_dial : {W N : Type 0} → Error → W → Bytes → Bytes → W × Dialed N
mock_dial e w network addr = (w, refused e)
