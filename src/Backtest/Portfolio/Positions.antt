-- ===== src/Backtest/Portfolio/Positions.antt =====
-- The lists of open positions under opening and closing: conflicts, and how many there are.
use Prim.Native.String.{String}
use text.Mathlib.TextEquality.{eq_iff}
use ai_trading_backend.Common.{ℕ, suc, ◌≤◌, ◌≡◌, false, List, [], ◌∷◌, All, length, arith}
use ai_trading_backend.Floats.{Floats}
use ai_trading_backend.Backtest.Direction.{Direction}
use ai_trading_backend.Backtest.Account.{
  OpenPosition, Account, put_position, pop_position, record_dd, realize_exits_until,
}
use ai_trading_backend.Backtest.Account.Drain.{realize_until-keeps}
use ai_trading_backend.Backtest.Candidates.{Candidate, clash}
use ai_trading_backend.Backtest.Portfolio.{conflicts, at_entry}

clash_symm : (s s' : String) (d d' : Direction) → clash s d s' d' ≡ clash s' d' s d
unfolding clash
clash_symm s s' d d' = ground (arith, eq_iff s s', eq_iff s' s)

module _ (fl : Floats) where
  -- No position is against one of the list.
  abbrev pub Apart : OpenPosition fl → List (OpenPosition fl) → Type 0
  Apart p positions =
      All (λ (q : OpenPosition fl). clash q.symbol q.direction p.symbol p.direction ≡ false)
        positions

  -- No two open positions on one symbol go in different directions.
  abbrev pub NoConflict : List (OpenPosition fl) → Type 0
  NoConflict [] = Unit
  NoConflict (p ∷ positions) = Apart p positions × NoConflict positions

  pub conflicts-Apart :
      (r : Candidate fl) (p : OpenPosition fl) (positions : List (OpenPosition fl))
      → p.symbol ≡ r.symbol
      → p.direction ≡ r.direction
      → conflicts fl r positions ≡ false
      → Apart p positions
  unfolding conflicts
  conflicts-Apart r p [] s d h = tt
  conflicts-Apart r p (q ∷ positions) s d h = ground (arith, conflicts-Apart r p positions s d)

  pop_position-Apart :
      (p : OpenPosition fl) (sid : ℕ) (positions : List (OpenPosition fl))
      → Apart p positions
      → Apart p (pop_position fl sid positions)
  unfolding pop_position
  pop_position-Apart p sid [] h = tt
  pop_position-Apart p sid (q ∷ positions) h =
      ground (arith, pop_position-Apart p sid positions h.1)

  pub pop_position-NoConflict :
      (sid : ℕ) (positions : List (OpenPosition fl))
      → NoConflict positions
      → NoConflict (pop_position fl sid positions)
  unfolding pop_position
  pop_position-NoConflict sid [] h = tt
  pop_position-NoConflict sid (q ∷ positions) h =
      ground
        (arith, pop_position-Apart q sid positions h.0, pop_position-NoConflict sid positions h.1)

  put_position-Apart :
      (q p : OpenPosition fl) (positions : List (OpenPosition fl))
      → clash p.symbol p.direction q.symbol q.direction ≡ false
      → Apart q positions
      → Apart q (put_position fl p positions)
  unfolding put_position
  put_position-Apart q p [] c h = (c, tt)
  put_position-Apart q p (o ∷ positions) c h =
      ground (arith, put_position-Apart q p positions c h.1)

  pub put_position-NoConflict :
      (p : OpenPosition fl) (positions : List (OpenPosition fl))
      → Apart p positions
      → NoConflict positions
      → NoConflict (put_position fl p positions)
  unfolding put_position
  put_position-NoConflict p [] a h = (tt, tt)
  put_position-NoConflict p (q ∷ positions) a h = ground (
    arith,
    clash_symm q.symbol p.symbol q.direction p.direction,
    put_position-Apart q p positions,
    put_position-NoConflict p positions a.1 h.1,
  )

  length-pop_position :
      (sid : ℕ) (positions : List (OpenPosition fl))
      → length (pop_position fl sid positions) ≤ length positions
  unfolding pop_position
  length-pop_position sid [] = omega arith
  length-pop_position sid (p ∷ positions) = ground (arith, length-pop_position sid positions)

  pub length-put_position :
      (p : OpenPosition fl) (positions : List (OpenPosition fl))
      → length (put_position fl p positions) ≤ suc (length positions)
  unfolding put_position
  length-put_position p [] = omega arith
  length-put_position p (q ∷ positions) = ground (arith, length-put_position p positions)

  pub at_entry-open_positions :
      (r : Candidate fl) (a : Account fl)
      → ((at_entry fl r a).open_positions ≡ (realize_exits_until fl r.entry_time a).open_positions)
        × ((at_entry fl r a).exit_heap ≡ (realize_exits_until fl r.entry_time a).exit_heap)
  unfolding at_entry record_dd
  at_entry-open_positions r a = ground arith

  at_entry-keeps {κ} :
      (P : List (OpenPosition fl) → Type κ)
      → ((sid : ℕ) (positions : List (OpenPosition fl))
          → P positions
          → P (pop_position fl sid positions))
      → (r : Candidate fl) (a : Account fl) → P a.open_positions
      → P (at_entry fl r a).open_positions
  unfolding realize_exits_until
  at_entry-keeps P closed r a h =
      rw ((at_entry-open_positions r a).0)
        (realize_until-keeps fl P closed r.entry_time a.exit_heap a h)

  pub at_entry-NoConflict :
      (r : Candidate fl) (a : Account fl)
      → NoConflict a.open_positions
      → NoConflict (at_entry fl r a).open_positions
  at_entry-NoConflict r a h = at_entry-keeps NoConflict pop_position-NoConflict r a h

  pub at_entry-length :
      (n : ℕ) (r : Candidate fl) (a : Account fl)
      → length a.open_positions ≤ n
      → length (at_entry fl r a).open_positions ≤ n
  at_entry-length n r a h =
      at_entry-keeps (λ positions. length positions ≤ n)
        (λ sid positions le. omega (arith, length-pop_position sid positions, le)) r a h
