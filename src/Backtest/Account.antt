-- ===== src/Backtest/Account.antt =====
-- simulation/portfolio.py: the open positions of one account, their floating profit, and the exits
-- that are realised as time goes on. Times are minutes. A dict keyed by strategy is a list in the
-- order of insertion, and the heap of exits is a list in the order of time and of sequence.
pub mod Drain
use Prim.Native.String.{String}
use ai_trading_backend.Common.{
  ℕ, zero, suc, not, Option, none, some, List, [], ◌∷◌, ◌++◌, get_elem?, keep, max, leb, ◌==◌,
  if◌then◌else◌,
}
use ai_trading_backend.Floats.{Floats, zero_float, max_float}
use ai_trading_backend.Backtest.Direction.{Direction}
use ai_trading_backend.Backtest.Fills.{calculate_pnl}

-- An entry of the heap: the exit's time, its sequence number and its strategy.
abbrev pub HeapEntry : Type 0
HeapEntry = ℕ × ℕ × ℕ

-- `heapq.heappush` of an entry whose sequence number is the largest so far.
unfoldable pub heappush : HeapEntry → List HeapEntry → List HeapEntry
heappush new [] = new ∷ []
heappush (t, seq, sid) ((t', seq', sid') ∷ heap) =
    if leb t' t
    then (t', seq', sid') ∷ heappush (t, seq, sid) heap
    else (t, seq, sid) ∷ (t', seq', sid') ∷ heap

-- `bisect.bisect_right` of a sorted list
unfoldable pub bisect_right : List ℕ → ℕ → ℕ
bisect_right [] t = 0
bisect_right (x ∷ xs) t = if leb x t then suc (bisect_right xs t) else 0

-- `max(e[0] for e in exit_heap)`
unfoldable pub last_exit : List HeapEntry → ℕ
last_exit [] = 0
last_exit ((t, _, _) ∷ heap) = max t (last_exit heap)

module _ (fl : Floats) where
  open fl use {F, lit, add, sub, mul, div, lt}

  pub record OpenPosition : Type 0 where
    pub strategy_id : ℕ
    pub symbol : String
    pub direction : Direction
    pub entry_time : ℕ
    pub exit_time : ℕ
    pub entry_price : F
    pub lot : F
    pub risk_amount : F
    pub net_pnl : F
    pub tick_size : F
    pub tick_value : F
    pub times : List ℕ
    pub prices : List F

  -- The last mark at or before a count of marks; without one, the entry price.
  mark_before : OpenPosition → ℕ → F
  mark_before p zero = p.entry_price
  mark_before p (suc i) = elim (get_elem? p.prices i) [ none ↦ p.entry_price | some v ↦ v ]

  unfoldable pub floating_pnl : OpenPosition → ℕ → F
  unfolding mark_before
  floating_pnl p t =
      calculate_pnl fl p.entry_price (mark_before p (bisect_right p.times t)) p.lot p.direction
        p.tick_size p.tick_value

  sum_from : F → List OpenPosition → (OpenPosition → F) → F
  sum_from acc [] f = acc
  sum_from acc (p ∷ positions) f = sum_from (add acc (f p)) positions f

  -- `sum(f(p) for p in positions.values())`
  unfoldable pub sum_of : List OpenPosition → (OpenPosition → F) → F
  unfolding sum_from
  sum_of positions f = sum_from (zero_float fl) positions f

  unfoldable pub equity : F → List OpenPosition → ℕ → F
  equity balance positions t = add balance (sum_of positions (λ p. floating_pnl p t))

  -- `d[sid] = pos`
  unfoldable pub put_position : OpenPosition → List OpenPosition → List OpenPosition
  put_position p [] = p ∷ []
  put_position p (q ∷ positions) =
      if q.strategy_id == p.strategy_id then p ∷ positions else q ∷ put_position p positions

  -- The position that `d.pop(sid, None)` returns, and what it leaves.
  unfoldable pub find_position : ℕ → List OpenPosition → Option OpenPosition
  find_position sid [] = none
  find_position sid (p ∷ positions) =
      if p.strategy_id == sid then some p else find_position sid positions

  unfoldable pub pop_position : ℕ → List OpenPosition → List OpenPosition
  pop_position sid positions = keep (λ p. not (p.strategy_id == sid)) positions

  -- The variables that `realize_exits_until` and `_record_dd` change.
  pub record Account : Type 0 where
    pub balance : F
    pub peak_equity : F
    pub open_positions : List OpenPosition
    pub exit_heap : List HeapEntry
    pub equity_curve : List (Option ℕ × F × F)
    pub max_dd_pct : F
    pub max_dd_abs : F

  unfoldable pub record_dd : F → Account → Account
  record_dd eq a =
      let dd_abs = sub a.peak_equity eq in
      let dd_pct = mul (div dd_abs a.peak_equity) (lit 100 0) in
      if lt (zero_float fl) a.peak_equity
      then record a {
        max_dd_pct = if lt a.max_dd_pct dd_pct then dd_pct else a.max_dd_pct;
        max_dd_abs = if lt a.max_dd_abs dd_abs then dd_abs else a.max_dd_abs;
      }
      else a

  -- The end of one position: its profit goes to the balance, and the new equity is on record.
  unfoldable pub realize : OpenPosition → Account → Account
  realize p a =
      let balance = add a.balance p.net_pnl in
      let eq = equity balance a.open_positions p.exit_time in
      let b =
        record_dd eq
          (record a { balance = balance; peak_equity = max_float fl a.peak_equity eq }) in
      record b { equity_curve = b.equity_curve ++ (some p.exit_time, eq, balance) ∷ [] }

  -- The body of the loop for the strategy that has been popped.
  unfoldable pub realize_one : ℕ → Account → Account
  realize_one sid a =
      let rest = record a { open_positions = pop_position sid a.open_positions } in
      elim (find_position sid a.open_positions) [ none ↦ rest | some p ↦ realize p rest ]

  -- `realize_exits_until`, over the heap; what is left of it is put back.
  unfoldable pub realize_until : ℕ → List HeapEntry → Account → Account
  realize_until t [] a = record a { exit_heap = [] }
  realize_until t ((exit_t, seq, sid) ∷ heap) a =
      let rest = realize_until t heap (realize_one sid a) in
      if leb exit_t t then rest else record a { exit_heap = (exit_t, seq, sid) ∷ heap }

  unfoldable pub realize_exits_until : ℕ → Account → Account
  realize_exits_until t a = realize_until t a.exit_heap a

  -- The drain at the end of the walk.
  unfoldable pub drain : Account → Account
  drain a = realize_exits_until (last_exit a.exit_heap) a
