-- ===== src/Backtest/Account/Drain.antt =====
-- Draining the heap closes every position.
use ai_trading_backend.Common.{
  ℕ, ◌≤◌, ◌≡◌, refl, ◌⊎◌, inl, inr, List, [], ◌∷◌, All, leb, arith, Bool-cases, if-both,
  Option-cases, le→leb,
}
use ai_trading_backend.Floats.{Floats}
use ai_trading_backend.Backtest.Account.{
  HeapEntry, heappush, last_exit, OpenPosition, Account, put_position, find_position, pop_position,
  record_dd, realize, realize_one, realize_until, realize_exits_until, drain,
}

-- The strategy has an exit in the heap.
abbrev pub Scheduled : ℕ → List HeapEntry → Type 0
Scheduled sid [] = ⊥
Scheduled sid ((_, _, sid') ∷ heap) = (sid ≡ sid') ⊎ Scheduled sid heap

abbrev pub AllBefore : ℕ → List HeapEntry → Type 0
AllBefore t heap = All (λ (e : HeapEntry). e.0 ≤ t) heap

AllBefore-mono : (t u : ℕ) (heap : List HeapEntry) → t ≤ u → AllBefore t heap → AllBefore u heap
AllBefore-mono t u [] le h = tt
AllBefore-mono t u (e ∷ heap) le h = (omega (arith, h.0), AllBefore-mono t u heap le h.1)

last_exit-AllBefore : (heap : List HeapEntry) → AllBefore (last_exit heap) heap
unfolding last_exit
last_exit-AllBefore [] = tt
last_exit-AllBefore ((t, seq, sid) ∷ heap) =
    (omega arith, AllBefore-mono (last_exit heap) _ heap (omega arith) (last_exit-AllBefore heap))

pub heappush-Scheduled :
    (sid t seq s : ℕ) (heap : List HeapEntry)
    → (sid ≡ s) ⊎ Scheduled sid heap
    → Scheduled sid (heappush (t, seq, s) heap)
unfolding heappush
heappush-Scheduled sid t seq s [] h = h
heappush-Scheduled sid t seq s ((t', seq', s') ∷ heap) h =
    ground (arith, heappush-Scheduled sid t seq s heap)

module _ (fl : Floats) where
  -- Every open position has its exit in the heap.
  abbrev pub Covered : List HeapEntry → List (OpenPosition fl) → Type 0
  Covered heap positions = All (λ (p : OpenPosition fl). Scheduled p.strategy_id heap) positions

  realize-open_positions :
      (p : OpenPosition fl) (a : Account fl) → (realize fl p a).open_positions ≡ a.open_positions
  unfolding realize record_dd
  realize-open_positions p a = ground arith

  pub realize_one-open_positions :
      (sid : ℕ) (a : Account fl)
      → (realize_one fl sid a).open_positions ≡ pop_position fl sid a.open_positions
  unfolding realize_one
  realize_one-open_positions sid a = elim (Option-cases (find_position fl sid a.open_positions)) [
    | inl e ↦ rw (e, realize_one)
    | inr (p, e) ↦ rw (e, realize_one) (realize-open_positions p _)
  ]

  -- What every removal of a position keeps, realising exits keeps.
  pub realize_until-keeps {κ} :
      (P : List (OpenPosition fl) → Type κ)
      → ((sid : ℕ) (positions : List (OpenPosition fl))
          → P positions
          → P (pop_position fl sid positions))
      → (t : ℕ) (heap : List HeapEntry) (a : Account fl) → P a.open_positions
      → P (realize_until fl t heap a).open_positions
  unfolding realize_until
  realize_until-keeps P closed t [] a h = h
  realize_until-keeps P closed t ((exit_t, seq, sid) ∷ heap) a h =
      if-both (λ (b : Account fl). P b.open_positions) (leb exit_t t)
        (realize_until-keeps P closed t heap (realize_one fl sid a)
          (rw (realize_one-open_positions sid a) (closed sid a.open_positions h)))
        h

  pop_position-Covered :
      (t seq sid : ℕ) (heap : List HeapEntry) (positions : List (OpenPosition fl))
      → Covered ((t, seq, sid) ∷ heap) positions
      → Covered heap (pop_position fl sid positions)
  unfolding pop_position
  pop_position-Covered t seq sid heap [] h = tt
  pop_position-Covered t seq sid heap (p ∷ positions) h =
      ground (arith, pop_position-Covered t seq sid heap positions h.1)

  popped-Covered :
      (t seq sid : ℕ) (heap : List HeapEntry) (a : Account fl)
      → Covered ((t, seq, sid) ∷ heap) a.open_positions
      → Covered heap (realize_one fl sid a).open_positions
  popped-Covered t seq sid heap a h =
      rw (realize_one-open_positions sid a) (pop_position-Covered t seq sid heap a.open_positions h)

  realize_until-Covered :
      (t : ℕ) (heap : List HeapEntry) (a : Account fl)
      → Covered heap a.open_positions
      → Covered (realize_until fl t heap a).exit_heap (realize_until fl t heap a).open_positions
  unfolding realize_until
  realize_until-Covered t [] a h = h
  realize_until-Covered t ((exit_t, seq, sid) ∷ heap) a h = elim (Bool-cases (leb exit_t t)) [
    | inl due ↦ rw due (
        realize_until-Covered t heap (realize_one fl sid a)
          (popped-Covered exit_t seq sid heap a h))
    | inr later ↦ rw later h
  ]

  -- Realising exits keeps every open position scheduled.
  pub realize_exits_until-Covered :
      (t : ℕ) (a : Account fl)
      → Covered a.exit_heap a.open_positions
      → Covered (realize_exits_until fl t a).exit_heap (realize_exits_until fl t a).open_positions
  unfolding realize_exits_until
  realize_exits_until-Covered t a h = realize_until-Covered t a.exit_heap a h

  Covered-nil : (positions : List (OpenPosition fl)) → Covered [] positions → positions ≡ []
  Covered-nil [] h = refl
  Covered-nil (p ∷ positions) h = absurd (h.0)

  realize_until-all :
      (t : ℕ) (heap : List HeapEntry) (a : Account fl)
      → AllBefore t heap
      → Covered heap a.open_positions
      → ((realize_until fl t heap a).exit_heap ≡ [])
        × ((realize_until fl t heap a).open_positions ≡ [])
  unfolding realize_until
  realize_until-all t [] a before h = (refl, Covered-nil a.open_positions h)
  realize_until-all t ((exit_t, seq, sid) ∷ heap) a before h = rw (le→leb exit_t t before.0) (
      realize_until-all t heap (realize_one fl sid a) before.1
        (popped-Covered exit_t seq sid heap a h))

  -- Where every open position has its exit in the heap, the drain at the end of the walk leaves no
  -- position open and no exit due.
  pub drain-empty :
      (a : Account fl)
      → Covered a.exit_heap a.open_positions
      → ((drain fl a).exit_heap ≡ []) × ((drain fl a).open_positions ≡ [])
  unfolding drain realize_exits_until
  drain-empty a h =
      realize_until-all (last_exit a.exit_heap) a.exit_heap a (last_exit-AllBefore a.exit_heap) h

  put_position-Covered :
      (heap : List HeapEntry) (p : OpenPosition fl) (positions : List (OpenPosition fl))
      → Scheduled p.strategy_id heap
      → Covered heap positions
      → Covered heap (put_position fl p positions)
  unfolding put_position
  put_position-Covered heap p [] due h = (due, tt)
  put_position-Covered heap p (q ∷ positions) due h =
      ground (arith, put_position-Covered heap p positions due h.1)

  heappush-Covered :
      (t seq s : ℕ) (heap : List HeapEntry) (positions : List (OpenPosition fl))
      → Covered heap positions
      → Covered (heappush (t, seq, s) heap) positions
  heappush-Covered t seq s heap [] h = tt
  heappush-Covered t seq s heap (p ∷ positions) h = (
    heappush-Scheduled p.strategy_id t seq s heap (inr h.0),
    heappush-Covered t seq s heap positions h.1,
  )

  -- Opening a position and pushing its exit keeps every open position scheduled.
  pub open-Covered :
      (t seq : ℕ) (p : OpenPosition fl) (heap : List HeapEntry) (positions : List (OpenPosition fl))
      → Covered heap positions
      → Covered (heappush (t, seq, p.strategy_id) heap) (put_position fl p positions)
  open-Covered t seq p heap positions h =
      put_position-Covered (heappush (t, seq, p.strategy_id) heap) p positions
        (heappush-Scheduled p.strategy_id t seq p.strategy_id heap (inl refl))
        (heappush-Covered t seq p.strategy_id heap positions h)
