-- ===== src/Payments/Claims.antt =====
-- webhook_handler.py: a row of webhook_events that is claimed again and again, until it is processed.
use Prim.Native.String.{String}
use ai_trading_backend.Common.{
  ℕ, zero, suc, ◌<◌, ◌≤◌, ◌≡◌, refl, ◌⊎◌, inl, inr, Bool, true, false, [], arith,
}
use ai_trading_backend.Payments.Status.{Texts}
use ai_trading_backend.Payments.Trace.{value, Services}
use ai_trading_backend.Payments.Checks.{Decimals, get_provider_webhook_policy}
use ai_trading_backend.Payments.Handler.{EventRow, process_claimed_webhook_event}
use ai_trading_backend.Payments.Settled.{
  row_after, IsNamed, limit_of, process_claimed_webhook_event-IsSettled,
}

module _ (texts : Texts) (decimals : Decimals) where
  -- One claim after another of one row, each with what the services then answer, until the row is processed.
  abbrev pub claim : Services → EventRow × Bool → EventRow × Bool
  claim sv (row, true) = (row, true)
  claim sv (row, false) =
      let after =
        row_after row.retry_count (process_claimed_webhook_event texts decimals sv row []).0 in
      (record row { retry_count = after.retry_count }, after.processed)

  pub claims : (ℕ → Services) → ℕ → EventRow → EventRow × Bool
  claims services zero row = (row, false)
  claims services (suc n) row = claim (services n) (claims services n row)

  -- The row is processed, or it has failed at every claim so far, and less often than the policy allows.
  abbrev Pending : ℕ → ℕ → EventRow × Bool → Type 0
  Pending limit n p =
      (p.1 ≡ true)
      ⊎ (IsNamed texts p.0
          × (limit_of texts p.0 ≡ limit)
          × (n ≤ p.0.retry_count)
          × ((n ≡ 0) ⊎ (p.0.retry_count < limit)))

  claim-Pending :
      (sv : Services) (limit n : ℕ) (p : EventRow × Bool)
      → ((row : EventRow) → (process_claimed_webhook_event texts decimals sv row []).1 ≡ value tt)
      → Pending limit n p
      → Pending limit (suc n) (claim sv p)
  claim-Pending sv limit n (row, true) returns pending = inl refl
  claim-Pending sv limit n (row, false) returns (inl e) = cc
  claim-Pending sv limit n (row, false) returns (inr (named, same, failed, below)) =
      elim (process_claimed_webhook_event-IsSettled texts decimals sv row named (returns row)).1 [
        | inl finished ↦ inl finished
        | inr (unfinished, counted, less) ↦ inr (
          record { provider = named.provider; event_id = named.event_id },
          same,
          omega (arith, counted),
          inr (omega (arith, counted, less, same)),
        )
      ]

  claims-Pending :
      (services : ℕ → Services) (n : ℕ) (row : EventRow)
      → IsNamed texts row
      → ((k : ℕ) (r : EventRow)
          → (process_claimed_webhook_event texts decimals (services k) r []).1 ≡ value tt)
      → Pending (limit_of texts row) n (claims services n row)
  unfolding claims
  claims-Pending services zero row named returns = inr (named, refl, omega arith, inl refl)
  claims-Pending services (suc n) row named returns =
      claim-Pending (services n) (limit_of texts row) n (claims services n row) (returns n)
        (claims-Pending services n row named returns)

  limit-positive : (name : String) → 0 < (get_provider_webhook_policy name).max_retries
  unfolding get_provider_webhook_policy
  limit-positive name = ground arith

  -- A row with a provider and an id is processed after as many claims as its provider's policy has retries, at
  -- the latest, however each of them goes, when each run returns: a failing event is not retried for ever.
  pub claims-finish :
      (services : ℕ → Services) (row : EventRow)
      → IsNamed texts row
      → ((k : ℕ) (r : EventRow)
          → (process_claimed_webhook_event texts decimals (services k) r []).1 ≡ value tt)
      → (claims services (limit_of texts row) row).1 ≡ true
  claims-finish services row named returns =
      let positive = limit-positive (texts.lower (texts.strip row.provider)) in
      elim (claims-Pending services (limit_of texts row) row named returns) [
        | inl finished ↦ finished
        | inr (n, same, failed, below) ↦ elim below [
          | inl never ↦ absurd (omega arith)
          | inr less ↦ absurd (omega arith)
        ]
      ]
