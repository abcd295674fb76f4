-- ===== src/Refunds/Evolution.antt =====
-- reward_revocation.py: what a run does to the table of rewards, however it ends.
use Prim.Native.String.{String}
use ai_trading_backend.Common.{ℕ, Bool, Option, none, some, List, [], ◌∷◌, if◌then◌else◌}
use ai_trading_backend.Common.Errors.{M, ◌>>=◌, return}
use ai_trading_backend.Common.Hoare.{Moves, >>=-Moves, return-Moves, if-Moves, try_except-Moves}
use ai_trading_backend.Common.Steps.{StepsOf}
use ai_trading_backend.Refunds.Rewards.{
  Steps-lift, Steps-trans, Changed-Steps, ReferralReward, PaidTransaction, RevocationAudit, Steps,
  here, next, TableStep, Database, IsLawful,
}
use ai_trading_backend.Refunds.Table.{cas_filter-Edge}
use ai_trading_backend.Refunds.Revocation
use ai_trading_backend.Refunds.Revocation.{
  RefundRevocationResult, str_or, column_is, later_than, any_row, found_result, cas_filter,
  revoke_referral_reward_on_refund,
}

module _ (db : Database) (law : IsLawful db) where
  open db use {S, rewards}

  abbrev pub Evolves : S → S → Type 0
  Evolves s t = Steps db.Others (rewards s) (rewards t)

  by_others : {a b : List ReferralReward} → StepsOf db.Others a b → Steps db.Others a b
  by_others p = Steps-lift (λ x y t. TableStep.others t) p

  abbrev pub Safe : {A : Type 0} → M S A → Type 0
  Safe m = Moves Evolves m

  bind :
      {A B : Type 0} (m : M S A) (f : A → M S B) → Safe m → ((a : A) → Safe (f a)) → Safe (m >>= f)
  bind = >>=-Moves Evolves (λ s. here) (λ s t u p q. Steps-trans p q)

  done : {A : Type 0} (a : A) → Safe (return a)
  done = return-Moves Evolves (λ s. here) (λ s t u p q. Steps-trans p q)

  choose : {A : Type 0} (b : Bool) (m n : M S A) → Safe m → Safe n → Safe (if b then m else n)
  choose = if-Moves Evolves (λ s. here) (λ s t u p q. Steps-trans p q)

  pub record_revocation-Safe : (a : RevocationAudit) → Safe (Revocation.record_revocation db a)
  unfolding Revocation.record_revocation
  record_revocation-Safe a =
      try_except-Moves Evolves (λ s. here) (λ s t u p q. Steps-trans p q) _ _
        (record { move = λ s. by_others (law.insert_audit-Steps a s) }) (done tt)

  read_clock-Safe : Safe (Revocation.read_clock db)
  unfolding Revocation.read_clock
  read_clock-Safe = record { move = λ s. here }

  get_rewards-Safe : (f : ReferralReward → Bool) → Safe (db.get_rewards f)
  get_rewards-Safe f = record { move = λ s. by_others (law.get_rewards-Steps f s) }

  patch-Safe :
      (id : String) (now_utc at : ℕ)
      → Safe (
          db.patch_rewards
            (cas_filter id "on_hold" now_utc)
            (λ r. record r { status = some "revoked"; updated_at = at }))
  patch-Safe id now_utc at = record {
    move = λ s.
        Changed-Steps (λ x y t. TableStep.others t) _ _ _
          (λ mid. next here (TableStep.change _ _ mid (cas_filter-Edge id now_utc at)))
          (law.patch_rewards-Changed _ _ s);
  }

  cas_reward_status-Safe :
      (id : String) (now_utc : ℕ)
      → Safe (Revocation.cas_reward_status db id "on_hold" "revoked" now_utc)
  unfolding Revocation.cas_reward_status
  cas_reward_status-Safe id now_utc =
      bind _ _ read_clock-Safe (λ at. bind _ _ (patch-Safe id now_utc at) (λ found. done _))

  refetch-Safe : (payment id previous : String) → Safe (Revocation.refetch db payment id previous)
  unfolding Revocation.refetch
  refetch-Safe payment id previous = bind _ _ (get_rewards-Safe _) (λ found. done _)

  revoke_found-Safe :
      (payment event : String) (tx : PaidTransaction) (r : ReferralReward) (now_utc : ℕ)
      → Safe (Revocation.revoke_found db payment event tx r now_utc)
  unfolding Revocation.revoke_found Revocation.revoke_on_hold Revocation.report_revocation
  revoke_found-Safe payment event tx r now_utc =
      choose _ _ _
        (bind _ _ (cas_reward_status-Safe (str_or r.referral_id) now_utc) (λ transitioned.
          choose transitioned _ _ (bind _ _ (record_revocation-Safe _) (λ logged. done _))
            (refetch-Safe payment (str_or r.referral_id) (str_or r.status))))
        (done _)

  with_reward-Safe :
      (payment event : String) (tx : PaidTransaction) (found : List ReferralReward)
      → Safe (Revocation.with_reward db payment event tx found)
  unfolding Revocation.with_reward
  with_reward-Safe payment event tx [] = done _
  with_reward-Safe payment event tx (r ∷ found) =
      bind _ _ read_clock-Safe (revoke_found-Safe payment event tx r)

  with_transaction-Safe :
      (payment event : String) (found : List PaidTransaction)
      → Safe (Revocation.with_transaction db payment event found)
  unfolding Revocation.with_transaction
  with_transaction-Safe payment event [] = done _
  with_transaction-Safe payment event (tx ∷ txs) =
      bind _ _ (get_rewards-Safe _) (with_reward-Safe payment event tx)

  pub with_payment-Safe :
      (event : String) (payment : Option String) → Safe (Revocation.with_payment db event payment)
  unfolding Revocation.with_payment
  with_payment-Safe event none = done _
  with_payment-Safe event (some payment) =
      bind _ _ (record { move = λ s. by_others (law.get_transactions-Steps payment s) })
        (with_transaction-Safe payment event)
