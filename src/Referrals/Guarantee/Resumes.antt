-- ===== src/Referrals/Guarantee/Resumes.antt =====
-- Each round of the resume loop changes the table by the machine alone.
use Prim.Native.String.{String}
use text.Mathlib.Text.{◌==◌ as str_eq}
use ai_trading_backend.Common.{
  ℕ, ◌≡◌, ◌⊎◌, Bool, true, false, ◌||◌, Option, none, some, ◌==◌, arith,
}
use ai_trading_backend.Referrals.Machine.{Cycle, Status, same_status, Edge}
use ai_trading_backend.Referrals.World.{World}
use ai_trading_backend.Referrals.Resume.{
  waits_for_resume, promote_resume_pending_if_needed, fail_resume, fail_applied, after_resume,
  request_resume, resume_promoted, resume_row,
}
use ai_trading_backend.Referrals.Guarantee.{
  same_status-eq, Keeps, >>=-Keeps, if-Keeps, return-Keeps, keeps_rules,
}
use ai_trading_backend.Referrals.Guarantee.Marks.{
  cas_cycle_status-Keeps, mark_resume_success-Keeps, mark_resume_failed-Keeps,
  mark_parent_reward_applied-Keeps, resume_subscription-Keeps,
}
use ai_trading_backend.Referrals.Guarantee.Rounds.{if-Keeps_tested}

resuming_status :
    (r row : Cycle)
    → waits_for_resume row ≡ true
    → same_status row.status Status.resume_pending ≡ false
    → r.status ≡ row.status
    → (r.status ≡ Status.paused) ⊎ (r.status ≡ Status.resume_failed)
resuming_status r row h other e =
    ground (
      arith,
      same_status-eq row.status Status.paused,
      same_status-eq row.status Status.resume_failed,
    )

module _ (w : World) where
  open w use {strip}

  promote_resume-Keeps :
      (row : Cycle) → waits_for_resume row ≡ true → Keeps w (promote_resume_pending_if_needed w row)
  unfolding promote_resume_pending_if_needed
  promote_resume-Keeps row h =
      if-Keeps_tested w (same_status row.status Status.resume_pending) _ _ (λ e. search keeps_rules)
        (λ other.
          if-Keeps w (str_eq (strip row.reward_id) "" || row.cycle_number == 0) _ _
            (return-Keeps w false)
            (cas_cycle_status-Keeps w (strip row.reward_id) row.cycle_number row.status
              Status.resume_pending
              (λ r at e. Edge.queue_resume r at (resuming_status r row h other e))))

  fail_resume-Keeps : (id : String) (n : ℕ) → Keeps w (fail_resume w id n)
  unfolding fail_resume
  fail_resume-Keeps id n = search (keeps_rules, mark_resume_failed-Keeps)

  fail_applied-Keeps : (id : String) (n : ℕ) → Keeps w (fail_applied w id n)
  unfolding fail_applied
  fail_applied-Keeps id n = search (keeps_rules, mark_resume_failed-Keeps)

  after_resume-Keeps :
      (id : String) (n : ℕ) (updated : Option Bool) → Keeps w (after_resume w id n updated)
  unfolding after_resume
  after_resume-Keeps id n none = fail_resume-Keeps id n
  after_resume-Keeps id n (some false) = search keeps_rules
  after_resume-Keeps id n (some true) =
      search (keeps_rules, mark_parent_reward_applied-Keeps, fail_applied-Keeps)

  resume_promoted-Keeps :
      (id : String) (n : ℕ) (sub : String) (pause_id : Option String) (promoted : Bool)
      → Keeps w (resume_promoted w id n sub pause_id promoted)
  unfolding resume_promoted request_resume
  resume_promoted-Keeps id n sub pause_id false = return-Keeps w _
  resume_promoted-Keeps id n sub pause_id true =
      search (keeps_rules, resume_subscription-Keeps, mark_resume_success-Keeps, after_resume-Keeps)

  pub resume_row-Keeps : (row : Cycle) → waits_for_resume row ≡ true → Keeps w (resume_row w row)
  unfolding resume_row
  resume_row-Keeps row h =
      if-Keeps w _ _ _
        (if-Keeps w _ _ _ (fail_resume-Keeps (strip row.reward_id) row.cycle_number)
          (return-Keeps w _))
        (>>=-Keeps w (promote_resume_pending_if_needed w row) _ (promote_resume-Keeps row h)
          (λ promoted.
            resume_promoted-Keeps (strip row.reward_id) row.cycle_number _ row.razorpay_pause_id
              promoted))
