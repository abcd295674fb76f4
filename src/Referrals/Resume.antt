-- ===== src/Referrals/Resume.antt =====
-- api-worker/app/referrals/pause_resume.py: the loop over the cycles that are to be resumed.
use Prim.Native.String.{String}
use text.Mathlib.Text.{◌==◌ as str_eq}
use ai_trading_backend.Common.{
  ℕ, Bool, true, false, not, ◌&&◌, ◌||◌, Option, none, some, List, keep, ltb, ◌==◌, if◌then◌else◌,
}
use ai_trading_backend.Referrals.Machine.{Cycle, Status, same_status}
use ai_trading_backend.Referrals.World.{M, ◌>>=◌, ◌>>◌, return, try_except, Order, World}
use ai_trading_backend.Referrals.Cycles.{
  is_due, now, text_of, build_idempotency_key, resume_subscription, cas_cycle_status,
  mark_resume_success, mark_resume_failed, mark_parent_reward_applied,
}
use ai_trading_backend.Referrals.Pause.{
  Tally, uncounted, failed, resumed_ok, resumed_then_failed, tally_if, effective_end,
}

abbrev pub waits_for_resume : Cycle → Bool
waits_for_resume r =
    (same_status r.status Status.paused
      || same_status r.status Status.resume_pending
      || same_status r.status Status.resume_failed)
    && r.pause_confirmed

module _ (w : World) where
  open w use {S, strip, get_cycles}

  unfoldable pub fetch_resume_candidates : ℕ → M S (List Cycle)
  fetch_resume_candidates batch_size = do
    rows ← get_cycles (record {
      matches = waits_for_resume;
      order = Order.updated_at_asc;
      limit = some batch_size;
    })
    now_utc ← now w
    return (keep (λ r. is_due (effective_end r) now_utc) rows)

  unfoldable pub promote_resume_pending_if_needed : Cycle → M S Bool
  promote_resume_pending_if_needed row =
      let reward_id = strip row.reward_id in
      if same_status row.status Status.resume_pending
      then return true
      else if str_eq reward_id "" || row.cycle_number == 0
      then return false
      else cas_cycle_status w reward_id row.cycle_number row.status Status.resume_pending

  unfoldable pub fail_resume : String → ℕ → M S Tally
  fail_resume reward_id cycle_number = do
    marked ← mark_resume_failed w reward_id cycle_number
    return (tally_if marked failed)

  -- The handler of an error that is raised when the round has counted its resume.
  unfoldable pub fail_applied : String → ℕ → M S Tally
  fail_applied reward_id cycle_number = do
    marked ← mark_resume_failed w reward_id cycle_number
    return (if marked then resumed_then_failed else resumed_ok)

  -- The `try` of the loop behind the mark of success: an error of the mark on the parent reward goes to the
  -- same handler, which then finds the resume counted.
  unfoldable pub after_resume : String → ℕ → Option Bool → M S Tally
  after_resume reward_id cycle_number none = fail_resume reward_id cycle_number
  after_resume reward_id cycle_number (some false) = return uncounted
  after_resume reward_id cycle_number (some true) =
      try_except (do applied ← mark_parent_reward_applied w reward_id; return resumed_ok)
        (fail_applied reward_id cycle_number)

  unfoldable pub request_resume : String → ℕ → String → Option String → M S Tally
  request_resume reward_id cycle_number subscription_id pause_id = do
    updated ←
        try_except
          (do
            resume_subscription w subscription_id pause_id
                (build_idempotency_key w "resume" reward_id cycle_number)
            updated ← mark_resume_success w reward_id cycle_number
            return (some updated))
          (return none)
    after_resume reward_id cycle_number updated

  unfoldable pub resume_promoted : String → ℕ → String → Option String → Bool → M S Tally
  resume_promoted reward_id cycle_number subscription_id pause_id false = return uncounted
  resume_promoted reward_id cycle_number subscription_id pause_id true =
      request_resume reward_id cycle_number subscription_id pause_id

  -- One round of the loop.
  unfoldable pub resume_row : Cycle → M S Tally
  resume_row row =
      let reward_id = strip row.reward_id in
      let subscription_id = text_of w row.razorpay_subscription_id in
      if str_eq reward_id "" || row.cycle_number == 0 || str_eq subscription_id ""
      then (if not (str_eq reward_id "") && ltb 0 row.cycle_number
          then fail_resume reward_id row.cycle_number
          else return uncounted)
      else do
        promoted ← promote_resume_pending_if_needed row
        resume_promoted reward_id row.cycle_number subscription_id row.razorpay_pause_id promoted
