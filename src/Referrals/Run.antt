-- ===== src/Referrals/Run.antt =====
-- api-worker/app/referrals/pause_resume.py: run_referral_pause_resume_cycle.
use ai_trading_backend.Common.{ℕ, suc, List, [], ◌∷◌, max}
use ai_trading_backend.Referrals.Machine.{Cycle}
use ai_trading_backend.Referrals.World.{M, ◌>>=◌, return, World}
use ai_trading_backend.Referrals.Pause.{
  Config, Tally, uncounted, failed, deferred, extended, paused_ok, resumed_ok, resumed_then_failed,
  fetch_pause_candidates, pause_row,
}
use ai_trading_backend.Referrals.Resume.{fetch_resume_candidates, resume_row}
use ai_trading_backend.Referrals.Seed.{seed_pending_cycles}

pub record RunStats : Type 0 where
  pub seeded_cycles : ℕ
  pub paused_success : ℕ
  pub resumed_success : ℕ
  pub failed_marked : ℕ
  pub deferred_pending : ℕ
  pub extended_rewards : ℕ

unfoldable pub count : Tally → RunStats → RunStats
count uncounted st = st
count failed st = record st { failed_marked = suc st.failed_marked }
count deferred st = record st { deferred_pending = suc st.deferred_pending }
count extended st = record st { extended_rewards = suc st.extended_rewards }
count paused_ok st = record st { paused_success = suc st.paused_success }
count resumed_ok st = record st { resumed_success = suc st.resumed_success }
count resumed_then_failed st = record st {
  resumed_success = suc st.resumed_success;
  failed_marked = suc st.failed_marked;
}

abbrev pub seeded_stats : ℕ → RunStats
seeded_stats seeded = record {
  seeded_cycles = seeded;
  paused_success = 0;
  resumed_success = 0;
  failed_marked = 0;
  deferred_pending = 0;
  extended_rewards = 0;
}

-- A loop over rows that counts what each round gives.
unfoldable pub for_rows : {S : Type 0} → (Cycle → M S Tally) → List Cycle → RunStats → M S RunStats
for_rows body [] st = return st
for_rows body (row ∷ rows) st = do t ← body row; for_rows body rows (count t st)

module _ (w : World) where
  open w use {S}

  unfoldable pub run_referral_pause_resume_cycle : Config → M S RunStats
  run_referral_pause_resume_cycle cfg = do
    let batch_size = max 1 cfg.batch_size
    seeded ← seed_pending_cycles w batch_size
    pending_rows ← fetch_pause_candidates w batch_size
    st ← for_rows (pause_row w cfg) pending_rows (seeded_stats seeded)
    resume_rows ← fetch_resume_candidates w batch_size
    for_rows (resume_row w) resume_rows st
