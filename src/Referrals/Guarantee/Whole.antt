-- ===== src/Referrals/Guarantee/Whole.antt =====
-- A whole run changes the table by the machine alone.
use Prim.Native.String.{String}
use text.Mathlib.Text.{◌==◌ as str_eq}
use ai_trading_backend.Common.{
  ℕ, ◌≡◌, refl, inl, inr, Bool, true, false, not, ◌||◌, Option, none, some, List, [], ◌∷◌, max,
  keep, All, if◌then◌else◌, Bool-cases,
}
use ai_trading_backend.Referrals.Machine.{Cycle, IsSeed, Steps}
use ai_trading_backend.Referrals.World.{M, Reward, Subscription, World}
use ai_trading_backend.Referrals.Cycles.{is_empty, is_after, is_due, text_of, now}
use ai_trading_backend.Referrals.Pause.{
  Config, Tally, waits_for_pause, effective_end, fetch_pause_candidates, pause_row,
}
use ai_trading_backend.Referrals.Resume.{waits_for_resume, fetch_resume_candidates, resume_row}
use ai_trading_backend.Referrals.Seed.{
  contains, latest_subscription, first_cycle, fetch_subscriptions, fetch_seeded, row_to_insert,
  rows_to_insert, insert_rows, seed_rewards, seed_pending_cycles,
}
use ai_trading_backend.Referrals.Run.{
  RunStats, count, seeded_stats, for_rows, run_referral_pause_resume_cycle,
}
use ai_trading_backend.Referrals.Guarantee.{
  Keeps, Ensures, >>=-Keeps_ensured, >>=-Keeps, if-Keeps, return-Keeps, now-Keeps, get_cycles-Keeps,
  get_subscriptions-Keeps, insert_cycles-Keeps, keeps_rules,
}
use ai_trading_backend.Referrals.Guarantee.Resumes.{resume_row-Keeps}
use ai_trading_backend.Referrals.Guarantee.Rounds.{
  pause_row-Keeps, >>=-Ensures, >>=-Ensures_from, return-Ensures,
}

keep-All :
    (P : Cycle → Type 0) (p : Cycle → Bool) (rows : List Cycle) → All P rows → All P (keep p rows)
keep-All P p [] h = tt
keep-All P p (r ∷ rows) h = elim (Bool-cases (p r)) [
  | inl e ↦ rw e (h.0, keep-All P p rows h.1)
  | inr e ↦ rw e (keep-All P p rows h.1)
]

first_cycle-IsSeed : (id : String) (sub : Subscription) (at : ℕ) → IsSeed (first_cycle id sub at)
first_cycle-IsSeed id sub at = record { first = refl; waits = refl; unconfirmed = refl }

-- A row that is to be inserted, where there is one, is as a seeded row is.
abbrev Seeds : Option Cycle → Type 0
Seeds none = Unit
Seeds (some r) = IsSeed r

if-Seeds : (b : Bool) (o : Option Cycle) → Seeds o → Seeds (if b then none else o)
if-Seeds true o h = tt
if-Seeds false o h = h

module _ (w : World) where
  open w use {S, cycles, get_cycles, get_cycles_match}

  found-Seeds :
      (id : String) (at : ℕ) (o : Option Subscription)
      → Seeds (elim o [ none ↦ none | some sub ↦ some (first_cycle id sub at) ])
  found-Seeds id at none = tt
  found-Seeds id at (some sub) = first_cycle-IsSeed id sub at

  row_to_insert-Seeds :
      (at : ℕ) (seeded : List String) (subs : List Subscription) (reward : Reward)
      → Seeds (row_to_insert w at seeded subs reward)
  unfolding row_to_insert
  row_to_insert-Seeds at seeded subs reward =
      let reward_id = text_of w reward.referral_id in
      let user_id = text_of w reward.user_id in
      if-Seeds (str_eq reward_id "" || str_eq user_id "" || contains seeded reward_id) _
        (found-Seeds reward_id at (latest_subscription w user_id subs))

  Seeds-All :
      (o : Option Cycle) (rows : List Cycle)
      → Seeds o
      → All IsSeed rows
      → All IsSeed (elim o [ none ↦ rows | some r ↦ r ∷ rows ])
  Seeds-All none rows h k = k
  Seeds-All (some r) rows h k = (h, k)

  rows_to_insert-IsSeed :
      (at : ℕ) (seeded : List String) (subs : List Subscription) (rewards : List Reward)
      → All IsSeed (rows_to_insert w at seeded subs rewards)
  unfolding rows_to_insert
  rows_to_insert-IsSeed at seeded subs [] = tt
  rows_to_insert-IsSeed at seeded subs (reward ∷ rewards) =
      Seeds-All (row_to_insert w at seeded subs reward) _
        (row_to_insert-Seeds at seeded subs reward) (rows_to_insert-IsSeed at seeded subs rewards)

  insert_rows-Keeps : (rows : List Cycle) → All IsSeed rows → Keeps w (insert_rows w rows)
  unfolding insert_rows
  insert_rows-Keeps rows h =
      if-Keeps w (is_empty rows) _ _ (return-Keeps w _)
        (search (keeps_rules, insert_cycles-Keeps w rows h))

  fetch_subscriptions-Keeps : (chunks : List (List String)) → Keeps w (fetch_subscriptions w chunks)
  unfolding fetch_subscriptions
  fetch_subscriptions-Keeps [] = search keeps_rules
  fetch_subscriptions-Keeps (users ∷ chunks) =
      >>=-Keeps w _ _ (get_subscriptions-Keeps w _ _) (λ rows.
        >>=-Keeps w (fetch_subscriptions w chunks) _ (fetch_subscriptions-Keeps chunks)
          (λ more. return-Keeps w _))

  fetch_seeded-Keeps : (chunks : List (List String)) → Keeps w (fetch_seeded w chunks)
  unfolding fetch_seeded
  fetch_seeded-Keeps [] = search keeps_rules
  fetch_seeded-Keeps (rewards ∷ chunks) = >>=-Keeps w _ _ (get_cycles-Keeps w _) (λ rows.
      >>=-Keeps w (fetch_seeded w chunks) _ (fetch_seeded-Keeps chunks) (λ more. return-Keeps w _))

  seed_rewards-Keeps : (claimed : List Reward) → Keeps w (seed_rewards w claimed)
  unfolding seed_rewards
  seed_rewards-Keeps claimed = if-Keeps w _ _ _ (return-Keeps w _) (
      >>=-Keeps w (fetch_subscriptions w _) _ (fetch_subscriptions-Keeps _) (λ subs.
        >>=-Keeps w (fetch_seeded w _) _ (fetch_seeded-Keeps _) (λ seeded.
          >>=-Keeps w (now w) _ (now-Keeps w)
            (λ at. insert_rows-Keeps _ (rows_to_insert-IsSeed at seeded subs claimed)))))

  seed_pending_cycles-Keeps : (batch_size : ℕ) → Keeps w (seed_pending_cycles w batch_size)
  unfolding seed_pending_cycles
  seed_pending_cycles-Keeps batch_size = search (keeps_rules, seed_rewards-Keeps)

  abbrev Waiting : List Cycle → Type 0
  Waiting rows = All (λ r. waits_for_pause r ≡ true) rows

  abbrev Resuming : List Cycle → Type 0
  Resuming rows = All (λ r. waits_for_resume r ≡ true) rows

  fetch_pause-Keeps : (batch_size : ℕ) → Keeps w (fetch_pause_candidates w batch_size)
  unfolding fetch_pause_candidates
  fetch_pause-Keeps batch_size = search keeps_rules

  fetch_pause-Waiting : (batch_size : ℕ) → Ensures w (fetch_pause_candidates w batch_size) Waiting
  unfolding fetch_pause_candidates
  fetch_pause-Waiting batch_size =
      >>=-Ensures_from w Waiting Waiting (get_cycles _) _ (λ s rows e. get_cycles_match _ s e)
        (λ rows h. >>=-Ensures w Waiting (now w) _ (λ now_utc. return-Ensures w Waiting _ (
          keep-All (λ r. waits_for_pause r ≡ true)
            (λ r. not (is_after r.pause_deferred_until now_utc)) rows h)))

  fetch_resume-Keeps : (batch_size : ℕ) → Keeps w (fetch_resume_candidates w batch_size)
  unfolding fetch_resume_candidates
  fetch_resume-Keeps batch_size = search keeps_rules

  fetch_resume-Resuming :
      (batch_size : ℕ) → Ensures w (fetch_resume_candidates w batch_size) Resuming
  unfolding fetch_resume_candidates
  fetch_resume-Resuming batch_size =
      >>=-Ensures_from w Resuming Resuming (get_cycles _) _ (λ s rows e. get_cycles_match _ s e)
        (λ rows h. >>=-Ensures w Resuming (now w) _ (λ now_utc. return-Ensures w Resuming _ (
          keep-All (λ r. waits_for_resume r ≡ true) (λ r. is_due (effective_end r) now_utc) rows
            h)))

  for_rows-Keeps :
      (P : Cycle → Type 0) (body : Cycle → M S Tally) (rows : List Cycle) (st : RunStats)
      → ((r : Cycle) → P r → Keeps w (body r))
      → All P rows
      → Keeps w (for_rows body rows st)
  unfolding for_rows
  for_rows-Keeps P body [] st h all = return-Keeps w st
  for_rows-Keeps P body (row ∷ rows) st h all =
      >>=-Keeps w (body row) _ (h row all.0) (λ t. for_rows-Keeps P body rows (count t st) h all.1)

  run-Keeps : (cfg : Config) → Keeps w (run_referral_pause_resume_cycle w cfg)
  unfolding run_referral_pause_resume_cycle
  run-Keeps cfg =
      let n = max 1 cfg.batch_size in
      >>=-Keeps w (seed_pending_cycles w n) _ (seed_pending_cycles-Keeps n) (λ seeded.
        >>=-Keeps_ensured w Waiting (fetch_pause_candidates w n) _ (fetch_pause-Keeps n)
          (fetch_pause-Waiting n)
          (λ pending waiting.
            >>=-Keeps w (for_rows (pause_row w cfg) pending (seeded_stats seeded)) _
              (for_rows-Keeps (λ r. waits_for_pause r ≡ true) (pause_row w cfg) pending
                (seeded_stats seeded) (pause_row-Keeps w cfg) waiting)
              (λ st.
                >>=-Keeps_ensured w Resuming (fetch_resume_candidates w n) _ (fetch_resume-Keeps n)
                  (fetch_resume-Resuming n)
                  (λ due resuming.
                    for_rows-Keeps (λ r. waits_for_resume r ≡ true) (resume_row w) due st
                      (resume_row-Keeps w) resuming))))

  -- Whatever the services answer, fail at or lose, and whatever other workers do to the table between the
  -- calls or during them: a run of run_referral_pause_resume_cycle, also one that an error cuts short, takes
  -- the table from its rows to its rows after by changes of the machine and by the changes of those others.
  -- So where no one else changes the table, each of its changes is one of the machine.
  pub run_referral_pause_resume_cycle-Steps :
      (cfg : Config) (s : S)
      → Steps w.Others (cycles s) (cycles (run_referral_pause_resume_cycle w cfg s).0)
  run_referral_pause_resume_cycle-Steps cfg s = (run-Keeps cfg).steps s
