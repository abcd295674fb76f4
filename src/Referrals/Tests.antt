-- ===== src/Referrals/Tests.antt =====
-- A world of tables in memory, whose provider answers every request, and runs in it.
use mathlib.Core.Path.{subst}
use Prim.Native.String.{String}
use ai_trading_backend.Common.{
  ℕ, ◌+◌, ◌*◌, ◌≡◌, ◌≢◌, refl, inl, inr, Bool, true, false, Option, none, some, List, [], ◌∷◌, take,
  keep, map, All, arith, Bool-cases, if◌then◌else◌, All-take,
}
use ai_trading_backend.Common.Steps.{ChangedBy}
use ai_trading_backend.Referrals.Machine.{Cycle, Status, Steps, here, update, insert_new}
use ai_trading_backend.Referrals.World.{
  M, Query, Reward, RewardStatus, Subscription, Response, Payload, World, ◌>>=◌, return, fail,
  try_except,
}
use ai_trading_backend.Referrals.Cycles
use ai_trading_backend.Referrals.Pause
use ai_trading_backend.Referrals.Pause.{Config, paused_ok, pause_row}
use ai_trading_backend.Referrals.Resume
use ai_trading_backend.Referrals.Seed
use ai_trading_backend.Referrals.Run
use ai_trading_backend.Referrals.Run.{RunStats, run_referral_pause_resume_cycle}
use ai_trading_backend.Referrals.Guarantee.Whole.{run_referral_pause_resume_cycle-Steps}
use ai_trading_backend.Referrals.Soundness.{IsSoundTable}
use ai_trading_backend.Referrals.Soundness.Tables.{
  ProgressAt, run_referral_pause_resume_cycle-IsSound, run_referral_pause_resume_cycle-Progress,
}
use ai_trading_backend.Referrals.Unasked.{elsewhere, pause_row-deferred}

record Store : Type 0 where
  rows : List Cycle
  rewards : List Reward
  subscriptions : List Subscription
  clock : ℕ

abbrev limited {ℓ} : {A : Type ℓ} → Option ℕ → List A → List A
limited none xs = xs
limited (some n) xs = take n xs

abbrev read : Query → M Store (List Cycle)
read q s = (s, some (limited q.limit (keep q.matches s.rows)))

abbrev write : (Cycle → Bool) → (Cycle → Cycle) → M Store (List Cycle)
write matches change s =
    (record s { rows = update matches change s.rows }, some (map change (keep matches s.rows)))

abbrev write_rewards : (Reward → Bool) → (Reward → Reward) → List Reward → List Reward
write_rewards f g [] = []
write_rewards f g (x ∷ xs) = (if f x then g x else x) ∷ write_rewards f g xs

abbrev answer : Response
answer = record {
  status_code = 200;
  body_pause_id = some "pause_1";
  body_id = none;
  body_entity_id = none;
  body_pause = none;
}

All-keep : (p : Cycle → Bool) (rows : List Cycle) → All (λ r. p r ≡ true) (keep p rows)
All-keep p [] = tt
All-keep p (r ∷ rows) = elim (Bool-cases (p r)) [
  | inl e ↦ rw e (e, All-keep p rows)
  | inr e ↦ rw e (All-keep p rows)
]

All-limited :
    (P : Cycle → Type 0) (limit : Option ℕ) (rows : List Cycle)
    → All P rows
    → All P (limited limit rows)
All-limited P none rows h = h
All-limited P (some n) rows h = All-take P n rows h

read-matches :
    (q : Query) (s : Store) {rows : List Cycle}
    → (read q s).1 ≡ some rows
    → All (λ r. q.matches r ≡ true) rows
read-matches q s e =
    subst (All (λ r. q.matches r ≡ true)) (cc) (All-limited _ q.limit _ (All-keep q.matches s.rows))

-- No other worker is about.
abbrev NoOthers : List Cycle → List Cycle → Type 0
NoOthers a b = ⊥

write-Changed :
    (matches : Cycle → Bool) (change : Cycle → Cycle) (s : Store)
    → ChangedBy NoOthers (update matches change) s.rows (write matches change s).0.rows
write-Changed matches change s = (s.rows, update matches change s.rows, here, inr refl, here)

abbrev world : World
world = record {
  S = Store;
  cycles = λ s. s.rows;
  Others = NoOthers;
  utc_now = λ s. s.clock;
  strip = λ t. t;
  int_text = λ n. "1";
  sha256_hex = λ t. "digest";
  get_cycles = read;
  patch_cycles = write;
  insert_cycles = λ fresh s. (record s { rows = insert_new fresh s.rows }, some fresh);
  get_rewards = λ f n s. (s, some (take n (keep f s.rewards)));
  patch_rewards =
      λ f g s. (record s { rewards = write_rewards f g s.rewards }, some (keep f s.rewards));
  get_subscriptions = λ f n s. (s, some (limited n (keep f s.subscriptions)));
  post = λ url payload key s. (s, some answer);
  get_cycles_steps = λ q s. here;
  get_cycles_match = read-matches;
  patch_cycles_changed = write-Changed;
  patch_cycles_later = λ matches change s. omega arith;
  insert_cycles_changed = λ fresh s. (s.rows, insert_new fresh s.rows, here, inr refl, here);
  get_rewards_steps = λ f n s. here;
  patch_rewards_steps = λ f g s. here;
  get_subscriptions_steps = λ f n s. here;
  post_steps = λ url payload key s. here;
}

abbrev day : ℕ
day = 86400

-- A claimed reward of a user whose next charge is 20 days ahead.
abbrev start : Store
start = record {
  rows = [];
  rewards =
      record {
        referral_id = some "r1";
        user_id = some "u1";
        reward_status = RewardStatus.claimed;
        reward_updated_at = 0;
      }
      ∷ [];
  subscriptions =
      record {
        user_id = some "u1";
        is_razorpay = true;
        external_subscription_id = some "sub_1";
        last_payment_date = some (90 * day);
        next_billing_date = some (120 * day);
        expires_at = none;
      }
      ∷ [];
  clock = 100 * day;
}

abbrev cfg : Config
cfg = record { batch_size = 100; lead_seconds = 120; free_months_per_claim = 1 }

abbrev after : Store
after = (run_referral_pause_resume_cycle world cfg start).0

-- The row that the first run leaves: paused for the 30 days of a cycle.
abbrev paused_row : Cycle
paused_row = record {
  reward_id = "r1";
  cycle_number = 1;
  status = Status.paused;
  razorpay_subscription_id = some "sub_1";
  razorpay_pause_id = some "pause_1";
  last_charge_at = some (90 * day);
  next_charge_at = some (120 * day);
  pause_start_time = some (100 * day);
  pause_end_time = some (130 * day);
  pause_confirmed = true;
  free_access_until = some (130 * day);
  pause_deferred_until = none;
  cycle_duration_seconds = some (30 * day);
  created_at = 100 * day;
  updated_at = 100 * day;
}

runs : after.rows ≡ paused_row ∷ []
unfolding run_referral_pause_resume_cycle Seed.seed_pending_cycles Seed.seed_rewards
    Seed.user_ids_of Seed.chunk Seed.fetch_subscriptions Seed.fetch_seeded Seed.rows_to_insert
    Seed.row_to_insert Seed.latest_subscription Seed.insert_rows Run.for_rows Run.count
    Pause.fetch_pause_candidates Pause.pause_row Pause.promote_pause_pending_if_needed
    Pause.pause_promoted Pause.cycle_times Pause.times_of Pause.pause_with_duration
    Pause.find_open_pause_window Pause.select_open_pause Pause.extend_open_pause Pause.taken_or
    Pause.defer_or_request Pause.request_pause Cycles.should_defer_pause
    Cycles.derive_cycle_duration_seconds Cycles.cas_cycle_status Cycles.update_cycle_fields
    Cycles.mark_pause_success Cycles.pause_subscription Cycles.extract_pause_id
    Cycles.build_idempotency_key Cycles.now Resume.fetch_resume_candidates ◌>>=◌ return fail
    try_except
runs = refl

-- The same table a month later, when the pause is over.
abbrev later : Store
later = record start { rows = paused_row ∷ []; clock = 131 * day }

resumes :
    (run_referral_pause_resume_cycle world cfg later).0.rows
    ≡ record paused_row {
      status = Status.resumed;
      pause_confirmed = false;
      free_access_until = none;
      pause_end_time = some (131 * day);
      updated_at = 131 * day;
    }
      ∷ []
unfolding run_referral_pause_resume_cycle Seed.seed_pending_cycles Seed.seed_rewards
    Seed.user_ids_of Seed.chunk Seed.fetch_subscriptions Seed.fetch_seeded Seed.rows_to_insert
    Seed.row_to_insert Seed.insert_rows Run.for_rows Run.count Pause.fetch_pause_candidates
    Resume.fetch_resume_candidates Resume.resume_row Resume.promote_resume_pending_if_needed
    Resume.resume_promoted Resume.request_resume Resume.after_resume Cycles.cas_cycle_status
    Cycles.update_cycle_fields Cycles.mark_resume_success Cycles.mark_parent_reward_applied
    Cycles.resume_subscription Cycles.build_idempotency_key Cycles.now ◌>>=◌ return fail try_except
resumes = refl

run_referral_pause_resume_cycle-Steps_example :
    Steps NoOthers [] (run_referral_pause_resume_cycle world cfg start).0.rows
run_referral_pause_resume_cycle-Steps_example =
    run_referral_pause_resume_cycle-Steps world cfg start

run_referral_pause_resume_cycle-IsSound_example :
    IsSoundTable (run_referral_pause_resume_cycle world cfg later).0.rows
run_referral_pause_resume_cycle-IsSound_example =
    run_referral_pause_resume_cycle-IsSound world cfg later (λ a b nothing sound. absurd nothing)
      (((λ h. (refl, (130 * day, refl, refl))), tt), (refl, tt))

run_referral_pause_resume_cycle-Progress_example :
    ProgressAt 0 paused_row (run_referral_pause_resume_cycle world cfg later).0.rows
run_referral_pause_resume_cycle-Progress_example =
    run_referral_pause_resume_cycle-Progress world cfg later 0 paused_row
      (λ a b i r nothing e. absurd nothing) refl

-- A row that was put off before its renewal on day 120, looked at again 30 days after that.
abbrev put_off : Cycle
put_off = record paused_row {
  status = Status.pause_pending;
  razorpay_pause_id = none;
  pause_start_time = none;
  pause_end_time = none;
  pause_confirmed = false;
  free_access_until = none;
  pause_deferred_until = some (120 * day + 300);
  cycle_duration_seconds = none;
}

-- A provider that fails.
abbrev unreachable : String → Payload → String → M Store Response
unreachable url payload key s = (s, none)

abbrev put_off_store : Store
put_off_store = record later { rows = put_off ∷ []; clock = 150 * day }

pause_row-deferred_example :
    ((pause_row world cfg put_off put_off_store).1 ≢ some paused_ok)
    × (pause_row (elsewhere world unreachable (λ url payload key s. here)) cfg put_off put_off_store
        ≡ pause_row world cfg put_off put_off_store)
pause_row-deferred_example =
    pause_row-deferred world unreachable (λ url payload key s. here) cfg put_off (90 * day)
      (120 * day) put_off_store refl refl (omega arith) (omega arith)
