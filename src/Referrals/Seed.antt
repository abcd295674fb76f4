-- ===== src/Referrals/Seed.antt =====
-- api-worker/app/referrals/pause_resume.py: the first cycle of each claimed reward.
use Prim.Native.Nat.{Ordering}
use Prim.Native.String.{String, compare}
use text.Mathlib.Text.{◌==◌ as str_eq}
use ai_trading_backend.Common.{
  ℕ, zero, suc, Bool, true, false, not, ◌&&◌, ◌||◌, Option, none, some, List, [], ◌∷◌, ◌++◌, any,
  keep, map, length, take, drop, ◌==◌, if◌then◌else◌,
}
use ai_trading_backend.Referrals.Machine.{Cycle, Status}
use ai_trading_backend.Referrals.World.{
  M, ◌>>=◌, return, Order, Reward, RewardStatus, Subscription, World,
}
use ai_trading_backend.Referrals.Cycles.{or_else, truthy, is_empty, now, text_of}

-- One text more in a sorted list without repetitions, as `sorted` makes it of a set.
abbrev pub insert_text : String → List String → List String
insert_text text [] = text ∷ []
insert_text text (t ∷ texts) =
    let later = insert_text text texts in
    elim (compare text t) [
      | Ordering.lt ↦ text ∷ t ∷ texts
      | Ordering.eq ↦ t ∷ texts
      | Ordering.gt ↦ t ∷ later
    ]

abbrev pub sorted_set : List String → List String
sorted_set [] = []
sorted_set (text ∷ texts) = insert_text text (sorted_set texts)

-- `_chunk` at a positive size, on a round for each text.
unfoldable pub chunk_from : ℕ → List String → ℕ → List (List String)
chunk_from zero values size = []
chunk_from (suc fuel) values size =
    let rest = chunk_from fuel (drop size values) size in
    if is_empty values then [] else take size values ∷ rest

unfoldable pub chunk : List String → ℕ → List (List String)
unfolding chunk_from
chunk values size = if size == 0 then values ∷ [] else chunk_from (length values) values size

abbrev pub contains : List String → String → Bool
contains texts text = any (λ t. str_eq t text) texts

abbrev pub is_claimed : Reward → Bool
is_claimed reward = elim reward.reward_status [ RewardStatus.claimed ↦ true | _ ↦ false ]

-- `razorpay`, with a subscription, of one of the users
abbrev pub belongs_to : List String → Subscription → Bool
belongs_to users sub =
    sub.is_razorpay
    && (elim sub.external_subscription_id [ none ↦ false | some id ↦ true ])
    && (elim sub.user_id [ none ↦ false | some id ↦ contains users id ])

abbrev pub is_first_cycle_of : List String → Cycle → Bool
is_first_cycle_of rewards r = contains rewards r.reward_id && (r.cycle_number == 1)

abbrev pub first_cycle : String → Subscription → ℕ → Cycle
first_cycle reward_id sub at = record {
  reward_id = reward_id;
  cycle_number = 1;
  status = Status.reward_pending;
  razorpay_subscription_id = sub.external_subscription_id;
  razorpay_pause_id = none;
  last_charge_at = sub.last_payment_date;
  next_charge_at = or_else sub.next_billing_date sub.expires_at;
  pause_start_time = none;
  pause_end_time = none;
  pause_confirmed = false;
  free_access_until = none;
  pause_deferred_until = none;
  cycle_duration_seconds = none;
  created_at = at;
  updated_at = at;
}

module _ (w : World) where
  open w use {S, strip, get_cycles, get_rewards, get_subscriptions, insert_cycles}

  abbrev pub non_empty : List String → List String
  non_empty texts = keep (λ t. not (str_eq t "")) texts

  unfoldable pub user_ids_of : List Reward → List String
  user_ids_of [] = []
  user_ids_of (reward ∷ rewards) = elim (truthy reward.user_id) [
    | none ↦ user_ids_of rewards
    | some id ↦ strip id ∷ user_ids_of rewards
  ]

  unfoldable pub fetch_subscriptions : List (List String) → M S (List Subscription)
  fetch_subscriptions [] = return []
  fetch_subscriptions (users ∷ chunks) = do
    rows ← get_subscriptions (belongs_to users) none
    more ← fetch_subscriptions chunks
    return (rows ++ more)

  -- `latest_subscription_by_user.get(user_id)`: the first row of the user.
  unfoldable pub latest_subscription : String → List Subscription → Option Subscription
  latest_subscription user_id [] = none
  latest_subscription user_id (sub ∷ subs) =
      if not (str_eq (text_of w sub.user_id) "") && str_eq (text_of w sub.user_id) user_id
      then some sub
      else latest_subscription user_id subs

  unfoldable pub fetch_seeded : List (List String) → M S (List String)
  fetch_seeded [] = return []
  fetch_seeded (rewards ∷ chunks) = do
    rows ←
        get_cycles
          (record { matches = is_first_cycle_of rewards; order = Order.unordered; limit = none })
    more ← fetch_seeded chunks
    return (non_empty (map (λ r. strip r.reward_id) rows) ++ more)

  -- A round of the loop over the claimed rewards.
  unfoldable pub row_to_insert : ℕ → List String → List Subscription → Reward → Option Cycle
  row_to_insert at seeded subs reward =
      let reward_id = text_of w reward.referral_id in
      let user_id = text_of w reward.user_id in
      if str_eq reward_id "" || str_eq user_id "" || contains seeded reward_id
      then none
      else (elim (latest_subscription user_id subs) [
        | none ↦ none
        | some sub ↦ some (first_cycle reward_id sub at)
      ])

  unfoldable pub rows_to_insert : ℕ → List String → List Subscription → List Reward → List Cycle
  rows_to_insert at seeded subs [] = []
  rows_to_insert at seeded subs (reward ∷ rewards) = elim (row_to_insert at seeded subs reward) [
    | none ↦ rows_to_insert at seeded subs rewards
    | some r ↦ r ∷ rows_to_insert at seeded subs rewards
  ]

  unfoldable pub insert_rows : List Cycle → M S ℕ
  insert_rows rows =
      if is_empty rows then return 0 else do inserted ← insert_cycles rows; return (length inserted)

  unfoldable pub seed_rewards : List Reward → M S ℕ
  seed_rewards claimed =
      let reward_ids = non_empty (map (λ reward. text_of w reward.referral_id) claimed) in
      let user_ids = sorted_set (user_ids_of claimed) in
      if is_empty reward_ids || is_empty user_ids then return 0 else do
        subs ← fetch_subscriptions (chunk user_ids 100)
        seeded ← fetch_seeded (chunk reward_ids 150)
        at ← now w
        insert_rows (rows_to_insert at seeded subs claimed)

  unfoldable pub seed_pending_cycles : ℕ → M S ℕ
  seed_pending_cycles batch_size = do
    claimed ← get_rewards is_claimed batch_size
    seed_rewards claimed
