-- ===== src/Referrals/World.antt =====
-- What pause_resume.py calls: the tables of the database, the payment provider and the clock. An
-- operation takes the state of the world to a new one, and answers or raises an error (`none`).
use Prim.Native.String.{String}
use ai_trading_backend.Common.{ℕ, ◌≤◌, ◌≡◌, Bool, true, Option, some, List, All}
pub use ai_trading_backend.Common.Errors.{M, then_at, ◌>>◌, recover_at}
unfoldable pub use ai_trading_backend.Common.Errors.{◌>>=◌, return, fail, try_except}
use ai_trading_backend.Common.Steps.{StepsOf, ChangedBy}
use ai_trading_backend.Referrals.Machine.{Cycle, update, insert_new}

pub data Order : Type 0 where
  created_at_asc updated_at_asc updated_at_desc unordered : Order

-- The filter, the order and the limit of a read.
pub record Query : Type 0 where
  pub matches : Cycle → Bool
  pub order : Order
  pub limit : Option ℕ

-- A row of referral_rewards; only claimed and applied matter here.
pub data RewardStatus : Type 0 where
  claimed applied other : RewardStatus

pub record Reward : Type 0 where
  pub referral_id : Option String
  pub user_id : Option String
  pub reward_status : RewardStatus
  pub reward_updated_at : ℕ

-- A row of user_subscriptions.
pub record Subscription : Type 0 where
  pub user_id : Option String
  pub is_razorpay : Bool
  pub external_subscription_id : Option String
  pub last_payment_date : Option ℕ
  pub next_billing_date : Option ℕ
  pub expires_at : Option ℕ

-- The JSON body of a request to the provider.
pub data Payload : Type 0 where
  pause_at : ℕ → Payload
  resume_now : Option String → Payload

-- The provider's answer: its status code, and the fields of its body that the code reads.
pub record Response : Type 0 where
  pub status_code : ℕ
  pub body_pause_id : Option String
  pub body_id : Option String
  pub body_entity_id : Option String
  pub body_pause : Option (Option String)

pub record World : Type 1 where
  pub S : Type 0
  pub cycles : S → List Cycle
  -- What other workers may do to the table at any time.
  pub Others : List Cycle → List Cycle → Type 0
  pub utc_now : S → ℕ
  pub strip : String → String
  pub int_text : ℕ → String
  pub sha256_hex : String → String
  pub get_cycles : Query → M S (List Cycle)
  pub patch_cycles : (Cycle → Bool) → (Cycle → Cycle) → M S (List Cycle)
  pub insert_cycles : List Cycle → M S (List Cycle)
  pub get_rewards : (Reward → Bool) → ℕ → M S (List Reward)
  pub patch_rewards : (Reward → Bool) → (Reward → Reward) → M S (List Reward)
  pub get_subscriptions : (Subscription → Bool) → Option ℕ → M S (List Subscription)
  pub post : String → Payload → String → M S Response
  -- A read changes nothing itself, and answers with rows that its filter matches.
  pub get_cycles_steps : (q : Query) (s : S) → StepsOf Others (cycles s) (cycles (get_cycles q s).0)
  pub get_cycles_match :
      (q : Query) (s : S) {rows : List Cycle}
      → (get_cycles q s).1 ≡ some rows
      → All (λ r. q.matches r ≡ true) rows
  -- A write is made whole or, where it fails, perhaps not at all.
  pub patch_cycles_changed :
      (matches : Cycle → Bool) (change : Cycle → Cycle) (s : S)
      → ChangedBy Others
          (update matches change)
          (cycles s)
          (cycles (patch_cycles matches change s).0)
  -- The clock does not go back over a write.
  pub patch_cycles_later :
      (matches : Cycle → Bool) (change : Cycle → Cycle) (s : S)
      → utc_now s ≤ utc_now (patch_cycles matches change s).0
  pub insert_cycles_changed :
      (fresh : List Cycle) (s : S)
      → ChangedBy Others (insert_new fresh) (cycles s) (cycles (insert_cycles fresh s).0)
  pub get_rewards_steps :
      (f : Reward → Bool) (n : ℕ) (s : S) → StepsOf Others (cycles s) (cycles (get_rewards f n s).0)
  pub patch_rewards_steps :
      (f : Reward → Bool) (g : Reward → Reward) (s : S)
      → StepsOf Others (cycles s) (cycles (patch_rewards f g s).0)
  pub get_subscriptions_steps :
      (f : Subscription → Bool) (n : Option ℕ) (s : S)
      → StepsOf Others (cycles s) (cycles (get_subscriptions f n s).0)
  pub post_steps :
      (url : String) (payload : Payload) (key : String) (s : S)
      → StepsOf Others (cycles s) (cycles (post url payload key s).0)
