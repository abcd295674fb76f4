-- ===== src/Refunds/Rewards.antt =====
-- The rows of referral_rewards, what reward_revocation.py and other workers change in them, and the
-- database as reward_revocation.py uses it.
use Prim.Native.String.{String}
use ai_trading_backend.Common.{
  In, ℕ, ◌<◌, ◌≡◌, Bool, true, Option, some, List, [], ◌∷◌, All, if◌then◌else◌,
}
pub use ai_trading_backend.Common.Steps.{here, next, Steps-trans, Steps-lift, Changed-Steps}
use ai_trading_backend.Common.Steps.{StepsOf, ChangedBy}
use ai_trading_backend.Common.Errors.{M}

-- A row. Times are whole seconds, and a time that does not parse is `none`, as a null is.
pub record ReferralReward : Type 0 where
  pub referral_id : Option String
  pub status : Option String
  pub trigger_payment_id : Option String
  pub hold_expires_at : Option ℕ
  pub updated_at : ℕ

-- The columns of payment_transactions that are read.
pub record PaidTransaction : Type 0 where
  pub id : Option String

pub record RevocationAudit : Type 0 where
  pub transaction_id : String
  pub entity_id : String
  pub previous_state : String
  pub trigger_event_id : String
  pub trigger_payment_id : String

abbrev pub update_rewards :
    (ReferralReward → Bool)
    → (ReferralReward → ReferralReward)
    → List ReferralReward
    → List ReferralReward
update_rewards matches change [] = []
update_rewards matches change (r ∷ rows) =
    (if matches r then change r else r) ∷ update_rewards matches change rows

-- The change that the code makes of one row.
pub data Edge : ReferralReward → ReferralReward → Type 0 where
  revoke :
      (r : ReferralReward) (hold at now_utc : ℕ)
      → r.status ≡ some "on_hold"
      → r.hold_expires_at ≡ some hold
      → now_utc < hold
      → Edge r (record r { status = some "revoked"; updated_at = at })

-- A relation of tables: what other workers may do.
abbrev pub TableRelation : Type 1
TableRelation = List ReferralReward → List ReferralReward → Type 0

-- One change of the table: of the rows that a filter matches, or one that others make.
pub data TableStep (Others : TableRelation)
    : List ReferralReward → List ReferralReward → Type 0 where
  change :
      (matches : ReferralReward → Bool) (f : ReferralReward → ReferralReward)
      (rows : List ReferralReward)
      → ((r : ReferralReward) → matches r ≡ true → Edge r (f r))
      → TableStep Others rows (update_rewards matches f rows)
  others : {a b : List ReferralReward} → Others a b → TableStep Others a b

abbrev pub Steps : TableRelation → TableRelation
Steps Others = StepsOf (TableStep Others)

-- The row of a reward is in the table, and it is revoked.
abbrev pub IsRevoked : String → List ReferralReward → Type 0
IsRevoked id rows =
    (r : ReferralReward) × In r rows × (r.referral_id ≡ some id) × (r.status ≡ some "revoked")

pub record Database : Type 1 where
  pub S : Type 0
  pub rewards : S → List ReferralReward
  -- What other workers may do to the table at any time.
  pub Others : List ReferralReward → List ReferralReward → Type 0
  pub utc_now : S → ℕ
  pub validate_uuid : String → Option String
  pub get_transactions : String → M S (List PaidTransaction)
  pub get_rewards : (ReferralReward → Bool) → M S (List ReferralReward)
  pub patch_rewards :
      (ReferralReward → Bool) → (ReferralReward → ReferralReward) → M S (List ReferralReward)
  pub insert_audit : RevocationAudit → M S (Unit {0})

pub record IsLawful (db : Database) : Type 0 where
  pub get_transactions-Steps :
      (id : String) (s : db.S)
      → StepsOf db.Others (db.rewards s) (db.rewards (db.get_transactions id s).0)
  pub get_rewards-Steps :
      (f : ReferralReward → Bool) (s : db.S)
      → StepsOf db.Others (db.rewards s) (db.rewards (db.get_rewards f s).0)
  pub insert_audit-Steps :
      (a : RevocationAudit) (s : db.S)
      → StepsOf db.Others (db.rewards s) (db.rewards (db.insert_audit a s).0)
  -- No other worker takes a revoked reward back.
  pub others-IsRevoked :
      (a b : List ReferralReward) (id : String) → db.Others a b → IsRevoked id a → IsRevoked id b
  -- A read answers with rows of the table that its filter matches.
  pub get_rewards-match :
      (f : ReferralReward → Bool) (s : db.S) {rows : List ReferralReward}
      → (db.get_rewards f s).1 ≡ some rows
      → All (λ r. (f r ≡ true) × In r (db.rewards (db.get_rewards f s).0)) rows
  -- A write is made whole or, where it fails, perhaps not at all, and answers with the rows that it changed.
  pub patch_rewards-Changed :
      (matches : ReferralReward → Bool) (f : ReferralReward → ReferralReward) (s : db.S)
      → ChangedBy db.Others
          (update_rewards matches f)
          (db.rewards s)
          (db.rewards (db.patch_rewards matches f s).0)
  pub patch_rewards-match :
      (matches : ReferralReward → Bool) (f : ReferralReward → ReferralReward) (s : db.S)
      {rows : List ReferralReward}
      → (db.patch_rewards matches f s).1 ≡ some rows
      → All
          (λ r'.
            (r : ReferralReward) × (matches r ≡ true)
            × (f r ≡ r')
            × In r' (db.rewards (db.patch_rewards matches f s).0))
          rows
