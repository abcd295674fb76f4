-- ===== src/Refunds/Sound.antt =====
-- reward_revocation.py: what its answer says of the table of rewards.
use Prim.Native.String.{String}
use text.Mathlib.Text.{◌==◌ as str_eq}
use ai_trading_backend.Common.{◌≡◌, ◌⊎◌, Bool, false, ◌||◌, Option, none, some, List}
use ai_trading_backend.Refunds.Rewards.{IsRevoked, ReferralReward, Database, IsLawful}
use ai_trading_backend.Refunds.Revocation
use ai_trading_backend.Refunds.Revocation.{RefundRevocationResult}

-- An answer that says that the reward is revoked.
abbrev pub says_revoked : RefundRevocationResult → Bool
says_revoked o = str_eq o.outcome "success" || str_eq o.outcome "already_revoked"

-- Such an answer is true of the table.
abbrev pub IsTrue : RefundRevocationResult → List ReferralReward → Type 0
IsTrue o rows =
    (says_revoked o ≡ false) ⊎ ((id : String) × (o.reward_id ≡ some id) × IsRevoked id rows)

-- An error says nothing.
abbrev pub IsTrueAnswer : Option RefundRevocationResult → List ReferralReward → Type 0
IsTrueAnswer none rows = Unit {0}
IsTrueAnswer (some o) rows = IsTrue o rows

module _ (db : Database) (law : IsLawful db) where
  open db use {S, rewards}

  abbrev Anything : S → Type 0
  Anything s = Unit {0}

  abbrev True : RefundRevocationResult → S → Type 0
  True o s = IsTrue o (rewards s)
