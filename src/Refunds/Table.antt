-- ===== src/Refunds/Table.antt =====
-- The table of referral_rewards over any changes, and over the calls of reward_revocation.py.
use Prim.Native.String.{String}
use text.Mathlib.TextEquality.{eq_iff}
use ai_trading_backend.Common.{
  In, ℕ, ◌<◌, ◌≡◌, refl, ap, inl, inr, Bool, true, Option, none, some, List, [], ◌∷◌, if◌then◌else◌,
  Bool-cases, ltb→lt, arith,
}
use ai_trading_backend.Refunds.Rewards.{
  ReferralReward, update_rewards, Edge, revoke, TableStep, Steps, here, next, IsRevoked, Database,
  IsLawful,
}
use ai_trading_backend.Refunds.Revocation.{column_is, later_than, cas_filter}

unfoldable pub one :
    (ReferralReward → Bool) → (ReferralReward → ReferralReward) → ReferralReward → ReferralReward
one matches f r = if matches r then f r else r

pub In-update :
    (matches : ReferralReward → Bool) (f : ReferralReward → ReferralReward) (r : ReferralReward)
    (rows : List ReferralReward)
    → In r rows
    → In (one matches f r) (update_rewards matches f rows)
unfolding one
In-update matches f r [] found = absurd found
In-update matches f r (x ∷ rows) (inl same) = inl (ap (λ y. if matches y then f y else y) same)
In-update matches f r (x ∷ rows) (inr later) = inr (In-update matches f r rows later)

Edge-revoked :
    (id : String) (r r' : ReferralReward)
    → Edge r r'
    → r.referral_id ≡ some id
    → r.status ≡ some "revoked"
    → (r'.referral_id ≡ some id) × (r'.status ≡ some "revoked")
Edge-revoked id r r' (revoke a hold at now_utc on_hold held before) same revoked = (same, refl)

one-revoked :
    (id : String) (matches : ReferralReward → Bool) (f : ReferralReward → ReferralReward)
    (r : ReferralReward)
    → (matches r ≡ true → Edge r (f r))
    → r.referral_id ≡ some id
    → r.status ≡ some "revoked"
    → ((one matches f r).referral_id ≡ some id) × ((one matches f r).status ≡ some "revoked")
unfolding one
one-revoked id matches f r edge same revoked = elim (Bool-cases (matches r)) [
  | inl m ↦ rw m (Edge-revoked id r (f r) (edge m) same revoked)
  | inr m ↦ rw m (same, revoked)
]

module _ (db : Database) (law : IsLawful db) where
  TableStep-IsRevoked :
      (id : String) (a b : List ReferralReward)
      → TableStep db.Others a b
      → IsRevoked id a
      → IsRevoked id b
  TableStep-IsRevoked id a b (TableStep.change matches f rows edges) (r, found, same, revoked) =
      let kept = one-revoked id matches f r (edges r) same revoked in
      (one matches f r, In-update matches f r rows found, kept.0, kept.1)
  TableStep-IsRevoked id a b (TableStep.others s) h = law.others-IsRevoked a b id s h

  -- A revoked reward stays revoked.
  pub Steps-IsRevoked :
      (id : String) {a b : List ReferralReward}
      → Steps db.Others a b
      → IsRevoked id a
      → IsRevoked id b
  Steps-IsRevoked id here h = h
  Steps-IsRevoked id (next {b = between} {c = after} p s) h =
      TableStep-IsRevoked id between after s (Steps-IsRevoked id p h)

pub column_is-some : (c : Option String) (text : String) → column_is c text ≡ true → c ≡ some text
column_is-some none text e = absurd (ground arith)
column_is-some (some value) text e = ap some ((eq_iff value text).0 e)

later_than-some :
    (t : Option ℕ) (now_utc : ℕ)
    → later_than t now_utc ≡ true
    → (hold : ℕ) × (t ≡ some hold) × (now_utc < hold)
later_than-some none now_utc e = absurd (ground arith)
later_than-some (some hold) now_utc e = (hold, refl, ltb→lt now_utc hold e)

-- What the update of the code changes is a revocation.
pub cas_filter-Edge :
    (id : String) (now_utc at : ℕ) (r : ReferralReward)
    → cas_filter id "on_hold" now_utc r ≡ true
    → Edge r (record r { status = some "revoked"; updated_at = at })
cas_filter-Edge id now_utc at r e =
    let on_hold : column_is r.status "on_hold" ≡ true = ground arith in
    let later : later_than r.hold_expires_at now_utc ≡ true = ground arith in
    let held = later_than-some r.hold_expires_at now_utc later in
    revoke r held.0 at now_utc (column_is-some r.status "on_hold" on_hold) held.1 held.2

pub cas_filter-id :
    (id : String) (now_utc : ℕ) (r : ReferralReward)
    → cas_filter id "on_hold" now_utc r ≡ true
    → r.referral_id ≡ some id
cas_filter-id id now_utc r e =
    let same : column_is r.referral_id id ≡ true = ground arith in
    column_is-some r.referral_id id same
