-- ===== src/Referrals/Machine.antt =====
-- The rows of referral_reward_pause_cycles and the changes that pause_resume.py makes to them.
use Prim.Native.String.{String}
use text.Mathlib.Text.{◌==◌ as str_eq}
use ai_trading_backend.Common.{
  ℕ, ◌+◌, ◌*◌, ◌<◌, ◌≡◌, ◌⊎◌, Bool, true, false, ◌&&◌, Option, none, some, List, [], ◌∷◌, ◌++◌, any,
  if◌then◌else◌, ◌==◌,
}
pub use ai_trading_backend.Common.Steps.{here, next, Steps-trans}
use ai_trading_backend.Common.Steps.{StepsOf}

pub data Status : Type 0 where
  reward_pending pause_pending pause_failed paused resume_pending resume_failed resumed : Status

abbrev number_of : Status → ℕ
number_of reward_pending = 0
number_of pause_pending = 1
number_of pause_failed = 2
number_of paused = 3
number_of resume_pending = 4
number_of resume_failed = 5
number_of resumed = 6

abbrev pub same_status : Status → Status → Bool
same_status a b = number_of a == number_of b

-- A row. Times are whole seconds, and a time that does not parse is `none`, as a null is.
pub record Cycle : Type 0 where
  pub reward_id : String
  pub cycle_number : ℕ
  pub status : Status
  pub razorpay_subscription_id : Option String
  pub razorpay_pause_id : Option String
  pub last_charge_at : Option ℕ
  pub next_charge_at : Option ℕ
  pub pause_start_time : Option ℕ
  pub pause_end_time : Option ℕ
  pub pause_confirmed : Bool
  pub free_access_until : Option ℕ
  pub pause_deferred_until : Option ℕ
  pub cycle_duration_seconds : Option ℕ
  pub created_at : ℕ
  pub updated_at : ℕ

-- One change of one row.
pub data Edge : Cycle → Cycle → Type 0 where
  queue_pause :
      (r : Cycle) (at : ℕ)
      → (r.status ≡ reward_pending) ⊎ (r.status ≡ pause_failed)
      → Edge r (record r { status = pause_pending; updated_at = at })
  refresh :
      (r : Cycle) (last next : Option ℕ) (at : ℕ)
      → r.status ≡ pause_pending
      → Edge r (record r { last_charge_at = last; next_charge_at = next; updated_at = at })
  defer :
      (r : Cycle) (until at : ℕ)
      → r.status ≡ pause_pending
      → Edge r (record r { pause_deferred_until = some until; updated_at = at })
  fail_pause :
      (r : Cycle) (at : ℕ)
      → r.status ≡ pause_pending
      → Edge r (record r { status = pause_failed; updated_at = at })
  pause :
      (r : Cycle) (pause_id : Option String) (start duration months at : ℕ)
      → 0 < duration * months
      → r.status ≡ pause_pending
      → Edge r (record r {
        status = paused;
        razorpay_pause_id = pause_id;
        pause_start_time = some start;
        pause_end_time = some (start + duration * months);
        pause_confirmed = true;
        free_access_until = some (start + duration * months);
        cycle_duration_seconds = some duration;
        pause_deferred_until = none;
        updated_at = at;
      })
  extend :
      (r : Cycle) (until at : ℕ)
      → r.status ≡ paused
      → r.pause_confirmed ≡ true
      → Edge r (record r {
        pause_end_time = some until;
        free_access_until = some until;
        updated_at = at;
      })
  consume :
      (r : Cycle) (start until duration at : ℕ)
      → r.status ≡ pause_pending
      → Edge r (record r {
        status = resumed;
        pause_confirmed = true;
        pause_start_time = some start;
        pause_end_time = some until;
        free_access_until = some until;
        cycle_duration_seconds = some duration;
        updated_at = at;
      })
  queue_resume :
      (r : Cycle) (at : ℕ)
      → (r.status ≡ paused) ⊎ (r.status ≡ resume_failed)
      → Edge r (record r { status = resume_pending; updated_at = at })
  fail_resume :
      (r : Cycle) (at : ℕ)
      → r.status ≡ resume_pending
      → Edge r (record r { status = resume_failed; updated_at = at })
  resume :
      (r : Cycle) (at : ℕ)
      → r.status ≡ resume_pending
      → Edge r (record r {
        status = resumed;
        pause_confirmed = false;
        free_access_until = none;
        pause_end_time = some at;
        updated_at = at;
      })

-- An update of the rows that a filter matches.
abbrev pub update : (Cycle → Bool) → (Cycle → Cycle) → List Cycle → List Cycle
update matches change [] = []
update matches change (r ∷ rows) = (if matches r then change r else r) ∷ update matches change rows

abbrev pub same_key : Cycle → Cycle → Bool
same_key a b = str_eq a.reward_id b.reward_id && (a.cycle_number == b.cycle_number)

-- An insertion that leaves out the rows whose `reward_id` and `cycle_number` are there already.
abbrev pub insert_new : List Cycle → List Cycle → List Cycle
insert_new [] rows = rows
insert_new (r ∷ fresh) rows =
    insert_new fresh (if any (same_key r) rows then rows else rows ++ r ∷ [])

-- A row as it is seeded.
pub record IsSeed (r : Cycle) : Type 0 where
  pub first : r.cycle_number ≡ 1
  pub waits : r.status ≡ reward_pending
  pub unconfirmed : r.pause_confirmed ≡ false

-- One change of the table: of the rows that a filter matches, a new row, or one that others make.
pub data TableStep (Others : List Cycle → List Cycle → Type 0)
    : List Cycle → List Cycle → Type 0 where
  change :
      (matches : Cycle → Bool) (f : Cycle → Cycle) (rows : List Cycle)
      → ((r : Cycle) → matches r ≡ true → Edge r (f r))
      → TableStep Others rows (update matches f rows)
  seed :
      (r : Cycle) (rows : List Cycle)
      → IsSeed r
      → any (same_key r) rows ≡ false
      → TableStep Others rows (rows ++ r ∷ [])
  others : {a b : List Cycle} → Others a b → TableStep Others a b

-- Any number of changes.
abbrev pub Steps : (List Cycle → List Cycle → Type 0) → List Cycle → List Cycle → Type 0
Steps Others = StepsOf (TableStep Others)
