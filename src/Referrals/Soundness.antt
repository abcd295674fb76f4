-- ===== src/Referrals/Soundness.antt =====
-- What the changes of referral_reward_pause_cycles keep, and how far they can take a row.
pub mod Tables
use Prim.Native.String.{String}
use text.Mathlib.Text.{◌==◌ as str_eq}
use text.Mathlib.TextEquality.{eq_iff}
use mathlib.Core.Path.{subst}
use mathlib.Core.Logic.{◌⊎◌}
use ai_trading_backend.Common.{
  ℕ, zero, suc, ◌≤◌, ◌≡◌, refl, sym, ap, ◌∙◌, inl, inr, Bool, true, false, ◌&&◌, ◌||◌, Option, none,
  some, List, [], ◌∷◌, ◌++◌, ◌==◌, any, get_elem?, All, All-append, if◌then◌else◌, arith,
  Bool-cases,
}
use ai_trading_backend.Referrals.Machine.{
  Cycle, Status, Edge, update, same_key, IsSeed, TableStep, Steps, here, next,
}
use ai_trading_backend.Referrals.World.{World}
use ai_trading_backend.Referrals.Pause.{Config}
use ai_trading_backend.Referrals.Run.{run_referral_pause_resume_cycle}
use ai_trading_backend.Referrals.Guarantee.Whole.{run_referral_pause_resume_cycle-Steps}

-- How far a cycle is: it waits for its pause, its pause is in force, or it is over.
abbrev pub stage : Status → ℕ
stage Status.reward_pending = 0
stage Status.pause_pending = 0
stage Status.pause_failed = 0
stage Status.paused = 1
stage Status.resume_pending = 1
stage Status.resume_failed = 1
stage Status.resumed = 2

-- A pause in force is confirmed, and its free access ends when it does.
abbrev pub IsSoundRow : Cycle → Type 0
IsSoundRow r =
    stage r.status ≡ 1
    → (r.pause_confirmed ≡ true)
      × ((t : ℕ) × (r.pause_end_time ≡ some t) × (r.free_access_until ≡ some t))

-- No two rows have the same key.
abbrev pub Apart : List Cycle → Type 0
Apart [] = Unit
Apart (r ∷ rows) = (any (same_key r) rows ≡ false) × Apart rows

abbrev pub IsSoundTable : List Cycle → Type 0
IsSoundTable rows = All IsSoundRow rows × Apart rows

-- What a row becomes: the same cycle of the same reward, at the same stage or a later one; and a cycle
-- that is over stays as it is.
pub record Progress (r r' : Cycle) : Type 0 where
  pub same_reward : r'.reward_id ≡ r.reward_id
  pub same_cycle : r'.cycle_number ≡ r.cycle_number
  pub onward : stage r.status ≤ stage r'.status
  pub final : stage r.status ≡ 2 → r' ≡ r

Progress-refl : (r : Cycle) → Progress r r
Progress-refl r = record {
  same_reward = refl;
  same_cycle = refl;
  onward = omega arith;
  final = λ h. refl;
}

-- A change of a row of a stage before the last, which keeps its key.
forward :
    (n : ℕ) (r r' : Cycle)
    → stage r.status ≡ n
    → n ≤ 1
    → n ≤ stage r'.status
    → r'.reward_id ≡ r.reward_id
    → r'.cycle_number ≡ r.cycle_number
    → Progress r r'
forward n r r' e early later reward cycle = record {
  same_reward = reward;
  same_cycle = cycle;
  onward = omega arith;
  final = λ h. absurd (omega arith);
}

waiting_stage :
    (st : Status) → (st ≡ Status.reward_pending) ⊎ (st ≡ Status.pause_failed) → stage st ≡ 0
waiting_stage st (inl h) = ap stage h
waiting_stage st (inr h) = ap stage h

held_stage : (st : Status) → (st ≡ Status.paused) ⊎ (st ≡ Status.resume_failed) → stage st ≡ 1
held_stage st (inl h) = ap stage h
held_stage st (inr h) = ap stage h

Edge-Progress : {r r' : Cycle} → Edge r r' → Progress r r'
Edge-Progress (Edge.queue_pause r at h) =
    forward 0 r _ (waiting_stage r.status h) (omega arith) (omega arith) refl refl
Edge-Progress (Edge.refresh r last nxt at h) =
    forward 0 r _ (ap stage h) (omega arith) (omega arith) refl refl
Edge-Progress (Edge.defer r until at h) =
    forward 0 r _ (ap stage h) (omega arith) (omega arith) refl refl
Edge-Progress (Edge.fail_pause r at h) =
    forward 0 r _ (ap stage h) (omega arith) (omega arith) refl refl
Edge-Progress (Edge.pause r pause_id start duration months at pos h) =
    forward 0 r _ (ap stage h) (omega arith) (omega arith) refl refl
Edge-Progress (Edge.extend r until at h c) =
    forward 1 r _ (ap stage h) (omega arith) (omega (arith, ap stage h)) refl refl
Edge-Progress (Edge.consume r start until duration at h) =
    forward 0 r _ (ap stage h) (omega arith) (omega arith) refl refl
Edge-Progress (Edge.queue_resume r at h) =
    forward 1 r _ (held_stage r.status h) (omega arith) (omega arith) refl refl
Edge-Progress (Edge.fail_resume r at h) =
    forward 1 r _ (ap stage h) (omega arith) (omega arith) refl refl
Edge-Progress (Edge.resume r at h) =
    forward 1 r _ (ap stage h) (omega arith) (omega arith) refl refl

Edge-IsSoundRow : {r r' : Cycle} → Edge r r' → IsSoundRow r → IsSoundRow r'
Edge-IsSoundRow (Edge.queue_pause r at h) sound e = absurd (omega (arith, e))
Edge-IsSoundRow (Edge.refresh r last nxt at h) sound e = sound e
Edge-IsSoundRow (Edge.defer r until at h) sound e = sound e
Edge-IsSoundRow (Edge.fail_pause r at h) sound e = absurd (omega (arith, e))
Edge-IsSoundRow (Edge.pause r pause_id start duration months at pos h) sound e =
    (refl, (_, refl, refl))
Edge-IsSoundRow (Edge.extend r until at h c) sound e = (c, (until, refl, refl))
Edge-IsSoundRow (Edge.consume r start until duration at h) sound e = absurd (omega (arith, e))
Edge-IsSoundRow (Edge.queue_resume r at (inl h)) sound e = sound (ap stage h)
Edge-IsSoundRow (Edge.queue_resume r at (inr h)) sound e = sound (ap stage h)
Edge-IsSoundRow (Edge.fail_resume r at h) sound e = sound (ap stage h)
Edge-IsSoundRow (Edge.resume r at h) sound e = absurd (omega (arith, e))
