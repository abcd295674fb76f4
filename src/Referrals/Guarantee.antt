-- ===== src/Referrals/Guarantee.antt =====
-- Whatever a computation does to the table, it does by changes of the machine; other workers may change it too.
pub mod Marks
pub mod Resumes
pub mod Rounds
pub mod Whole
use Prim.Native.String.{String}
use ai_trading_backend.Common.{
  ℕ, ◌+◌, ◌*◌, ◌<◌, ◌≡◌, refl, sym, ◌⊎◌, inl, inr, Bool, true, false, Option, none, some, List, [],
  ◌∷◌, ◌++◌, any, if◌then◌else◌, All, arith, Bool-cases,
}
use mathlib.Core.Path.{subst}
use ai_trading_backend.Common.Steps.{StepsOf, Steps-lift, Changed-Steps}
use ai_trading_backend.Referrals.Machine.{
  Cycle, Status, same_status, Edge, update, same_key, insert_new, IsSeed, TableStep, Steps, here,
  next, Steps-trans,
}
use ai_trading_backend.Referrals.World.{
  M, then_at, recover_at, ◌>>=◌, return, fail, try_except, Query, Reward, Subscription, Payload,
  World,
}
use ai_trading_backend.Referrals.Cycles.{row_filter, now}

pub same_status-eq : (a b : Status) → same_status a b ≡ true → a ≡ b
same_status-eq a b h = ground arith

pub row_filter-status :
    (id : String) (n : ℕ) (expected : Status) (confirmed : Option Bool) (r : Cycle)
    → row_filter id n (some expected) confirmed r ≡ true
    → r.status ≡ expected
row_filter-status id n expected confirmed r h = ground (arith, same_status-eq r.status expected)

pub row_filter-confirmed :
    (id : String) (n : ℕ) (expected : Option Status) (r : Cycle)
    → row_filter id n expected (some true) r ≡ true
    → r.pause_confirmed ≡ true
row_filter-confirmed id n expected r h = ground arith

pub insert_new-Steps :
    {Others : List Cycle → List Cycle → Type 0} (fresh rows : List Cycle)
    → All IsSeed fresh
    → Steps Others rows (insert_new fresh rows)
insert_new-Steps [] rows h = here
insert_new-Steps (r ∷ fresh) rows h = elim (Bool-cases (any (same_key r) rows)) [
  | inl known ↦ rw known (insert_new-Steps fresh rows h.1)
  | inr new_row ↦ rw new_row (
      Steps-trans (next here (TableStep.seed r rows h.0 new_row))
        (insert_new-Steps fresh (rows ++ r ∷ []) h.1))
]

module _ (w : World) where
  open w use {
    S, cycles, Others, get_cycles, get_cycles_steps, get_rewards, get_rewards_steps, patch_rewards,
    patch_rewards_steps, get_subscriptions, get_subscriptions_steps, post, post_steps, patch_cycles,
    patch_cycles_changed, insert_cycles, insert_cycles_changed,
  }

  by_others : {a b : List Cycle} → StepsOf Others a b → Steps Others a b
  by_others p = Steps-lift (λ x y s. TableStep.others s) p

  pub record Keeps {A : Type 0} (m : M S A) : Type 0 where
    pub steps : (s : S) → Steps Others (cycles s) (cycles (m s).0)

  -- What every answer satisfies.
  abbrev pub Ensures : {A : Type 0} → M S A → (A → Type 0) → Type 0
  Ensures {A} m P = (s : S) (a : A) → (m s).1 ≡ some a → P a

  then_at-Steps :
      {A B : Type 0} (rows : List Cycle) (f : A → M S B) (r : S × Option A)
      → Steps Others rows (cycles r.0)
      → ((a : A) → r.1 ≡ some a → Keeps (f a))
      → Steps Others rows (cycles (then_at f r).0)
  then_at-Steps rows f (s, none) h k = h
  then_at-Steps rows f (s, some a) h k = Steps-trans h ((k a refl).steps s)

  pub >>=-Keeps_ensured :
      {A B : Type 0} (P : A → Type 0) (m : M S A) (f : A → M S B)
      → Keeps m
      → Ensures m P
      → ((a : A) → P a → Keeps (f a))
      → Keeps (m >>= f)
  unfolding ◌>>=◌
  >>=-Keeps_ensured P m f h e k = record {
    steps = λ s. then_at-Steps (cycles s) f (m s) (h.steps s) (λ a found. k a (e s a found));
  }

  pub >>=-Keeps :
      {A B : Type 0} (m : M S A) (f : A → M S B)
      → Keeps m
      → ((a : A) → Keeps (f a))
      → Keeps (m >>= f)
  unfolding ◌>>=◌
  >>=-Keeps m f h k = record {
    steps = λ s. then_at-Steps (cycles s) f (m s) (h.steps s) (λ a found. k a);
  }

  pub return-Keeps : {A : Type 0} (a : A) → Keeps (return a)
  unfolding return
  return-Keeps a = record { steps = λ s. here }

  pub fail-Keeps : {A : Type 0} → Keeps (fail {A = A})
  unfolding fail
  fail-Keeps = record { steps = λ s. here }

  pub now-Keeps : Keeps (now w)
  unfolding now
  now-Keeps = record { steps = λ s. here }

  pub if-Keeps :
      {A : Type 0} (b : Bool) (m n : M S A) → Keeps m → Keeps n → Keeps (if b then m else n)
  if-Keeps true m n h k = h
  if-Keeps false m n h k = k

  recover_at-Steps :
      {A : Type 0} (rows : List Cycle) (handler : M S A) (r : S × Option A)
      → Steps Others rows (cycles r.0)
      → Keeps handler
      → Steps Others rows (cycles (recover_at handler r).0)
  recover_at-Steps rows handler (s, none) h k = Steps-trans h (k.steps s)
  recover_at-Steps rows handler (s, some a) h k = h

  pub try_except-Keeps :
      {A : Type 0} (body handler : M S A)
      → Keeps body
      → Keeps handler
      → Keeps (try_except body handler)
  unfolding try_except
  try_except-Keeps body handler h k = record {
    steps = λ s. recover_at-Steps (cycles s) handler (body s) (h.steps s) k;
  }

  pub get_cycles-Keeps : (q : Query) → Keeps (get_cycles q)
  get_cycles-Keeps q = record { steps = λ s. by_others (get_cycles_steps q s) }

  pub get_rewards-Keeps : (f : Reward → Bool) (n : ℕ) → Keeps (get_rewards f n)
  get_rewards-Keeps f n = record { steps = λ s. by_others (get_rewards_steps f n s) }

  pub patch_rewards-Keeps : (f : Reward → Bool) (g : Reward → Reward) → Keeps (patch_rewards f g)
  patch_rewards-Keeps f g = record { steps = λ s. by_others (patch_rewards_steps f g s) }

  pub get_subscriptions-Keeps :
      (f : Subscription → Bool) (n : Option ℕ) → Keeps (get_subscriptions f n)
  get_subscriptions-Keeps f n = record { steps = λ s. by_others (get_subscriptions_steps f n s) }

  pub post-Keeps : (url : String) (payload : Payload) (key : String) → Keeps (post url payload key)
  post-Keeps url payload key = record { steps = λ s. by_others (post_steps url payload key s) }

  pub patch_cycles-Keeps :
      (matches : Cycle → Bool) (change : Cycle → Cycle)
      → ((r : Cycle) → matches r ≡ true → Edge r (change r))
      → Keeps (patch_cycles matches change)
  patch_cycles-Keeps matches change h = record {
    steps = λ s.
        Changed-Steps (λ x y s. TableStep.others s) (update matches change) (cycles s)
          (cycles (patch_cycles matches change s).0)
          (λ mid. next here (TableStep.change matches change mid h))
          (patch_cycles_changed matches change s);
  }

  pub insert_cycles-Keeps : (fresh : List Cycle) → All IsSeed fresh → Keeps (insert_cycles fresh)
  insert_cycles-Keeps fresh h = record {
    steps = λ s.
        Changed-Steps (λ x y s. TableStep.others s) (insert_new fresh) (cycles s)
          (cycles (insert_cycles fresh s).0) (λ mid. insert_new-Steps fresh mid h)
          (insert_cycles_changed fresh s);
  }

pub ruleset keeps_rules = (
  >>=-Keeps, return-Keeps, fail-Keeps, now-Keeps, if-Keeps, try_except-Keeps, get_cycles-Keeps,
  get_rewards-Keeps, patch_rewards-Keeps, get_subscriptions-Keeps, post-Keeps,
)
