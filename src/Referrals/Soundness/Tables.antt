-- ===== src/Referrals/Soundness/Tables.antt =====
-- Tables of referral_reward_pause_cycles under the changes of the machine, and under a whole run.
use text.Mathlib.TextEquality.{eq_iff}
use mathlib.Core.Path.{subst}
use ai_trading_backend.Common.{
  ℕ, zero, suc, ◌≡◌, refl, ap, ◌∙◌, inl, inr, Bool, true, false, ◌||◌, some, List, [], ◌∷◌, ◌++◌,
  any, get_elem?, All-append, if◌then◌else◌, arith, Bool-cases,
}
use ai_trading_backend.Referrals.Machine.{
  Cycle, Edge, update, same_key, IsSeed, TableStep, Steps, here, next,
}
use ai_trading_backend.Referrals.World.{World}
use ai_trading_backend.Referrals.Pause.{Config}
use ai_trading_backend.Referrals.Run.{run_referral_pause_resume_cycle}
use ai_trading_backend.Referrals.Guarantee.Whole.{run_referral_pause_resume_cycle-Steps}
use ai_trading_backend.Referrals.Soundness.{
  stage, IsSoundRow, Apart, IsSoundTable, Progress, Progress-refl, Edge-Progress, Edge-IsSoundRow,
}

-- The rows that a filter matches, changed, and the others as they are.
update-Progress :
    (matches : Cycle → Bool) (f : Cycle → Cycle) (r : Cycle)
    → ((r : Cycle) → matches r ≡ true → Edge r (f r))
    → Progress r (if matches r then f r else r)
update-Progress matches f r h = elim (Bool-cases (matches r)) [
  | inl e ↦ rw e (Edge-Progress (h r e))
  | inr e ↦ rw e (Progress-refl r)
]

update-IsSoundRow :
    (matches : Cycle → Bool) (f : Cycle → Cycle) (r : Cycle)
    → ((r : Cycle) → matches r ≡ true → Edge r (f r))
    → IsSoundRow r
    → IsSoundRow (if matches r then f r else r)
update-IsSoundRow matches f r h sound = elim (Bool-cases (matches r)) [
  | inl e ↦ rw e (Edge-IsSoundRow (h r e) sound)
  | inr e ↦ rw e sound
]

same_key-Progress :
    (a a' b b' : Cycle) → Progress a a' → Progress b b' → same_key a' b' ≡ same_key a b
same_key-Progress a a' b b' p q = rw (p.same_reward, p.same_cycle, q.same_reward, q.same_cycle) refl

any-update :
    (matches : Cycle → Bool) (f : Cycle → Cycle) (r r' : Cycle) (rows : List Cycle)
    → ((r : Cycle) → matches r ≡ true → Edge r (f r))
    → Progress r r'
    → any (same_key r') (update matches f rows) ≡ any (same_key r) rows
any-update matches f r r' [] h p = refl
any-update matches f r r' (x ∷ rows) h p =
    rw
      (
        same_key-Progress r r' x (if matches x then f x else x) p (update-Progress matches f x h),
        any-update matches f r r' rows h p,
      )
      refl

update-IsSoundTable :
    (matches : Cycle → Bool) (f : Cycle → Cycle) (rows : List Cycle)
    → ((r : Cycle) → matches r ≡ true → Edge r (f r))
    → IsSoundTable rows
    → IsSoundTable (update matches f rows)
update-IsSoundTable matches f [] h sound = (tt, tt)
update-IsSoundTable matches f (r ∷ rows) h ((first, all), (apart, rest)) =
    let (all', rest') = update-IsSoundTable matches f rows h (all, rest) in
    (
      (update-IsSoundRow matches f r h first, all'),
      (
        any-update matches f r (if matches r then f r else r) rows h (update-Progress matches f r h)
            ∙ apart,
        rest',
      ),
    )

first_false : (a b : Bool) → (a || b) ≡ false → a ≡ false
first_false a b h = ground arith

second_false : (a b : Bool) → (a || b) ≡ false → b ≡ false
second_false a b h = ground arith

same_key-sym : (a b : Cycle) → same_key a b ≡ same_key b a
same_key-sym a b = ground (arith, eq_iff a.reward_id b.reward_id, eq_iff b.reward_id a.reward_id)

any-append :
    (p : Cycle → Bool) (rows : List Cycle) (r : Cycle)
    → any p rows ≡ false
    → p r ≡ false
    → any p (rows ++ r ∷ []) ≡ false
any-append p [] r h e = rw e refl
any-append p (x ∷ rows) r h e = ground (arith, any-append p rows r)

Apart-append :
    (rows : List Cycle) (r : Cycle)
    → any (same_key r) rows ≡ false
    → Apart rows
    → Apart (rows ++ r ∷ [])
Apart-append [] r h a = (refl, tt)
Apart-append (x ∷ rows) r h (apart, rest) = (
  any-append (same_key x) rows r apart (same_key-sym x r ∙ first_false _ _ h),
  Apart-append rows r (second_false _ _ h) rest,
)

seed-IsSoundRow : (r : Cycle) → IsSeed r → IsSoundRow r
seed-IsSoundRow r h e = absurd (omega (arith, e, ap stage h.waits))

-- The other workers keep a sound table sound.
abbrev pub KeepSound : (List Cycle → List Cycle → Type 0) → Type 0
KeepSound Others = (a b : List Cycle) → Others a b → IsSoundTable a → IsSoundTable b

module _ {Others : List Cycle → List Cycle → Type 0} (keep_sound : KeepSound Others) where
  TableStep-IsSoundTable :
      {a b : List Cycle} → TableStep Others a b → IsSoundTable a → IsSoundTable b
  TableStep-IsSoundTable (TableStep.change matches f rows h) sound =
      update-IsSoundTable matches f rows h sound
  TableStep-IsSoundTable (TableStep.seed r rows h fresh) (all, apart) = (
    All-append IsSoundRow rows (r ∷ []) all (seed-IsSoundRow r h, tt),
    Apart-append rows r fresh apart,
  )
  TableStep-IsSoundTable (TableStep.others s) sound = keep_sound _ _ s sound

  Steps-IsSoundTable : {a b : List Cycle} → Steps Others a b → IsSoundTable a → IsSoundTable b
  Steps-IsSoundTable here sound = sound
  Steps-IsSoundTable (next p s) sound = TableStep-IsSoundTable s (Steps-IsSoundTable p sound)

-- What the row at a place becomes.
abbrev pub ProgressAt : ℕ → Cycle → List Cycle → Type 0
ProgressAt i r rows = (r' : Cycle) × (get_elem? rows i ≡ some r') × Progress r r'

Progress-trans : {a b c : Cycle} → Progress a b → Progress b c → Progress a c
Progress-trans {a} {b} p q = record {
  same_reward = q.same_reward ∙ p.same_reward;
  same_cycle = q.same_cycle ∙ p.same_cycle;
  onward = omega (arith, p.onward, q.onward);
  final = λ h. q.final (ap (λ (r : Cycle). stage r.status) (p.final h) ∙ h) ∙ p.final h;
}

update-ProgressAt :
    (matches : Cycle → Bool) (f : Cycle → Cycle) (i : ℕ) (r : Cycle) (rows : List Cycle)
    → ((r : Cycle) → matches r ≡ true → Edge r (f r))
    → get_elem? rows i ≡ some r
    → ProgressAt i r (update matches f rows)
update-ProgressAt matches f i r [] h e = absurd cc
update-ProgressAt matches f zero r (x ∷ rows) h e =
    let same : x ≡ r = cc in
    (
      _,
      refl,
      subst (λ y. Progress y (if matches x then f x else x)) same (update-Progress matches f x h),
    )
update-ProgressAt matches f (suc i) r (x ∷ rows) h e = update-ProgressAt matches f i r rows h e

get_elem?-append :
    (i : ℕ) (r : Cycle) (rows : List Cycle) (x : Cycle)
    → get_elem? rows i ≡ some r
    → get_elem? (rows ++ x ∷ []) i ≡ some r
get_elem?-append i r [] x e = absurd cc
get_elem?-append zero r (y ∷ rows) x e = e
get_elem?-append (suc i) r (y ∷ rows) x e = get_elem?-append i r rows x e

-- The other workers take each row onward, as the code does.
abbrev pub KeepProgress : (List Cycle → List Cycle → Type 0) → Type 0
KeepProgress Others =
    (a b : List Cycle) (i : ℕ) (r : Cycle) → Others a b → get_elem? a i ≡ some r → ProgressAt i r b

module _ {Others : List Cycle → List Cycle → Type 0} (keep_progress : KeepProgress Others) where
  TableStep-ProgressAt :
      {a b : List Cycle} (i : ℕ) (r : Cycle)
      → TableStep Others a b
      → get_elem? a i ≡ some r
      → ProgressAt i r b
  TableStep-ProgressAt i r (TableStep.change matches f rows h) e =
      update-ProgressAt matches f i r rows h e
  TableStep-ProgressAt i r (TableStep.seed x rows h fresh) e =
      (r, get_elem?-append i r rows x e, Progress-refl r)
  TableStep-ProgressAt i r (TableStep.others s) e = keep_progress _ _ i r s e

  Steps-ProgressAt :
      {a b : List Cycle} (i : ℕ) (r : Cycle)
      → Steps Others a b
      → get_elem? a i ≡ some r
      → ProgressAt i r b
  Steps-ProgressAt i r here e = (r, e, Progress-refl r)
  Steps-ProgressAt i r (next p s) e =
      let (mid, at_mid, first) = Steps-ProgressAt i r p e in
      let (last, at_last, second) = TableStep-ProgressAt i mid s at_mid in
      (last, at_last, Progress-trans first second)

module _ (w : World) where
  open w use {S, cycles, Others}

  -- Where every change that other workers make keeps a sound table sound: whatever the services answer or
  -- fail at, and in whatever order the changes come, a run keeps a sound table sound. Every pause in force is
  -- confirmed and has free access until its end, and no reward has two rows for one cycle.
  pub run_referral_pause_resume_cycle-IsSound :
      (cfg : Config) (s : S)
      → KeepSound Others
      → IsSoundTable (cycles s)
      → IsSoundTable (cycles (run_referral_pause_resume_cycle w cfg s).0)
  run_referral_pause_resume_cycle-IsSound cfg s keep_sound sound =
      Steps-IsSoundTable keep_sound (run_referral_pause_resume_cycle-Steps w cfg s) sound

  -- Where every change that other workers make leaves each row at its place, for the same cycle of the same
  -- reward, at the same stage or a later one, and a resumed row as it was: whatever the services answer or
  -- fail at, and in whatever order the changes come, so does a run. A pause in force is never begun again.
  pub run_referral_pause_resume_cycle-Progress :
      (cfg : Config) (s : S) (i : ℕ) (r : Cycle)
      → KeepProgress Others
      → get_elem? (cycles s) i ≡ some r
      → ProgressAt i r (cycles (run_referral_pause_resume_cycle w cfg s).0)
  run_referral_pause_resume_cycle-Progress cfg s i r keep_progress e =
      Steps-ProgressAt keep_progress i r (run_referral_pause_resume_cycle-Steps w cfg s) e
