-- ===== src/Trials/Requests.antt =====
-- trial_policy.py: what each request says of the device's row.
use Prim.Native.String.{String}
use mathlib.Core.Option.{none-ne-some, some-injective}
use mathlib.Core.Path.{subst}
use ai_trading_backend.Common.{
  ◌≡◌, ◌≢◌, refl, ap, ◌∙◌, Bool, true, false, not, none, some, leb, if◌then◌else◌, arith,
}
use ai_trading_backend.Common.Errors.{M, ◌>>=◌, ◌>>◌, return, fail}
use ai_trading_backend.Common.Hoare.{Leaves, >>=-Leaves, return-Leaves, fail-Leaves, if-Leaves}
use ai_trading_backend.Trials.Database.{
  Body, Reply, request_error, answered, has_rows, is_accepted, body, Database, IsLawful,
}
use ai_trading_backend.Trials.Policy
use ai_trading_backend.Trials.Policy.{
  Platform, Credentials, TrialPolicyOutcome, checked, send, hash_device_id,
  is_same_email_reclaim_trial, apply_trial_policy_for_exchange,
}

-- The first user of the device with a hash, and that it has one.
abbrev pub Owned : (db : Database) → String → String → db.S → Type 0
Owned db hash user s = db.first_user s hash ≡ some user

abbrev pub Known : (db : Database) → String → db.S → Type 0
Known db hash s = (owner : String) × Owned db hash owner s

abbrev pub Foreign : (db : Database) → String → String → db.S → Type 0
Foreign db hash user s = (owner : String) × Owned db hash owner s × (owner ≢ user)

unless :
    {A : Type 0} (Q : A → Type 0) (refused : Bool) (x a : A)
    → (not refused ≡ true → Q x)
    → (if refused then none else some x) ≡ some a
    → Q a
unless Q true x a h e = absurd (none-ne-some a e)
unless Q false x a h e = subst Q (some-injective x a e) (h refl)

checked_lem :
    {S A : Type 0} (Q : Body A → S → Type 0) (p : S × Reply A)
    → (is_accepted p.1 ≡ true → Q (body p.1) p.0)
    → (json : Body A) → (checked p).1 ≡ some json
    → Q json (checked p).0
checked_lem Q (s, request_error) h json e = absurd (none-ne-some json e)
checked_lem Q (s, answered code found) h json e = unless (λ x. Q x s) (leb 400 code) found json h e

send-Leaves :
    {S A : Type 0} (P : S → Type 0) (Q : Body A → S → Type 0) (ask : S → S × Reply A)
    → ((s : S) → P s → is_accepted (ask s).1 ≡ true → Q (body (ask s).1) (ask s).0)
    → Leaves P (send ask) Q
unfolding send
send-Leaves P Q ask h = record { run = λ s ready. checked_lem Q (ask s) (h s ready) }

module _ (platform : Platform) (settings : Credentials) (db : Database) (law : IsLawful db) where
  open db use {S}

  -- A request to the tables, with what is made of its answer.
  asked-Leaves :
      {A B : Type 0} (P : S → Type 0) (Q : Body A → S → Type 0) (R : B → S → Type 0)
      (ask : S → S × Reply A) (f : Body A → M S B)
      → ((s : S) → P s → is_accepted (ask s).1 ≡ true → Q (body (ask s).1) (ask s).0)
      → ((json : Body A) → Leaves (Q json) (f json) R)
      → Leaves P (Policy.configured platform settings db >> send ask >>= f) R
  unfolding Policy.configured
  asked-Leaves P Q R ask f h k =
      >>=-Leaves P Q R _ f
        (>>=-Leaves P (λ done. P) Q _ (λ done. send ask)
          (if-Leaves P _ (return tt) fail (λ done. P)
            (λ set. return-Leaves P (λ done. P) tt (λ s ready. ready))
            (λ unset. fail-Leaves P (λ done. P)))
          (λ done. send-Leaves P Q ask h))
        k

  pub mark_device_trial_first_use-Leaves :
      (hash user user_agent address : String)
      → Leaves
          (λ s. Unit {0})
          (Policy.mark_device_trial_first_use platform settings db hash user user_agent address)
          (λ made s. (made ≡ true → Owned db hash user s) × Known db hash s)
  unfolding Policy.mark_device_trial_first_use
  mark_device_trial_first_use-Leaves hash user user_agent address =
      asked-Leaves (λ s. Unit {0})
        (λ json s. (has_rows json ≡ true → Owned db hash user s) × Known db hash s) _ _ _
        (λ s ready accepted.
          (law.insert_device-made _ s accepted, law.insert_device-there _ s accepted))
        (λ json. return-Leaves _ _ (has_rows json) (λ s known. known))

  pub device_belongs_to_current_user-Leaves :
      (hash user : String)
      → Leaves
          (Known db hash)
          (Policy.device_belongs_to_current_user platform settings db hash user)
          (λ same s. (same ≡ true → Owned db hash user s) × (same ≡ false → Foreign db hash user s))
  unfolding Policy.device_belongs_to_current_user
  device_belongs_to_current_user-Leaves hash user =
      asked-Leaves (Known db hash)
        (λ json s.
          (has_rows json ≡ true → Owned db hash user s)
          × (has_rows json ≡ false → Foreign db hash user s))
        _ _ _
        (λ s known accepted. (
          law.get_devices-match hash user s accepted,
          λ empty. (
            known.0,
            law.get_devices-Kept hash user s hash known.0 known.1,
            λ same.
                let there : has_rows (body (db.get_devices hash user s).1) ≡ true =
                  law.get_devices-there hash user s (known.1 ∙ ap some same) accepted in
                ground arith,
          ),
        ))
        (λ json. return-Leaves _ _ (has_rows json) (λ s known. known))

  pub disable_trial_entitlement-Leaves :
      (hash user : String)
      → Leaves
          (Foreign db hash user)
          (Policy.disable_trial_entitlement platform settings db user)
          (λ done s. Foreign db hash user s × (db.on_trial s user ≡ false))
  unfolding Policy.disable_trial_entitlement
  disable_trial_entitlement-Leaves hash user =
      asked-Leaves (Foreign db hash user)
        (λ json s. Foreign db hash user s × (db.on_trial s user ≡ false)) _ _ _
        (λ s known accepted. (
          (known.0, law.expire_trials-Kept user s hash known.0 known.1, known.2),
          law.expire_trials-none user s accepted,
        ))
        (λ json. return-Leaves _ _ tt (λ s known. known))
