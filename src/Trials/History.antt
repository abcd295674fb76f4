-- ===== src/Trials/History.antt =====
-- trial_policy.py over all the exchanges that a database sees, in any order and with failures.
use Prim.Native.String.{String}
use text.Mathlib.TextEquality.{eq_iff}
use mathlib.Core.Option.{some-injective}
use ai_trading_backend.Common.{
  In, In-All, ◌≡◌, inl, inr, Option-cases, sym, ap, ◌∙◌, true, Option, none, some, List, [], ◌∷◌,
  All, arith,
}
use ai_trading_backend.Trials.Database.{Trial, Database, Kept, IsLawful}
use ai_trading_backend.Trials.Policy
use ai_trading_backend.Trials.Policy.{
  Platform, Credentials, Exchange, TrialPolicyOutcome, is_same_email_reclaim_trial,
  apply_in_exchange,
}
use ai_trading_backend.Trials.Requests.{Owned}
use ai_trading_backend.Trials.Owner.{
  IsSound, no_trial, own_device, reclaimed, denied, apply_trial_policy_for_exchange-IsSound,
}
use ai_trading_backend.Trials.Keeps.{apply_in_exchange-Stays}

-- An exchange that the policy came to an outcome for, with what the user's trial was read as.
pub record Logged : Type 0 where
  pub exchange : Exchange
  pub read : Option (Option Trial)
  pub outcome : TrialPolicyOutcome

-- The trial was read as one that is resumed after a reclaim of the same email.
abbrev pub Reclaimed : Platform → Option (Option Trial) → Type 0
Reclaimed platform read =
    (trial : Trial) × (source : String) × (read ≡ some (some trial))
    × (trial.trial_source ≡ some source)
    × (platform.lower (platform.strip source) ≡ "same_email_reclaim_resume")

-- A trial that is allowed and was not read as a reclaimed one.
pub record IsGranted (platform : Platform) (x : Logged) : Type 0 where
  pub judged : x.outcome.had_active_trial ≡ true
  pub allowed : x.outcome.trial_allowed ≡ true
  pub not_reclaimed : ¬ Reclaimed platform x.read

is_same_email_reclaim_trial-Reclaimed :
    (platform : Platform) (read : Option (Option Trial)) (trial : Option Trial)
    → read ≡ some trial
    → is_same_email_reclaim_trial platform trial ≡ true
    → Reclaimed platform read
unfolding is_same_email_reclaim_trial
is_same_email_reclaim_trial-Reclaimed platform read none answer e = absurd (ground arith)
is_same_email_reclaim_trial-Reclaimed platform read (some trial) answer e =
    elim (Option-cases trial.trial_source) [
      | inl none_named ↦ absurd (cc (none_named, e))
      | inr (source, named) ↦ (
        trial,
        source,
        answer,
        named,
        (eq_iff (platform.lower (platform.strip source)) "same_email_reclaim_resume").0
            (rw named at e),
      )
    ]

module _ (platform : Platform) (settings : Credentials) (db : Database) where
  open db use {S}

  abbrev pub run : Exchange → S → S × Option TrialPolicyOutcome
  run e s = apply_in_exchange platform settings db e s

  abbrev pub log_of : Exchange → TrialPolicyOutcome → S → Logged
  log_of e o s = record {
    exchange = e;
    read = (Policy.get_active_trial_subscription platform settings db e.user_id s).1;
    outcome = o;
  }

  -- What has happened up to a state: exchanges with their outcomes, exchanges that failed, and changes that
  -- others make, who leave the rows of device_trials.
  pub data History : S → List Logged → Type 0 where
    start : (s : S) → History s []
    exchanged :
        (e : Exchange) (o : TrialPolicyOutcome) {s : S} {log : List Logged}
        → History s log
        → (run e s).1 ≡ some o
        → History (run e s).0 (log_of e o s ∷ log)
    failed :
        (e : Exchange) {s : S} {log : List Logged}
        → History s log
        → (run e s).1 ≡ none
        → History (run e s).0 log
    others : {s t : S} {log : List Logged} → History s log → Kept db s t → History t log

  -- The trial of this exchange belongs to the first user of its device.
  abbrev Belongs : S → Logged → Type 0
  Belongs s x =
      IsGranted platform x
      → (hash : String) × (x.outcome.device_id_hash ≡ some hash)
        × Owned db hash x.exchange.user_id s

  Belongs-later :
      (s t : S) (log : List Logged) → Kept db s t → All (Belongs s) log → All (Belongs t) log
  Belongs-later s t [] kept h = tt
  Belongs-later s t (x ∷ log) kept h = (
    λ granted. let own = h.0 granted in (own.0, own.1, kept own.0 x.exchange.user_id own.2),
    Belongs-later s t log kept h.1,
  )

  IsSound-Belongs :
      (hash : String) (x : Logged) (s : S)
      → IsSound platform db hash x.exchange.user_id x.read s x.outcome
      → Belongs s x
  IsSound-Belongs hash x s (no_trial absent none_active allowed) granted =
      let judged : x.outcome.had_active_trial ≡ true = granted.judged in absurd (ground arith)
  IsSound-Belongs hash x s (own_device same allowed own) granted = (hash, same, own)
  IsSound-Belongs hash x s (reclaimed trial answer reclaim allowed reason foreign) granted =
      absurd (
        granted.not_reclaimed
          (is_same_email_reclaim_trial-Reclaimed platform x.read trial answer reclaim))
  IsSound-Belongs hash x s (denied trial answer plain same not_allowed foreign ended) granted =
      let allowed : x.outcome.trial_allowed ≡ true = granted.allowed in absurd (ground arith)

  module _ (law : IsLawful db) where
    History-Belongs : (s : S) (log : List Logged) → History s log → All (Belongs s) log
    unfolding apply_in_exchange
    History-Belongs s log (start t) = tt
    History-Belongs s log (exchanged e o {s = t} {log = before} past returned) = (
      IsSound-Belongs _ (log_of e o t) _ (
          apply_trial_policy_for_exchange-IsSound platform settings db law e.user_id _ e.user_agent
            e.ip_address t o returned),
      Belongs-later t _ before ((apply_in_exchange-Stays platform settings db law e).move t)
          (History-Belongs t before past),
    )
    History-Belongs s log (failed e {s = t} past error) =
        Belongs-later t _ log ((apply_in_exchange-Stays platform settings db law e).move t)
          (History-Belongs t log past)
    History-Belongs s log (others {s = t} past kept) =
        Belongs-later t s log kept (History-Belongs t log past)

    -- One device, one trial. As long as no row of device_trials is changed or deleted, and whatever else happens:
    -- two exchanges that are allowed an active trial on devices of one hash, where neither trial was read as a
    -- reclaimed one, are exchanges of one user. (A reclaimed one is a trial whose source, stripped and in lower
    -- case, is same_email_reclaim_resume; it may be allowed on another user's device.)
    pub History-one_user :
        {s : S} {log : List Logged} (x y : Logged)
        → History s log
        → In x log
        → In y log
        → IsGranted platform x
        → IsGranted platform y
        → x.outcome.device_id_hash ≡ y.outcome.device_id_hash
        → x.exchange.user_id ≡ y.exchange.user_id
    History-one_user {s} {log} x y past in_x in_y granted_x granted_y same =
        let all = History-Belongs s log past in
        let own_x = In-All (Belongs s) x log all in_x granted_x in
        let own_y = In-All (Belongs s) y log all in_y granted_y in
        let hash : own_x.0 ≡ own_y.0 = some-injective _ _ (sym own_x.1 ∙ same ∙ own_y.1) in
        some-injective _ _ (sym own_x.2 ∙ ap (db.first_user s) hash ∙ own_y.2)
