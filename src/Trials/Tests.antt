-- ===== src/Trials/Tests.antt =====
-- trial_policy.py on concrete inputs, over the tables as functions.
use Prim.Native.String.{String}
use mathlib.Core.Option.{none-ne-some, some-injective}
use ai_trading_backend.Common.{
  Option, sym, ap, ◌∙◌, ◌≡◌, refl, inl, inr, true, false, none, some, List, [], ◌∷◌,
}
use ai_trading_backend.Common.Errors.{◌>>=◌, return}
use ai_trading_backend.Trials.Database.{Trial}
use ai_trading_backend.Trials.Policy
use ai_trading_backend.Trials.Policy.{
  Platform, Credentials, Exchange, TrialPolicyOutcome, send, hash_device_id, extract_device_id,
  apply_trial_policy_for_exchange, apply_in_exchange, skip_cached_perms,
}
use ai_trading_backend.Trials.Owner.{IsSound, read_in, apply_trial_policy_for_exchange-IsSound}
use ai_trading_backend.Trials.History.{
  Logged, Reclaimed, log_of, History, start, exchanged, History-one_user, run,
}
use ai_trading_backend.Trials.Memory.{Tables, plain, memory, memory-IsLawful}

abbrev platform : Platform
platform = record { strip = λ s. s; lower = λ s. s; sha256_hex = λ s. s; ip_address = λ s. none }

abbrev settings : Credentials
settings = record { supabase_url = some "https://db"; supabase_admin_key = some "key" }

-- Every user has a trial, and no device is known.
abbrev fresh : Tables
fresh = record { first_users = λ hash. none; trials = λ user. true }

abbrev exchange_of : String → Exchange
exchange_of user = record {
  user_id = user;
  body_device_id = some "laptop";
  header_value = none;
  user_agent = "browser";
  ip_address = "";
}

abbrev allowed : TrialPolicyOutcome
allowed = record {
  trial_allowed = true;
  reason = "allow_first_device_trial";
  device_id_hash = some "laptop";
  had_active_trial = true;
}

abbrev after_ann : Tables
after_ann = (run platform settings memory (exchange_of "ann") fresh).0

ann : (run platform settings memory (exchange_of "ann") fresh).1 ≡ some allowed
unfolding apply_in_exchange apply_trial_policy_for_exchange Policy.get_active_trial_subscription
    extract_device_id hash_device_id Policy.configured ◌>>=◌ return send Policy.decide_trial
    Policy.mark_device_trial_first_use
ann = refl

-- Another user on the same device loses the trial.
abbrev refused : TrialPolicyOutcome
refused = record {
  trial_allowed = false;
  reason = "deny_same_device";
  device_id_hash = some "laptop";
  had_active_trial = true;
}

abbrev after_bob : Tables
after_bob = (run platform settings memory (exchange_of "bob") after_ann).0

bob : (run platform settings memory (exchange_of "bob") after_ann).1 ≡ some refused
unfolding apply_in_exchange apply_trial_policy_for_exchange Policy.get_active_trial_subscription
    extract_device_id hash_device_id Policy.configured ◌>>=◌ return send Policy.decide_trial
    Policy.mark_device_trial_first_use Policy.decide_known_device
    Policy.device_belongs_to_current_user Policy.is_same_email_reclaim_trial
    Policy.disable_trial_entitlement
bob = refl

bob-skip_cached_perms : skip_cached_perms (some refused) ≡ true
bob-skip_cached_perms = refl

-- The first user comes back.
abbrev resumed : TrialPolicyOutcome
resumed = record allowed { reason = "allow_same_user_device_resumption" }

ann_again : (run platform settings memory (exchange_of "ann") after_bob).1 ≡ some resumed
unfolding apply_in_exchange apply_trial_policy_for_exchange Policy.get_active_trial_subscription
    extract_device_id hash_device_id Policy.configured ◌>>=◌ return send Policy.decide_trial
    Policy.mark_device_trial_first_use Policy.decide_known_device
    Policy.device_belongs_to_current_user Policy.is_same_email_reclaim_trial
    Policy.disable_trial_entitlement
ann_again = refl

abbrev logged_at : String → TrialPolicyOutcome → Tables → Logged
logged_at user o s = log_of platform settings memory (exchange_of user) o s

abbrev log : List Logged
log =
    logged_at "ann" resumed after_bob
    ∷ logged_at "bob" refused after_ann
    ∷ logged_at "ann" allowed fresh
    ∷ []

past :
    History platform settings memory
      (run platform settings memory (exchange_of "ann") after_bob).0
      log
past =
    exchanged (exchange_of "ann") resumed
      (exchanged (exchange_of "bob") refused
        (exchanged (exchange_of "ann") allowed (start fresh) ann) bob)
      ann_again

-- A trial that was read without a source is none that is resumed after a reclaim.
plain-not_Reclaimed :
    (read : Option (Option Trial)) → read ≡ some (some plain) → ¬ Reclaimed platform read
plain-not_Reclaimed read is_plain (trial, source, answer, named, lower) =
    let same : plain ≡ trial = some-injective _ _ (some-injective _ _ (sym is_plain ∙ answer)) in
    none-ne-some source (ap (λ (x : Trial). x.trial_source) same ∙ named)

ann_read : (logged_at "ann" allowed fresh).read ≡ some (some plain)
unfolding Policy.get_active_trial_subscription Policy.configured ◌>>=◌ return send
ann_read = refl

ann_read_again : (logged_at "ann" resumed after_bob).read ≡ some (some plain)
unfolding apply_in_exchange apply_trial_policy_for_exchange Policy.get_active_trial_subscription
    extract_device_id hash_device_id Policy.configured ◌>>=◌ return send Policy.decide_trial
    Policy.mark_device_trial_first_use Policy.decide_known_device
    Policy.device_belongs_to_current_user Policy.is_same_email_reclaim_trial
    Policy.disable_trial_entitlement
ann_read_again = refl

History-one_user_example : (exchange_of "ann").user_id ≡ (exchange_of "ann").user_id
History-one_user_example =
    History-one_user platform settings memory memory-IsLawful (logged_at "ann" allowed fresh)
      (logged_at "ann" resumed after_bob) past (inr (inr (inl refl))) (inl refl)
      (record { judged = refl; allowed = refl; not_reclaimed = plain-not_Reclaimed _ ann_read })
      (record {
        judged = refl;
        allowed = refl;
        not_reclaimed = plain-not_Reclaimed _ ann_read_again;
      })
      refl

denied_bob :
    (apply_trial_policy_for_exchange platform settings memory "bob" "laptop" "browser" ""
      after_ann).1
    ≡ some refused
unfolding apply_in_exchange apply_trial_policy_for_exchange Policy.get_active_trial_subscription
    extract_device_id hash_device_id Policy.configured ◌>>=◌ return send Policy.decide_trial
    Policy.mark_device_trial_first_use Policy.decide_known_device
    Policy.device_belongs_to_current_user Policy.is_same_email_reclaim_trial
    Policy.disable_trial_entitlement
denied_bob = refl

apply_trial_policy_for_exchange-IsSound_example :
    IsSound platform memory
      (hash_device_id platform "laptop")
      "bob"
      (read_in platform settings memory memory-IsLawful "bob" after_ann)
      (apply_trial_policy_for_exchange platform settings memory "bob" "laptop" "browser" ""
        after_ann).0
      refused
apply_trial_policy_for_exchange-IsSound_example =
    apply_trial_policy_for_exchange-IsSound platform settings memory memory-IsLawful "bob" "laptop"
      "browser" "" after_ann refused denied_bob
