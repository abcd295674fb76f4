-- ===== src/Trials/Keeps.antt =====
-- trial_policy.py: however the policy ends, the rows of device_trials stay.
use Prim.Native.String.{String}
use ai_trading_backend.Common.{Bool, Option, none, some, if◌then◌else◌}
use ai_trading_backend.Common.Errors.{M, ◌>>=◌, ◌>>◌, return, fail}
use ai_trading_backend.Common.Hoare.{Moves, >>=-Moves, return-Moves, fail-Moves, if-Moves}
use ai_trading_backend.Trials.Database.{
  Body, invalid, no_list, rows, Reply, request_error, answered, Trial, Database, Kept, IsLawful,
}
use ai_trading_backend.Trials.Policy
use ai_trading_backend.Trials.Policy.{
  Platform, Credentials, Exchange, TrialPolicyOutcome, checked, send, hash_device_id,
  is_same_email_reclaim_trial, apply_trial_policy_for_exchange, apply_in_exchange,
}

checked-state : {S A : Type 0} (R : S → Type 0) (p : S × Reply A) → R p.0 → R (checked p).0
checked-state R (s, request_error) h = h
checked-state R (s, answered code json) h = h

module _ (platform : Platform) (settings : Credentials) (db : Database) (law : IsLawful db) where
  open db use {S}

  abbrev Stays : {A : Type 0} → M S A → Type 0
  Stays m = Moves (Kept db) m

  bind :
      {A B : Type 0} (m : M S A) (f : A → M S B)
      → Stays m
      → ((a : A) → Stays (f a))
      → Stays (m >>= f)
  bind = >>=-Moves (Kept db) (λ s h u e. e) (λ s t v p q h u e. q h u (p h u e))

  done : {A : Type 0} (a : A) → Stays (return a)
  done = return-Moves (Kept db) (λ s h u e. e) (λ s t v p q h u e. q h u (p h u e))

  stop : {A : Type 0} → Stays (fail {A = A})
  stop = fail-Moves (Kept db) (λ s h u e. e) (λ s t v p q h u e. q h u (p h u e))

  choose : {A : Type 0} (b : Bool) (m n : M S A) → Stays m → Stays n → Stays (if b then m else n)
  choose = if-Moves (Kept db) (λ s h u e. e) (λ s t v p q h u e. q h u (p h u e))

  send-Stays :
      {A : Type 0} (ask : S → S × Reply A) → ((s : S) → Kept db s (ask s).0) → Stays (send ask)
  unfolding send
  send-Stays ask h = record { move = λ s. checked-state (Kept db s) (ask s) (h s) }

  asked-Stays :
      {A B : Type 0} (ask : S → S × Reply A) (f : Body A → M S B)
      → ((s : S) → Kept db s (ask s).0)
      → ((json : Body A) → Stays (f json))
      → Stays (Policy.configured platform settings db >> send ask >>= f)
  unfolding Policy.configured
  asked-Stays ask f h k =
      bind _ f (bind _ (λ set. send ask) (choose _ _ _ (done tt) stop) (λ set. send-Stays ask h)) k

  first_active-Stays : (json : Body Trial) → Stays (Policy.first_active platform settings db json)
  first_active-Stays invalid = stop
  first_active-Stays no_list = done none
  first_active-Stays (rows found) = done _

  decide_known_device-Stays :
      (user hash : String) (trial : Option Trial)
      → Stays (Policy.decide_known_device platform settings db user hash trial)
  unfolding Policy.decide_known_device Policy.device_belongs_to_current_user
      Policy.disable_trial_entitlement
  decide_known_device-Stays user hash trial =
      bind _ _ (asked-Stays _ _ (law.get_devices-Kept hash user) (λ json. done _)) (λ same.
        choose same _ _ (done _) (
          choose (is_same_email_reclaim_trial platform trial) _ _ (done _) (
            bind _ _ (asked-Stays _ _ (law.expire_trials-Kept user) (λ json. done tt))
              (λ ended. done _))))

  decide_trial-Stays :
      (user hash user_agent address : String) (trial : Option Trial)
      → Stays (Policy.decide_trial platform settings db user hash user_agent address trial)
  unfolding Policy.decide_trial Policy.mark_device_trial_first_use
  decide_trial-Stays user hash user_agent address none = done _
  decide_trial-Stays user hash user_agent address (some trial) =
      bind _ _ (asked-Stays _ _ (law.insert_device-Kept _) (λ json. done _))
        (λ made. choose made _ _ (done _) (decide_known_device-Stays user hash (some trial)))

  pub apply_in_exchange-Stays : (e : Exchange) → Stays (apply_in_exchange platform settings db e)
  unfolding apply_in_exchange apply_trial_policy_for_exchange Policy.get_active_trial_subscription
  apply_in_exchange-Stays e = choose _ _ _ (done _) (
      bind _ _ (asked-Stays _ _ (law.get_trials-Kept e.user_id) first_active-Stays)
        (decide_trial-Stays e.user_id _ e.user_agent e.ip_address))
