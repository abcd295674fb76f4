-- ===== src/Trials/Owner.antt =====
-- trial_policy.py: what each outcome says of the device's row.
use Prim.Native.String.{String}
use text.Mathlib.Text.{◌==◌ as str_eq}
use mathlib.Core.Path.{subst}
use ai_trading_backend.Common.{◌⊎◌, inl, inr, ◌≡◌, refl, true, false, Option, none, some}
use ai_trading_backend.Common.Hoare.{Leaves, >>=-Leaves, before-Leaves, return-Leaves, if-Leaves}
use ai_trading_backend.Trials.Database.{Trial, Database, IsLawful}
use ai_trading_backend.Trials.Policy
use ai_trading_backend.Trials.Policy.{
  Platform, Credentials, TrialPolicyOutcome, checked, send, hash_device_id,
  is_same_email_reclaim_trial, apply_trial_policy_for_exchange,
}
use ai_trading_backend.Trials.Requests.{
  Owned, Known, Foreign, mark_device_trial_first_use-Leaves, device_belongs_to_current_user-Leaves,
  disable_trial_entitlement-Leaves,
}

-- An outcome for a user with a device, in the state that it leaves, where `read` is what the user's trial was
-- read as: there is no device or no trial to judge, the trial is allowed for the device's first user, it is
-- allowed for another user as a reclaimed one, or it is denied for another user, who is on no trial any more.
pub data IsSound (platform : Platform) (db : Database) (hash user : String)
    (read : Option (Option Trial)) (s : db.S) (o : TrialPolicyOutcome) : Type 0 where
  no_trial :
      (str_eq hash "" ≡ true) ⊎ (read ≡ some none)
      → o.had_active_trial ≡ false
      → o.trial_allowed ≡ true
      → IsSound platform db hash user read s o
  own_device :
      o.device_id_hash ≡ some hash
      → o.trial_allowed ≡ true
      → Owned db hash user s
      → IsSound platform db hash user read s o
  reclaimed :
      (trial : Option Trial)
      → read ≡ some trial
      → is_same_email_reclaim_trial platform trial ≡ true
      → o.trial_allowed ≡ true
      → o.reason ≡ "allow_same_email_reclaim"
      → Foreign db hash user s
      → IsSound platform db hash user read s o
  denied :
      (trial : Option Trial)
      → read ≡ some trial
      → is_same_email_reclaim_trial platform trial ≡ false
      → o.device_id_hash ≡ some hash
      → o.trial_allowed ≡ false
      → Foreign db hash user s
      → db.on_trial s user ≡ false
      → IsSound platform db hash user read s o

module _ (platform : Platform) (settings : Credentials) (db : Database) (law : IsLawful db) where
  open db use {S}

  -- What the user's trial is read as in a state.
  abbrev pub read_in : String → S → Option (Option Trial)
  read_in user s = (Policy.get_active_trial_subscription platform settings db user s).1

  get_active_trial_subscription-Leaves :
      (user : String) (s : S)
      → Leaves
          (λ t. t ≡ s)
          (Policy.get_active_trial_subscription platform settings db user)
          (λ trial t. read_in user s ≡ some trial)
  get_active_trial_subscription-Leaves user s = record {
    run = λ t same trial e. subst (λ u. read_in user u ≡ some trial) same e;
  }

  decide_known_device-Leaves :
      (user hash : String) (read : Option (Option Trial)) (trial : Option Trial)
      → read ≡ some trial
      → Leaves
          (Known db hash)
          (Policy.decide_known_device platform settings db user hash trial)
          (λ o s. IsSound platform db hash user read s o)
  unfolding Policy.decide_known_device
  decide_known_device-Leaves user hash read trial answer =
      >>=-Leaves _ _ _ _ _
        (device_belongs_to_current_user-Leaves platform settings db law hash user)
        (λ same.
          if-Leaves _ same _ _ _
            (λ own. return-Leaves _ _ _ (λ s h. own_device refl refl (h.0 own)))
            (λ other.
              if-Leaves _ (is_same_email_reclaim_trial platform trial) _ _ _
                (λ reclaim.
                  return-Leaves _ _ _ (λ s h. reclaimed trial answer reclaim refl refl (h.1 other)))
                (λ plain.
                  >>=-Leaves _ (λ done s. Foreign db hash user s × (db.on_trial s user ≡ false)) _ _
                    _
                    (before-Leaves _ (Foreign db hash user) _ _ (λ s h. h.1 other)
                      (disable_trial_entitlement-Leaves platform settings db law hash user))
                    (λ done.
                      return-Leaves _ _ _ (λ s h. denied trial answer plain refl refl h.0 h.1)))))

  decide_trial-Leaves :
      (user hash user_agent address : String) (read : Option (Option Trial)) (trial : Option Trial)
      → read ≡ some trial
      → Leaves
          (λ s. Unit {0})
          (Policy.decide_trial platform settings db user hash user_agent address trial)
          (λ o s. IsSound platform db hash user read s o)
  unfolding Policy.decide_trial
  decide_trial-Leaves user hash user_agent address read none answer =
      return-Leaves _ _ _ (λ s ready. no_trial (inr answer) refl refl)
  decide_trial-Leaves user hash user_agent address read (some trial) answer =
      >>=-Leaves _ _ _ _ _
        (mark_device_trial_first_use-Leaves platform settings db law hash user user_agent address)
        (λ made.
          if-Leaves _ made _ _ _
            (λ first. return-Leaves _ _ _ (λ s h. own_device refl refl (h.0 first)))
            (λ there.
              before-Leaves _ (Known db hash) _ _ (λ s h. h.1)
                (decide_known_device-Leaves user hash read (some trial) answer)))

  -- The policy ends in one of these: it has no device or no active trial to judge, and allows; it allows the
  -- trial of the device's first user; it allows the trial of another user, which was read as a reclaimed one; or
  -- it denies the trial of another user, which was read as a plain one, and then the user is on no trial. Other
  -- workers may add devices at any time.
  pub apply_trial_policy_for_exchange-IsSound :
      (user device_id user_agent address : String) (s : S) (o : TrialPolicyOutcome)
      → (apply_trial_policy_for_exchange platform settings db user device_id user_agent address s).1
        ≡ some o
      → IsSound platform db
          (hash_device_id platform device_id)
          user
          (read_in user s)
          (apply_trial_policy_for_exchange platform settings db user device_id user_agent address
            s).0
          o
  unfolding apply_trial_policy_for_exchange
  apply_trial_policy_for_exchange-IsSound user device_id user_agent address s =
      let hash = hash_device_id platform device_id in
      (if-Leaves (λ t. t ≡ s) (str_eq hash "") _ _
          (λ o t. IsSound platform db hash user (read_in user s) t o)
          (λ empty. return-Leaves _ _ _ (λ t ready. no_trial (inl empty) refl refl))
          (λ there. >>=-Leaves _ _ _ _ _ (get_active_trial_subscription-Leaves user s) (λ trial.
            record {
              run = λ t answer.
                  (decide_trial-Leaves user hash user_agent address (read_in user s) trial
                      answer).run
                    t tt;
            }))).run
        s refl
