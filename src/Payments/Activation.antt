-- ===== src/Payments/Activation.antt =====
-- webhook_handler.py, from the status to the subscription: each event has its grounds.
use Prim.Native.String.{String}
use text.Mathlib.Text.{◌==◌ as str_eq}
use ai_trading_backend.Common.{
  In, ◌≡◌, refl, sym, ◌⊎◌, inl, inr, Bool, true, false, not, ◌||◌, Option, none, some, List, [],
  ◌∷◌, ◌++◌, if◌then◌else◌, arith,
}
use ai_trading_backend.Payments.Status.{
  Texts, PaymentTransactionStatus, succeeded, refunded, Provider, text_or,
}
use ai_trading_backend.Payments.Trace.{
  Error, other, Outcome, value, Transaction, Audit, activation_retry, Event, audited,
  subscription_read, renewed, plan_read, created, linked, permissions_updated, retry_flagged,
  reward_evaluated, reward_revoked, Services, Trace, M, ◌>>=◌, ◌>>◌, return, raise, call,
}
use ai_trading_backend.Payments.Checks.{Decimals}
use ai_trading_backend.Payments.Handler
use ai_trading_backend.Payments.Handler.{
  EventRow, has_amount_mismatch, may_update, status_or, require, optional_plan, attempt,
}
use ai_trading_backend.Payments.Safe.{
  Knows, Knows-split, Safe, return-Safe, raise-Safe, raise->>=-Safe, call-Safe, >>=-Safe,
  try_except-Safe, if-Safe, weaken-Safe,
}
use ai_trading_backend.Payments.Grounds.{Ready, Reached, Payable}

nothing : {A : Type 0} → A → List Event
nothing a = []

-- What is known once it has been asked whether the subscription is active, where it has an id.
abbrev asked_of : Bool → String → Bool → List Event
asked_of true id active = []
asked_of false id active = subscription_read id (value active) ∷ []

abbrev asked : Transaction → Bool → List Event
asked tx = asked_of (str_eq (text_or tx.subscription_id "") "") (text_or tx.subscription_id "")

asked_of-known :
    (b : Bool) (id : String) (t : Trace)
    → Knows (asked_of b id false) t
    → (b ≡ true) ⊎ In (subscription_read id (value false)) t
asked_of-known true id t known = inl refl
asked_of-known false id t known = inr known.0

module _ (texts : Texts) (decimals : Decimals) (row : EventRow) (sv : Services) where
  -- A computation that is safe here.
  abbrev pub IsSafe : {A : Type 0} → List Event → M A → Type 0
  IsSafe facts m = Safe (Ready texts decimals row sv) facts m (λ a. [])

  pub quiet :
      {A : Type 0} (facts : List Event) (ask : Trace → Outcome A) (event : Outcome A → Event)
      → ((t : Trace) → Knows facts t → Ready texts decimals row sv (event (ask t)) t)
      → IsSafe facts (call ask event)
  quiet facts ask event may =
      weaken-Safe (Ready texts decimals row sv) facts facts (call ask event)
        (λ a. event (value a) ∷ []) (λ a. []) (λ t known. known) (λ a t known. tt)
        (call-Safe (Ready texts decimals row sv) facts ask event may)

  pub bind :
      {A B : Type 0} (facts : List Event) (m : M A) (f : A → M B)
      → IsSafe facts m
      → ((a : A) → IsSafe facts (f a))
      → IsSafe facts (m >>= f)
  bind facts m f first rest =
      >>=-Safe (Ready texts decimals row sv) facts m f (λ a. []) (λ b. []) first rest

  pub done : {A : Type 0} (facts : List Event) (a : A) → IsSafe facts (return a)
  done facts a = return-Safe (Ready texts decimals row sv) facts a (λ a. []) (λ t known. tt)

  pub stop : {A : Type 0} (facts : List Event) (e : Error) → IsSafe {A = A} facts (raise e)
  stop {A} facts e = raise-Safe (Ready texts decimals row sv) facts e (λ a. [])

  require-Safe : (facts : List Event) (b : Bool) → IsSafe facts (require b)
  require-Safe facts true = done facts tt
  require-Safe facts false = stop facts other

  pub require_then :
      {B : Type 0} (facts : List Event) (b : Bool) (m : M B)
      → (b ≡ true → IsSafe facts m)
      → IsSafe facts (require b >> m)
  require_then facts true m h = bind facts (return tt) (λ u. m) (done facts tt) (λ u. h refl)
  require_then facts false m h =
      raise->>=-Safe (Ready texts decimals row sv) facts other (λ u. m) (λ a. [])

  pub audit-Safe :
      (facts : List Event) (id : String) (reason : Audit) (old new : PaymentTransactionStatus)
      → IsSafe facts (call (sv.audit id reason) (audited id reason old new))
  audit-Safe facts id reason old new =
      quiet facts (sv.audit id reason) (audited id reason old new) (λ t known. tt)

  -- The grounds of an activation, from what is known.
  abbrev Grounded : Provider → String → Transaction → List Event → Type 0
  Grounded p pid tx facts = (t : Trace) → Knows facts t → Payable texts decimals row p pid tx t

  renew-Safe :
      (p : Provider) (pid : String) (tx : Transaction) (facts : List Event)
      → Grounded p pid tx facts
      → IsSafe facts (Handler.renew texts decimals sv tx)
  unfolding Handler.renew
  renew-Safe p pid tx facts grounds =
      let id = text_or tx.subscription_id "" in
      require_then facts (not (str_eq id "")) _ (λ some_id.
        bind facts (call (sv.renew_subscription id tx.id) (renewed id tx.id)) _
          (quiet facts (sv.renew_subscription id tx.id) (renewed id tx.id)
            (λ t known. (p, pid, tx, grounds t known, refl, refl, ground arith)))
          (λ ok. require-Safe facts ok))

  optional_plan-Safe :
      (facts : List Event) (plan : Option String) → IsSafe facts (optional_plan plan)
  optional_plan-Safe facts none = stop facts other
  optional_plan-Safe facts (some id) = done facts id

  resolve_plan-Safe :
      (facts : List Event) (plan : Option String)
      → IsSafe facts (Handler.resolve_plan texts decimals sv plan)
  unfolding Handler.resolve_plan
  resolve_plan-Safe facts plan =
      let id = text_or plan "" in
      if-Safe (Ready texts decimals row sv) facts (str_eq id "" || sv.is_uuid id) _ _ (λ a. [])
        (λ e. done facts id)
        (λ e.
          bind facts (call (sv.read_plan id) (plan_read id)) _
            (quiet facts (sv.read_plan id) (plan_read id) (λ t known. tt))
            (optional_plan-Safe facts))

  create_first-Safe :
      (p : Provider) (pid : String) (tx : Transaction) (facts : List Event)
      → Grounded p pid tx facts
      → IsSafe facts (Handler.create_first texts decimals sv tx pid)
  unfolding Handler.create_first
  create_first-Safe p pid tx facts grounds =
      bind facts (Handler.resolve_plan texts decimals sv tx.metadata.plan_id) _
        (resolve_plan-Safe facts tx.metadata.plan_id)
        (λ plan. require_then facts (not (str_eq plan "")) _ (λ some_plan.
          bind facts
            (call (sv.create_subscription tx.user_id plan pid) (created tx.user_id plan pid)) _
            (quiet facts (sv.create_subscription tx.user_id plan pid) (created tx.user_id plan pid)
              (λ t known. (p, tx, grounds t known, refl, ground arith)))
            (λ id.
              bind facts (require (not (str_eq id ""))) _ (require-Safe facts (not (str_eq id "")))
                (λ u. quiet facts (sv.link tx.id id) (linked tx.id id) (λ t known. tt)))))

  activate-Safe :
      (p : Provider) (pid : String) (tx : Transaction) (facts : List Event) (active : Bool)
      → (active ≡ false → Grounded p pid tx facts)
      → IsSafe facts (Handler.activate texts decimals sv p tx pid active)
  unfolding Handler.activate
  activate-Safe p pid tx facts true grounds = done facts tt
  activate-Safe p pid tx facts false grounds =
      bind facts _ _
        (if-Safe (Ready texts decimals row sv) facts (Handler.renewal_requested p tx) _ _ (λ a. [])
          (λ e. renew-Safe p pid tx facts (grounds refl))
          (λ e. create_first-Safe p pid tx facts (grounds refl)))
        (λ u.
          quiet facts (sv.update_permissions tx.user_id) (permissions_updated tx.user_id)
            (λ t known. tt))

  if_asked-Safe :
      (facts : List Event) (b : Bool) (id : String) (m n : M Bool)
      → Safe (Ready texts decimals row sv) facts m (λ a. [])
      → Safe (Ready texts decimals row sv) facts n (λ a. subscription_read id (value a) ∷ [])
      → Safe (Ready texts decimals row sv) facts (if b then m else n) (asked_of b id)
  if_asked-Safe facts true id m n hm hn = hm
  if_asked-Safe facts false id m n hm hn = hn

  is_already_active-Safe :
      (facts : List Event) (tx : Transaction)
      → Safe
          (Ready texts decimals row sv)
          facts
          (Handler.is_already_active texts decimals sv tx)
          (asked tx)
  unfolding Handler.is_already_active
  is_already_active-Safe facts tx =
      let id = text_or tx.subscription_id "" in
      if_asked-Safe facts (str_eq id "") id (return false)
        (call (sv.read_subscription id) (subscription_read id)) (done facts false)
        (call-Safe (Ready texts decimals row sv) facts (sv.read_subscription id)
          (subscription_read id) (λ t known. refl))

  pub activate_subscription-Safe :
      (p : Provider) (pid : String) (tx : Transaction) (facts : List Event)
      → ((t : Trace) → Knows facts t → Reached texts decimals row p pid tx succeeded t)
      → has_amount_mismatch decimals p row tx succeeded ≡ false
      → IsSafe facts (Handler.activate_subscription texts decimals sv p tx pid)
  unfolding Handler.activate_subscription Handler.flag_activation
  activate_subscription-Safe p pid tx facts paid amount =
      >>=-Safe (Ready texts decimals row sv) facts (Handler.is_already_active texts decimals sv tx)
        _ (asked tx) (λ u. []) (is_already_active-Safe facts tx)
        (λ active.
          let more = asked tx active ++ facts in
          try_except-Safe (Ready texts decimals row sv) more _ _ (λ u. [])
            (activate-Safe p pid tx more active (λ e t known.
              let parts =
                Knows-split (Ready texts decimals row sv) (asked tx active) facts t known in
              record {
                paid = paid t parts.1;
                amount = amount;
                inactive =
                    asked_of-known (str_eq (text_or tx.subscription_id "") "")
                      (text_or tx.subscription_id "") t (rw (sym e) parts.0);
              }))
            (λ e.
              bind more (call (sv.flag_retry tx.id) (retry_flagged tx.id)) _
                (quiet more (sv.flag_retry tx.id) (retry_flagged tx.id) (λ t known. tt))
                (λ u. audit-Safe more tx.id activation_retry succeeded succeeded)))

  attempt-Safe : (facts : List Event) (m : M (Unit {0})) → IsSafe facts m → IsSafe facts (attempt m)
  attempt-Safe facts m h =
      try_except-Safe (Ready texts decimals row sv) facts m (λ e. return tt) (λ u. []) h
        (λ e. done facts tt)

  pub evaluate_referral-Safe :
      (p : Provider) (pid : String) (tx : Transaction) (facts : List Event)
      → ((t : Trace) → Knows facts t → Reached texts decimals row p pid tx succeeded t)
      → IsSafe facts (Handler.evaluate_referral texts decimals sv tx)
  unfolding Handler.evaluate_referral
  evaluate_referral-Safe p pid tx facts paid =
      if-Safe (Ready texts decimals row sv) facts (str_eq tx.id "" || str_eq tx.user_id "") _ _
        (λ u. []) (λ e. done facts tt)
        (λ e. attempt-Safe facts _ (
          quiet facts (sv.evaluate_reward tx.user_id tx.id) (reward_evaluated tx.user_id tx.id)
            (λ t known. (p, pid, tx, paid t known, refl, refl))))

  pub revoke_referral-Safe :
      (p : Provider) (pid : String) (tx : Transaction) (facts : List Event)
      → ((t : Trace) → Knows facts t → Reached texts decimals row p pid tx refunded t)
      → IsSafe facts (Handler.revoke_referral texts decimals sv row.event_id tx)
  unfolding Handler.revoke_referral
  revoke_referral-Safe p pid tx facts paid =
      if-Safe (Ready texts decimals row sv) facts (str_eq tx.id "") _ _ (λ u. [])
        (λ e. done facts tt)
        (λ e. attempt-Safe facts _ (
          quiet facts (sv.revoke_reward tx.id row.event_id) (reward_revoked tx.id row.event_id)
            (λ t known. (p, pid, tx, paid t known, refl))))
