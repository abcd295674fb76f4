-- ===== src/Payments/Tests.antt =====
-- webhook_handler.py on concrete inputs: services that answer, runs over a paid and over a failing event, and
-- the theorems applied to them.
use Prim.Native.String.{String}
use text.Mathlib.Text.{◌==◌ as str_eq}
use ai_trading_backend.Common.{
  ℕ, suc, ◌≡◌, ◌||◌, refl, leb, Bool-cases, inl, inr, Bool, true, false, not, none, some, [],
}
use ai_trading_backend.Payments.Status.{Texts, pending, succeeded, map_event_to_state}
use ai_trading_backend.Payments.Trace.{
  Error, other, Outcome, value, raised, Transaction, Metadata, Services, Trace, M, recover_at, call,
  return, raise, try_except, ◌>>=◌,
}
use ai_trading_backend.Payments.Checks.{
  Decimals, Payload, no_subscription, currency_mismatched, amount_mismatched, amount_incomparable,
  get_provider_webhook_policy,
}
use ai_trading_backend.Payments.Handler
use ai_trading_backend.Payments.Handler.{
  EventRow, is_retryable, get_payment_id, process_claimed_webhook_event,
}
use ai_trading_backend.Payments.Safe.{Justified}
use ai_trading_backend.Payments.Grounds.{Ready}
use ai_trading_backend.Payments.Justified.{process_claimed_webhook_event-Justified}
use ai_trading_backend.Payments.Renewals.{renewals, process_claimed_webhook_event-renewals}
use ai_trading_backend.Payments.Settled.{
  IsSettled, IsNamed, row_after, limit_of, process_claimed_webhook_event-IsSettled,
}
use ai_trading_backend.Payments.Claims.{claims, claims-finish}

abbrev texts : Texts
texts = record { strip = λ s. s; lower = λ s. s; upper = λ s. s; replace = λ s old new. s }

-- Numbers by their texts
abbrev decimals : Decimals
decimals = record {
  D = String;
  as_decimal = λ s. some s;
  is_zero = λ s. str_eq s "0";
  further = λ a b tolerance. not (str_eq a b);
  incomparable = λ a b tolerance. str_eq a "NaN" || str_eq b "NaN";
  tolerance = "0.000001";
}

abbrev metadata : Metadata
metadata = record {
  plisio_expected_currency = some "BTC";
  plisio_expected_source_currency = some "USD";
  plisio_expected_amount = some "0.001";
  plisio_expected_source_amount = some "49";
  checkout_amount = none;
  checkout_source_amount = none;
  renewal_intent = true;
  plan_id = some "core";
}

abbrev transaction : Transaction
transaction = record {
  id = "tx_1";
  user_id = "user_1";
  status = pending;
  subscription_id = some "sub_1";
  metadata = metadata;
}

abbrev payload : Payload
payload = record {
  entity = no_subscription;
  order_number = some "renewal-sub_1";
  invoice_id = none;
  txn_id = none;
  id = none;
  currency = some "BTC";
  source_currency = some "USD";
  amount = some "0.001";
  source_amount = some "49";
  is_recurring_charge = false;
}

abbrev row : EventRow
row = record {
  provider = "plisio";
  event_id = "event_1";
  event_type = some "completed";
  payload = payload;
  retry_count = 0;
}

-- Services that have the transaction, and say of each subscription whether it is active.
abbrev services : Bool → Services
services active = record {
  connected = true;
  read_transaction = λ p pid t. value (some transaction);
  audit = λ id reason t. value tt;
  swap_status = λ id old new t. value true;
  read_status = λ id t. value (some succeeded);
  read_subscription = λ id t. value active;
  renew_subscription = λ sub id t. value true;
  is_uuid = λ s. false;
  read_plan = λ name t. value (some "plan_1");
  create_subscription = λ user plan pid t. value "sub_2";
  link = λ id sub t. value tt;
  update_permissions = λ user t. value tt;
  flag_retry = λ id t. value tt;
  evaluate_reward = λ user id t. value tt;
  revoke_reward = λ id event t. value tt;
  write_row = λ w t. value tt;
  cache_hint = λ t. value tt;
  notify_dead_letter = λ n t. value tt;
}

-- The same without the transaction
abbrev lost : Services
lost = record (services false) { read_transaction = λ p pid t. value none }

row-IsNamed : IsNamed texts row
row-IsNamed = record { provider = refl; event_id = refl }

process_claimed_webhook_event-Justified_example :
    Justified
      (Ready texts decimals row (services false))
      (process_claimed_webhook_event texts decimals (services false) row []).0
process_claimed_webhook_event-Justified_example =
    process_claimed_webhook_event-Justified texts decimals row (services false)

process_claimed_webhook_event-renewals_example :
    renewals (process_claimed_webhook_event texts decimals (services true) row []).0 ≡ 0
process_claimed_webhook_event-renewals_example =
    process_claimed_webhook_event-renewals texts decimals row (services true) (λ id t. refl)

-- Where the subscription has run out, the same event renews it.
renewed_once : renewals (process_claimed_webhook_event texts decimals (services false) row []).0 ≡ 1
unfolding process_claimed_webhook_event try_except Handler.process_event ◌>>=◌ return
    Handler.process_status map_event_to_state get_payment_id Handler.find_transaction call
    Handler.process_transaction Handler.compare_amounts currency_mismatched amount_mismatched
    amount_incomparable Handler.apply_status Handler.update_status Handler.follow_success
    Handler.activate_subscription Handler.activate Handler.conclude Handler.evaluate_referral
    Handler.is_already_active Handler.mark_webhook_processed Handler.renew
    Handler.set_webhook_cache_hint
renewed_once = refl

lost-returns_row : (process_claimed_webhook_event texts decimals lost row []).1 ≡ value tt
unfolding process_claimed_webhook_event try_except Handler.process_event ◌>>=◌ return
    Handler.process_status map_event_to_state get_payment_id Handler.find_transaction call raise
    Handler.handle_error Handler.record_webhook_failure get_provider_webhook_policy
lost-returns_row = refl

process_claimed_webhook_event-IsSettled_example :
    IsSettled 5 0 (row_after 0 (process_claimed_webhook_event texts decimals lost row []).0)
unfolding get_provider_webhook_policy
process_claimed_webhook_event-IsSettled_example =
    process_claimed_webhook_event-IsSettled texts decimals lost row row-IsNamed lost-returns_row

recovers :
    (handler : Error → M (Unit {0})) (p : Trace × Outcome (Unit {0}))
    → ((e : Error) (t : Trace) → (handler e t).1 ≡ value tt)
    → (recover_at handler p).1 ≡ value tt
recovers handler (t, value a) h = refl
recovers handler (t, raised e) h = h e t

lost-handle_error :
    (name : String) (r : EventRow) (e : Error) (t : Trace)
    → (Handler.handle_error texts decimals lost name r e t).1 ≡ value tt
unfolding Handler.handle_error Handler.record_webhook_failure Handler.mark_webhook_processed call
    ◌>>=◌
lost-handle_error name r e t = elim (Bool-cases (is_retryable e)) [
  | inl m ↦
      elim (Bool-cases (leb (get_provider_webhook_policy name).max_retries (suc r.retry_count))) [
        | inl n ↦ rw (m, n) refl
        | inr n ↦ rw (m, n) refl
      ]
  | inr m ↦ rw m refl
]

lost-returns :
    (k : ℕ) (r : EventRow) → (process_claimed_webhook_event texts decimals lost r []).1 ≡ value tt
unfolding process_claimed_webhook_event try_except return
lost-returns k r = elim (Bool-cases (str_eq r.provider "" || str_eq r.event_id "")) [
  | inl unnamed ↦ rw unnamed refl
  | inr named ↦ rw named (
      recovers (Handler.handle_error texts decimals lost r.provider r)
        (Handler.process_event texts decimals lost r.provider r [])
        (lost-handle_error r.provider r))
]

claims-finish_example : (claims texts decimals (λ k. lost) (limit_of texts row) row).1 ≡ true
claims-finish_example = claims-finish texts decimals (λ k. lost) row row-IsNamed lost-returns

-- Redis fails once the row is marked: the event is to be tried again.
abbrev unhinted : Services
unhinted = record (services false) { cache_hint = λ t. raised other }

unmarked :
    (row_after 0 (process_claimed_webhook_event texts decimals unhinted row []).0).processed ≡ false
unfolding process_claimed_webhook_event try_except Handler.process_event ◌>>=◌ return
    Handler.process_status map_event_to_state get_payment_id Handler.find_transaction call
    Handler.process_transaction Handler.compare_amounts currency_mismatched amount_mismatched
    amount_incomparable Handler.apply_status Handler.update_status Handler.follow_success
    Handler.activate_subscription Handler.activate Handler.conclude Handler.evaluate_referral
    Handler.is_already_active Handler.mark_webhook_processed Handler.renew
    Handler.set_webhook_cache_hint Handler.handle_error Handler.record_webhook_failure
    get_provider_webhook_policy
unmarked = refl

-- An amount that does not compare: the run renews nothing, and the event is to be tried again.
abbrev incomparable_row : EventRow
incomparable_row = record row { payload = record payload { amount = some "NaN" } }

incomparable :
    (row_after 0
      (process_claimed_webhook_event texts decimals
        (services false)
        incomparable_row
        []).0).processed
    ≡ false
unfolding process_claimed_webhook_event try_except Handler.process_event ◌>>=◌ return raise
    Handler.process_status map_event_to_state get_payment_id Handler.find_transaction call
    Handler.process_transaction Handler.compare_amounts currency_mismatched amount_incomparable
    Handler.handle_error Handler.record_webhook_failure get_provider_webhook_policy
incomparable = refl
