-- ===== src/Payments/Checks.antt =====
-- api-web/app/payments/webhook_handler.py: what a callback is checked for, and the retry policies of
-- api-web/app/config/retry_policies.py.
use Prim.Native.String.{String}
use text.Mathlib.Text.{◌==◌ as str_eq}
use ai_trading_backend.Common.{
  ℕ, Bool, false, not, ◌&&◌, ◌||◌, ◌^◌, Option, none, some, if◌then◌else◌,
}
use ai_trading_backend.Floats.{Floats, zero_float, min_float}
use ai_trading_backend.Payments.Status.{Texts, text_or}
use ai_trading_backend.Payments.Trace.{Metadata}

-- decimal.Decimal: a parse, `none` where it fails; whether a number is zero; whether two are further
-- apart than a third, and whether that comparison raises, as it does with a NaN. `tolerance` is the setting
-- as it is parsed.
pub record Decimals : Type 1 where
  pub D : Type 0
  pub as_decimal : String → Option D
  pub is_zero : D → Bool
  pub further : D → D → D → Bool
  pub incomparable : D → D → D → Bool
  pub tolerance : D

-- The subscription entity of a Razorpay payload: missing, without its entity, or with an id.
pub data Entity : Type 0 where
  no_subscription no_entity : Entity
  subscription : Option String → Entity

-- A payload, as far as the handler reads it; a field that is missing is `none`.
pub record Payload : Type 0 where
  pub entity : Entity
  pub order_number : Option String
  pub invoice_id : Option String
  pub txn_id : Option String
  pub id : Option String
  pub currency : Option String
  pub source_currency : Option String
  pub amount : Option String
  pub source_amount : Option String
  pub is_recurring_charge : Bool

module _ (texts : Texts) where
  open texts use {strip, upper, replace}

  abbrev pub normalize_upper : Option String → String
  normalize_upper none = ""
  normalize_upper (some text) = upper (strip text)

  abbrev pub normalize_plisio_currency : String → String
  normalize_plisio_currency text = replace (replace (upper (strip text)) "-" "_") " " ""

  unfoldable pub currency_mismatched : Metadata → Payload → Bool
  currency_mismatched m p =
      let expected_crypto =
        normalize_plisio_currency (normalize_upper m.plisio_expected_currency) in
      let expected_source = upper (strip (text_or m.plisio_expected_source_currency "USD")) in
      let callback_crypto = normalize_plisio_currency (normalize_upper p.currency) in
      let callback_source = normalize_upper p.source_currency in
      (not (str_eq expected_crypto "") && not (str_eq callback_crypto expected_crypto))
      || (not (str_eq expected_source "") && not (str_eq callback_source expected_source))

module _ (decimals : Decimals) where
  open decimals use {D, as_decimal, is_zero, further, incomparable, tolerance}

  abbrev pub read_decimal : Option String → Option D
  read_decimal none = none
  read_decimal (some text) = as_decimal text

  -- `a or b`, where zero counts as nothing
  abbrev pub decimal_or : Option D → Option D → Option D
  decimal_or none b = b
  decimal_or (some a) b = if is_zero a then b else some a

  abbrev pub some_amount : (D → D → D → Bool) → Option D → Option D → Bool
  some_amount test (some expected) (some got) = test got expected tolerance
  some_amount test _ _ = false

  -- Whether a test holds of one of the two pairs of amounts; a pair with a missing one is passed over.
  abbrev pub some_pair : (D → D → D → Bool) → Metadata → Payload → Bool
  some_pair test m p =
      some_amount test
        (decimal_or (read_decimal m.plisio_expected_amount) (read_decimal m.checkout_amount))
        (read_decimal p.amount)
      || some_amount test
          (decimal_or (read_decimal m.plisio_expected_source_amount)
            (read_decimal m.checkout_source_amount))
          (read_decimal p.source_amount)

  unfoldable pub amount_mismatched : Metadata → Payload → Bool
  amount_mismatched = some_pair further

  unfoldable pub amount_incomparable : Metadata → Payload → Bool
  amount_incomparable = some_pair incomparable

pub record RetryPolicy : Type 0 where
  pub timeout_tenths : ℕ
  pub max_retries : ℕ
  pub backoff_base_seconds : ℕ
  pub backoff_max_seconds : ℕ
  pub jitter_tenths : ℕ

abbrev pub razorpay_webhook : RetryPolicy
razorpay_webhook = record {
  timeout_tenths = 50;
  max_retries = 5;
  backoff_base_seconds = 120;
  backoff_max_seconds = 1920;
  jitter_tenths = 2;
}

abbrev pub plisio_callback : RetryPolicy
plisio_callback = record {
  timeout_tenths = 50;
  max_retries = 5;
  backoff_base_seconds = 120;
  backoff_max_seconds = 1920;
  jitter_tenths = 2;
}

abbrev pub internal_service_call : RetryPolicy
internal_service_call = record {
  timeout_tenths = 30;
  max_retries = 2;
  backoff_base_seconds = 1;
  backoff_max_seconds = 5;
  jitter_tenths = 5;
}

-- The name has been stripped and lowered by the handler, which changes nothing the second time.
unfoldable pub get_provider_webhook_policy : String → RetryPolicy
get_provider_webhook_policy name =
    if str_eq name "razorpay"
    then razorpay_webhook
    else if str_eq name "plisio"
    then plisio_callback
    else internal_service_call

-- `random` is the value of random.random().
unfoldable pub calculate_backoff : (fl : Floats) → RetryPolicy → fl.F → ℕ → fl.F
calculate_backoff fl policy random attempt =
    let backoff =
      min_float fl (fl.mul (fl.lit policy.backoff_base_seconds 0) (fl.lit (2 ^ attempt) 0))
        (fl.lit policy.backoff_max_seconds 0) in
    if fl.lt (zero_float fl) (fl.lit policy.jitter_tenths 1)
    then fl.add backoff (fl.mul (fl.mul backoff (fl.lit policy.jitter_tenths 1)) random)
    else backoff
