-- ===== src/Payments/Handler.antt =====
-- api-web/app/payments/webhook_handler.py, process_claimed_webhook_event: a claimed row of
-- webhook_events, from the provider's event to the subscription. A JSON value that the code turns into a
-- text is that text.
use Prim.Native.String.{String}
use text.Mathlib.Text.{◌==◌ as str_eq}
use ai_trading_backend.Common.{
  ℕ, suc, Bool, true, false, not, ◌&&◌, ◌||◌, ◌==◌, Option, none, some, leb, if◌then◌else◌,
}
use ai_trading_backend.Payments.Status.{
  Texts, PaymentTransactionStatus, succeeded, refunded, expired, same_status, is_terminal, Provider,
  razorpay, plisio, is_plisio, text_or, map_event_to_state,
}
use ai_trading_backend.Payments.Trace.{
  Error, http, other, Transaction, Audit, state_change, currency_mismatch, amount_mismatch,
  activation_blocked, activation_retry, mark_processed, give_up, try_again, transaction_read,
  audited, status_swapped, status_read, subscription_read, renewed, plan_read, created, linked,
  permissions_updated, retry_flagged, reward_evaluated, reward_revoked, row_written, cache_hinted,
  dead_letter_notified, Services, M, ◌>>=◌, ◌>>◌, return, raise, call, try_except,
}
use ai_trading_backend.Payments.Checks.{
  Decimals, Entity, no_subscription, no_entity, subscription, Payload, get_provider_webhook_policy,
  currency_mismatched, amount_mismatched, amount_incomparable,
}

-- A claimed row; `provider` is the text in the row.
pub record EventRow : Type 0 where
  pub provider : String
  pub event_id : String
  pub event_type : Option String
  pub payload : Payload
  pub retry_count : ℕ

abbrev pub get_provider : String → M Provider
get_provider name =
    if str_eq name "razorpay"
    then return razorpay
    else if str_eq name "plisio"
    then return plisio
    else raise (http 400)

abbrev pub razorpay_payment_id : Entity → M String
razorpay_payment_id no_subscription = return ""
razorpay_payment_id no_entity = raise other
razorpay_payment_id (subscription id) = return (text_or id "")

unfoldable pub get_payment_id : Provider → Payload → M String
get_payment_id razorpay p = razorpay_payment_id p.entity
get_payment_id plisio p =
    return (text_or p.order_number (text_or p.invoice_id (text_or p.txn_id (text_or p.id ""))))

abbrev pub is_some_text : Option String → Bool
is_some_text none = false
is_some_text (some text) = not (str_eq text "")

abbrev pub require : Bool → M (Unit {0})
require true = return tt
require false = raise other

abbrev pub optional_plan : Option String → M String
optional_plan none = raise other
optional_plan (some id) = return id

abbrev pub renewal_requested : Provider → Transaction → Bool
renewal_requested p tx =
    is_plisio p && (tx.metadata.renewal_intent || is_some_text tx.subscription_id)

-- Whether the event may change the status of a transaction in this state.
abbrev pub may_update :
    Provider → EventRow → PaymentTransactionStatus → PaymentTransactionStatus → Bool
may_update p row old new =
    (row.payload.is_recurring_charge
      || (not (is_plisio p) && str_eq (text_or row.event_type "") "subscription.charged"))
    || (is_plisio p && same_status old expired && same_status new succeeded)
    || (same_status new refunded && not (same_status old refunded))
    || not (is_terminal old)

abbrev pub status_or :
    PaymentTransactionStatus → Option PaymentTransactionStatus → PaymentTransactionStatus
status_or old none = old
status_or old (some latest) = latest

abbrev pub optional_transaction : Option Transaction → M Transaction
optional_transaction none = raise (http 404)
optional_transaction (some tx) = return tx

abbrev pub is_retryable : Error → Bool
is_retryable (http code) = code == 404 || code == 500 || code == 503
is_retryable other = true

-- A call whose error is only logged.
abbrev pub attempt : M (Unit {0}) → M (Unit {0})
attempt m = try_except m (λ error. return tt)

abbrev pub has_amount_mismatch :
    Decimals → Provider → EventRow → Transaction → PaymentTransactionStatus → Bool
has_amount_mismatch decimals p row tx new =
    is_plisio p && same_status new succeeded && amount_mismatched decimals tx.metadata row.payload

module _ (texts : Texts) (decimals : Decimals) (sv : Services) where
  unfoldable pub mark_webhook_processed : Bool → M (Unit {0})
  mark_webhook_processed error =
      call (sv.write_row (mark_processed error)) (row_written (mark_processed error))

  unfoldable pub set_webhook_cache_hint : M (Unit {0})
  set_webhook_cache_hint = call sv.cache_hint cache_hinted

  -- The two calls that end each path through the handler.
  unfoldable pub conclude : Bool → M (Unit {0})
  conclude error = mark_webhook_processed error >> set_webhook_cache_hint

  unfoldable pub record_webhook_failure : String → ℕ → M (Unit {0})
  record_webhook_failure name retry_count =
      let policy = get_provider_webhook_policy name in
      let next = suc retry_count in
      if leb policy.max_retries next
      then call (sv.write_row (give_up next)) (row_written (give_up next))
        >> call (sv.notify_dead_letter next) (dead_letter_notified next)
      else call (sv.write_row (try_again next retry_count))
          (row_written (try_again next retry_count))

  abbrev pub audit :
      String → Audit → PaymentTransactionStatus → PaymentTransactionStatus → M (Unit {0})
  audit tx_id reason old new = call (sv.audit tx_id reason) (audited tx_id reason old new)

  -- The plan's id, looked up where the metadata has its name.
  unfoldable pub resolve_plan : Option String → M String
  resolve_plan plan =
      let id = text_or plan "" in
      if str_eq id "" || sv.is_uuid id
      then return id
      else (call (sv.read_plan id) (plan_read id) >>= optional_plan)

  -- The new subscription of a first payment.
  unfoldable pub create_first : Transaction → String → M (Unit {0})
  create_first tx pid = do
    plan_id ← resolve_plan tx.metadata.plan_id
    require (not (str_eq plan_id ""))
    sub_id ← call (sv.create_subscription tx.user_id plan_id pid) (created tx.user_id plan_id pid)
    require (not (str_eq sub_id ""))
    call (sv.link tx.id sub_id) (linked tx.id sub_id)

  -- Whether the subscription that the transaction names is active.
  unfoldable pub is_already_active : Transaction → M Bool
  is_already_active tx =
      let id = text_or tx.subscription_id "" in
      if str_eq id "" then return false else call (sv.read_subscription id) (subscription_read id)

  unfoldable pub renew : Transaction → M (Unit {0})
  renew tx =
      let id = text_or tx.subscription_id "" in
      require (not (str_eq id ""))
      >> (call (sv.renew_subscription id tx.id) (renewed id tx.id) >>= require)

  -- The block whose errors are recorded for a retry.
  unfoldable pub activate : Provider → Transaction → String → Bool → M (Unit {0})
  activate p tx pid already_active =
      if already_active
      then return tt
      else (if renewal_requested p tx then renew tx else create_first tx pid)
        >> call (sv.update_permissions tx.user_id) (permissions_updated tx.user_id)

  unfoldable pub flag_activation : Transaction → Error → M (Unit {0})
  flag_activation tx error =
      call (sv.flag_retry tx.id) (retry_flagged tx.id)
      >> audit tx.id activation_retry succeeded succeeded

  unfoldable pub activate_subscription : Provider → Transaction → String → M (Unit {0})
  activate_subscription p tx pid =
      is_already_active tx >>= λ active. try_except (activate p tx pid active) (flag_activation tx)

  unfoldable pub evaluate_referral : Transaction → M (Unit {0})
  evaluate_referral tx =
      if str_eq tx.id "" || str_eq tx.user_id ""
      then return tt
      else attempt (call (sv.evaluate_reward tx.user_id tx.id) (reward_evaluated tx.user_id tx.id))

  unfoldable pub revoke_referral : String → Transaction → M (Unit {0})
  revoke_referral event_id tx =
      if str_eq tx.id ""
      then return tt
      else attempt (call (sv.revoke_reward tx.id event_id) (reward_revoked tx.id event_id))

  -- The update of the status and its audit, and the answer of the read that follows.
  unfoldable pub update_status :
      Transaction → PaymentTransactionStatus → M (Option PaymentTransactionStatus)
  update_status tx new = do
    updated ← call (sv.swap_status tx.id tx.status new) (status_swapped tx.id tx.status new)
    latest ← call (sv.read_status tx.id) (status_read tx.id)
    if updated then audit tx.id state_change tx.status new else return tt
    return latest

  unfoldable pub follow_success : Provider → EventRow → Transaction → String → Bool → M (Unit {0})
  follow_success p row tx pid mismatch =
      (if mismatch
        then audit tx.id activation_blocked succeeded succeeded
        else activate_subscription p tx pid)
      >> evaluate_referral tx

  unfoldable pub apply_status :
      Provider → EventRow → Transaction → String → Bool → PaymentTransactionStatus → M (Unit {0})
  apply_status p row tx pid mismatch new =
      if may_update p row tx.status new
      then (update_status tx new >>= λ latest.
          (if same_status new succeeded && same_status (status_or tx.status latest) succeeded
            then follow_success p row tx pid mismatch
            else return tt)
          >> (if same_status new refunded && same_status (status_or tx.status latest) refunded
              then revoke_referral row.event_id tx
              else return tt))
      else return tt

  unfoldable pub compare_amounts :
      Provider → EventRow → Transaction → PaymentTransactionStatus → M (Unit {0})
  compare_amounts p row tx new =
      if is_plisio p
        && same_status new succeeded
        && amount_incomparable decimals tx.metadata row.payload
      then raise other
      else if has_amount_mismatch decimals p row tx new
      then audit tx.id amount_mismatch tx.status tx.status
      else return tt

  unfoldable pub process_transaction :
      Provider → EventRow → String → PaymentTransactionStatus → Transaction → M (Unit {0})
  process_transaction p row pid new tx =
      if is_plisio p && currency_mismatched texts tx.metadata row.payload
      then audit tx.id currency_mismatch tx.status tx.status >> conclude true
      else compare_amounts p row tx new
        >> apply_status p row tx pid (has_amount_mismatch decimals p row tx new) new
        >> conclude false

  unfoldable pub find_transaction : Provider → String → M Transaction
  find_transaction p pid =
      call (sv.read_transaction p pid) (transaction_read p pid) >>= optional_transaction

  unfoldable pub process_status :
      Provider → EventRow → Option PaymentTransactionStatus → M (Unit {0})
  process_status p row none = conclude false
  process_status p row (some new) = get_payment_id p row.payload >>= λ pid.
      if str_eq pid ""
      then conclude true
      else (find_transaction p pid >>= process_transaction p row pid new)

  unfoldable pub process_event : String → EventRow → M (Unit {0})
  process_event name row =
      get_provider name >>= λ p. process_status p row (map_event_to_state texts p row.event_type)

  unfoldable pub handle_error : String → EventRow → Error → M (Unit {0})
  handle_error name row error =
      if is_retryable error
      then record_webhook_failure name row.retry_count
      else mark_webhook_processed true

  unfoldable pub process_claimed_webhook_event : EventRow → M (Unit {0})
  process_claimed_webhook_event row =
      let name = texts.lower (texts.strip row.provider) in
      if str_eq name "" || str_eq (texts.strip row.event_id) ""
      then return tt
      else if sv.connected
      then try_except (process_event name row) (handle_error name row)
      else raise other
