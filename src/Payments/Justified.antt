-- ===== src/Payments/Justified.antt =====
-- webhook_handler.py, a whole run: each event has its grounds.
use Prim.Native.String.{String}
use text.Mathlib.Text.{◌==◌ as str_eq}
use ai_trading_backend.Common.{
  ◌≡◌, ◌≢◌, ap, refl, true, false, ◌||◌, Option, none, some, List, [], ◌∷◌, Bool-cases, inl, inr, ℕ,
  leb, suc,
}
use ai_trading_backend.Payments.Status.{
  Texts, PaymentTransactionStatus, Provider, razorpay, plisio, text_or, map_event_to_state,
}
use ai_trading_backend.Payments.Trace.{
  Error, http, other, value, mark_processed, give_up, try_again, Event, transaction_read,
  row_written, dead_letter_notified, Services, M, ◌>>=◌,
}
use ai_trading_backend.Payments.Checks.{
  Decimals, Entity, no_subscription, no_entity, subscription, get_provider_webhook_policy,
}
use ai_trading_backend.Payments.Handler
use ai_trading_backend.Payments.Handler.{
  EventRow, has_amount_mismatch, may_update, status_or, optional_transaction, get_provider,
  is_retryable, get_payment_id, razorpay_payment_id, process_claimed_webhook_event,
}
use ai_trading_backend.Payments.Safe.{
  Justified, raise->>=-Safe, return->>=-Safe, >>=-Safe, try_except-Safe, if-Safe,
}
use ai_trading_backend.Payments.Grounds.{Ready, IsPaymentOf, name_of}
use ai_trading_backend.Payments.Named.{first_of, first_of-FirstOf, text_or-some, nonempty}
use ai_trading_backend.Payments.Activation.{IsSafe, quiet, bind, done, stop}
use ai_trading_backend.Payments.Transition.{
  conclude-Safe, process_transaction-Safe, find_transaction-Safe,
}

module _ (texts : Texts) (decimals : Decimals) (row : EventRow) (sv : Services) where
  razorpay_payment_id-then :
      (entity : Entity) (f : String → M (Unit {0}))
      → ((pid : String)
          → (pid ≢ "" → entity ≡ subscription (some pid))
          → IsSafe texts decimals row sv [] (f pid))
      → IsSafe texts decimals row sv [] (razorpay_payment_id entity >>= f)
  razorpay_payment_id-then no_subscription f each =
      return->>=-Safe (Ready texts decimals row sv) [] "" f (λ u. [])
        (each "" (λ h. absurd (h refl)))
  razorpay_payment_id-then no_entity f each =
      raise->>=-Safe (Ready texts decimals row sv) [] other f (λ u. [])
  razorpay_payment_id-then (subscription id) f each =
      return->>=-Safe (Ready texts decimals row sv) [] (text_or id "") f (λ u. [])
        (each (text_or id "") (λ h. ap subscription (text_or-some id h)))

  -- What follows get_payment_id may take it that the id, where it is not empty, is the payload's.
  get_payment_id-then :
      (p : Provider) (f : String → M (Unit {0}))
      → ((pid : String)
          → (pid ≢ "" → IsPaymentOf p row.payload pid)
          → IsSafe texts decimals row sv [] (f pid))
      → IsSafe texts decimals row sv [] (get_payment_id p row.payload >>= f)
  unfolding get_payment_id
  get_payment_id-then razorpay f each =
      razorpay_payment_id-then row.payload.entity f (λ pid named. each pid (λ h. (h, named h)))
  get_payment_id-then plisio f each =
      let fields =
        row.payload.order_number ∷ row.payload.invoice_id ∷ row.payload.txn_id ∷ row.payload.id
        ∷ [] in
      return->>=-Safe (Ready texts decimals row sv) [] (first_of fields) f (λ u. [])
        (each (first_of fields) (λ h. (h, first_of-FirstOf fields h)))

  process_status-Safe :
      (p : Provider) (new : Option PaymentTransactionStatus)
      → str_eq (texts.lower (texts.strip row.provider)) (name_of p) ≡ true
      → map_event_to_state texts p row.event_type ≡ new
      → IsSafe texts decimals row sv [] (Handler.process_status texts decimals sv p row new)
  unfolding Handler.process_status
  process_status-Safe p none sender mapped = conclude-Safe texts decimals row sv [] false
  process_status-Safe p (some new) sender mapped = get_payment_id-then p _ (λ pid named.
      if-Safe (Ready texts decimals row sv) [] (str_eq pid "") _ _ (λ u. [])
        (λ e. conclude-Safe texts decimals row sv [] true)
        (λ e.
          >>=-Safe (Ready texts decimals row sv) []
            (Handler.find_transaction texts decimals sv p pid) _
            (λ tx. transaction_read p pid (value (some tx)) ∷ []) (λ u. [])
            (find_transaction-Safe texts decimals row sv [] p pid)
            (λ tx.
              process_transaction-Safe texts decimals row sv p pid new tx
                (transaction_read p pid (value (some tx)) ∷ [])
                (λ currency t known. record {
                  sender = sender;
                  mapped = mapped;
                  read = known.0;
                  payment = named (nonempty pid e);
                  currency = currency;
                }))))

  get_provider-then :
      (name : String) (f : Provider → M (Unit {0}))
      → ((p : Provider) → str_eq name (name_of p) ≡ true → IsSafe texts decimals row sv [] (f p))
      → IsSafe texts decimals row sv [] (get_provider name >>= f)
  get_provider-then name f each = elim (Bool-cases (str_eq name "razorpay")) [
    | inl e ↦
        rw e
          (return->>=-Safe (Ready texts decimals row sv) [] razorpay f (λ u. []) (each razorpay e))
    | inr e ↦ elim (Bool-cases (str_eq name "plisio")) [
      | inl m ↦
          rw (e, m)
            (return->>=-Safe (Ready texts decimals row sv) [] plisio f (λ u. []) (each plisio m))
      | inr m ↦ rw (e, m) (raise->>=-Safe (Ready texts decimals row sv) [] (http 400) f (λ u. []))
    ]
  ]

  record_webhook_failure-Safe :
      (facts : List Event) (name : String) (count : ℕ)
      → IsSafe texts decimals row sv facts
          (Handler.record_webhook_failure texts decimals sv name count)
  unfolding Handler.record_webhook_failure
  record_webhook_failure-Safe facts name count =
      if-Safe (Ready texts decimals row sv) facts
        (leb (get_provider_webhook_policy name).max_retries (suc count)) _ _ (λ u. [])
        (λ e.
          bind texts decimals row sv facts _ _
            (quiet texts decimals row sv facts (sv.write_row (give_up (suc count)))
              (row_written (give_up (suc count))) (λ t known. tt))
            (λ u.
              quiet texts decimals row sv facts (sv.notify_dead_letter (suc count))
                (dead_letter_notified (suc count)) (λ t known. tt)))
        (λ e.
          quiet texts decimals row sv facts (sv.write_row (try_again (suc count) count))
            (row_written (try_again (suc count) count)) (λ t known. tt))

  handle_error-Safe :
      (name : String) (error : Error)
      → IsSafe texts decimals row sv [] (Handler.handle_error texts decimals sv name row error)
  unfolding Handler.handle_error Handler.mark_webhook_processed
  handle_error-Safe name error =
      if-Safe (Ready texts decimals row sv) [] (is_retryable error) _ _ (λ u. [])
        (λ e. record_webhook_failure-Safe [] name row.retry_count)
        (λ e.
          quiet texts decimals row sv [] (sv.write_row (mark_processed true))
            (row_written (mark_processed true)) (λ t known. tt))

  process_claimed_webhook_event-Safe :
      IsSafe texts decimals row sv [] (process_claimed_webhook_event texts decimals sv row)
  unfolding process_claimed_webhook_event Handler.process_event
  process_claimed_webhook_event-Safe =
      let name = texts.lower (texts.strip row.provider) in
      if-Safe (Ready texts decimals row sv) []
        (str_eq name "" || str_eq (texts.strip row.event_id) "") _ _ (λ u. [])
        (λ e. done texts decimals row sv [] tt)
        (λ e.
          if-Safe (Ready texts decimals row sv) [] sv.connected _ _ (λ u. [])
            (λ ready.
              try_except-Safe (Ready texts decimals row sv) [] _ _ (λ u. [])
                (get_provider-then name _ (λ p sender.
                  process_status-Safe p (map_event_to_state texts p row.event_type) sender refl))
                (handle_error-Safe name))
            (λ absent. stop texts decimals row sv [] other))

  -- Whatever the services answer, and whatever fails: each step of a run of process_claimed_webhook_event has
  -- its grounds at the time it is made. A status is changed only of a transaction that has been read by the
  -- event's provider and by the id of the payment that its payload names (Razorpay's subscription id, or the
  -- first that is not blank of Plisio's order number, invoice id, transaction id and id), to the status that the event stands for, from the status read, where the rules allow that
  -- change, and only when the currencies are the agreed ones. A subscription is renewed or created only when,
  -- besides, the event stands for success, the status has then been read as succeeded (or no row was read and
  -- it was so before), the amounts are the agreed ones, and the subscription has no id or has been read as not
  -- active; it is renewed for the transaction's own subscription, and created for its user with a plan. A
  -- referral reward is evaluated only for a transaction that has been read as succeeded, and revoked only for
  -- one that has been read as refunded, each on an event that stands for that.
  pub process_claimed_webhook_event-Justified :
      Justified
        (Ready texts decimals row sv)
        (process_claimed_webhook_event texts decimals sv row []).0
  process_claimed_webhook_event-Justified = (process_claimed_webhook_event-Safe.run [] tt tt).0
