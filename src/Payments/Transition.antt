-- ===== src/Payments/Transition.antt =====
-- webhook_handler.py, from the transaction to its end: each event has its grounds.
use Prim.Native.String.{String}
use ai_trading_backend.Common.{
  ◌≡◌, refl, sym, Bool, true, false, ◌&&◌, Option, none, some, List, [], ◌∷◌, arith,
}
use mathlib.Core.Path.{subst}
use ai_trading_backend.Payments.Status.{
  Texts, PaymentTransactionStatus, succeeded, refunded, same_status, Provider, is_plisio,
}
use ai_trading_backend.Payments.Trace.{
  http, other, value, Transaction, state_change, currency_mismatch, amount_mismatch,
  activation_blocked, mark_processed, Event, transaction_read, status_swapped, status_read,
  row_written, cache_hinted, Services, Trace, call,
}
use ai_trading_backend.Payments.Checks.{Decimals, currency_mismatched, amount_incomparable}
use ai_trading_backend.Payments.Handler
use ai_trading_backend.Payments.Handler.{
  EventRow, has_amount_mismatch, may_update, status_or, optional_transaction, get_provider,
  is_retryable, get_payment_id, razorpay_payment_id, process_claimed_webhook_event,
}
use ai_trading_backend.Payments.Safe.{
  Knows, Safe, return-Safe, raise-Safe, call-Safe, >>=-Safe, if-Safe,
}
use ai_trading_backend.Payments.Grounds.{Ready, Found, Reached}
use ai_trading_backend.Payments.Activation.{
  IsSafe, quiet, bind, done, stop, audit-Safe, activate_subscription-Safe, evaluate_referral-Safe,
  revoke_referral-Safe,
}

same_status-eq : (a b : PaymentTransactionStatus) → same_status a b ≡ true → a ≡ b
same_status-eq a b e = ground arith

both : {a b : Bool} → (a && b) ≡ true → (a ≡ true) × (b ≡ true)
both e = ground arith

module _ (texts : Texts) (decimals : Decimals) (row : EventRow) (sv : Services) where
  -- What the run knows of the transaction it works on.
  abbrev pub IsFound :
      Provider → String → Transaction → PaymentTransactionStatus → List Event → Type 0
  IsFound p pid tx new facts = (t : Trace) → Knows facts t → Found texts decimals row p pid tx new t

  update_status-Safe :
      (p : Provider) (pid : String) (tx : Transaction) (new : PaymentTransactionStatus)
      (facts : List Event)
      → IsFound p pid tx new facts
      → may_update p row tx.status new ≡ true
      → Safe
          (Ready texts decimals row sv)
          facts
          (Handler.update_status texts decimals sv tx new)
          (λ latest. status_read tx.id (value latest) ∷ [])
  unfolding Handler.update_status
  update_status-Safe p pid tx new facts found may =
      >>=-Safe (Ready texts decimals row sv) facts
        (call (sv.swap_status tx.id tx.status new) (status_swapped tx.id tx.status new)) _ (λ u. [])
        (λ latest. status_read tx.id (value latest) ∷ [])
        (quiet texts decimals row sv facts (sv.swap_status tx.id tx.status new)
          (status_swapped tx.id tx.status new)
          (λ t known. (p, pid, tx, found t known, refl, refl, may)))
        (λ updated.
          >>=-Safe (Ready texts decimals row sv) facts
            (call (sv.read_status tx.id) (status_read tx.id)) _
            (λ latest. status_read tx.id (value latest) ∷ [])
            (λ latest. status_read tx.id (value latest) ∷ [])
            (call-Safe (Ready texts decimals row sv) facts (sv.read_status tx.id)
              (status_read tx.id) (λ t known. tt))
            (λ latest.
              let more = status_read tx.id (value latest) ∷ facts in
              >>=-Safe (Ready texts decimals row sv) more _ _ (λ u. [])
                (λ l. status_read tx.id (value l) ∷ [])
                (if-Safe (Ready texts decimals row sv) more updated _ _ (λ u. [])
                  (λ e. audit-Safe texts decimals row sv more tx.id state_change tx.status new)
                  (λ e. done texts decimals row sv more tt))
                (λ u.
                  return-Safe (Ready texts decimals row sv) more latest
                    (λ l. status_read tx.id (value l) ∷ []) (λ t known. (known.0, tt)))))

  follow_success-Safe :
      (p : Provider) (pid : String) (tx : Transaction) (facts : List Event)
      → ((t : Trace) → Knows facts t → Reached texts decimals row p pid tx succeeded t)
      → IsSafe texts decimals row sv facts (
          Handler.follow_success texts decimals sv p row tx pid
            (has_amount_mismatch decimals p row tx succeeded))
  unfolding Handler.follow_success
  follow_success-Safe p pid tx facts paid =
      bind texts decimals row sv facts _ _
        (if-Safe (Ready texts decimals row sv) facts
          (has_amount_mismatch decimals p row tx succeeded) _ _ (λ u. [])
          (λ e. audit-Safe texts decimals row sv facts tx.id activation_blocked succeeded succeeded)
          (λ e. activate_subscription-Safe texts decimals row sv p pid tx facts paid e))
        (λ u. evaluate_referral-Safe texts decimals row sv p pid tx facts paid)

  Reached-in :
      (p : Provider) (pid : String) (tx : Transaction) (new wanted : PaymentTransactionStatus)
      (facts : List Event) (latest : Option PaymentTransactionStatus)
      → IsFound p pid tx new facts
      → new ≡ wanted
      → same_status (status_or tx.status latest) wanted ≡ true
      → (t : Trace) → Knows (status_read tx.id (value latest) ∷ facts) t
      → Reached texts decimals row p pid tx wanted t
  Reached-in p pid tx new wanted facts latest found same read t known = record {
    found = subst (λ w. Found texts decimals row p pid tx w t) same (found t known.1);
    latest = latest;
    seen = known.0;
    reached = read;
  }

  apply_status-Safe :
      (p : Provider) (pid : String) (tx : Transaction) (new : PaymentTransactionStatus)
      (facts : List Event)
      → IsFound p pid tx new facts
      → IsSafe texts decimals row sv facts (
          Handler.apply_status texts decimals sv p row tx pid
            (has_amount_mismatch decimals p row tx new)
            new)
  unfolding Handler.apply_status
  apply_status-Safe p pid tx new facts found =
      if-Safe (Ready texts decimals row sv) facts (may_update p row tx.status new) _ _ (λ u. [])
        (λ may.
          >>=-Safe (Ready texts decimals row sv) facts
            (Handler.update_status texts decimals sv tx new) _
            (λ latest. status_read tx.id (value latest) ∷ []) (λ u. [])
            (update_status-Safe p pid tx new facts found may)
            (λ latest.
              let more = status_read tx.id (value latest) ∷ facts in
              bind texts decimals row sv more _ _
                (if-Safe (Ready texts decimals row sv) more
                  (same_status new succeeded && same_status (status_or tx.status latest) succeeded)
                  _ _ (λ u. [])
                  (λ e.
                    let same : new ≡ succeeded = same_status-eq new succeeded (both e).0 in
                    subst
                      (λ w. IsSafe texts decimals row sv more (
                        Handler.follow_success texts decimals sv p row tx pid
                          (has_amount_mismatch decimals p row tx w)))
                      (sym same)
                      (follow_success-Safe p pid tx more
                        (Reached-in p pid tx new succeeded facts latest found same (both e).1)))
                  (λ e. done texts decimals row sv more tt))
                (λ u.
                  if-Safe (Ready texts decimals row sv) more
                    (same_status new refunded && same_status (status_or tx.status latest) refunded)
                    _ _ (λ u. [])
                    (λ e. revoke_referral-Safe texts decimals row sv p pid tx more (
                      Reached-in p pid tx new refunded facts latest found
                        (same_status-eq new refunded (both e).0) (both e).1))
                    (λ e. done texts decimals row sv more tt))))
        (λ may. done texts decimals row sv facts tt)

  pub conclude-Safe :
      (facts : List Event) (error : Bool)
      → IsSafe texts decimals row sv facts (Handler.conclude texts decimals sv error)
  unfolding Handler.conclude Handler.mark_webhook_processed Handler.set_webhook_cache_hint
  conclude-Safe facts error =
      bind texts decimals row sv facts _ _
        (quiet texts decimals row sv facts (sv.write_row (mark_processed error))
          (row_written (mark_processed error)) (λ t known. tt))
        (λ u. quiet texts decimals row sv facts sv.cache_hint cache_hinted (λ t known. tt))

  compare_amounts-Safe :
      (p : Provider) (new : PaymentTransactionStatus) (tx : Transaction) (facts : List Event)
      → IsSafe texts decimals row sv facts (Handler.compare_amounts texts decimals sv p row tx new)
  unfolding Handler.compare_amounts
  compare_amounts-Safe p new tx facts =
      if-Safe (Ready texts decimals row sv) facts
        (is_plisio p
          && same_status new succeeded
          && amount_incomparable decimals tx.metadata row.payload)
        _ _ (λ u. []) (λ e. stop texts decimals row sv facts other)
        (λ e.
          if-Safe (Ready texts decimals row sv) facts (has_amount_mismatch decimals p row tx new) _
            _ (λ u. [])
            (λ m. audit-Safe texts decimals row sv facts tx.id amount_mismatch tx.status tx.status)
            (λ m. done texts decimals row sv facts tt))

  pub process_transaction-Safe :
      (p : Provider) (pid : String) (new : PaymentTransactionStatus) (tx : Transaction)
      (facts : List Event)
      → ((is_plisio p && currency_mismatched texts tx.metadata row.payload) ≡ false
          → IsFound p pid tx new facts)
      → IsSafe texts decimals row sv facts
          (Handler.process_transaction texts decimals sv p row pid new tx)
  unfolding Handler.process_transaction
  process_transaction-Safe p pid new tx facts found =
      if-Safe (Ready texts decimals row sv) facts
        (is_plisio p && currency_mismatched texts tx.metadata row.payload) _ _ (λ u. [])
        (λ e.
          bind texts decimals row sv facts _ _
            (audit-Safe texts decimals row sv facts tx.id currency_mismatch tx.status tx.status)
            (λ u. conclude-Safe facts true))
        (λ e.
          bind texts decimals row sv facts _ _
            (bind texts decimals row sv facts _ _ (compare_amounts-Safe p new tx facts)
              (λ u. apply_status-Safe p pid tx new facts (found e)))
            (λ u. conclude-Safe facts false))

  found_or_not :
      (facts : List Event) (p : Provider) (pid : String) (o : Option Transaction)
      → Safe
          (Ready texts decimals row sv)
          (transaction_read p pid (value o) ∷ facts)
          (optional_transaction o)
          (λ tx. transaction_read p pid (value (some tx)) ∷ [])
  found_or_not facts p pid none = raise-Safe (Ready texts decimals row sv) _ (http 404) _
  found_or_not facts p pid (some tx) =
      return-Safe (Ready texts decimals row sv) (transaction_read p pid (value (some tx)) ∷ facts)
        tx (λ x. transaction_read p pid (value (some x)) ∷ []) (λ t known. (known.0, tt))

  pub find_transaction-Safe :
      (facts : List Event) (p : Provider) (pid : String)
      → Safe
          (Ready texts decimals row sv)
          facts
          (Handler.find_transaction texts decimals sv p pid)
          (λ tx. transaction_read p pid (value (some tx)) ∷ [])
  unfolding Handler.find_transaction
  find_transaction-Safe facts p pid =
      >>=-Safe (Ready texts decimals row sv) facts
        (call (sv.read_transaction p pid) (transaction_read p pid)) _
        (λ o. transaction_read p pid (value o) ∷ [])
        (λ tx. transaction_read p pid (value (some tx)) ∷ [])
        (call-Safe (Ready texts decimals row sv) facts (sv.read_transaction p pid)
          (transaction_read p pid) (λ t known. tt))
        (λ o. found_or_not facts p pid o)
