-- ===== src/Payments/Grounds.antt =====
-- When webhook_handler.py may touch a payment: what a run has read before it changes a status, renews or
-- creates a subscription, or pays out or takes back a referral reward.
use Prim.Native.String.{String}
use text.Mathlib.Text.{◌==◌ as str_eq}
use ai_trading_backend.Common.{
  In, ◌≡◌, ◌≢◌, ◌⊎◌, true, false, ◌&&◌, Option, none, some, List, [], ◌∷◌,
}
use ai_trading_backend.Payments.Status.{
  Texts, PaymentTransactionStatus, succeeded, refunded, same_status, Provider, razorpay, plisio,
  is_plisio, text_or, map_event_to_state,
}
use ai_trading_backend.Payments.Trace.{
  value, Transaction, Event, transaction_read, status_swapped, status_read, subscription_read,
  renewed, created, reward_evaluated, reward_revoked, Services, Trace,
}
use ai_trading_backend.Payments.Checks.{Decimals, Payload, subscription, currency_mismatched}
use ai_trading_backend.Payments.Handler.{EventRow, may_update, status_or, has_amount_mismatch}

abbrev pub name_of : Provider → String
name_of razorpay = "razorpay"
name_of plisio = "plisio"

-- A field that is missing or empty.
abbrev pub Blank : Option String → Type 0
Blank field = (field ≡ none) ⊎ (field ≡ some "")

-- The text of the first field that is not blank.
abbrev pub FirstOf : List (Option String) → String → Type 0
FirstOf [] text = ⊥
FirstOf (field ∷ fields) text = (field ≡ some text) ⊎ (Blank field × FirstOf fields text)

-- A payload names a payment: Razorpay's by the id of its subscription, Plisio's by the first that is not blank
-- of the order number, the invoice id, the transaction id and the id.
abbrev pub IsPaymentOf : Provider → Payload → String → Type 0
IsPaymentOf razorpay payload pid = (pid ≢ "") × (payload.entity ≡ subscription (some pid))
IsPaymentOf plisio payload pid =
    (pid ≢ "")
    × FirstOf (payload.order_number ∷ payload.invoice_id ∷ payload.txn_id ∷ payload.id ∷ []) pid

module _ (texts : Texts) (decimals : Decimals) (row : EventRow) where
  -- The run has found the transaction of the event, whose provider says that it is `wanted`, in the
  -- currencies that were agreed.
  pub record Found (p : Provider) (pid : String) (tx : Transaction)
      (wanted : PaymentTransactionStatus) (t : Trace) : Type 0 where
    pub sender : str_eq (texts.lower (texts.strip row.provider)) (name_of p) ≡ true
    pub mapped : map_event_to_state texts p row.event_type ≡ some wanted
    pub read : In (transaction_read p pid (value (some tx))) t
    pub payment : IsPaymentOf p row.payload pid
    pub currency : (is_plisio p && currency_mismatched texts tx.metadata row.payload) ≡ false

  -- It has also read that the transaction has come to that state.
  pub record Reached (p : Provider) (pid : String) (tx : Transaction)
      (wanted : PaymentTransactionStatus) (t : Trace) : Type 0 where
    pub found : Found p pid tx wanted t
    pub latest : Option PaymentTransactionStatus
    pub seen : In (status_read tx.id (value latest)) t
    pub reached : same_status (status_or tx.status latest) wanted ≡ true

  -- The transaction names no subscription, or the run has read that it is not active.
  abbrev pub Inactive : Transaction → Trace → Type 0
  Inactive tx t =
      (str_eq (text_or tx.subscription_id "") "" ≡ true)
      ⊎ In (subscription_read (text_or tx.subscription_id "") (value false)) t

  -- The amounts are the agreed ones, too, and there is a subscription to be made.
  pub record Payable (p : Provider) (pid : String) (tx : Transaction) (t : Trace) : Type 0 where
    pub paid : Reached p pid tx succeeded t
    pub amount : has_amount_mismatch decimals p row tx succeeded ≡ false
    pub inactive : Inactive tx t

  abbrev pub Ready : Services → Event → Trace → Type 0
  Ready sv (status_swapped id old new r) t =
      (p : Provider) × (pid : String) × (tx : Transaction) × Found p pid tx new t
      × (id ≡ tx.id)
      × (old ≡ tx.status)
      × (may_update p row old new ≡ true)
  Ready sv (renewed sub id r) t =
      (p : Provider) × (pid : String) × (tx : Transaction) × Payable p pid tx t
      × (id ≡ tx.id)
      × (sub ≡ text_or tx.subscription_id "")
      × (str_eq sub "" ≡ false)
  Ready sv (created user plan pid r) t =
      (p : Provider) × (tx : Transaction) × Payable p pid tx t
      × (user ≡ tx.user_id)
      × (str_eq plan "" ≡ false)
  Ready sv (reward_evaluated user id r) t =
      (p : Provider) × (pid : String) × (tx : Transaction) × Reached p pid tx succeeded t
      × (id ≡ tx.id)
      × (user ≡ tx.user_id)
  Ready sv (reward_revoked id event_id r) t =
      (p : Provider) × (pid : String) × (tx : Transaction) × Reached p pid tx refunded t
      × (id ≡ tx.id)
  Ready sv (subscription_read id r) t = r ≡ sv.read_subscription id t
  Ready sv _ t = Unit {0}
