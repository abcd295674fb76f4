-- ===== src/Payments/Trace.antt =====
-- What webhook_handler.py calls, and the computations that call it. A run leaves a trace, the newest
-- event first: each call with its answer or error. The services answer as they like: an answer may
-- depend on all that the run has done, and on what others do meanwhile.
use Prim.Native.String.{String}
use ai_trading_backend.Common.{ℕ, Bool, Option, List, ◌∷◌}
use ai_trading_backend.Payments.Status.{PaymentTransactionStatus, Provider}

-- HTTPException with its status code, or any other exception. Their texts are left out.
pub data Error : Type 0 where
  http : ℕ → Error
  other : Error

pub data Outcome {ℓ} (A : Type ℓ) : Type ℓ where
  value : A → Outcome A
  raised : Error → Outcome A

-- The metadata of a transaction, as far as the handler reads it; a field that is missing is `none`.
pub record Metadata : Type 0 where
  pub plisio_expected_currency : Option String
  pub plisio_expected_source_currency : Option String
  pub plisio_expected_amount : Option String
  pub plisio_expected_source_amount : Option String
  pub checkout_amount : Option String
  pub checkout_source_amount : Option String
  pub renewal_intent : Bool
  pub plan_id : Option String

-- A row of payment_transactions.
pub record Transaction : Type 0 where
  pub id : String
  pub user_id : String
  pub status : PaymentTransactionStatus
  pub subscription_id : Option String
  pub metadata : Metadata

-- The reasons in payment_audit_logs; `state_change` has none.
pub data Audit : Type 0 where
  state_change currency_mismatch amount_mismatch activation_blocked activation_retry : Audit

-- The writes of the event's own row: processed, with an error or not; a failure that ends the retries,
-- and one that is tried again, with the count and after how many failures the delay is computed.
pub data RowWrite : Type 0 where
  mark_processed : Bool → RowWrite
  give_up : ℕ → RowWrite
  try_again : ℕ → ℕ → RowWrite

pub data Event : Type 0 where
  -- A read by the payment's id and the provider.
  transaction_read : Provider → String → Outcome (Option Transaction) → Event
  audited :
      String
      → Audit
      → PaymentTransactionStatus
      → PaymentTransactionStatus
      → Outcome (Unit {0})
      → Event
  -- The update of the status where it is still the second one; whether a row was changed.
  status_swapped :
      String → PaymentTransactionStatus → PaymentTransactionStatus → Outcome Bool → Event
  status_read : String → Outcome (Option PaymentTransactionStatus) → Event
  -- Whether the subscription's status is "active".
  subscription_read : String → Outcome Bool → Event
  -- renew_subscription, and whether it answers `True`
  renewed : String → String → Outcome Bool → Event
  plan_read : String → Outcome (Option String) → Event
  -- create_subscription, and the new id
  created : String → String → String → Outcome String → Event
  linked : String → String → Outcome (Unit {0}) → Event
  permissions_updated : String → Outcome (Unit {0}) → Event
  retry_flagged : String → Outcome (Unit {0}) → Event
  reward_evaluated : String → String → Outcome (Unit {0}) → Event
  reward_revoked : String → String → Outcome (Unit {0}) → Event
  row_written : RowWrite → Outcome (Unit {0}) → Event
  cache_hinted : Outcome (Unit {0}) → Event
  dead_letter_notified : ℕ → Outcome (Unit {0}) → Event

abbrev pub Trace : Type 0
Trace = List Event

-- The services: what each call answers after a trace.
pub record Services : Type 0 where
  -- Whether get_supabase_client returns.
  pub connected : Bool
  pub read_transaction : Provider → String → Trace → Outcome (Option Transaction)
  pub audit : String → Audit → Trace → Outcome (Unit {0})
  pub swap_status :
      String → PaymentTransactionStatus → PaymentTransactionStatus → Trace → Outcome Bool
  pub read_status : String → Trace → Outcome (Option PaymentTransactionStatus)
  pub read_subscription : String → Trace → Outcome Bool
  pub renew_subscription : String → String → Trace → Outcome Bool
  pub is_uuid : String → Bool
  pub read_plan : String → Trace → Outcome (Option String)
  pub create_subscription : String → String → String → Trace → Outcome String
  pub link : String → String → Trace → Outcome (Unit {0})
  pub update_permissions : String → Trace → Outcome (Unit {0})
  pub flag_retry : String → Trace → Outcome (Unit {0})
  pub evaluate_reward : String → String → Trace → Outcome (Unit {0})
  pub revoke_reward : String → String → Trace → Outcome (Unit {0})
  pub write_row : RowWrite → Trace → Outcome (Unit {0})
  pub cache_hint : Trace → Outcome (Unit {0})
  pub notify_dead_letter : ℕ → Trace → Outcome (Unit {0})

abbrev pub M : Type 0 → Type 0
M A = Trace → Trace × Outcome A

abbrev pub then_at : {A B : Type 0} → (A → M B) → Trace × Outcome A → Trace × Outcome B
then_at f (t, value a) = f a t
then_at f (t, raised e) = (t, raised e)

infixl 5 ◌>>=◌ ◌>>◌
unfoldable pub ◌>>=◌ : {A B : Type 0} → M A → (A → M B) → M B
◌>>=◌ m f t = then_at f (m t)

abbrev pub ◌>>◌ : {B : Type 0} → M (Unit {0}) → M B → M B
m >> k = m >>= λ _. k

unfoldable pub return : {A : Type 0} → A → M A
return a t = (t, value a)

unfoldable pub raise : {A : Type 0} → Error → M A
raise e t = (t, raised e)

unfoldable pub call : {A : Type 0} → (Trace → Outcome A) → (Outcome A → Event) → M A
call ask event t = (event (ask t) ∷ t, ask t)

abbrev pub recover_at : {A : Type 0} → (Error → M A) → Trace × Outcome A → Trace × Outcome A
recover_at handler (t, value a) = (t, value a)
recover_at handler (t, raised e) = handler e t

-- `try … except`
unfoldable pub try_except : {A : Type 0} → M A → (Error → M A) → M A
try_except body handler t = recover_at handler (body t)
