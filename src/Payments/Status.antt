-- ===== src/Payments/Status.antt =====
-- api-web/app/payments/constants.py and payment_providers/: the states of a payment, and what a
-- provider's event makes of it. The text functions of Python are a parameter.
use Prim.Native.String.{String}
use text.Mathlib.Text.{◌==◌ as str_eq}
use ai_trading_backend.Common.{Bool, true, false, Option, none, some, List, [], ◌∷◌, if◌then◌else◌}

-- str.strip, str.lower, str.upper and str.replace
pub record Texts : Type 0 where
  pub strip : String → String
  pub lower : String → String
  pub upper : String → String
  pub replace : String → String → String → String

pub data PaymentTransactionStatus : Type 0 where
  pending processing succeeded failed cancelled refunded expired : PaymentTransactionStatus

abbrev pub same_status : PaymentTransactionStatus → PaymentTransactionStatus → Bool
same_status a b = elim a [
  | pending ↦ elim b [ pending ↦ true | _ ↦ false ]
  | processing ↦ elim b [ processing ↦ true | _ ↦ false ]
  | succeeded ↦ elim b [ succeeded ↦ true | _ ↦ false ]
  | failed ↦ elim b [ failed ↦ true | _ ↦ false ]
  | cancelled ↦ elim b [ cancelled ↦ true | _ ↦ false ]
  | refunded ↦ elim b [ refunded ↦ true | _ ↦ false ]
  | expired ↦ elim b [ expired ↦ true | _ ↦ false ]
]

abbrev pub is_terminal : PaymentTransactionStatus → Bool
is_terminal pending = false
is_terminal processing = false
is_terminal _ = true

-- The providers that webhooks come from.
pub data Provider : Type 0 where
  razorpay plisio : Provider

abbrev pub is_plisio : Provider → Bool
is_plisio razorpay = false
is_plisio plisio = true

-- A text or `None`, where an empty text counts as `None`.
abbrev pub text_or : Option String → String → String
text_or none other = other
text_or (some text) other = if str_eq text "" then other else text

abbrev pub find_status :
    List (String × PaymentTransactionStatus) → String → Option PaymentTransactionStatus
find_status [] key = none
find_status ((name, status) ∷ rest) key =
    if str_eq name key then some status else find_status rest key

abbrev plisio_mapping : List (String × PaymentTransactionStatus)
plisio_mapping =
    ("new", pending)
    ∷ ("pending", pending)
    ∷ ("waiting", pending)
    ∷ ("confirming", processing)
    ∷ ("completed", succeeded)
    ∷ ("success", succeeded)
    ∷ ("confirmed", succeeded)
    ∷ ("expired", expired)
    ∷ ("cancelled", cancelled)
    ∷ ("canceled", cancelled)
    ∷ ("failed", failed)
    ∷ ("error", failed)
    ∷ ("mismatch", failed)
    ∷ ("refunded", refunded)
    ∷ []

abbrev razorpay_mapping : List (String × PaymentTransactionStatus)
razorpay_mapping =
    ("subscription.created", pending)
    ∷ ("subscription.authenticated", processing)
    ∷ ("subscription.activated", succeeded)
    ∷ ("subscription.charged", succeeded)
    ∷ ("subscription.cancelled", cancelled)
    ∷ ("subscription.halted", failed)
    ∷ ("subscription.pending", pending)
    ∷ ("payment.captured", succeeded)
    ∷ ("payment.failed", failed)
    ∷ ("refund.processed", refunded)
    ∷ []

unfoldable pub map_event_to_state :
    Texts → Provider → Option String → Option PaymentTransactionStatus
map_event_to_state texts p none = none
map_event_to_state texts razorpay (some event_type) = find_status razorpay_mapping event_type
map_event_to_state texts plisio (some status) =
    if str_eq status "" then none else find_status plisio_mapping (texts.lower (texts.strip status))
