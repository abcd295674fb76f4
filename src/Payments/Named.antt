-- ===== src/Payments/Named.antt =====
-- webhook_handler.py, the payment that an event names: what get_payment_id answers.
use Prim.Native.String.{String}
use text.Mathlib.Text.{◌==◌ as str_eq}
use text.Mathlib.TextEquality.{eq_iff}
use mathlib.Core.Path.{subst}
use ai_trading_backend.Common.{
  ◌≡◌, ◌≢◌, refl, sym, ap, ◌∙◌, ◌⊎◌, inl, inr, true, false, Option, none, some, List, [], ◌∷◌,
  Bool-cases, arith,
}
use ai_trading_backend.Payments.Status.{text_or}
use ai_trading_backend.Payments.Grounds.{Blank, FirstOf}

text_or-cases :
    (field : Option String) (other : String)
    → (Blank field × (text_or field other ≡ other)) ⊎ (field ≡ some (text_or field other))
text_or-cases none other = inl (inl refl, refl)
text_or-cases (some text) other = elim (Bool-cases (str_eq text "")) [
  | inl e ↦ inl (inr (ap some ((eq_iff text "").0 e)), rw e refl)
  | inr e ↦ inr (rw e refl)
]

abbrev pub first_of : List (Option String) → String
first_of [] = ""
first_of (field ∷ fields) = text_or field (first_of fields)

pub first_of-FirstOf :
    (fields : List (Option String)) → first_of fields ≢ "" → FirstOf fields (first_of fields)
first_of-FirstOf [] h = absurd (h refl)
first_of-FirstOf (field ∷ fields) h = elim (text_or-cases field (first_of fields)) [
  | inl (blank, same) ↦
      subst (FirstOf (field ∷ fields)) (sym same)
        (inr (blank, first_of-FirstOf fields (λ e. h (same ∙ e))))
  | inr e ↦ inl e
]

pub text_or-some : (field : Option String) → text_or field "" ≢ "" → field ≡ some (text_or field "")
text_or-some field h = elim (text_or-cases field "") [
  | inl (blank, same) ↦ absurd (h same)
  | inr e ↦ e
]

pub nonempty : (text : String) → str_eq text "" ≡ false → text ≢ ""
nonempty text h e = let same : str_eq text "" ≡ true = (eq_iff text "").1 e in absurd (ground arith)
