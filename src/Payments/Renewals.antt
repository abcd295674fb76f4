-- ===== src/Payments/Renewals.antt =====
-- webhook_handler.py: what becomes of a payment for a subscription that is still active.
use Prim.Native.String.{String}
use ai_trading_backend.Common.{In, ℕ, suc, ◌≡◌, refl, ap, ◌∙◌, inl, inr, true, false, [], ◌∷◌}
use text.Mathlib.Text.{◌==◌ as str_eq}
use mathlib.Core.Path.{subst}
use ai_trading_backend.Payments.Status.{Texts}
use ai_trading_backend.Payments.Trace.{value, Event, subscription_read, renewed, Services, Trace}
use ai_trading_backend.Payments.Checks.{Decimals}
use ai_trading_backend.Payments.Handler.{EventRow, process_claimed_webhook_event}
use ai_trading_backend.Payments.Safe.{Justified}
use ai_trading_backend.Payments.Grounds.{Ready}
use ai_trading_backend.Payments.Justified.{process_claimed_webhook_event-Justified}

-- How often renew_subscription is called.
abbrev pub renewals : Trace → ℕ
renewals [] = 0
renewals (renewed sub id r ∷ t) = suc (renewals t)
renewals (_ ∷ t) = renewals t

module _ (texts : Texts) (decimals : Decimals) (row : EventRow) (sv : Services)
    (active : (id : String) (t : Trace) → sv.read_subscription id t ≡ value true) where
  never_inactive :
      (id : String) (t : Trace)
      → Justified (Ready texts decimals row sv) t
      → In (subscription_read id (value false)) t
      → ⊥
  never_inactive id [] ok seen = elim seen [ ]
  never_inactive id (e ∷ t) ok (inl same) =
      let answer : value false ≡ sv.read_subscription id t =
        subst (λ x. Ready texts decimals row sv x t) same ok.0 in
      let always = active id t in absurd (cc)
  never_inactive id (e ∷ t) ok (inr seen) = never_inactive id t ok.1 seen

  no_renewal :
      (e : Event) (t : Trace)
      → Ready texts decimals row sv e t
      → Justified (Ready texts decimals row sv) t
      → renewals (e ∷ t) ≡ renewals t
  no_renewal (renewed sub id r) t (p, pid, tx, payable, same_id, same_sub, some_sub) ok =
      elim payable.inactive [
        | inl no_sub ↦ let named = ap (λ s. str_eq s "") same_sub in absurd (cc)
        | inr seen ↦ absurd (never_inactive _ t ok seen)
      ]
  no_renewal _ t ready ok = refl

  Justified-renewals : (t : Trace) → Justified (Ready texts decimals row sv) t → renewals t ≡ 0
  Justified-renewals [] ok = refl
  Justified-renewals (e ∷ t) ok = no_renewal e t ok.0 ok.1 ∙ Justified-renewals t ok.1

  -- While each read of a subscription says that it is active, no run of process_claimed_webhook_event calls
  -- renew_subscription: a payment for the next period that succeeds before the subscription has run out does
  -- not prolong it.
  pub process_claimed_webhook_event-renewals :
      renewals (process_claimed_webhook_event texts decimals sv row []).0 ≡ 0
  process_claimed_webhook_event-renewals =
      Justified-renewals (process_claimed_webhook_event texts decimals sv row []).0
        (process_claimed_webhook_event-Justified texts decimals row sv)
