-- ===== src/Payments/Settled.antt =====
-- webhook_handler.py, the row of webhook_events: what a run leaves of it, and how often a row is claimed.
use Prim.Native.String.{String}
use text.Mathlib.Text.{◌==◌ as str_eq}
use ai_trading_backend.Common.{
  ℕ, suc, ◌<◌, ◌≡◌, refl, ◌⊎◌, inl, inr, Bool, true, false, ◌&&◌, ◌||◌, Option, none, some, [], ◌∷◌,
  leb, if◌then◌else◌, arith,
}
use ai_trading_backend.Payments.Status.{
  Texts, PaymentTransactionStatus, Provider, is_plisio, map_event_to_state,
}
use ai_trading_backend.Payments.Trace.{
  Error, other, Outcome, value, raised, Transaction, RowWrite, mark_processed, give_up, try_again,
  Event, row_written, cache_hinted, dead_letter_notified, Services, Trace, M, then_at, recover_at,
  ◌>>=◌, ◌>>◌, raise, call, try_except,
}
use ai_trading_backend.Payments.Checks.{Decimals, currency_mismatched, get_provider_webhook_policy}
use ai_trading_backend.Payments.Handler
use ai_trading_backend.Payments.Handler.{
  EventRow, get_provider, get_payment_id, is_retryable, process_claimed_webhook_event,
}

-- What is read in the row: whether it is being processed, whether it is done, and how often it failed.
pub record RowState : Type 0 where
  pub processing : Bool
  pub processed : Bool
  pub retry_count : ℕ

abbrev pub written : RowWrite → RowState → RowState
written (mark_processed error) s = record s { processing = false; processed = true }
written (give_up n) s = record { processing = false; processed = true; retry_count = n }
written (try_again n k) s = record { processing = false; processed = false; retry_count = n }

-- The row after the writes of a run that succeeded, from a claimed one.
abbrev pub row_after : ℕ → Trace → RowState
row_after count [] = record { processing = true; processed = false; retry_count = count }
row_after count (row_written w (value u) ∷ t) = written w (row_after count t)
row_after count (_ ∷ t) = row_after count t

-- The row is done, or it is to be tried again, once more often failed and less often than the policy allows.
abbrev pub IsSettled : ℕ → ℕ → RowState → Type 0
IsSettled limit count s =
    (s.processing ≡ false)
    × ((s.processed ≡ true)
        ⊎ ((s.processed ≡ false) × (s.retry_count ≡ suc count) × (suc count < limit)))

module _ (limit count : ℕ) where
  -- Where it returns, the row is settled.
  record Settles {A : Type 0} (m : M A) : Type 0 where
    settled :
        (t : Trace) (a : A) → (m t).1 ≡ value a → IsSettled limit count (row_after count (m t).0)

  then_at-IsSettled :
      {A B : Type 0} (f : A → M B) (p : Trace × Outcome A) (b : B)
      → ((a : A) → Settles (f a))
      → (then_at f p).1 ≡ value b
      → IsSettled limit count (row_after count (then_at f p).0)
  then_at-IsSettled f (t, value a) b rest e = (rest a).settled t b e
  then_at-IsSettled f (t, raised x) b rest e = cc

  >>=-Settles :
      {A B : Type 0} (m : M A) (f : A → M B) → ((a : A) → Settles (f a)) → Settles (m >>= f)
  unfolding ◌>>=◌
  >>=-Settles m f rest = record { settled = λ t b e. then_at-IsSettled f (m t) b rest e }

  raise-Settles : {A : Type 0} (x : Error) → Settles {A = A} (raise x)
  unfolding raise
  raise-Settles x = record { settled = λ t a e. cc }

  if-Settles :
      {A : Type 0} (b : Bool) (m n : M A)
      → (b ≡ true → Settles m)
      → (b ≡ false → Settles n)
      → Settles (if b then m else n)
  if-Settles true m n hm hn = hm refl
  if-Settles false m n hm hn = hn refl

  -- A write that settles the row
  abbrev IsClosing : RowWrite → Type 0
  IsClosing w = (s : RowState) → IsSettled limit count (written w s)

  write_then :
      (w : RowWrite) (t : Trace) (r : Outcome (Unit {0})) (u : Unit {0})
      → IsClosing w
      → r ≡ value u
      → IsSettled limit count (row_after count (row_written w r ∷ t))
  write_then w t (value v) u closing e = closing (row_after count t)
  write_then w t (raised x) u closing e = cc

  write-Settles :
      (sv : Services) (w : RowWrite) → IsClosing w → Settles (call (sv.write_row w) (row_written w))
  unfolding call
  write-Settles sv w closing = record {
    settled = λ t u e. write_then w t (sv.write_row w t) u closing e;
  }

  -- A last call that does not write the row
  followed :
      (w : RowWrite) (r : Outcome (Unit {0})) (t : Trace) (last : Trace → Outcome (Unit {0}))
      (event : Outcome (Unit {0}) → Event) (u : Unit {0})
      → IsClosing w
      → ((r' : Outcome (Unit {0})) (t' : Trace)
          → row_after count (event r' ∷ t') ≡ row_after count t')
      → (then_at (λ _. call last event) (row_written w r ∷ t, r)).1 ≡ value u
      → IsSettled limit count
          (row_after count (then_at (λ _. call last event) (row_written w r ∷ t, r)).0)
  unfolding call
  followed w (value v) t last event u closing same e =
      rw (same (last (row_written w (value v) ∷ t)) (row_written w (value v) ∷ t))
        (closing (row_after count t))
  followed w (raised x) t last event u closing same e = cc

  write_last-Settles :
      (sv : Services) (w : RowWrite) (last : Trace → Outcome (Unit {0}))
      (event : Outcome (Unit {0}) → Event)
      → IsClosing w
      → ((r' : Outcome (Unit {0})) (t' : Trace)
          → row_after count (event r' ∷ t') ≡ row_after count t')
      → Settles (call (sv.write_row w) (row_written w) >> call last event)
  unfolding ◌>>=◌ call
  write_last-Settles sv w last event closing same = record {
    settled = λ t u e. followed w (sv.write_row w t) t last event u closing same e;
  }

  recover_at-IsSettled :
      {A : Type 0} (handler : Error → M A) (p : Trace × Outcome A) (a : A)
      → (p.1 ≡ value a → IsSettled limit count (row_after count p.0))
      → ((x : Error) → Settles (handler x))
      → (recover_at handler p).1 ≡ value a
      → IsSettled limit count (row_after count (recover_at handler p).0)
  recover_at-IsSettled handler (t, value b) a first rest e = first e
  recover_at-IsSettled handler (t, raised x) a first rest e = (rest x).settled t a e

  try_except-Settles :
      {A : Type 0} (body : M A) (handler : Error → M A)
      → Settles body
      → ((x : Error) → Settles (handler x))
      → Settles (try_except body handler)
  unfolding try_except
  try_except-Settles body handler first rest = record {
    settled = λ t a e. recover_at-IsSettled handler (body t) a (first.settled t a) rest e;
  }

module _ (texts : Texts) (decimals : Decimals) (sv : Services) (limit count : ℕ) where
  conclude-Settles : (error : Bool) → Settles limit count (Handler.conclude texts decimals sv error)
  unfolding Handler.conclude Handler.mark_webhook_processed Handler.set_webhook_cache_hint
  conclude-Settles error =
      write_last-Settles limit count sv (mark_processed error) sv.cache_hint cache_hinted
        (λ s. (refl, inl refl)) (λ r t. refl)

  process_transaction-Settles :
      (p : Provider) (row : EventRow) (pid : String) (new : PaymentTransactionStatus)
      (tx : Transaction)
      → Settles limit count (Handler.process_transaction texts decimals sv p row pid new tx)
  unfolding Handler.process_transaction
  process_transaction-Settles p row pid new tx =
      if-Settles limit count (is_plisio p && currency_mismatched texts tx.metadata row.payload) _ _
        (λ e. >>=-Settles limit count _ _ (λ u. conclude-Settles true))
        (λ e. >>=-Settles limit count _ _ (λ u. conclude-Settles false))

  process_status-Settles :
      (p : Provider) (row : EventRow) (new : Option PaymentTransactionStatus)
      → Settles limit count (Handler.process_status texts decimals sv p row new)
  unfolding Handler.process_status
  process_status-Settles p row none = conclude-Settles false
  process_status-Settles p row (some new) = >>=-Settles limit count _ _ (λ pid.
      if-Settles limit count (str_eq pid "") _ _ (λ e. conclude-Settles true)
        (λ e. >>=-Settles limit count _ _ (process_transaction-Settles p row pid new)))

  record_webhook_failure-Settles :
      (name : String)
      → limit ≡ (get_provider_webhook_policy name).max_retries
      → Settles limit count (Handler.record_webhook_failure texts decimals sv name count)
  unfolding Handler.record_webhook_failure
  record_webhook_failure-Settles name same =
      if-Settles limit count (leb (get_provider_webhook_policy name).max_retries (suc count)) _ _
        (λ e.
          write_last-Settles limit count sv (give_up (suc count))
            (sv.notify_dead_letter (suc count)) (dead_letter_notified (suc count))
            (λ s. (refl, inl refl)) (λ r t. refl))
        (λ e.
          write-Settles limit count sv (try_again (suc count) count)
            (λ s. (refl, inr (refl, refl, ground arith))))

  handle_error-Settles :
      (name : String) (row : EventRow) (error : Error)
      → limit ≡ (get_provider_webhook_policy name).max_retries
      → row.retry_count ≡ count
      → Settles limit count (Handler.handle_error texts decimals sv name row error)
  unfolding Handler.handle_error Handler.mark_webhook_processed
  handle_error-Settles name row error same counted =
      if-Settles limit count (is_retryable error) _ _
        (λ e. rw counted (record_webhook_failure-Settles name same))
        (λ e. write-Settles limit count sv (mark_processed true) (λ s. (refl, inl refl)))

-- A row of webhook_events with a provider and an id.
pub record IsNamed (texts : Texts) (row : EventRow) : Type 0 where
  pub provider : str_eq (texts.lower (texts.strip row.provider)) "" ≡ false
  pub event_id : str_eq (texts.strip row.event_id) "" ≡ false

abbrev pub limit_of : Texts → EventRow → ℕ
limit_of texts row =
    (get_provider_webhook_policy (texts.lower (texts.strip row.provider))).max_retries

module _ (texts : Texts) (decimals : Decimals) where
  -- A run over a row with a provider and an id, when it returns, has taken the row out of processing: the row
  -- is marked processed, or it is to be tried again, with one failure more than before, and then that is less
  -- than the provider's policy allows. This is so whatever the services answer and whatever fails on the way.
  pub process_claimed_webhook_event-IsSettled :
      (sv : Services) (row : EventRow)
      → IsNamed texts row
      → (process_claimed_webhook_event texts decimals sv row []).1 ≡ value tt
      → IsSettled
          (limit_of texts row)
          row.retry_count
          (row_after row.retry_count (process_claimed_webhook_event texts decimals sv row []).0)
  unfolding process_claimed_webhook_event Handler.process_event
  process_claimed_webhook_event-IsSettled sv row named returned =
      let name = texts.lower (texts.strip row.provider) in
      (if-Settles (limit_of texts row) row.retry_count
          (str_eq name "" || str_eq (texts.strip row.event_id) "") _ _ (λ e. absurd (ground arith))
          (λ e.
            if-Settles (limit_of texts row) row.retry_count sv.connected _ _
              (λ ready.
                try_except-Settles (limit_of texts row) row.retry_count _ _
                  (>>=-Settles (limit_of texts row) row.retry_count _ _ (λ p.
                    process_status-Settles texts decimals sv (limit_of texts row) row.retry_count p
                      row (map_event_to_state texts p row.event_type)))
                  (λ error.
                    handle_error-Settles texts decimals sv (limit_of texts row) row.retry_count name
                      row error refl refl))
              (λ absent. raise-Settles (limit_of texts row) row.retry_count other))).settled
        [] tt returned
