-- ===== src/Referrals/Unasked.antt =====
-- A cycle whose next charge is less than 48 hours ahead or past: the payment provider is not asked.
use Prim.Native.String.{String}
use text.Mathlib.Text.{◌==◌ as str_eq}
use ai_trading_backend.Common.{
  ℕ, ◌+◌, ◌*◌, ◌-◌, ◌≤◌, ◌<◌, ◌≡◌, ◌≢◌, refl, ap, true, false, ◌||◌, Bool, Bool-cases, inl, inr,
  Option, none, some, ◌==◌, arith, le→leb,
}
use ai_trading_backend.Common.Steps.{StepsOf}
use ai_trading_backend.Referrals.Machine.{Cycle}
use ai_trading_backend.Referrals.World.{M, then_at, ◌>>=◌, return, Payload, Response, World}
use ai_trading_backend.Referrals.Cycles.{
  derive_cycle_duration_seconds, should_defer_pause, now, text_of, cas_cycle_status,
  update_cycle_fields, mark_pause_failed, mark_pause_deferred, mark_reward_consumed_by_extension,
  extend_pause_window,
}
use ai_trading_backend.Referrals.Pause.{
  Config, Tally, paused_ok, reward_cycle_target, promote_pause_pending_if_needed,
  find_open_pause_window, times_of, cycle_times, extension_taken, extend_open_pause, taken_or,
  fail_pause, defer_or_request, pause_with_duration, pause_promoted, pause_row,
}
use ai_trading_backend.Referrals.Deferral.{not_leb, promote-later, pause_row-unpaused}

module _ (w : World) (other_post : String → Payload → String → M w.S Response)
    (other_steps : (url : String) (payload : Payload) (key : String) (s : w.S)
      → StepsOf w.Others (w.cycles s) (w.cycles (other_post url payload key s).0)) where
  open w use {S, utc_now, strip}

  -- The world with another payment provider.
  abbrev pub elsewhere : World
  elsewhere = record w { post = other_post; post_steps = other_steps }

  defer-same :
      (cfg : Config) (id : String) (n : ℕ) (sub : String) (now_utc : ℕ) (row : Cycle)
      (charge duration seconds : ℕ)
      → charge ≤ now_utc + 172800
      → defer_or_request elsewhere cfg id n sub now_utc row (some charge) duration seconds
        ≡ defer_or_request w cfg id n sub now_utc row (some charge) duration seconds
  unfolding defer_or_request should_defer_pause mark_pause_deferred update_cycle_fields now
  defer-same cfg id n sub now_utc row charge duration seconds near =
      rw (le→leb charge (now_utc + 172800) near) refl

  with_duration-same :
      (cfg : Config) (id : String) (n : ℕ) (sub : String) (now_utc : ℕ) (row : Cycle)
      (charge duration : ℕ)
      → charge ≤ now_utc + 172800
      → pause_with_duration elsewhere cfg id n sub now_utc row (some charge) (some duration)
        ≡ pause_with_duration w cfg id n sub now_utc row (some charge) (some duration)
  unfolding pause_with_duration find_open_pause_window extend_open_pause extension_taken
      mark_reward_consumed_by_extension extend_pause_window update_cycle_fields now taken_or
  with_duration-same cfg id n sub now_utc row charge duration near =
      ap
        (λ (rest : M S Tally). find_open_pause_window w sub >>= λ open_pause.
          extend_open_pause w id n duration (duration * reward_cycle_target cfg) open_pause
          >>= λ taken. taken_or w taken rest)
        (defer-same cfg id n sub now_utc row charge duration _ near)

  promoted-same :
      (cfg : Config) (id : String) (n : ℕ) (sub : String) (row : Cycle) (last charge : ℕ)
      (promoted : Bool) (s : S)
      → row.last_charge_at ≡ some last
      → row.next_charge_at ≡ some charge
      → last < charge
      → charge ≤ utc_now s + 172800
      → pause_promoted elsewhere cfg id n sub row promoted s
        ≡ pause_promoted w cfg id n sub row promoted s
  unfolding pause_promoted ◌>>=◌ now cycle_times times_of derive_cycle_duration_seconds return
  promoted-same cfg id n sub row last charge false s hl hc lt near = refl
  promoted-same cfg id n sub row last charge true s hl hc lt near =
      rw (hl, hc, not_leb charge last lt)
        (ap (λ (m : M S Tally). m s)
          (with_duration-same cfg id n sub (utc_now s) _ charge (charge - last) near))

  then_at-same :
      {A B : Type 0} (f g : A → M S B) (r : S × Option A)
      → ((a : A) → f a r.0 ≡ g a r.0)
      → then_at f r ≡ then_at g r
  then_at-same f g (s, none) h = refl
  then_at-same f g (s, some a) h = h a

  pause_row-same :
      (cfg : Config) (row : Cycle) (last charge : ℕ) (s : S)
      → row.last_charge_at ≡ some last
      → row.next_charge_at ≡ some charge
      → last < charge
      → charge ≤ utc_now s + 172800
      → pause_row elsewhere cfg row s ≡ pause_row w cfg row s
  unfolding pause_row fail_pause mark_pause_failed cas_cycle_status promote_pause_pending_if_needed
      ◌>>=◌ now
  pause_row-same cfg row last charge s hl hc lt near =
      let id = strip row.reward_id in
      let sub = text_of w row.razorpay_subscription_id in
      elim (Bool-cases (str_eq id "" || row.cycle_number == 0 || str_eq sub "")) [
        | inl unnamed ↦ rw unnamed refl
        | inr named ↦ rw named (
            then_at-same (pause_promoted elsewhere cfg id row.cycle_number sub row)
              (pause_promoted w cfg id row.cycle_number sub row)
              (promote_pause_pending_if_needed w row s)
              (λ promoted.
                promoted-same cfg id row.cycle_number sub row last charge promoted
                  (promote_pause_pending_if_needed w row s).0 hl hc lt
                  (omega (arith, near, promote-later w row s))))
      ]

  -- A cycle whose row has its charges in order, the next less than 48 hours ahead of the clock or past it, in
  -- whatever state the world is, is not paused in this round: the round does not count it as paused, and it
  -- does not ask the payment provider, as it leaves the same state and comes to the same answer whatever the
  -- requests to the provider do.
  pub pause_row-deferred :
      (cfg : Config) (row : Cycle) (last charge : ℕ) (s : S)
      → row.last_charge_at ≡ some last
      → row.next_charge_at ≡ some charge
      → last < charge
      → charge ≤ utc_now s + 172800
      → ((pause_row w cfg row s).1 ≢ some paused_ok)
        × (pause_row elsewhere cfg row s ≡ pause_row w cfg row s)
  pause_row-deferred cfg row last charge s hl hc lt near = (
    pause_row-unpaused w cfg row last charge s hl hc lt near,
    pause_row-same cfg row last charge s hl hc lt near,
  )
