-- ===== src/Referrals/Deferral.antt =====
-- A cycle whose next charge, as its row has it, is less than 48 hours ahead or past.
use Prim.Native.String.{String}
use text.Mathlib.Text.{◌==◌ as str_eq}
use ai_trading_backend.Common.{
  ℕ, ◌+◌, ◌-◌, ◌≤◌, ◌<◌, ◌≡◌, ◌≢◌, refl, Bool, true, false, not, ◌&&◌, ◌||◌, Option, none, some,
  List, if◌then◌else◌, ltb, leb, ◌==◌, arith, le→leb,
}
use ai_trading_backend.Referrals.Machine.{Cycle, Status, same_status}
use ai_trading_backend.Referrals.World.{M, then_at, ◌>>=◌, return, World}
use ai_trading_backend.Referrals.Cycles.{
  derive_cycle_duration_seconds, should_defer_pause, is_empty, row_filter, now, text_of,
  cas_cycle_status, mark_pause_failed, mark_pause_deferred, mark_reward_consumed_by_extension,
  extend_pause_window,
}
use ai_trading_backend.Referrals.Pause.{
  Config, OpenPause, Tally, uncounted, failed, deferred, extended, paused_ok, tally_if,
  promote_pause_pending_if_needed, find_open_pause_window, times_of, cycle_times, extension_taken,
  extend_open_pause, taken_or, fail_pause, defer_or_request, pause_with_duration, pause_promoted,
  pause_row,
}
use ai_trading_backend.Referrals.Guarantee.{Ensures}
use ai_trading_backend.Referrals.Guarantee.Rounds.{>>=-Ensures, >>=-Ensures_from, return-Ensures}

abbrev NotPaused : Tally → Type 0
NotPaused t = t ≢ paused_ok

tally_if-NotPaused : (counted : Bool) (t : Tally) → NotPaused t → NotPaused (tally_if counted t)
tally_if-NotPaused true t h = h
tally_if-NotPaused false t h = ground arith

pub not_leb : (a b : ℕ) → b < a → leb a b ≡ false
not_leb a b h = ground arith

-- An extension that was made is counted as one, or not at all.
abbrev Extends : Option Tally → Type 0
Extends none = Unit
Extends (some t) = NotPaused t

module _ (w : World) where
  open w use {S, utc_now, strip, patch_cycles, patch_cycles_later}

  fail_pause-NotPaused : (id : String) (n : ℕ) → Ensures w (fail_pause w id n) NotPaused
  unfolding fail_pause
  fail_pause-NotPaused id n =
      >>=-Ensures w NotPaused (mark_pause_failed w id n) _
        (λ marked. return-Ensures w NotPaused _ (tally_if-NotPaused marked failed (ground arith)))

  extension_taken-Extends :
      (id : String) (n duration : ℕ) (until : Option ℕ)
      → Ensures w (extension_taken w id n duration until) Extends
  unfolding extension_taken
  extension_taken-Extends id n duration none = return-Ensures w Extends none tt
  extension_taken-Extends id n duration (some until) =
      >>=-Ensures w Extends (mark_reward_consumed_by_extension w id n until duration) _ (λ consumed.
        return-Ensures w Extends _ (tally_if-NotPaused consumed extended (ground arith)))

  if-Ensures :
      {A : Type 0} (P : A → Type 0) (b : Bool) (m n : M S A)
      → Ensures w m P
      → Ensures w n P
      → Ensures w (if b then m else n) P
  if-Ensures P true m n h k = h
  if-Ensures P false m n h k = k

  extend_open_pause-Extends :
      (id : String) (n duration seconds : ℕ) (open_pause : Option OpenPause)
      → Ensures w (extend_open_pause w id n duration seconds open_pause) Extends
  unfolding extend_open_pause
  extend_open_pause-Extends id n duration seconds none = return-Ensures w Extends none tt
  extend_open_pause-Extends id n duration seconds (some p) =
      if-Ensures Extends (str_eq p.reward_id "" || p.cycle_number == 0) _ _
        (return-Ensures w Extends none tt)
        (>>=-Ensures w Extends
          (extend_pause_window w p.reward_id p.cycle_number seconds p.resume_time) _
          (extension_taken-Extends id n duration))

  defer-NotPaused :
      (cfg : Config) (id : String) (n : ℕ) (sub : String) (now_utc : ℕ) (row : Cycle)
      (charge duration seconds : ℕ)
      → charge ≤ now_utc + 172800
      → Ensures w
          (defer_or_request w cfg id n sub now_utc row (some charge) duration seconds)
          NotPaused
  unfolding defer_or_request should_defer_pause
  defer-NotPaused cfg id n sub now_utc row charge duration seconds near =
      rw (le→leb charge (now_utc + 172800) near) (
        >>=-Ensures w NotPaused (mark_pause_deferred w id n (charge + 300)) _ (λ marked.
          return-Ensures w NotPaused _ (tally_if-NotPaused marked deferred (ground arith))))

  taken_or-NotPaused :
      (taken : Option Tally) (rest : M S Tally)
      → Extends taken
      → Ensures w rest NotPaused
      → Ensures w (taken_or w taken rest) NotPaused
  unfolding taken_or
  taken_or-NotPaused (some t) rest h k = return-Ensures w NotPaused t h
  taken_or-NotPaused none rest h k = k

  with_duration-NotPaused :
      (cfg : Config) (id : String) (n : ℕ) (sub : String) (now_utc : ℕ) (row : Cycle)
      (charge duration : ℕ)
      → charge ≤ now_utc + 172800
      → Ensures w
          (pause_with_duration w cfg id n sub now_utc row (some charge) (some duration))
          NotPaused
  unfolding pause_with_duration
  with_duration-NotPaused cfg id n sub now_utc row charge duration near =
      >>=-Ensures w NotPaused (find_open_pause_window w sub) _ (λ open_pause.
        >>=-Ensures_from w Extends NotPaused (extend_open_pause w id n duration _ open_pause) _
          (extend_open_pause-Extends id n duration _ open_pause)
          (λ taken h.
            taken_or-NotPaused taken _ h
              (defer-NotPaused cfg id n sub now_utc row charge duration _ near)))

  -- What holds of the answer from one state of the world.
  record EnsuresAt {A : Type 0} (s : S) (m : M S A) (P : A → Type 0) : Type 0 where
    answer : (a : A) → (m s).1 ≡ some a → P a

  at_any : {A : Type 0} (P : A → Type 0) (m : M S A) (s : S) → Ensures w m P → EnsuresAt s m P
  at_any P m s h = record { answer = h s }

  promoted-NotPaused :
      (cfg : Config) (id : String) (n : ℕ) (sub : String) (row : Cycle) (last charge : ℕ)
      (promoted : Bool) (s : S)
      → row.last_charge_at ≡ some last
      → row.next_charge_at ≡ some charge
      → last < charge
      → charge ≤ utc_now s + 172800
      → EnsuresAt s (pause_promoted w cfg id n sub row promoted) NotPaused
  unfolding pause_promoted ◌>>=◌ now cycle_times times_of derive_cycle_duration_seconds return
  promoted-NotPaused cfg id n sub row last charge false s hl hc lt near = record {
    answer = λ a e. return-Ensures w NotPaused uncounted (ground arith) s a e;
  }
  promoted-NotPaused cfg id n sub row last charge true s hl hc lt near = record {
    answer =
        rw (hl, hc, not_leb charge last lt)
          (with_duration-NotPaused cfg id n sub (utc_now s) _ charge (charge - last) near s);
  }

  then_at-EnsuresAt :
      {A B : Type 0} (P : B → Type 0) (f : A → M S B) (r : S × Option A) (b : B)
      → ((a : A) → EnsuresAt r.0 (f a) P)
      → (then_at f r).1 ≡ some b
      → P b
  then_at-EnsuresAt P f (s, none) b h e = absurd cc
  then_at-EnsuresAt P f (s, some a) b h e = (h a).answer b e

  >>=-EnsuresAt :
      {A B : Type 0} (P : B → Type 0) (m : M S A) (f : A → M S B) (s : S)
      → ((a : A) → EnsuresAt (m s).0 (f a) P)
      → EnsuresAt s (m >>= f) P
  unfolding ◌>>=◌
  >>=-EnsuresAt P m f s h = record { answer = λ b e. then_at-EnsuresAt P f (m s) b h e }

  then_at-state :
      {A B : Type 0} (f : A → B) (r : S × Option A) → (then_at (λ a. return (f a)) r).0 ≡ r.0
  unfolding return
  then_at-state f (s, none) = refl
  then_at-state f (s, some a) = refl

  cas_cycle_status-later :
      (id : String) (n : ℕ) (expected new_status : Status) (s : S)
      → utc_now s ≤ utc_now (cas_cycle_status w id n expected new_status s).0
  unfolding cas_cycle_status ◌>>=◌ now
  cas_cycle_status-later id n expected new_status s =
      let change : Cycle → Cycle = λ r. record r { status = new_status; updated_at = utc_now s } in
      let matches = row_filter id n (some expected) none in
      rw
        (then_at-state (λ (rows : List Cycle). not (is_empty rows)) (patch_cycles matches change s))
        (patch_cycles_later matches change s)

  if-later :
      {A : Type 0} (b : Bool) (m n : M S A) (s : S)
      → utc_now s ≤ utc_now (m s).0
      → utc_now s ≤ utc_now (n s).0
      → utc_now s ≤ utc_now ((if b then m else n) s).0
  if-later true m n s h k = h
  if-later false m n s h k = k

  pub promote-later :
      (row : Cycle) (s : S) → utc_now s ≤ utc_now (promote_pause_pending_if_needed w row s).0
  unfolding promote_pause_pending_if_needed return
  promote-later row s = if-later (same_status row.status Status.pause_pending) _ _ s (omega arith) (
      if-later (str_eq (strip row.reward_id) "" || row.cycle_number == 0) _ _ s (omega arith) (
        cas_cycle_status-later (strip row.reward_id) row.cycle_number row.status
          Status.pause_pending s))

  if-EnsuresAt :
      {A : Type 0} (P : A → Type 0) (b : Bool) (m n : M S A) (s : S)
      → EnsuresAt s m P
      → EnsuresAt s n P
      → EnsuresAt s (if b then m else n) P
  if-EnsuresAt P true m n s h k = h
  if-EnsuresAt P false m n s h k = k

  pause_row-NotPaused :
      (cfg : Config) (row : Cycle) (last charge : ℕ) (s : S)
      → row.last_charge_at ≡ some last
      → row.next_charge_at ≡ some charge
      → last < charge
      → charge ≤ utc_now s + 172800
      → EnsuresAt s (pause_row w cfg row) NotPaused
  unfolding pause_row
  pause_row-NotPaused cfg row last charge s hl hc lt near =
      let reward_id = strip row.reward_id in
      let n = row.cycle_number in
      let sub = text_of w row.razorpay_subscription_id in
      if-EnsuresAt NotPaused (str_eq reward_id "" || n == 0 || str_eq sub "") _ _ s
        (if-EnsuresAt NotPaused (not (str_eq reward_id "") && ltb 0 n) (fail_pause w reward_id n)
          (return uncounted) s
          (at_any NotPaused (fail_pause w reward_id n) s (fail_pause-NotPaused reward_id n))
          (at_any NotPaused (return uncounted) s
            (return-Ensures w NotPaused uncounted (ground arith))))
        (>>=-EnsuresAt NotPaused (promote_pause_pending_if_needed w row) _ s (λ promoted.
          promoted-NotPaused cfg reward_id n sub row last charge promoted
            (promote_pause_pending_if_needed w row s).0 hl hc lt
            (omega (arith, near, promote-later row s))))

  -- A cycle whose row has its charges in order, the next less than 48 hours ahead of the clock or past
  -- it, is not counted as paused in this round, in whatever state the world is.
  pub pause_row-unpaused :
      (cfg : Config) (row : Cycle) (last charge : ℕ) (s : S)
      → row.last_charge_at ≡ some last
      → row.next_charge_at ≡ some charge
      → last < charge
      → charge ≤ utc_now s + 172800
      → (pause_row w cfg row s).1 ≢ some paused_ok
  pause_row-unpaused cfg row last charge s hl hc lt near found =
      (pause_row-NotPaused cfg row last charge s hl hc lt near).answer paused_ok found refl
