-- ===== src/Sessions/Refresh.antt =====
-- What get_session of session_store.py finds after refresh_session_activity has written a session.
use Prim.Native.String.{String}
use text.Mathlib.Text.{◌==◌ as str_eq}
use text.Mathlib.TextEquality.{eq_iff}
use ai_trading_backend.Common.{
  ℕ, ◌+◌, ◌-◌, ◌≤◌, ◌<◌, ◌≡◌, refl, sym, ap, ◌∙◌, true, false, none, some, max, ltb, ◌==◌, ◌||◌,
  arith, Bool-cases, inl, inr,
}
use ai_trading_backend.Sessions.Redis.{Redis}
use ai_trading_backend.Sessions.Store.{
  Session, Limits, Json, compute_ttl_seconds, is_expired, read_session, get_session, put_session,
  refresh_session_activity,
}

module _ {Text : Type 0} (r : Redis Text) (json : Json Text) (limits : Limits) where
  open r use {S, view, get_view, setex, setex_law, zadd_law}

  put_session-value :
      (sid : String) (now t ttl : ℕ) (d : Session) (s : S)
      → t < now + ttl
      → (view (put_session r json limits sid now ttl d s)).value sid t ≡ some (json.dumps d)
  unfolding put_session
  put_session-value sid now t ttl d s soon =
      let same : str_eq sid sid ≡ true = ground (arith, eq_iff sid sid) in
      let lives : ltb t (now + ttl) ≡ true = ground arith in
      elim (Bool-cases (str_eq d.user_id "")) [
        | inl e ↦ rw (e, setex_law now sid ttl (json.dumps d) s, same, lives) refl
        | inr e ↦
            rw
              (
                e,
                zadd_law d.user_id sid d.exp (setex now sid ttl (json.dumps d) s),
                setex_law now sid ttl (json.dumps d) s,
                same,
                lives,
              )
              refl
      ]

  put_session-get_session :
      (sid : String) (now t ttl : ℕ) (d : Session) (s : S)
      → t < now + ttl
      → t ≤ d.exp
      → get_session r json limits sid t (put_session r json limits sid now ttl d s) ≡ some d
  unfolding get_session read_session
  put_session-get_session sid now t ttl d s soon before =
      let current : is_expired d t ≡ false = ground arith in
      rw
        (
          get_view sid t (put_session r json limits sid now ttl d s),
          put_session-value sid now t ttl d s soon,
          read_session,
          json.loads-dumps d,
          current,
        )
        refl

  -- A refresh that has written what it returns.
  written :
      (sid : String) (now t ttl : ℕ) (d new updated : Session) (s : S)
      → refresh_session_activity r json limits sid now d s
        ≡ (put_session r json limits sid now ttl new s, some new)
      → (refresh_session_activity r json limits sid now d s).1 ≡ some updated
      → (new.exp ≡ updated.exp → (t < now + ttl) × (t ≤ new.exp))
      → get_session r json limits sid t (refresh_session_activity r json limits sid now d s).0
        ≡ some updated
  written sid now t ttl d new updated s run returned times =
      let returned_new : some new ≡ some updated = sym (ap (λ p. p.1) run) ∙ returned in
      let same : new ≡ updated = cc in
      let bounds = times (ap (λ x. x.exp) same) in
      ap (λ p. get_session r json limits sid t p.0) run
      ∙ put_session-get_session sid now t ttl new s bounds.0 bounds.1
      ∙ returned_new

  -- When at least 60 seconds have passed since the last activity and refresh_session_activity returns a
  -- session, get_session finds exactly that session under the id, from then until the returned session
  -- expires, whatever the store held before: also when the session had been deleted in the meantime.
  pub refresh_session_activity-get_session :
      (sid : String) (now t : ℕ) (d updated : Session) (s : S)
      → d.last_activity + 60 ≤ now
      → (refresh_session_activity r json limits sid now d s).1 ≡ some updated
      → now ≤ t
      → t < now + max 1 (updated.exp - now)
      → get_session r json limits sid t (refresh_session_activity r json limits sid now d s).0
        ≡ some updated
  unfolding refresh_session_activity compute_ttl_seconds
  refresh_session_activity-get_session sid now t d updated s idle returned after soon =
      let busy : ltb now (d.last_activity + 60) ≡ false = ground arith in
      let sliding_ttl = compute_ttl_seconds limits false in
      elim (Bool-cases d.remember_me) [
        | inr m ↦
            written sid now t sliding_ttl d
              (record d { last_activity = now; exp = now + sliding_ttl }) updated s
              (rw (refresh_session_activity, busy, m) refl) returned
              (λ e. (omega arith, omega arith))
        | inl m ↦ elim (Bool-cases (d.exp == 0 || ltb d.exp now)) [
          | inl over ↦
              let nothing : (refresh_session_activity r json limits sid now d s).1 ≡ none =
                rw (refresh_session_activity, busy, m, over) refl in
              cc
          | inr live ↦
              let begun : now ≤ d.exp = ground arith in
              written sid now t (max 1 (d.exp - now)) d (record d { last_activity = now }) updated s
                (rw (refresh_session_activity, busy, m, live) refl) returned
                (λ e. (omega arith, omega arith))
        ]
      ]
