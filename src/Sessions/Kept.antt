-- ===== src/Sessions/Kept.antt =====
-- The invariant of session_store.py's sorted index is kept by the operations on single sessions.
use Prim.Native.String.{String}
use text.Mathlib.Text.{◌==◌ as str_eq}
use ai_trading_backend.Common.{
  ℕ, suc, ◌+◌, ◌-◌, ◌≡◌, refl, sym, true, false, Option, none, some, List, [], ◌∷◌, take, length,
  max, leb, arith, Bool-cases, Option-cases, inl, inr,
}
use ai_trading_backend.Sessions.Redis.{
  Redis, View, delete_session_view, setex_view, zadd_view, zrem_view,
}
use ai_trading_backend.Sessions.Indexed.{
  Indexed, Indexed-dropped, Indexed-delete_session_view, Indexed-purge_view, Indexed-put,
  Indexed-setex_view,
}
use ai_trading_backend.Sessions.Store.{
  Session, Limits, Json, compute_ttl_seconds, get_session, evict_sids, evict_user_overflow_sessions,
  create_session, delete_session, unindex, put_session, refresh_session_activity, persist_session,
}

module _ {Text : Type 0} (r : Redis Text) (json : Json Text) (limits : Limits) where
  open r use {
    S, view, setex, delete_key, sadd, srem, zadd, zrem, purge, zrangebyscore, setex_law,
    delete_key_law, sadd_law, srem_law, zadd_law, zrem_law, purge_law,
  }

  -- The invariant of a store.
  abbrev pub IsIndexed : ℕ → S → Type 0
  IsIndexed now s = Indexed json now (view s)

  -- The invariant does not read the sets of members.
  same_index :
      (now : ℕ) (v w : View Text)
      → v.value ≡ w.value
      → v.index ≡ w.index
      → Indexed json now v
      → Indexed json now w
  same_index now v w values indexes ok = record {
    listed =
        λ t sid raw d after read. rw (sym indexes) (ok.listed t sid raw d after (rw values read));
  }

  dropped-IsIndexed :
      (now : ℕ) (user sid : String) (s : S)
      → IsIndexed now s
      → IsIndexed now (zrem user sid (srem user sid (delete_key sid s)))
  dropped-IsIndexed now user sid s ok =
      rw
        (
          zrem_law user sid (srem user sid (delete_key sid s)),
          srem_law user sid (delete_key sid s),
          delete_key_law sid s,
        )
        (same_index now (zrem_view user sid (delete_session_view sid (view s))) _ refl refl
          (Indexed-dropped json now user sid (view s) ok))

  evict_sids-IsIndexed :
      (now : ℕ) (user : String) (sids : List String) (s : S)
      → IsIndexed now s
      → IsIndexed now (evict_sids r json limits user sids s)
  unfolding evict_sids
  evict_sids-IsIndexed now user [] s ok = ok
  evict_sids-IsIndexed now user (sid ∷ sids) s ok =
      evict_sids-IsIndexed now user sids (zrem user sid (srem user sid (delete_key sid s)))
        (dropped-IsIndexed now user sid s ok)

  pub evict_user_overflow_sessions-IsIndexed :
      (now : ℕ) (user : String) (s : S)
      → IsIndexed now s
      → IsIndexed now (evict_user_overflow_sessions r json limits user now s).0
  unfolding evict_user_overflow_sessions
  evict_user_overflow_sessions-IsIndexed now user s ok =
      let purged : IsIndexed now (purge user now s) =
        rw (purge_law user now s) (Indexed-purge_view json now user (view s) ok) in
      elim (Option-cases (zrangebyscore user now (purge user now s))) [
        | inl e ↦ rw (evict_user_overflow_sessions, e) purged
        | inr (active, e) ↦
            rw (evict_user_overflow_sessions, e)
              (evict_sids-IsIndexed now user
                (take (length active - limits.server_session_max_per_user) active)
                (purge user now s) purged)
      ]

  pub create_session-IsIndexed :
      (now : ℕ) (sid : String) (given : Session) (s : S)
      → IsIndexed now s
      → IsIndexed now (create_session r json limits sid now given s).0
  unfolding create_session
  create_session-IsIndexed now sid given s ok =
      let exp = now + compute_ttl_seconds limits given.remember_me in
      let session = record given { iat = now; last_activity = now; exp = exp } in
      let s₁ =
        setex now sid (compute_ttl_seconds limits given.remember_me) (json.dumps session) s in
      let put : IsIndexed now (zadd given.user_id sid exp (sadd given.user_id sid s₁)) =
        rw
          (
            zadd_law given.user_id sid exp (sadd given.user_id sid s₁),
            sadd_law given.user_id sid s₁,
            setex_law now sid (compute_ttl_seconds limits given.remember_me) (json.dumps session) s,
          )
          (same_index now
            (zadd_view given.user_id sid exp (
              setex_view now sid (compute_ttl_seconds limits given.remember_me) (json.dumps session)
                (view s)))
            _ refl refl
            (Indexed-put json now sid (compute_ttl_seconds limits given.remember_me) exp session
              (view s) (ground arith) ok)) in
      evict_user_overflow_sessions-IsIndexed now given.user_id
        (zadd given.user_id sid exp (sadd given.user_id sid s₁)) put

  deleted-IsIndexed :
      (now : ℕ) (sid : String) (found : Option Session) (s : S)
      → IsIndexed now s
      → IsIndexed now (delete_key sid (unindex r json limits found sid s))
  deleted-IsIndexed now sid none s ok =
      rw (delete_key_law sid s) (Indexed-delete_session_view json now sid (view s) ok)
  deleted-IsIndexed now sid (some d) s ok = elim (Bool-cases (str_eq d.user_id "")) [
    | inl nobody ↦
        rw (nobody, delete_key_law sid s) (Indexed-delete_session_view json now sid (view s) ok)
    | inr somebody ↦
        rw
          (
            somebody,
            delete_key_law sid (zrem d.user_id sid (srem d.user_id sid s)),
            zrem_law d.user_id sid (srem d.user_id sid s),
            srem_law d.user_id sid s,
          )
          (same_index now (zrem_view d.user_id sid (delete_session_view sid (view s))) _ refl refl
            (Indexed-dropped json now d.user_id sid (view s) ok))
  ]

  pub delete_session-IsIndexed :
      (now : ℕ) (sid : String) (s : S)
      → IsIndexed now s
      → IsIndexed now (delete_session r json limits sid now s)
  unfolding delete_session
  delete_session-IsIndexed now sid s ok =
      deleted-IsIndexed now sid (get_session r json limits sid now s) s ok

  put_session-IsIndexed :
      (now : ℕ) (sid : String) (ttl : ℕ) (d : Session) (s : S)
      → leb (now + ttl) (suc d.exp) ≡ true
      → IsIndexed now s
      → IsIndexed now (put_session r json limits sid now ttl d s)
  unfolding put_session
  put_session-IsIndexed now sid ttl d s bound ok = elim (Bool-cases (str_eq d.user_id "")) [
    | inl e ↦
        rw (e, setex_law now sid ttl (json.dumps d) s)
          (Indexed-setex_view json now sid ttl d (view s) e ok)
    | inr e ↦
        rw
          (
            e,
            zadd_law d.user_id sid d.exp (setex now sid ttl (json.dumps d) s),
            setex_law now sid ttl (json.dumps d) s,
          )
          (Indexed-put json now sid ttl d.exp d (view s) bound ok)
  ]

  pub refresh_session_activity-IsIndexed :
      (now : ℕ) (sid : String) (d : Session) (s : S)
      → IsIndexed now s
      → IsIndexed now (refresh_session_activity r json limits sid now d s).0
  unfolding refresh_session_activity
  refresh_session_activity-IsIndexed now sid d s ok = ground (
    arith,
    put_session-IsIndexed now sid (max 1 (d.exp - now)) (record d { last_activity = now }) s,
    put_session-IsIndexed now sid (compute_ttl_seconds limits false)
        (record d { last_activity = now; exp = now + compute_ttl_seconds limits false }) s,
  )

  pub persist_session-IsIndexed :
      (now : ℕ) (sid : String) (d : Session) (s : S)
      → IsIndexed now s
      → IsIndexed now (persist_session r json limits sid now d s).0
  unfolding persist_session
  persist_session-IsIndexed now sid d s ok =
      let ttl = compute_ttl_seconds limits d.remember_me in
      ground (
        arith,
        put_session-IsIndexed now sid (max 1 (d.exp - now)) d s,
        put_session-IsIndexed now sid ttl (record d { exp = now + ttl }) s,
      )
