-- ===== src/Sessions/Creation.antt =====
-- What get_session of session_store.py finds after create_session and after delete_session.
use Prim.Native.String.{String}
use text.Mathlib.Text.{◌==◌ as str_eq}
use text.Mathlib.TextEquality.{eq_iff}
use ai_trading_backend.Common.{
  ℕ, zero, suc, ◌+◌, ◌-◌, ◌≤◌, ◌<◌, ◌≡◌, refl, ap, ◌∙◌, true, false, none, some, List, [], ◌∷◌,
  take, length, leb, ltb, arith, Bool-cases, inl, inr,
}
use ai_trading_backend.Sessions.Redis.{
  Redis, Scored, insert_scored, without, from_score, comes_before,
}
use ai_trading_backend.Sessions.Index.{at_key-same}
use ai_trading_backend.Sessions.Capacity.{length-map}
use ai_trading_backend.Sessions.Eviction.{keep-twice}
use ai_trading_backend.Sessions.Store.{
  Session, Limits, Json, compute_ttl_seconds, is_expired, read_session, get_session, create_session,
  delete_session, unindex, evict_sids, evict_user_overflow_sessions,
}

-- One entry more in the index is at most one entry more that is read.
length-insert_scored :
    (now : ℕ) (x : Scored) (xs : List Scored)
    → length (from_score now (insert_scored x xs)) ≤ suc (length (from_score now xs))
length-insert_scored now x [] = ground arith
length-insert_scored now x (y ∷ ys) =
    let ih = length-insert_scored now x ys in
    elim (Bool-cases (comes_before x y)) [
      | inl e ↦ rw e (ground arith)
      | inr e ↦ rw e (ground arith)
    ]

take-none {ℓ} : {A : Type ℓ} (n : ℕ) (xs : List A) → n ≤ 0 → take n xs ≡ []
take-none zero xs e = refl
take-none (suc n) xs e = ground arith

module _ {Text : Type 0} (r : Redis Text) (json : Json Text) (limits : Limits) where
  open r use {
    S, view, get_view, setex, delete_key, sadd, zadd, purge, zrangebyscore, setex_law,
    delete_key_law, sadd_law, zadd_law, purge_law, zrangebyscore_law,
  }

  -- A user below the cap loses no session.
  nothing_evicted :
      (now : ℕ) (user : String) (s : S)
      → ((s' : S) → (active : List String) × (zrangebyscore user now s' ≡ some active))
      → length (from_score now ((view s).index user)) ≤ limits.server_session_max_per_user
      → evict_user_overflow_sessions r json limits user now s ≡ (purge user now s, 0)
  unfolding evict_user_overflow_sessions evict_sids
  nothing_evicted now user s reads below =
      let purged = purge user now s in
      let active = (reads purged).0 in
      let fst : Scored → String = λ x. x.0 in
      let counted : length active ≡ length (from_score now ((view s).index user)) =
        ap (λ xs. length xs) (zrangebyscore_law user now purged (reads purged).1)
        ∙ length-map fst (from_score now ((view purged).index user))
        ∙ ap (λ v. length (from_score now (v.index user))) (purge_law user now s)
        ∙ ap (λ xs. length (from_score now xs))
            (at_key-same user (from_score now ((view s).index user)) (view s).index)
        ∙ ap (λ xs. length xs) (keep-twice (λ x. leb now x.1) ((view s).index user)) in
      let taken =
        take-none (length active - limits.server_session_max_per_user) active (omega arith) in
      rw (evict_user_overflow_sessions, (reads purged).1, taken) refl

  -- When the reads of the sorted index succeed and the entries of the user that have not expired, without
  -- an entry of the new id, are fewer than the cap, create_session evicts nothing, and get_session finds
  -- exactly the session that it answers, from then until that session expires.
  pub create_session-get_session :
      (now t : ℕ) (sid : String) (given : Session) (s : S)
      → ((s' : S) → (active : List String) × (zrangebyscore given.user_id now s' ≡ some active))
      → length (from_score now (without sid ((view s).index given.user_id)))
        < limits.server_session_max_per_user
      → now ≤ t
      → t < now + compute_ttl_seconds limits given.remember_me
      → (get_session r json limits sid t (create_session r json limits sid now given s).0
          ≡ some (create_session r json limits sid now given s).1)
        × ((create_session r json limits sid now given s).2 ≡ 0)
  unfolding create_session get_session read_session
  create_session-get_session now t sid given s reads below after soon =
      let ttl = compute_ttl_seconds limits given.remember_me in
      let session = record given { iat = now; last_activity = now; exp = now + ttl } in
      let written = setex now sid ttl (json.dumps session) s in
      let added = sadd given.user_id sid written in
      let listed = zadd given.user_id sid (now + ttl) added in
      let rest = without sid ((view s).index given.user_id) in
      let same : str_eq sid sid ≡ true = ground (arith, eq_iff sid sid) in
      let lives : ltb t (now + ttl) ≡ true = ground arith in
      let current : is_expired session t ≡ false = ground arith in
      let indexed : (view listed).index given.user_id ≡ insert_scored (sid, now + ttl) rest =
        rw
          (
            zadd_law given.user_id sid (now + ttl) added,
            sadd_law given.user_id sid written,
            setex_law now sid ttl (json.dumps session) s,
          )
          (at_key-same given.user_id (insert_scored (sid, now + ttl) rest) (view s).index) in
      let more = length-insert_scored now (sid, now + ttl) rest in
      let run = nothing_evicted now given.user_id listed reads (rw indexed (omega arith)) in
      let value : (view (purge given.user_id now listed)).value sid t ≡ some (json.dumps session) =
        rw
          (
            purge_law given.user_id now listed,
            zadd_law given.user_id sid (now + ttl) added,
            sadd_law given.user_id sid written,
            setex_law now sid ttl (json.dumps session) s,
            same,
            lives,
          )
          refl in
      (
        ap (λ p. get_session r json limits sid t p.0) run
            ∙ rw
                (
                  get_view sid t (purge given.user_id now listed),
                  value,
                  read_session,
                  json.loads-dumps session,
                  current,
                )
                refl,
        ap (λ p. p.1) run,
      )

  -- After delete_session, get_session finds nothing under the id, at any time, whatever the store held.
  pub delete_session-get_session :
      (now t : ℕ) (sid : String) (s : S)
      → get_session r json limits sid t (delete_session r json limits sid now s) ≡ none
  unfolding delete_session get_session read_session
  delete_session-get_session now t sid s =
      let found = get_session r json limits sid now s in
      let same : str_eq sid sid ≡ true = ground (arith, eq_iff sid sid) in
      rw
        (
          get_view sid t (delete_session r json limits sid now s),
          delete_key_law sid (unindex r json limits found sid s),
          same,
        )
        refl
