-- ===== src/Sessions/Eviction.antt =====
-- Which session create_session of session_store.py evicts when the user is at the cap: the order of the
-- sorted index is that of the expiries.
use Prim.Native.String.{String}
use text.Mathlib.Text.{◌==◌ as str_eq}
use text.Mathlib.TextEquality.{eq_iff}
use ai_trading_backend.Common.{
  ℕ, zero, suc, ◌+◌, ◌-◌, ◌≤◌, ◌≡◌, refl, ap, ◌∙◌, Bool, true, false, not, none, some, List, [],
  ◌∷◌, map, take, length, keep, leb, ltb, arith, if◌then◌else◌, Bool-cases, inl, inr,
}
use ai_trading_backend.Sessions.Redis.{Redis, Scored, insert_scored, without, from_score, contains}
use ai_trading_backend.Sessions.Index.{at_key-same}
use ai_trading_backend.Sessions.Capacity.{length-map}
use ai_trading_backend.Sessions.Store.{
  Session, Limits, Json, compute_ttl_seconds, get_session, read_session, evict_sids,
  evict_user_overflow_sessions, create_session,
}

pub keep-twice {ℓ} : {A : Type ℓ} (p : A → Bool) (xs : List A) → keep p (keep p xs) ≡ keep p xs
keep-twice p [] = refl
keep-twice p (x ∷ xs) = let ih = keep-twice p xs in ground arith

-- All the entries expire after `exp`.
abbrev pub expire_after : ℕ → List Scored → Bool
expire_after exp [] = true
expire_after exp (x ∷ xs) = if ltb exp x.1 then expire_after exp xs else false

expire_after-keep :
    (exp : ℕ) (p : Scored → Bool) (xs : List Scored)
    → expire_after exp xs ≡ true
    → expire_after exp (keep p xs) ≡ true
expire_after-keep exp p [] later = later
expire_after-keep exp p (x ∷ xs) later =
    let ih = expire_after-keep exp p xs in
    elim (Bool-cases (p x)) [ inl e ↦ rw e (ground arith) | inr e ↦ rw e (ground arith) ]

insert_scored-first :
    (sid : String) (exp : ℕ) (xs : List Scored)
    → expire_after exp xs ≡ true
    → insert_scored (sid, exp) xs ≡ ((sid, exp) ∷ xs)
insert_scored-first sid exp [] later = refl
insert_scored-first sid exp (x ∷ xs) later =
    let before : ltb exp x.1 ≡ true = ground arith in rw before refl

contains-take :
    (n : ℕ) (sid : String) (sids : List String) → 1 ≤ n → contains sid (take n (sid ∷ sids)) ≡ true
contains-take zero sid sids some_taken = ground arith
contains-take (suc n) sid sids some_taken = ground (arith, eq_iff sid sid)

module _ {Text : Type 0} (r : Redis Text) (json : Json Text) (limits : Limits) where
  open r use {
    S, view, get_view, setex, delete_key, sadd, srem, zadd, zrem, purge, zrangebyscore, setex_law,
    delete_key_law, sadd_law, srem_law, zadd_law, zrem_law, purge_law, zrangebyscore_law,
  }

  evict_sids-value :
      (user k : String) (t : ℕ) (sids : List String) (s : S)
      → (view (evict_sids r json limits user sids s)).value k t
        ≡ (if contains k sids then none else (view s).value k t)
  unfolding evict_sids
  evict_sids-value user k t [] s = refl
  evict_sids-value user k t (sid ∷ sids) s =
      let deleted = delete_key sid s in
      rw
        (
          evict_sids-value user k t sids (zrem user sid (srem user sid deleted)),
          zrem_law user sid (srem user sid deleted),
          srem_law user sid deleted,
          delete_key_law sid s,
        )
        (ground (arith, eq_iff k sid, eq_iff sid k))

  -- The session of the first entry is evicted when there are more entries than the cap.
  evicted_first :
      (now t : ℕ) (user sid : String) (exp : ℕ) (rest : List Scored) (s : S)
      → ((s' : S) → (active : List String) × (zrangebyscore user now s' ≡ some active))
      → (view s).index user ≡ ((sid, exp) ∷ rest)
      → now ≤ exp
      → limits.server_session_max_per_user ≤ length (from_score now rest)
      → (view (evict_user_overflow_sessions r json limits user now s).0).value sid t ≡ none
  unfolding evict_user_overflow_sessions
  evicted_first now t user sid exp rest s reads indexed fresh full =
      let purged = purge user now s in
      let active = (reads purged).0 in
      let overflow = length active - limits.server_session_max_per_user in
      let fst : Scored → String = λ x. x.0 in
      let kept : leb now exp ≡ true = ground arith in
      let entries : (view purged).index user ≡ from_score now ((sid, exp) ∷ rest) =
        ap (λ v. v.index user) (purge_law user now s)
        ∙ at_key-same user (from_score now ((view s).index user)) (view s).index
        ∙ ap (from_score now) indexed in
      let known : active ≡ (sid ∷ map fst (from_score now rest)) =
        zrangebyscore_law user now purged (reads purged).1
        ∙ ap (λ xs. map fst (from_score now xs)) entries
        ∙ ap (map fst) (keep-twice (λ x. leb now x.1) ((sid, exp) ∷ rest))
        ∙ rw kept refl in
      let counted : length active ≡ suc (length (from_score now rest)) =
        ap (λ xs. length xs) known ∙ ap suc (length-map fst (from_score now rest)) in
      let taken : contains sid (take overflow active) ≡ true =
        ap (λ xs. contains sid (take overflow xs)) known
        ∙ contains-take overflow sid (map fst (from_score now rest)) (omega arith) in
      let run : (evict_user_overflow_sessions r json limits user now s).0
          ≡ evict_sids r json limits user (take overflow active) purged =
        rw (evict_user_overflow_sessions, (reads purged).1) refl in
      ap (λ s'. (view s').value sid t) run
      ∙ evict_sids-value user sid t (take overflow active) purged
      ∙ rw taken refl

  -- When the reads of the sorted index succeed, the user's entries all expire later than the session that
  -- create_session makes, and those of them that have not expired, without an entry of the new id, are as
  -- many as the cap or more, create_session evicts the session it makes: get_session finds nothing under
  -- the new id, at any time.
  pub create_session-evicts_itself :
      (now t : ℕ) (sid : String) (given : Session) (s : S)
      → ((s' : S) → (active : List String) × (zrangebyscore given.user_id now s' ≡ some active))
      → expire_after
          (now + compute_ttl_seconds limits given.remember_me)
          ((view s).index given.user_id)
        ≡ true
      → limits.server_session_max_per_user
        ≤ length (from_score now (without sid ((view s).index given.user_id)))
      → get_session r json limits sid t (create_session r json limits sid now given s).0 ≡ none
  unfolding create_session get_session read_session
  create_session-evicts_itself now t sid given s reads later full =
      let ttl = compute_ttl_seconds limits given.remember_me in
      let session = record given { iat = now; last_activity = now; exp = now + ttl } in
      let written = setex now sid ttl (json.dumps session) s in
      let added = sadd given.user_id sid written in
      let rest = without sid ((view s).index given.user_id) in
      let indexed : (view (zadd given.user_id sid (now + ttl) added)).index given.user_id
          ≡ ((sid, now + ttl) ∷ rest) =
        rw
          (
            zadd_law given.user_id sid (now + ttl) added,
            sadd_law given.user_id sid written,
            setex_law now sid ttl (json.dumps session) s,
            at_key-same given.user_id (insert_scored (sid, now + ttl) rest) (view s).index,
          )
          (insert_scored-first sid (now + ttl) rest (
            expire_after-keep (now + ttl) (λ x. not (str_eq x.0 sid)) ((view s).index given.user_id)
              later)) in
      let left = (create_session r json limits sid now given s).0 in
      rw
        (
          get_view sid t left,
          evicted_first now t given.user_id sid (now + ttl) rest
              (zadd given.user_id sid (now + ttl) added) reads indexed (omega arith) full,
        )
        refl
