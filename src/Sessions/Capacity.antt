-- ===== src/Sessions/Capacity.antt =====
-- The cap of session_store.py on the sessions of one user: _evict_user_overflow_sessions in create_session.
use Prim.Native.String.{String}
use text.Mathlib.Text.{◌==◌ as str_eq}
use text.Mathlib.TextEquality.{eq_iff}
use ai_trading_backend.Common.{
  ℕ, zero, suc, ◌-◌, ◌≤◌, ◌≡◌, refl, sym, ap, ◌∙◌, Bool, true, not, some, List, [], ◌∷◌, map, take,
  length, keep, leb, arith, Bool-cases, inl, inr,
}
use ai_trading_backend.Sessions.Redis.{Redis, Scored, without, from_score}
use ai_trading_backend.Sessions.Index.{at_key-same}
use ai_trading_backend.Sessions.Store.{Limits, Json, evict_sids, evict_user_overflow_sessions}

-- Two selections commute.
keep-keep {ℓ} :
    {A : Type ℓ} (p q : A → Bool) (xs : List A) → keep p (keep q xs) ≡ keep q (keep p xs)
keep-keep p q [] = refl
keep-keep p q (x ∷ xs) = let ih = keep-keep p q xs in ground arith

length-keep {ℓ} : {A : Type ℓ} (p : A → Bool) (xs : List A) → length (keep p xs) ≤ length xs
length-keep p [] = ground arith
length-keep p (x ∷ xs) =
    let ih = length-keep p xs in
    elim (Bool-cases (p x)) [ inl e ↦ rw e (omega arith) | inr e ↦ rw e (omega arith) ]

pub length-map {ℓ κ} :
    {A : Type ℓ} {B : Type κ} (f : A → B) (xs : List A) → length (map f xs) ≡ length xs
length-map f [] = refl
length-map f (x ∷ xs) = ap (λ n. suc n) (length-map f xs)

-- The index without some sessions.
abbrev all_without : List String → List Scored → List Scored
all_without [] xs = xs
all_without (sid ∷ sids) xs = all_without sids (without sid xs)

all_without-keep :
    (p : Scored → Bool) (sids : List String) (xs : List Scored)
    → keep p (all_without sids xs) ≡ all_without sids (keep p xs)
all_without-keep p [] xs = refl
all_without-keep p (sid ∷ sids) xs =
    all_without-keep p sids (without sid xs)
    ∙ ap (all_without sids) (keep-keep p (λ x. not (str_eq x.0 sid)) xs)

-- Without the sessions of the first `n` entries, at least `n` entries fewer are left.
length-all_without :
    (n : ℕ) (xs : List Scored)
    → length (all_without (take n (map (λ x. x.0) xs)) xs) ≤ length xs - n
length-all_without zero xs = ground arith
length-all_without (suc n) [] = ground arith
length-all_without (suc n) (x ∷ xs) =
    let others : Scored → Bool = λ y. not (str_eq y.0 x.0) in
    let sids = take n (map (λ y. y.0) xs) in
    let same : str_eq x.0 x.0 ≡ true = ground (arith, eq_iff x.0 x.0) in
    let ih = length-all_without n xs in
    let fewer = length-keep others (all_without sids xs) in
    rw (same, sym (all_without-keep others sids xs)) (omega arith)

module _ {Text : Type 0} (r : Redis Text) (json : Json Text) (limits : Limits) where
  open r use {
    S, view, setex, delete_key, sadd, srem, zadd, zrem, purge, zrangebyscore, delete_key_law,
    srem_law, zrem_law, zrangebyscore_law,
  }

  evict_sids-index :
      (user : String) (sids : List String) (s : S)
      → (view (evict_sids r json limits user sids s)).index user
        ≡ all_without sids ((view s).index user)
  unfolding evict_sids
  evict_sids-index user [] s = refl
  evict_sids-index user (sid ∷ sids) s =
      let deleted = delete_key sid s in
      rw
        (
          evict_sids-index user sids (zrem user sid (srem user sid deleted)),
          zrem_law user sid (srem user sid deleted),
          srem_law user sid deleted,
          delete_key_law sid s,
          at_key-same user (without sid ((view s).index user)) (view s).index,
        )
        refl

  -- What a read of the index finds after the first sessions of an earlier read have been evicted.
  evict_sids-fewer :
      (now n : ℕ) (user : String) (s : S) (active left : List String)
      → zrangebyscore user now s ≡ some active
      → zrangebyscore user now (evict_sids r json limits user (take n active) s) ≡ some left
      → length left ≤ length active - n
  evict_sids-fewer now n user s active left before answered =
      let index = (view s).index user in
      let sids = take n (map (λ y. y.0) (from_score now index)) in
      let read : active ≡ map (λ y. y.0) (from_score now index) =
        zrangebyscore_law user now s before in
      let read_left : left ≡ map (λ y. y.0) (from_score now (all_without sids index)) =
        zrangebyscore_law user now (evict_sids r json limits user (take n active) s) answered
        ∙ ap (λ xs. map (λ y. y.0) (from_score now xs)) (evict_sids-index user (take n active) s)
        ∙ ap (λ xs. map (λ y. y.0) (from_score now (all_without (take n xs) index))) read in
      let counted : length active ≡ length (from_score now index) =
        ap (λ xs. length xs) read ∙ length-map (λ y. y.0) (from_score now index) in
      let counted_left : length left ≡ length (all_without sids (from_score now index)) =
        ap (λ xs. length xs) read_left
        ∙ length-map (λ y. y.0) (from_score now (all_without sids index))
        ∙ ap (λ xs. length xs) (all_without-keep (λ y. leb now y.1) sids index) in
      let bound = length-all_without n (from_score now index) in rw (counted_left, counted) bound

  -- When the reads of the user's sorted index succeed, a user has at most `server_session_max_per_user`
  -- sessions in the index that have not expired once _evict_user_overflow_sessions has run, however many
  -- there were.
  pub evict_user_overflow_sessions-cap :
      (now : ℕ) (user : String) (s : S) (left : List String)
      → ((s' : S) → (active : List String) × (zrangebyscore user now s' ≡ some active))
      → zrangebyscore user now (evict_user_overflow_sessions r json limits user now s).0 ≡ some left
      → length left ≤ limits.server_session_max_per_user
  unfolding evict_user_overflow_sessions
  evict_user_overflow_sessions-cap now user s left reads answered =
      let purged = purge user now s in
      let active = (reads purged).0 in
      let overflow = length active - limits.server_session_max_per_user in
      let run : (evict_user_overflow_sessions r json limits user now s).0
          ≡ evict_sids r json limits user (take overflow active) purged =
        rw (evict_user_overflow_sessions, (reads purged).1) refl in
      let bound =
        evict_sids-fewer now overflow user purged active left (reads purged).1
          (sym (ap (zrangebyscore user now) run) ∙ answered) in
      omega arith
