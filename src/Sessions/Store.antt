-- ===== src/Sessions/Store.antt =====
-- api-web/app/authn/session_store.py: the operations on sessions. The clock is read once in each, as
-- in the code, and comes in as `now`.
use Prim.Native.String.{String}
use text.Mathlib.Text.{◌==◌ as str_eq}
use ai_trading_backend.Common.{
  ℕ, suc, ◌+◌, ◌-◌, ◌≡◌, Bool, true, false, ◌&&◌, ◌||◌, Option, none, some, List, [], ◌∷◌, max,
  take, length, ltb, ◌==◌, if◌then◌else◌,
}
use ai_trading_backend.Sessions.Redis.{Redis, contains}

-- A session's dict; a number that is missing is 0, and a text that is missing is empty.
pub record Session : Type 0 where
  pub user_id : String
  pub plan : String
  pub permissions : List String
  pub iat : ℕ
  pub last_activity : ℕ
  pub exp : ℕ
  pub supabase_exp : ℕ
  pub remember_me : Bool
  pub ua_hash : String
  pub ip_prefix : String
  pub ua_summary : String
  pub country : String

-- The settings, each at least 1.
pub record Limits : Type 0 where
  pub server_session_max_ttl : ℕ
  pub server_session_remember_max_ttl : ℕ
  pub server_session_max_per_user : ℕ

-- `json_dumps`, and `json.loads` with its errors as `none`
pub record Json (Text : Type 0) : Type 0 where
  pub dumps : Session → Text
  pub loads : Text → Option Session
  pub loads-dumps : (d : Session) → loads (dumps d) ≡ some d

unfoldable pub compute_ttl_seconds : Limits → Bool → ℕ
compute_ttl_seconds limits remember_me =
    max 1 (
      if remember_me then limits.server_session_remember_max_ttl else limits.server_session_max_ttl)

-- `exp and exp < now`
abbrev pub is_expired : Session → ℕ → Bool
is_expired d now = ltb 0 d.exp && ltb d.exp now

-- The union of two sets, as a list.
abbrev pub union : List String → List String → List String
union [] ys = ys
union (x ∷ xs) ys = let rest = union xs ys in if contains x rest then rest else x ∷ rest

abbrev pub or_nothing : Option (List String) → List String
or_nothing none = []
or_nothing (some sids) = sids

abbrev pub is_empty : List String → Bool
is_empty [] = true
is_empty (x ∷ xs) = false

module _ {Text : Type 0} (r : Redis Text) (json : Json Text) (limits : Limits) where
  open r use {
    S, get, setex, delete_key, sadd, srem, zadd, zrem, purge, delete_set, delete_index, smembers,
    zrangebyscore,
  }
  open json use {dumps, loads}

  -- The session of a value that was read.
  unfoldable pub read_session : ℕ → Option Text → Option Session
  read_session now none = none
  read_session now (some raw) = elim (loads raw) [
    | none ↦ none
    | some d ↦ if is_expired d now then none else some d
  ]

  unfoldable pub get_session : String → ℕ → S → Option Session
  get_session sid now s = read_session now (get sid now s)

  -- The loop over the sessions that are evicted.
  unfoldable pub evict_sids : String → List String → S → S
  evict_sids user_id [] s = s
  evict_sids user_id (sid ∷ sids) s =
      evict_sids user_id sids (zrem user_id sid (srem user_id sid (delete_key sid s)))

  unfoldable pub evict_user_overflow_sessions : String → ℕ → S → S × ℕ
  evict_user_overflow_sessions user_id now s =
      let s₁ = purge user_id now s in
      elim (zrangebyscore user_id now s₁) [
        | none ↦ (s₁, 0)
        | some active ↦
            let overflow = length active - limits.server_session_max_per_user in
            (evict_sids user_id (take overflow active) s₁, length (take overflow active))
      ]

  -- `sid` is the new uuid, and `given` has the arguments, the texts of the device trimmed and cut. It
  -- answers the session and how many were evicted.
  unfoldable pub create_session : String → ℕ → Session → S → S × Session × ℕ
  create_session sid now given s =
      let ttl = compute_ttl_seconds limits given.remember_me in
      let exp = now + ttl in
      let session = record given { iat = now; last_activity = now; exp = exp } in
      let s₁ =
        zadd given.user_id sid exp (sadd given.user_id sid (setex now sid ttl (dumps session) s)) in
      let evicted = evict_user_overflow_sessions given.user_id now s₁ in
      (evicted.0, session, evicted.1)

  abbrev pub unindex : Option Session → String → S → S
  unindex none sid s = s
  unindex (some d) sid s =
      if str_eq d.user_id "" then s else zrem d.user_id sid (srem d.user_id sid s)

  unfoldable pub delete_session : String → ℕ → S → S
  delete_session sid now s = delete_key sid (unindex (get_session sid now s) sid s)

  -- The write of `refresh_session_activity` and of `persist_session`.
  unfoldable pub put_session : String → ℕ → ℕ → Session → S → S
  put_session sid now ttl d s =
      let s₁ = setex now sid ttl (dumps d) s in
      if str_eq d.user_id "" then s₁ else zadd d.user_id sid d.exp s₁

  unfoldable pub refresh_session_activity : String → ℕ → Session → S → S × Option Session
  refresh_session_activity sid now d s =
      let sliding_ttl = compute_ttl_seconds limits false in
      let updated = record d { last_activity = now } in
      let slid = record d { last_activity = now; exp = now + sliding_ttl } in
      if ltb now (d.last_activity + 60)
      then (s, some d)
      else if d.remember_me
      then (if d.exp == 0 || ltb d.exp now
          then (s, none)
          else (put_session sid now (max 1 (d.exp - now)) updated s, some updated))
      else (put_session sid now sliding_ttl slid s, some slid)

  unfoldable pub persist_session : String → ℕ → Session → S → S × Option Session
  persist_session sid now d s =
      let ttl = compute_ttl_seconds limits d.remember_me in
      let dated = record d { exp = now + ttl } in
      if is_expired d now
      then (s, none)
      else if ltb 0 d.exp
      then (put_session sid now (max 1 (d.exp - now)) d s, some d)
      else (put_session sid now ttl dated s, some dated)

  unfoldable pub delete_keys : List String → S → S
  delete_keys [] s = s
  delete_keys (sid ∷ sids) s = delete_keys sids (delete_key sid s)

  -- The session ids that `delete_all_sessions_for_user` collects; `scan` is the answer of
  -- `_scan_active_session_ids_for_user`.
  unfoldable pub collect_sids : (String → ℕ → S → List String) → String → ℕ → S → List String
  collect_sids scan user_id now s =
      let indexed =
        union (or_nothing (smembers user_id s)) (or_nothing (zrangebyscore user_id now s)) in
      if is_empty indexed then scan user_id now s else indexed

  unfoldable pub delete_all_sessions_for_user :
      (String → ℕ → S → List String) → String → ℕ → S → S × ℕ
  delete_all_sessions_for_user scan user_id now s =
      let sids = collect_sids scan user_id now s in
      if is_empty sids
      then (purge user_id (suc now) (delete_index user_id (delete_set user_id s)), 0)
      else (delete_index user_id (delete_set user_id (delete_keys sids s)), length sids)
