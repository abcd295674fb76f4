-- ===== src/Sessions/Redis.antt =====
-- What session_store.py calls of Redis, and what its commands do to what can be read. A key is named
-- by what it is the key of: a session, a user's set of sessions, or a user's sorted index of them. The
-- program's prefixes keep the three apart.
use Prim.Native.Nat.{Ordering}
use Prim.Native.String.{String, compare}
use text.Mathlib.Text.{◌==◌ as str_eq}
use ai_trading_backend.Common.{
  ℕ, ◌+◌, ◌≡◌, Bool, true, false, not, ◌&&◌, ◌||◌, Option, none, some, List, [], ◌∷◌, keep, map,
  ltb, leb, ◌==◌, if◌then◌else◌,
}

-- A member of a sorted set and its score.
abbrev pub Scored : Type 0
Scored = String × ℕ

-- What can be read: the value of a session's key at a time, the members of a user's set, and a user's
-- index in the order of the scores.
pub record View (Text : Type 0) : Type 0 where
  pub value : String → ℕ → Option Text
  pub members : String → List String
  pub index : String → List Scored

abbrev pub at_key {ℓ} : {A : Type ℓ} → String → A → (String → A) → String → A
at_key key a f k = if str_eq k key then a else f k

-- SETEX at a time: the value is there for `ttl` seconds.
abbrev pub setex_view : {Text : Type 0} → ℕ → String → ℕ → Text → View Text → View Text
setex_view now sid ttl raw v = record v {
  value =
      λ k t. if str_eq k sid then (if ltb t (now + ttl) then some raw else none) else v.value k t;
}

abbrev pub delete_session_view : {Text : Type 0} → String → View Text → View Text
delete_session_view sid v = record v { value = λ k t. if str_eq k sid then none else v.value k t }

abbrev pub remove : String → List String → List String
remove sid sids = keep (λ k. not (str_eq k sid)) sids

abbrev pub sadd_view : {Text : Type 0} → String → String → View Text → View Text
sadd_view user sid v = record v {
  members = at_key user (sid ∷ remove sid (v.members user)) v.members;
}

abbrev pub srem_view : {Text : Type 0} → String → String → View Text → View Text
srem_view user sid v = record v { members = at_key user (remove sid (v.members user)) v.members }

-- Members of one score are in the order of their texts.
abbrev pub text_lt : String → String → Bool
text_lt a b = elim (compare a b) [ Ordering.lt ↦ true | _ ↦ false ]

abbrev pub comes_before : Scored → Scored → Bool
comes_before (a, e) (b, f) = ltb e f || (e == f && text_lt a b)

abbrev pub insert_scored : Scored → List Scored → List Scored
insert_scored x [] = x ∷ []
insert_scored x (y ∷ ys) = if comes_before x y then x ∷ y ∷ ys else y ∷ insert_scored x ys

abbrev pub without : String → List Scored → List Scored
without sid xs = keep (λ x. not (str_eq x.0 sid)) xs

abbrev pub from_score : ℕ → List Scored → List Scored
from_score low xs = keep (λ x. leb low x.1) xs

abbrev pub zadd_view : {Text : Type 0} → String → String → ℕ → View Text → View Text
zadd_view user sid score v = record v {
  index = at_key user (insert_scored (sid, score) (without sid (v.index user))) v.index;
}

abbrev pub zrem_view : {Text : Type 0} → String → String → View Text → View Text
zrem_view user sid v = record v { index = at_key user (without sid (v.index user)) v.index }

-- ZREMRANGEBYSCORE from -inf to `low - 1`
abbrev pub purge_view : {Text : Type 0} → String → ℕ → View Text → View Text
purge_view user low v = record v { index = at_key user (from_score low (v.index user)) v.index }

abbrev pub delete_set_view : {Text : Type 0} → String → View Text → View Text
delete_set_view user v = record v { members = at_key user [] v.members }

abbrev pub delete_index_view : {Text : Type 0} → String → View Text → View Text
delete_index_view user v = record v { index = at_key user [] v.index }

abbrev pub contains : String → List String → Bool
contains sid [] = false
contains sid (k ∷ sids) = str_eq k sid || contains sid sids

-- `Text` is what a session is written as.
pub record Redis (Text : Type 0) : Type 1 where
  pub S : Type 0
  pub view : S → View Text
  pub get : String → ℕ → S → Option Text
  pub setex : ℕ → String → ℕ → Text → S → S
  pub delete_key : String → S → S
  pub sadd : String → String → S → S
  pub srem : String → String → S → S
  pub zadd : String → String → ℕ → S → S
  pub zrem : String → String → S → S
  pub purge : String → ℕ → S → S
  pub delete_set : String → S → S
  pub delete_index : String → S → S
  -- Reads that the code makes in a `try`: `none` where they raise an error.
  pub smembers : String → S → Option (List String)
  pub zrangebyscore : String → ℕ → S → Option (List String)
  pub get_view : (sid : String) (now : ℕ) (s : S) → get sid now s ≡ (view s).value sid now
  pub setex_law :
      (now : ℕ) (sid : String) (ttl : ℕ) (raw : Text) (s : S)
      → view (setex now sid ttl raw s) ≡ setex_view now sid ttl raw (view s)
  pub delete_key_law :
      (sid : String) (s : S) → view (delete_key sid s) ≡ delete_session_view sid (view s)
  pub sadd_law : (user sid : String) (s : S) → view (sadd user sid s) ≡ sadd_view user sid (view s)
  pub srem_law : (user sid : String) (s : S) → view (srem user sid s) ≡ srem_view user sid (view s)
  pub zadd_law :
      (user sid : String) (score : ℕ) (s : S)
      → view (zadd user sid score s) ≡ zadd_view user sid score (view s)
  pub zrem_law : (user sid : String) (s : S) → view (zrem user sid s) ≡ zrem_view user sid (view s)
  pub purge_law :
      (user : String) (low : ℕ) (s : S) → view (purge user low s) ≡ purge_view user low (view s)
  pub delete_set_law :
      (user : String) (s : S) → view (delete_set user s) ≡ delete_set_view user (view s)
  pub delete_index_law :
      (user : String) (s : S) → view (delete_index user s) ≡ delete_index_view user (view s)
  pub smembers_law :
      (user : String) (s : S) {sids : List String}
      → smembers user s ≡ some sids
      → (sid : String) → contains sid sids ≡ contains sid ((view s).members user)
  pub zrangebyscore_law :
      (user : String) (low : ℕ) (s : S) {sids : List String}
      → zrangebyscore user low s ≡ some sids
      → sids ≡ map (λ x. x.0) (from_score low ((view s).index user))
