-- ===== src/Sessions/Tests.antt =====
-- session_store.py on concrete inputs: runs of the operations on a Redis written as a function, and the
-- theorems applied to them.
use Prim.Native.String.{String}
use text.Mathlib.Text.{◌==◌ as str_eq}
use ai_trading_backend.Common.{
  ℕ, ◌≤◌, ◌≡◌, refl, ap, false, none, some, List, [], ◌∷◌, map, length, arith,
}
use ai_trading_backend.Sessions.Redis.{
  Redis, View, contains, from_score, setex_view, delete_session_view, sadd_view, srem_view,
  zadd_view, zrem_view, purge_view, delete_set_view, delete_index_view,
}
use ai_trading_backend.Sessions.Store.{
  Session, Limits, Json, get_session, read_session, create_session, delete_session,
  refresh_session_activity, delete_all_sessions_for_user, collect_sids, delete_keys,
  evict_user_overflow_sessions, evict_sids, compute_ttl_seconds,
}
use ai_trading_backend.Sessions.History.{
  Reaches, start, wait, create, empty_view, delete_all_sessions_for_user-revokes,
}
use ai_trading_backend.Sessions.Creation.{create_session-get_session, delete_session-get_session}
use ai_trading_backend.Sessions.Refresh.{refresh_session_activity-get_session}
use ai_trading_backend.Sessions.Eviction.{create_session-evicts_itself}
use ai_trading_backend.Sessions.Capacity.{evict_user_overflow_sessions-cap}

some-same : (xs : List String) {sids : List String} → some xs ≡ some sids → sids ≡ xs
some-same xs e = cc

some-contains :
    (xs : List String) {sids : List String}
    → some xs ≡ some sids
    → (sid : String) → contains sid sids ≡ contains sid xs
some-contains xs e sid = ap (contains sid) (some-same xs e)

abbrev redis : Redis Session
redis = record {
  S = View Session;
  view = λ v. v;
  get = λ sid now v. v.value sid now;
  setex = setex_view;
  delete_key = delete_session_view;
  sadd = sadd_view;
  srem = srem_view;
  zadd = zadd_view;
  zrem = zrem_view;
  purge = purge_view;
  delete_set = delete_set_view;
  delete_index = delete_index_view;
  smembers = λ user v. some (v.members user);
  zrangebyscore = λ user low v. some (map (λ x. x.0) (from_score low (v.index user)));
  get_view = λ sid now v. refl;
  setex_law = λ now sid ttl raw v. refl;
  delete_key_law = λ sid v. refl;
  sadd_law = λ user sid v. refl;
  srem_law = λ user sid v. refl;
  zadd_law = λ user sid score v. refl;
  zrem_law = λ user sid v. refl;
  purge_law = λ user low v. refl;
  delete_set_law = λ user v. refl;
  delete_index_law = λ user v. refl;
  smembers_law = λ user v e. some-contains (v.members user) e;
  zrangebyscore_law = λ user low v e. some-same (map (λ x. x.0) (from_score low (v.index user))) e;
}

abbrev json : Json Session
json = record { dumps = λ d. d; loads = λ d. some d; loads-dumps = λ d. refl }

abbrev limits : Limits
limits = record {
  server_session_max_ttl = 86400;
  server_session_remember_max_ttl = 2592000;
  server_session_max_per_user = 2;
}

abbrev session_of : String → Session
session_of user = record {
  user_id = user;
  plan = "pro";
  permissions = "signals" ∷ [];
  iat = 0;
  last_activity = 0;
  exp = 0;
  supabase_exp = 0;
  remember_me = false;
  ua_hash = "";
  ip_prefix = "";
  ua_summary = "";
  country = "";
}

abbrev no_scan : String → ℕ → View Session → List String
no_scan user now v = []

abbrev first : View Session
first = (create_session redis json limits "s1" 100 (session_of "ann") empty_view).0

abbrev second : View Session
second = (create_session redis json limits "s2" 100 (session_of "bob") first).0

abbrev second-Reaches : Reaches redis json limits 150 second
second-Reaches =
    wait 150 refl
      (create "s2" (session_of "bob") (create "s1" (session_of "ann") (start 100 empty_view refl)))

abbrev bob : Session
bob = record (session_of "bob") { iat = 100; last_activity = 100; exp = 86500 }

bob-survives :
    get_session redis json limits "s2" 200
      (delete_all_sessions_for_user redis json limits no_scan "ann" 150 second).0
    ≡ some bob
unfolding get_session read_session delete_all_sessions_for_user collect_sids delete_keys
    create_session evict_user_overflow_sessions evict_sids compute_ttl_seconds
bob-survives = refl

delete_all_sessions_for_user-revokes_example : str_eq "bob" "ann" ≡ false
unfolding create_session evict_user_overflow_sessions evict_sids compute_ttl_seconds
delete_all_sessions_for_user-revokes_example =
    delete_all_sessions_for_user-revokes redis json limits no_scan "ann" 150 200 "s2" bob second
      ("s1" ∷ []) second-Reaches refl refl refl bob-survives

-- Three sessions in the index of a user who may have two
abbrev crowded : View Session
crowded =
    zadd_view "ann" "s3" 86503 (zadd_view "ann" "s2" 86502 (zadd_view "ann" "s1" 86501 empty_view))

abbrev after_eviction : View Session
after_eviction = (evict_user_overflow_sessions redis json limits "ann" 150 crowded).0

abbrev newest_two : List String
newest_two = "s2" ∷ "s3" ∷ []

two_left : redis.zrangebyscore "ann" 150 after_eviction ≡ some newest_two
unfolding evict_user_overflow_sessions evict_sids
two_left = refl

evict_user_overflow_sessions-cap_example : length newest_two ≤ 2
evict_user_overflow_sessions-cap_example =
    evict_user_overflow_sessions-cap redis json limits 150 "ann" crowded newest_two
      (λ v. (map (λ x. x.0) (from_score 150 (v.index "ann")), refl)) two_left

-- Two sessions of thirty days, and a new one of a day
abbrev remembered : View Session
remembered = zadd_view "ann" "s2" 2592100 (zadd_view "ann" "s1" 2592050 empty_view)

create_session-evicts_itself_example :
    get_session redis json limits "s3" 100
      (create_session redis json limits "s3" 100 (session_of "ann") remembered).0
    ≡ none
unfolding compute_ttl_seconds
create_session-evicts_itself_example =
    create_session-evicts_itself redis json limits 100 100 "s3" (session_of "ann") remembered
      (λ v. (map (λ x. x.0) (from_score 100 (v.index "ann")), refl)) refl (omega arith)

-- Bob's session of the runs above, as it was read before it was deleted
abbrev bob_refreshed : Session
bob_refreshed = record bob { last_activity = 200; exp = 86600 }

refresh_returns :
    (refresh_session_activity redis json limits "s2" 200 bob empty_view).1 ≡ some bob_refreshed
unfolding refresh_session_activity compute_ttl_seconds
refresh_returns = refl

refresh_session_activity-get_session_example :
    get_session redis json limits "s2" 300
      (refresh_session_activity redis json limits "s2" 200 bob empty_view).0
    ≡ some bob_refreshed
refresh_session_activity-get_session_example =
    refresh_session_activity-get_session redis json limits "s2" 200 300 bob bob_refreshed empty_view
      (omega arith) refresh_returns (omega arith) (omega arith)

-- A second session of Ann's, within her cap
abbrev ann_again : View Session × Session × ℕ
ann_again = create_session redis json limits "s2" 120 (session_of "ann") first

create_session-get_session_example :
    (get_session redis json limits "s2" 200 ann_again.0 ≡ some ann_again.1) × (ann_again.2 ≡ 0)
unfolding create_session evict_user_overflow_sessions evict_sids compute_ttl_seconds
create_session-get_session_example =
    create_session-get_session redis json limits 120 200 "s2" (session_of "ann") first
      (λ v. (map (λ x. x.0) (from_score 120 (v.index "ann")), refl)) (omega arith) (omega arith)
      (omega arith)

delete_session-get_session_example :
    get_session redis json limits "s1" 200 (delete_session redis json limits "s1" 150 first) ≡ none
delete_session-get_session_example = delete_session-get_session redis json limits 150 200 "s1" first
