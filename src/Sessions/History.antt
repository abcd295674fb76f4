-- ===== src/Sessions/History.antt =====
-- session_store.py: the stores that calls of its operations lead to, one after another, as the clock goes
-- on.
use Prim.Native.String.{String}
use text.Mathlib.Text.{◌==◌ as str_eq}
use ai_trading_backend.Common.{ℕ, ◌≡◌, true, false, none, some, List, [], leb}
use ai_trading_backend.Sessions.Redis.{Redis, View}
use ai_trading_backend.Sessions.Indexed.{Indexed-later}
use ai_trading_backend.Sessions.Kept.{
  IsIndexed, create_session-IsIndexed, delete_session-IsIndexed, refresh_session_activity-IsIndexed,
  persist_session-IsIndexed,
}
use ai_trading_backend.Sessions.Revocation.{delete_all-IsIndexed, delete_all-revokes}
use ai_trading_backend.Sessions.Store.{
  Session, Limits, Json, get_session, create_session, delete_session, refresh_session_activity,
  persist_session, delete_all_sessions_for_user,
}

-- A Redis that holds no session.
abbrev pub empty_view : {Text : Type 0} → View Text
empty_view = record { value = λ sid t. none; members = λ user. []; index = λ user. [] }

module _ {Text : Type 0} (r : Redis Text) (json : Json Text) (limits : Limits) where
  open r use {S, view, zrangebyscore}

  -- The store and the clock after some calls. A sign-out everywhere is one where the sorted index could
  -- be read and the user has an id.
  pub data Reaches : ℕ → S → Type 0 where
    start : (now : ℕ) (s : S) → view s ≡ empty_view → Reaches now s
    wait : {now : ℕ} {s : S} (later : ℕ) → leb now later ≡ true → Reaches now s → Reaches later s
    create :
        {now : ℕ} {s : S} (sid : String) (given : Session)
        → Reaches now s
        → Reaches now (create_session r json limits sid now given s).0
    delete :
        {now : ℕ} {s : S} (sid : String)
        → Reaches now s
        → Reaches now (delete_session r json limits sid now s)
    refresh :
        {now : ℕ} {s : S} (sid : String) (d : Session)
        → Reaches now s
        → Reaches now (refresh_session_activity r json limits sid now d s).0
    persist :
        {now : ℕ} {s : S} (sid : String) (d : Session)
        → Reaches now s
        → Reaches now (persist_session r json limits sid now d s).0
    delete_all :
        {now : ℕ} {s : S} (scan : String → ℕ → S → List String) (user : String)
        (active : List String)
        → zrangebyscore user now s ≡ some active
        → str_eq user "" ≡ false
        → Reaches now s
        → Reaches now (delete_all_sessions_for_user r json limits scan user now s).0

  Reaches-IsIndexed : {now : ℕ} {s : S} → Reaches now s → IsIndexed r json limits now s
  Reaches-IsIndexed (start now s e) = rw e (record { listed = λ t sid raw d after read. cc })
  Reaches-IsIndexed (wait {now} {s} later passed before) =
      Indexed-later json now later (view s) passed (Reaches-IsIndexed before)
  Reaches-IsIndexed (create {now} {s} sid given before) =
      create_session-IsIndexed r json limits now sid given s (Reaches-IsIndexed before)
  Reaches-IsIndexed (delete {now} {s} sid before) =
      delete_session-IsIndexed r json limits now sid s (Reaches-IsIndexed before)
  Reaches-IsIndexed (refresh {now} {s} sid d before) =
      refresh_session_activity-IsIndexed r json limits now sid d s (Reaches-IsIndexed before)
  Reaches-IsIndexed (persist {now} {s} sid d before) =
      persist_session-IsIndexed r json limits now sid d s (Reaches-IsIndexed before)
  Reaches-IsIndexed (delete_all {now} {s} scan user active answered somebody before) =
      delete_all-IsIndexed r json limits scan user now s active (Reaches-IsIndexed before) answered
        somebody

  -- A store is reached from an empty Redis by calls of create_session, delete_session,
  -- refresh_session_activity, persist_session and delete_all_sessions_for_user, made one after another at
  -- times that do not decrease, with any ids and session payloads; of delete_all_sessions_for_user, those
  -- for a nonempty user id at which the sorted index could be read. When delete_all_sessions_for_user is
  -- then called for a nonempty user id and the read of the user's sorted index succeeds, get_session on the
  -- store it leaves finds no session of that user, at that time or at a later one, under whatever id.
  pub delete_all_sessions_for_user-revokes :
      (scan : String → ℕ → S → List String) (user : String) (now t : ℕ) (sid : String) (d : Session)
      (s : S) (active : List String)
      → Reaches now s
      → zrangebyscore user now s ≡ some active
      → str_eq user "" ≡ false
      → leb now t ≡ true
      → get_session r json limits sid t
          (delete_all_sessions_for_user r json limits scan user now s).0
        ≡ some d
      → str_eq d.user_id user ≡ false
  delete_all_sessions_for_user-revokes scan user now t sid d s active reached =
      delete_all-revokes r json limits scan user now t sid d s active (Reaches-IsIndexed reached)
