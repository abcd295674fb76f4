-- ===== src/Sessions/Revocation.antt =====
-- What delete_all_sessions_for_user of session_store.py leaves.
use Prim.Native.String.{String}
use text.Mathlib.Text.{◌==◌ as str_eq}
use text.Mathlib.TextEquality.{eq_iff}
use ai_trading_backend.Common.{
  ℕ, ◌≡◌, refl, sym, ap, ◌∙◌, Bool, true, false, Option, none, some, List, leb, arith,
  if◌then◌else◌, Bool-cases, inl, inr,
}
use ai_trading_backend.Sessions.Redis.{Redis, contains}
use ai_trading_backend.Sessions.Index.{covers}
use ai_trading_backend.Sessions.Indexed.{read_unless}
use ai_trading_backend.Sessions.Kept.{IsIndexed}
use ai_trading_backend.Sessions.Store.{
  Session, Limits, Json, is_expired, read_session, get_session, collect_sids,
  delete_all_sessions_for_user,
}
use ai_trading_backend.Sessions.Deletion.{collect_sids-covers, delete_all-value, delete_all-index}

passed :
    (dropped : Bool) (x d : Session)
    → (if dropped then none else some x) ≡ some d
    → ◌≡◌ {A = Option Session} (some x) (some d)
passed true x d found = cc
passed false x d found = found

accepted :
    (now : ℕ) (loaded : Option Session) (d : Session)
    → elim loaded [ none ↦ none | some d' ↦ if is_expired d' now then none else some d' ] ≡ some d
    → loaded ≡ some d
accepted now none d found = found
accepted now (some d') d found = passed (is_expired d' now) d' d found

module _ {Text : Type 0} (r : Redis Text) (json : Json Text) (limits : Limits) where
  open r use {
    S, view, get_view, delete_key, purge, delete_set, delete_index, smembers, zrangebyscore,
    delete_key_law, delete_set_law, delete_index_law, purge_law, zrangebyscore_law,
  }

  -- A value that is there after `delete_all_sessions_for_user` was there before, and is not the user's.
  survivor :
      (scan : String → ℕ → S → List String) (user : String) (now t : ℕ) (sid : String) (raw : Text)
      (d : Session) (s : S) (active : List String)
      → IsIndexed r json limits now s
      → zrangebyscore user now s ≡ some active
      → str_eq user "" ≡ false
      → leb now t ≡ true
      → (view (delete_all_sessions_for_user r json limits scan user now s).0).value sid t ≡ some raw
      → json.loads raw ≡ some d
      → ((view s).value sid t ≡ some raw) × (str_eq d.user_id user ≡ false)
  survivor scan user now t sid raw d s active ok answered somebody after read loaded =
      let left =
        read_unless (contains sid (collect_sids r json limits scan user now s))
          ((view s).value sid t) raw
          (sym (delete_all-value r json limits scan user now t sid s) ∙ read) in
      (
        left.1,
        (elim (Bool-cases (str_eq d.user_id user)) [
          | inr differ ↦ differ
          | inl e ↦
              let same : d.user_id ≡ user = ground (arith, eq_iff d.user_id user) in
              let named : str_eq d.user_id "" ≡ false = ap (λ u. str_eq u "") same ∙ somebody in
              let listed : covers t sid ((view s).index user) ≡ true =
                sym (ap (λ u. covers t sid ((view s).index u)) same)
                ∙ ok.listed t sid raw d after left.1 loaded named in
              let collected =
                collect_sids-covers r json limits scan user now t sid s active answered after
                  listed in
              let kept = left.0 in cc
        ]),
      )

  -- The invariant is kept by `delete_all_sessions_for_user` when the sorted index can be read.
  pub delete_all-IsIndexed :
      (scan : String → ℕ → S → List String) (user : String) (now : ℕ) (s : S) (active : List String)
      → IsIndexed r json limits now s
      → zrangebyscore user now s ≡ some active
      → str_eq user "" ≡ false
      → IsIndexed r json limits now (delete_all_sessions_for_user r json limits scan user now s).0
  delete_all-IsIndexed scan user now s active ok answered somebody = record {
    listed = λ t sid raw d after read loaded named.
        let old =
          survivor scan user now t sid raw d s active ok answered somebody after read loaded in
        rw (delete_all-index r json limits scan user d.user_id now s old.1)
          (ok.listed t sid raw d after old.0 loaded named);
  }

  read_session-loads :
      (now : ℕ) (value : Option Text) (d : Session)
      → read_session r json limits now value ≡ some d
      → (raw : Text) × (value ≡ some raw) × (json.loads raw ≡ some d)
  unfolding read_session
  read_session-loads now none d found = cc
  read_session-loads now (some raw) d found = (raw, refl, accepted now (json.loads raw) d found)

  -- Signing a user with an id out everywhere, when the invariant holds and the sorted index can be read: no
  -- session of the user is found then or later.
  pub delete_all-revokes :
      (scan : String → ℕ → S → List String) (user : String) (now t : ℕ) (sid : String) (d : Session)
      (s : S) (active : List String)
      → IsIndexed r json limits now s
      → zrangebyscore user now s ≡ some active
      → str_eq user "" ≡ false
      → leb now t ≡ true
      → get_session r json limits sid t
          (delete_all_sessions_for_user r json limits scan user now s).0
        ≡ some d
      → str_eq d.user_id user ≡ false
  unfolding get_session
  delete_all-revokes scan user now t sid d s active ok answered somebody after found =
      let left = (delete_all_sessions_for_user r json limits scan user now s).0 in
      let read = read_session-loads t (r.get sid t left) d found in
      (survivor scan user now t sid read.0 d s active ok answered somebody after
        (sym (get_view sid t left) ∙ read.1) read.2).1
