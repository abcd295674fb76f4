-- ===== src/Sessions/Deletion.antt =====
-- The keys and the index entries that delete_all_sessions_for_user of session_store.py takes away.
use Prim.Native.String.{String}
use text.Mathlib.Text.{◌==◌ as str_eq}
use text.Mathlib.TextEquality.{eq_iff}
use ai_trading_backend.Common.{
  ℕ, suc, ◌≡◌, refl, sym, ap, ◌∙◌, true, false, ◌||◌, none, some, List, [], ◌∷◌, leb, arith,
  if◌then◌else◌, Bool-cases, inl, inr,
}
use ai_trading_backend.Sessions.Redis.{Redis, contains}
use ai_trading_backend.Sessions.Index.{covers, contains-covers}
use ai_trading_backend.Sessions.Store.{
  Limits, Json, union, or_nothing, is_empty, delete_keys, collect_sids,
  delete_all_sessions_for_user,
}

contains-union :
    (k : String) (xs ys : List String) → contains k (union xs ys) ≡ (contains k xs || contains k ys)
contains-union k [] ys = refl
contains-union k (x ∷ xs) ys = elim (Bool-cases (contains x (union xs ys))) [
  | inl e ↦ rw e (elim (Bool-cases (str_eq x k)) [
    | inl m ↦
        let same : x ≡ k = ground (arith, eq_iff x k) in
        rw m (sym (ap (λ z. contains z (union xs ys)) same) ∙ e)
    | inr m ↦ rw m (contains-union k xs ys)
  ])
  | inr e ↦ rw (e, contains-union k xs ys) (ground arith)
]

contains-is_empty :
    (k : String) (sids : List String) → contains k sids ≡ true → is_empty sids ≡ false
contains-is_empty k [] held = sym held
contains-is_empty k (x ∷ sids) held = refl

contains-nothing :
    (k : String) (sids : List String) → is_empty sids ≡ true → contains k sids ≡ false
contains-nothing k [] e = refl
contains-nothing k (x ∷ sids) e = cc

module _ {Text : Type 0} (r : Redis Text) (json : Json Text) (limits : Limits) where
  open r use {
    S, view, get_view, delete_key, purge, delete_set, delete_index, smembers, zrangebyscore,
    delete_key_law, delete_set_law, delete_index_law, purge_law, zrangebyscore_law,
  }

  delete_keys-value :
      (sids : List String) (k : String) (t : ℕ) (s : S)
      → (view (delete_keys r json limits sids s)).value k t
        ≡ (if contains k sids then none else (view s).value k t)
  unfolding delete_keys
  delete_keys-value [] k t s = refl
  delete_keys-value (sid ∷ sids) k t s =
      rw (delete_keys-value sids k t (delete_key sid s), delete_key_law sid s)
        (ground (arith, eq_iff k sid, eq_iff sid k))

  delete_keys-index :
      (sids : List String) (s : S)
      → (view (delete_keys r json limits sids s)).index ≡ (view s).index
  unfolding delete_keys
  delete_keys-index [] s = refl
  delete_keys-index (sid ∷ sids) s =
      rw (delete_keys-index sids (delete_key sid s), delete_key_law sid s) refl

  -- A session that is in the index at `now` or after it is collected, when the index can be read.
  pub collect_sids-covers :
      (scan : String → ℕ → S → List String) (user : String) (now t : ℕ) (k : String) (s : S)
      (active : List String)
      → zrangebyscore user now s ≡ some active
      → leb now t ≡ true
      → covers t k ((view s).index user) ≡ true
      → contains k (collect_sids r json limits scan user now s) ≡ true
  unfolding collect_sids
  collect_sids-covers scan user now t k s active answered after listed =
      let read = or_nothing (smembers user s) in
      let held : contains k active ≡ true =
        rw (zrangebyscore_law user now s answered)
          (contains-covers t now k ((view s).index user) after listed) in
      let found : contains k (union read (or_nothing (zrangebyscore user now s))) ≡ true =
        rw (contains-union k read (or_nothing (zrangebyscore user now s)), answered, held)
          (ground arith) in
      rw (contains-is_empty k (union read (or_nothing (zrangebyscore user now s))) found) found

  pub delete_all-value :
      (scan : String → ℕ → S → List String) (user : String) (now t : ℕ) (k : String) (s : S)
      → (view (delete_all_sessions_for_user r json limits scan user now s).0).value k t ≡ (
          if contains k (collect_sids r json limits scan user now s)
          then none
          else (view s).value k t)
  unfolding delete_all_sessions_for_user
  delete_all-value scan user now t k s =
      let sids = collect_sids r json limits scan user now s in
      let kept = delete_set user (delete_keys r json limits sids s) in
      elim (Bool-cases (is_empty sids)) [
        | inl e ↦
            rw
              (
                e,
                contains-nothing k sids e,
                purge_law user (suc now) (delete_index user (delete_set user s)),
                delete_index_law user (delete_set user s),
                delete_set_law user s,
              )
              refl
        | inr e ↦
            rw
              (
                e,
                delete_index_law user kept,
                delete_set_law user (delete_keys r json limits sids s),
              )
              (delete_keys-value sids k t s)
      ]

  pub delete_all-index :
      (scan : String → ℕ → S → List String) (user other : String) (now : ℕ) (s : S)
      → str_eq other user ≡ false
      → (view (delete_all_sessions_for_user r json limits scan user now s).0).index other
        ≡ (view s).index other
  unfolding delete_all_sessions_for_user
  delete_all-index scan user other now s differ =
      let sids = collect_sids r json limits scan user now s in
      let kept = delete_set user (delete_keys r json limits sids s) in
      elim (Bool-cases (is_empty sids)) [
        | inl e ↦
            rw
              (
                e,
                purge_law user (suc now) (delete_index user (delete_set user s)),
                delete_index_law user (delete_set user s),
                delete_set_law user s,
                differ,
              )
              refl
        | inr e ↦
            rw
              (
                e,
                delete_index_law user kept,
                delete_set_law user (delete_keys r json limits sids s),
                differ,
                delete_keys-index sids s,
              )
              refl
      ]
