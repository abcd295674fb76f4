-- ===== src/Sessions/Indexed.antt =====
-- The invariant of session_store.py's sorted index, on what can be read, and the commands that keep it.
use Prim.Native.String.{String}
use text.Mathlib.Text.{◌==◌ as str_eq}
use text.Mathlib.TextEquality.{eq_iff}
use ai_trading_backend.Common.{
  ℕ, suc, ◌+◌, ◌≡◌, refl, sym, ap, ◌∙◌, ◌⊎◌, Bool, true, false, Option, none, some, List, leb, ltb,
  arith, if◌then◌else◌, Bool-cases, inl, inr,
}
use ai_trading_backend.Sessions.Redis.{
  Scored, View, at_key, insert_scored, without, from_score, setex_view, zadd_view, zrem_view,
  purge_view, delete_session_view,
}
use ai_trading_backend.Sessions.Index.{
  covers, covers-insert_scored, covers-without, covers-from_score, at_key-same,
}
use ai_trading_backend.Sessions.Store.{Session, Json}

-- A value that is read where it may have been deleted.
pub read_unless :
    {Text : Type 0} (deleted : Bool) (x : Option Text) (raw : Text)
    → (if deleted then none else x) ≡ some raw
    → (deleted ≡ false) × (x ≡ some raw)
read_unless true x raw read = cc
read_unless false x raw read = (refl, read)

-- A value that is read where it may have been written.
read_written :
    {Text : Type 0} (written lives : Bool) (x : Option Text) (fresh raw : Text)
    → (if written then (if lives then some fresh else none) else x) ≡ some raw
    → (written ≡ true) × (lives ≡ true) × (fresh ≡ raw) ⊎ (written ≡ false) × (x ≡ some raw)
read_written true true x fresh raw read = inl (refl, refl, cc)
read_written true false x fresh raw read = cc
read_written false lives x fresh raw read = inr (refl, read)

-- A user's entry of a table, where the change at `changed` keeps the listing.
covers-at_key :
    (t : ℕ) (sid user changed : String) (xs : List Scored) (f : String → List Scored)
    → (covers t sid (f changed) ≡ true → covers t sid xs ≡ true)
    → covers t sid (f user) ≡ true
    → covers t sid (at_key changed xs f user) ≡ true
covers-at_key t sid user changed xs f kept listed = elim (Bool-cases (str_eq user changed)) [
  | inl e ↦
      let same : user ≡ changed = ground (arith, eq_iff user changed) in
      rw e (kept (sym (ap (λ u. covers t sid (f u)) same) ∙ listed))
  | inr e ↦ rw e listed
]

-- Listing a session again leaves what is listed of another.
covers-put_other :
    (t : ℕ) (k sid : String) (score : ℕ) (xs : List Scored)
    → str_eq k sid ≡ false
    → covers t k xs ≡ true
    → covers t k (insert_scored (sid, score) (without sid xs)) ≡ true
covers-put_other t k sid score xs other listed =
    let differ : str_eq sid k ≡ false = ground (arith, other, eq_iff k sid, eq_iff sid k) in
    rw
      (
        covers-insert_scored t k (sid, score) (without sid xs),
        covers-without t k sid xs differ,
        differ,
      )
      listed

-- A session that has just been listed.
covers-put_same :
    (t : ℕ) (k sid user : String) (score : ℕ) (xs : List Scored) (f : String → List Scored)
    → str_eq k sid ≡ true
    → leb t score ≡ true
    → covers t k (at_key user (insert_scored (sid, score) xs) f user) ≡ true
covers-put_same t k sid user score xs f same before =
    let agree : str_eq sid k ≡ true = ground (arith, same, eq_iff k sid, eq_iff sid k) in
    rw
      (
        at_key-same user (insert_scored (sid, score) xs) f,
        covers-insert_scored t k (sid, score) xs,
        agree,
        before,
      )
      refl

module _ {Text : Type 0} (json : Json Text) where
  open json use {dumps, loads, loads-dumps}

  -- What is loaded of a session that was dumped.
  loaded_fresh : (d d' : Session) (raw : Text) → dumps d ≡ raw → loads raw ≡ some d' → d ≡ d'
  loaded_fresh d d' raw fresh loaded = let back = loads-dumps d in let moved = ap loads fresh in cc

  -- Every session that can be read from now on, and has a user, is in the user's index, with a score
  -- that is not before the time it is read at.
  pub record Indexed (now : ℕ) (v : View Text) : Type 0 where
    pub listed :
        (t : ℕ) (sid : String) (raw : Text) (d : Session)
        → leb now t ≡ true
        → v.value sid t ≡ some raw
        → loads raw ≡ some d
        → str_eq d.user_id "" ≡ false
        → covers t sid (v.index d.user_id) ≡ true

  pub Indexed-later :
      (now later : ℕ) (v : View Text) → leb now later ≡ true → Indexed now v → Indexed later v
  Indexed-later now later v passed ok = record {
    listed = λ t sid raw d after. ok.listed t sid raw d (ground arith);
  }

  -- Fewer sessions, and the same index
  pub Indexed-delete_session_view :
      (now : ℕ) (gone : String) (v : View Text)
      → Indexed now v
      → Indexed now (delete_session_view gone v)
  Indexed-delete_session_view now gone v ok = record {
    listed = λ t sid raw d after read loaded named.
        ok.listed t sid raw d after (read_unless (str_eq sid gone) (v.value sid t) raw read).1
          loaded named;
  }

  -- The session is deleted and taken from one user's index.
  pub Indexed-dropped :
      (now : ℕ) (user gone : String) (v : View Text)
      → Indexed now v
      → Indexed now (zrem_view user gone (delete_session_view gone v))
  Indexed-dropped now user gone v ok = record {
    listed = λ t sid raw d after read loaded named.
        let kept = read_unless (str_eq sid gone) (v.value sid t) raw read in
        covers-at_key t sid d.user_id user (without gone (v.index user)) v.index
          (λ h.
            covers-without t sid gone (v.index user)
              (ground (arith, kept.0, eq_iff gone sid, eq_iff sid gone))
            ∙ h)
          (ok.listed t sid raw d after kept.1 loaded named);
  }

  pub Indexed-purge_view :
      (now : ℕ) (user : String) (v : View Text)
      → Indexed now v
      → Indexed now (purge_view user now v)
  Indexed-purge_view now user v ok = record {
    listed = λ t sid raw d after read loaded named.
        covers-at_key t sid d.user_id user (from_score now (v.index user)) v.index
          (λ h. covers-from_score t now sid (v.index user) after ∙ h)
          (ok.listed t sid raw d after read loaded named);
  }

  -- A value and its index entry are written together, and the value is there no longer than the entry
  -- says.
  pub Indexed-put :
      (now : ℕ) (sid : String) (ttl score : ℕ) (d : Session) (v : View Text)
      → leb (now + ttl) (suc score) ≡ true
      → Indexed now v
      → Indexed now (zadd_view d.user_id sid score (setex_view now sid ttl (dumps d) v))
  Indexed-put now sid ttl score d v bound ok = record {
    listed = λ t k raw d' after read loaded named.
        elim (read_written (str_eq k sid) (ltb t (now + ttl)) (v.value k t) (dumps d) raw read) [
          | inl (e, lives, fresh) ↦ rw (sym (loaded_fresh d d' raw fresh loaded)) (
              covers-put_same t k sid d.user_id score (without sid (v.index d.user_id)) v.index e
                (ground arith))
          | inr (e, old) ↦
              covers-at_key t k d'.user_id d.user_id
                (insert_scored (sid, score) (without sid (v.index d.user_id))) v.index
                (covers-put_other t k sid score (v.index d.user_id) e)
                (ok.listed t k raw d' after old loaded named)
        ];
  }

  pub Indexed-setex_view :
      (now : ℕ) (sid : String) (ttl : ℕ) (d : Session) (v : View Text)
      → str_eq d.user_id "" ≡ true
      → Indexed now v
      → Indexed now (setex_view now sid ttl (dumps d) v)
  Indexed-setex_view now sid ttl d v nobody ok = record {
    listed = λ t k raw d' after read loaded named.
        elim (read_written (str_eq k sid) (ltb t (now + ttl)) (v.value k t) (dumps d) raw read) [
          | inl (e, lives, fresh) ↦
              let same = ap (λ x. str_eq x.user_id "") (loaded_fresh d d' raw fresh loaded) in cc
          | inr (e, old) ↦ ok.listed t k raw d' after old loaded named
        ];
  }
