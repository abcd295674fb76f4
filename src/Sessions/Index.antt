-- ===== src/Sessions/Index.antt =====
-- A user's sorted index, for session_store.py: which sessions it lists with an expiry at or after a
-- time, and what the commands on it do to that.
use Prim.Native.String.{String}
use text.Mathlib.Text.{◌==◌ as str_eq}
use text.Mathlib.TextEquality.{eq_iff}
use ai_trading_backend.Common.{
  ℕ, ◌≡◌, Bool, true, false, ◌&&◌, ◌||◌, List, [], ◌∷◌, map, leb, refl, arith, Bool-cases, inl, inr,
}
use ai_trading_backend.Sessions.Redis.{Scored, insert_scored, without, from_score, contains, at_key}

-- The index lists `sid` with a score of at least `t`.
abbrev pub covers : ℕ → String → List Scored → Bool
covers t sid [] = false
covers t sid (x ∷ xs) = (str_eq x.0 sid && leb t x.1) || covers t sid xs

-- Putting an entry in adds what it lists, wherever it goes.
pub covers-insert_scored :
    (t : ℕ) (sid : String) (x : Scored) (xs : List Scored)
    → covers t sid (insert_scored x xs) ≡ ((str_eq x.0 sid && leb t x.1) || covers t sid xs)
covers-insert_scored t sid x [] = refl
covers-insert_scored t sid x (y ∷ ys) = let ih = covers-insert_scored t sid x ys in ground arith

-- Taking a session out leaves what is listed of the others.
pub covers-without :
    (t : ℕ) (sid gone : String) (xs : List Scored)
    → str_eq gone sid ≡ false
    → covers t sid (without gone xs) ≡ covers t sid xs
covers-without t sid gone [] other = refl
covers-without t sid gone (x ∷ xs) other =
    let ih = covers-without t sid gone xs other in
    ground (arith, eq_iff x.0 sid, eq_iff x.0 gone, eq_iff gone sid)

-- A purge below `low` leaves what is listed at `low` or after it.
pub covers-from_score :
    (t low : ℕ) (sid : String) (xs : List Scored)
    → leb low t ≡ true
    → covers t sid (from_score low xs) ≡ covers t sid xs
covers-from_score t low sid [] later = refl
covers-from_score t low sid (x ∷ xs) later =
    let ih = covers-from_score t low sid xs later in ground arith

-- A range read from `low` on finds every session that is listed at `low` or after it.
pub contains-covers :
    (t low : ℕ) (sid : String) (xs : List Scored)
    → leb low t ≡ true
    → covers t sid xs ≡ true
    → contains sid (map (λ x. x.0) (from_score low xs)) ≡ true
contains-covers t low sid [] later listed = listed
contains-covers t low sid (x ∷ xs) later listed =
    let ih = contains-covers t low sid xs later in
    elim (Bool-cases (leb low x.1)) [ inl e ↦ rw e (ground arith) | inr e ↦ rw e (ground arith) ]

pub at_key-same {ℓ} :
    {A : Type ℓ} (user : String) (a : A) (f : String → A) → at_key user a f user ≡ a
at_key-same user a f = ground (arith, eq_iff user user)

pub at_key-other {ℓ} :
    {A : Type ℓ} (user other : String) (a : A) (f : String → A)
    → str_eq other user ≡ false
    → at_key user a f other ≡ f other
at_key-other user other a f e = rw e refl
