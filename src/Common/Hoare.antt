-- ===== src/Common/Hoare.antt =====
-- What a computation with exceptions leaves: where it returns, and however it ends.
use ai_trading_backend.Common.{◌≡◌, refl, Bool, true, false, Option, none, some, if◌then◌else◌}
use mathlib.Core.Option.{none-ne-some, some-injective}
use mathlib.Core.Path.{subst}
use ai_trading_backend.Common.Errors.{M, then_at, recover_at, ◌>>=◌, return, fail, try_except}

module _ {S : Type 0} where
  -- Run where `P` holds, it leaves `Q` with its result.
  pub record Leaves {A : Type 0} (P : S → Type 0) (m : M S A) (Q : A → S → Type 0) : Type 0 where
    pub run : (s : S) → P s → (a : A) → (m s).1 ≡ some a → Q a (m s).0

  then_at-Leaves :
      {A B : Type 0} (Q : A → S → Type 0) (R : B → S → Type 0) (f : A → M S B) (p : S × Option A)
      → ((a : A) → p.1 ≡ some a → Q a p.0)
      → ((a : A) → Leaves (Q a) (f a) R)
      → (b : B) → (then_at f p).1 ≡ some b
      → R b (then_at f p).0
  then_at-Leaves Q R f (s, none) h k b e = absurd (none-ne-some _ e)
  then_at-Leaves Q R f (s, some a) h k b e = (k a).run s (h a refl) b e

  pub >>=-Leaves :
      {A B : Type 0} (P : S → Type 0) (Q : A → S → Type 0) (R : B → S → Type 0) (m : M S A)
      (f : A → M S B)
      → Leaves P m Q
      → ((a : A) → Leaves (Q a) (f a) R)
      → Leaves P (m >>= f) R
  unfolding ◌>>=◌
  >>=-Leaves P Q R m f h k = record {
    run = λ s ready. then_at-Leaves Q R f (m s) (h.run s ready) k;
  }

  pub return-Leaves :
      {A : Type 0} (P : S → Type 0) (Q : A → S → Type 0) (a : A)
      → ((s : S) → P s → Q a s)
      → Leaves P (return a) Q
  unfolding return
  return-Leaves P Q a h = record {
    run = λ s ready b e. subst (λ x. Q x s) (some-injective a b e) (h s ready);
  }

  pub fail-Leaves : {A : Type 0} (P : S → Type 0) (Q : A → S → Type 0) → Leaves P (fail {A = A}) Q
  unfolding fail
  fail-Leaves P Q = record { run = λ s ready a e. absurd (none-ne-some _ e) }

  pub if-Leaves :
      {A : Type 0} (P : S → Type 0) (b : Bool) (m n : M S A) (Q : A → S → Type 0)
      → (b ≡ true → Leaves P m Q)
      → (b ≡ false → Leaves P n Q)
      → Leaves P (if b then m else n) Q
  if-Leaves P true m n Q h k = h refl
  if-Leaves P false m n Q h k = k refl

  pub before-Leaves :
      {A : Type 0} (P P' : S → Type 0) (m : M S A) (Q : A → S → Type 0)
      → ((s : S) → P s → P' s)
      → Leaves P' m Q
      → Leaves P m Q
  before-Leaves P P' m Q h k = record { run = λ s ready. k.run s (h s ready) }

  -- However it ends, the state after it is one that `R` allows after the state before it.
  pub record Moves (R : S → S → Type 0) {A : Type 0} (m : M S A) : Type 0 where
    pub move : (s : S) → R s (m s).0

  -- What such a move keeps, the computation keeps.
  pub Moves-Leaves :
      {A : Type 0} (R : S → S → Type 0) (P : S → Type 0) (m : M S A)
      → ((s t : S) → R s t → P s → P t)
      → Moves R m
      → Leaves P m (λ a t. P t)
  Moves-Leaves R P m h k = record { run = λ s ready a e. h s _ (k.move s) ready }

  module _ (R : S → S → Type 0) (R-refl : (s : S) → R s s)
      (R-trans : (s t u : S) → R s t → R t u → R s u) where
    then_at-Moves :
        {A B : Type 0} (s : S) (f : A → M S B) (p : S × Option A)
        → R s p.0
        → ((a : A) → Moves R (f a))
        → R s (then_at f p).0
    then_at-Moves s f (t, none) h k = h
    then_at-Moves s f (t, some a) h k = R-trans s t _ h ((k a).move t)

    pub >>=-Moves :
        {A B : Type 0} (m : M S A) (f : A → M S B)
        → Moves R m
        → ((a : A) → Moves R (f a))
        → Moves R (m >>= f)
    unfolding ◌>>=◌
    >>=-Moves m f h k = record { move = λ s. then_at-Moves s f (m s) (h.move s) k }

    pub return-Moves : {A : Type 0} (a : A) → Moves R (return a)
    unfolding return
    return-Moves a = record { move = λ s. R-refl s }

    pub fail-Moves : {A : Type 0} → Moves R (fail {A = A})
    unfolding fail
    fail-Moves = record { move = λ s. R-refl s }

    pub if-Moves :
        {A : Type 0} (b : Bool) (m n : M S A) → Moves R m → Moves R n → Moves R (if b then m else n)
    if-Moves true m n h k = h
    if-Moves false m n h k = k

    recover_at-Moves :
        {A : Type 0} (s : S) (handler : M S A) (p : S × Option A)
        → R s p.0
        → Moves R handler
        → R s (recover_at handler p).0
    recover_at-Moves s handler (t, none) h k = R-trans s t _ h (k.move t)
    recover_at-Moves s handler (t, some a) h k = h

    pub try_except-Moves :
        {A : Type 0} (body handler : M S A)
        → Moves R body
        → Moves R handler
        → Moves R (try_except body handler)
    unfolding try_except
    try_except-Moves body handler h k = record {
      move = λ s. recover_at-Moves s handler (body s) (h.move s) k;
    }
