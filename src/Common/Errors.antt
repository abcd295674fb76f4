-- ===== src/Common/Errors.antt =====
-- Computations with a state and exceptions, as the database clients have them; an error has no text.
use ai_trading_backend.Common.{Option, none, some}

-- A computation with state and exceptions, which keep the state.
abbrev pub M : Type 0 → Type 0 → Type 0
M S A = S → S × Option A

abbrev pub then_at : {S A B : Type 0} → (A → M S B) → S × Option A → S × Option B
then_at f (s, none) = (s, none)
then_at f (s, some a) = f a s

infixl 5 ◌>>=◌ ◌>>◌
unfoldable pub ◌>>=◌ : {S A B : Type 0} → M S A → (A → M S B) → M S B
◌>>=◌ m f s = then_at f (m s)

abbrev pub ◌>>◌ : {S B : Type 0} → M S (Unit {0}) → M S B → M S B
m >> k = m >>= λ _. k

unfoldable pub return : {S A : Type 0} → A → M S A
return a s = (s, some a)

-- `raise`
unfoldable pub fail : {S A : Type 0} → M S A
fail s = (s, none)

-- `try … except Exception`
abbrev pub recover_at : {S A : Type 0} → M S A → S × Option A → S × Option A
recover_at handler (s, none) = handler s
recover_at handler (s, some a) = (s, some a)

unfoldable pub try_except : {S A : Type 0} → M S A → M S A → M S A
try_except body handler s = recover_at handler (body s)
