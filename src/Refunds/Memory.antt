-- ===== src/Refunds/Memory.antt =====
-- The tables that reward_revocation.py uses as lists, without other workers: they keep the laws.
use mathlib.Core.Path.{subst}
use mathlib.Core.Option.{some-injective}
use ai_trading_backend.Common.{
  In, ℕ, ◌≡◌, refl, inl, inr, Bool, true, some, List, [], ◌∷◌, All, if◌then◌else◌, Bool-cases,
}
use ai_trading_backend.Refunds.Rewards.{
  ReferralReward, PaidTransaction, RevocationAudit, update_rewards, here, Database, IsLawful,
}
use ai_trading_backend.Refunds.Table.{one, In-update}

pub record Tables : Type 0 where
  pub rows : List ReferralReward
  pub transactions : List PaidTransaction
  pub audits : List RevocationAudit
  pub clock : ℕ

abbrev changed :
    (ReferralReward → Bool)
    → (ReferralReward → ReferralReward)
    → List ReferralReward
    → List ReferralReward
changed matches f [] = []
changed matches f (r ∷ rows) =
    if matches r then f r ∷ changed matches f rows else changed matches f rows

abbrev pub memory : Database
memory = record {
  S = Tables;
  rewards = λ s. s.rows;
  Others = λ a b. ⊥;
  utc_now = λ s. s.clock;
  validate_uuid = λ text. some text;
  get_transactions = λ id s. (s, some s.transactions);
  get_rewards = λ f s. (s, some (changed f (λ r. r) s.rows));
  patch_rewards = λ matches f s.
      (record s { rows = update_rewards matches f s.rows }, some (changed matches f s.rows));
  insert_audit = λ a s. (record s { audits = a ∷ s.audits }, some tt);
}

changed-All :
    (P : ReferralReward → Type 0) (matches : ReferralReward → Bool)
    (f : ReferralReward → ReferralReward) (rows : List ReferralReward)
    → ((r : ReferralReward) → In r rows → matches r ≡ true → P (f r))
    → All P (changed matches f rows)
changed-All P matches f [] h = tt
changed-All P matches f (x ∷ rows) h =
    let rest = changed-All P matches f rows (λ r found. h r (inr found)) in
    elim (Bool-cases (matches x)) [ inl e ↦ rw e (h x (inl refl) e, rest) | inr e ↦ rw e rest ]

In-changed :
    (matches : ReferralReward → Bool) (f : ReferralReward → ReferralReward)
    (rows : List ReferralReward) (r : ReferralReward)
    → In r rows
    → matches r ≡ true
    → In (f r) (update_rewards matches f rows)
unfolding one
In-changed matches f rows r found e =
    let same : one matches f r ≡ f r = rw e refl in
    subst (λ y. In y (update_rewards matches f rows)) same (In-update matches f r rows found)

-- What is said of the rows of an answer that is known.
answered :
    (P : List ReferralReward → Type 0) (known : List ReferralReward) {found : List ReferralReward}
    → P known
    → some known ≡ some found
    → P found
answered P known {found} h e = subst P (some-injective known found e) h

pub memory-IsLawful : IsLawful memory
memory-IsLawful = record {
  get_transactions-Steps = λ id s. here;
  get_rewards-Steps = λ f s. here;
  insert_audit-Steps = λ a s. here;
  others-IsRevoked = λ a b id nothing h. absurd nothing;
  get_rewards-match = λ f s {rows} e.
      answered (All (λ r. (f r ≡ true) × In r s.rows)) _
        (changed-All _ f (λ r. r) s.rows (λ r there m. (m, there))) e;
  patch_rewards-Changed =
      λ matches f s. (s.rows, update_rewards matches f s.rows, here, inr refl, here);
  patch_rewards-match = λ matches f s {rows} e.
      answered
        (All (λ r'.
          (r : ReferralReward) × (matches r ≡ true)
          × (f r ≡ r')
          × In r' (update_rewards matches f s.rows)))
        _
        (changed-All _ matches f s.rows
          (λ r there m. (r, m, refl, In-changed matches f s.rows r there m)))
        e;
}
