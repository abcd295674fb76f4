-- ===== src/Trials/Memory.antt =====
-- The tables of Database.antt as functions, without other workers: they meet what trial_policy.py relies on.
use Prim.Native.String.{String}
use text.Mathlib.Text.{◌==◌ as str_eq}
use text.Mathlib.TextEquality.{eq_iff}
use mathlib.Core.Option.{none-ne-some}
use ai_trading_backend.Common.{
  ◌≡◌, refl, sym, ap, ◌∙◌, inl, inr, Bool, true, false, Option, none, some, [], ◌∷◌, if◌then◌else◌,
  Bool-cases, arith,
}
use ai_trading_backend.Trials.Database.{
  rows, Reply, answered, Trial, Device, has_rows, body, Database, Kept, IsLawful,
}

pub record Tables : Type 0 where
  pub first_users : String → Option String
  pub trials : String → Bool

abbrev pub put : {A : Type 0} → (String → A) → String → A → String → A
put f k v j = if str_eq j k then v else f j

abbrev one_if : {A : Type 0} → Bool → A → Reply A
one_if true a = answered 200 (rows (some a ∷ []))
one_if false a = answered 200 (rows [])

abbrev insert_by : Option String → Device → Tables → Tables × Reply Device
insert_by none d s = (
  record s { first_users = put s.first_users d.device_id_hash (some d.first_user_id) },
  answered 201 (rows (some d ∷ [])),
)
insert_by (some owner) d s = (s, answered 201 (rows []))

abbrev is_user : Option String → String → Bool
is_user none user = false
is_user (some owner) user = str_eq owner user

abbrev pub plain : Trial
plain = record { trial_source = none }

abbrev pub memory : Database
memory = record {
  S = Tables;
  get_trials = λ user s. (s, one_if (s.trials user) plain);
  insert_device = λ d s. insert_by (s.first_users d.device_id_hash) d s;
  get_devices = λ hash user s. (
    s,
    one_if (is_user (s.first_users hash) user)
        (record { device_id_hash = hash; first_user_id = user; ip_prefix = none; ua_hash = none }),
  );
  expire_trials = λ user s. (record s { trials = put s.trials user false }, answered 204 (rows []));
  first_user = λ s hash. s.first_users hash;
  on_trial = λ s user. s.trials user;
}

put-same : {A : Type 0} (f : String → A) (k : String) (v : A) → put f k v k ≡ v
put-same f k v = let same : str_eq k k ≡ true = ground (arith, eq_iff k k) in rw same refl

insert_by-Kept :
    (o : Option String) (d : Device) (s : Tables)
    → s.first_users d.device_id_hash ≡ o
    → Kept memory s (insert_by o d s).0
insert_by-Kept none d s absent hash user e = elim (Bool-cases (str_eq hash d.device_id_hash)) [
  | inl same ↦ absurd (
      none-ne-some user
        (sym absent ∙ ap s.first_users (sym ((eq_iff hash d.device_id_hash).0 same)) ∙ e))
  | inr other ↦ rw other e
]
insert_by-Kept (some owner) d s there hash user e = e

insert_by-there :
    (o : Option String) (d : Device) (s : Tables)
    → s.first_users d.device_id_hash ≡ o
    → (v : String) × ((insert_by o d s).0.first_users d.device_id_hash ≡ some v)
insert_by-there none d s absent =
    (d.first_user_id, put-same s.first_users d.device_id_hash (some d.first_user_id))
insert_by-there (some owner) d s there = (owner, there)

insert_by-made :
    (o : Option String) (d : Device) (s : Tables)
    → has_rows (body (insert_by o d s).1) ≡ true
    → (insert_by o d s).0.first_users d.device_id_hash ≡ some d.first_user_id
insert_by-made none d s made = put-same s.first_users d.device_id_hash (some d.first_user_id)
insert_by-made (some owner) d s made = absurd (ground arith)

one_if-rows : {A : Type 0} (b : Bool) (a : A) → has_rows (body (one_if b a)) ≡ b
one_if-rows true a = refl
one_if-rows false a = refl

is_user-owner : (o : Option String) (user : String) → is_user o user ≡ true → o ≡ some user
is_user-owner none user e = absurd (ground arith)
is_user-owner (some owner) user e = ap some ((eq_iff owner user).0 e)

is_user-same : (o : Option String) (user : String) → o ≡ some user → is_user o user ≡ true
is_user-same o user e = rw e (ground (arith, eq_iff user user))

pub memory-IsLawful : IsLawful memory
memory-IsLawful = record {
  get_trials-Kept = λ u s h v e. e;
  insert_device-Kept = λ d s. insert_by-Kept (s.first_users d.device_id_hash) d s refl;
  get_devices-Kept = λ h u s k v e. e;
  expire_trials-Kept = λ u s h v e. e;
  insert_device-there = λ d s accepted. insert_by-there (s.first_users d.device_id_hash) d s refl;
  insert_device-made =
      λ d s accepted made. insert_by-made (s.first_users d.device_id_hash) d s made;
  get_devices-match =
      λ h u s accepted found. is_user-owner (s.first_users h) u (sym (one_if-rows _ _) ∙ found);
  get_devices-there = λ h u s e accepted. one_if-rows _ _ ∙ is_user-same (s.first_users h) u e;
  expire_trials-none = λ u s accepted. put-same s.trials u false;
}
