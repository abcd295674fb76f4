-- ===== src/Trials/Database.antt =====
-- What trial_policy.py requests of the database over HTTP, and what it relies on: the tables
-- device_trials and user_subscriptions, which other workers change as well.
use Prim.Native.String.{String}
use ai_trading_backend.Common.{ℕ, ◌≡◌, Bool, true, false, not, Option, some, List, [], ◌∷◌, leb}

-- A body: not JSON, JSON that is no list, or a list, where an element that is no object is `none`.
pub data Body (A : Type 0) : Type 0 where
  invalid no_list : Body A
  rows : List (Option A) → Body A

-- What `client.get`, `post` or `patch` comes to: an httpx.RequestError, or a status code and a body.
pub data Reply (A : Type 0) : Type 0 where
  request_error : Reply A
  answered : ℕ → Body A → Reply A

-- A row of user_subscriptions: `metadata.trial_source`, where it is a text.
pub record Trial : Type 0 where
  pub trial_source : Option String

-- A row of device_trials
pub record Device : Type 0 where
  pub device_id_hash : String
  pub first_user_id : String
  pub ip_prefix : Option String
  pub ua_hash : Option String

abbrev pub has_rows : {A : Type 0} → Body A → Bool
has_rows invalid = false
has_rows no_list = false
has_rows (rows []) = false
has_rows (rows (x ∷ xs)) = true

-- The status code is below 400.
abbrev pub is_accepted : {A : Type 0} → Reply A → Bool
is_accepted request_error = false
is_accepted (answered code json) = not (leb 400 code)

abbrev pub body : {A : Type 0} → Reply A → Body A
body request_error = invalid
body (answered code json) = json

pub record Database : Type 1 where
  pub S : Type 0
  -- The active trials of a user, the insertion of a device that leaves a row that is there as it is, the rows
  -- of a device and a user, and the end of a user's trials.
  pub get_trials : String → S → S × Reply Trial
  pub insert_device : Device → S → S × Reply Device
  pub get_devices : String → String → S → S × Reply Device
  pub expire_trials : String → S → S × Reply Trial
  -- The first user of the row with a hash, and whether a user is on a trial.
  pub first_user : S → String → Option String
  pub on_trial : S → String → Bool

-- No row of device_trials is changed or deleted.
abbrev pub Kept : (db : Database) → db.S → db.S → Type 0
Kept db s t =
    (hash user : String) → db.first_user s hash ≡ some user → db.first_user t hash ≡ some user

pub record IsLawful (db : Database) : Type 0 where
  pub get_trials-Kept : (u : String) (s : db.S) → Kept db s (db.get_trials u s).0
  pub insert_device-Kept : (d : Device) (s : db.S) → Kept db s (db.insert_device d s).0
  pub get_devices-Kept : (h u : String) (s : db.S) → Kept db s (db.get_devices h u s).0
  pub expire_trials-Kept : (u : String) (s : db.S) → Kept db s (db.expire_trials u s).0
  -- After an insertion the device has a row.
  pub insert_device-there :
      (d : Device) (s : db.S)
      → is_accepted (db.insert_device d s).1 ≡ true
      → (v : String) × (db.first_user (db.insert_device d s).0 d.device_id_hash ≡ some v)
  -- An insertion returns the row that it has made.
  pub insert_device-made :
      (d : Device) (s : db.S)
      → is_accepted (db.insert_device d s).1 ≡ true
      → has_rows (body (db.insert_device d s).1) ≡ true
      → db.first_user (db.insert_device d s).0 d.device_id_hash ≡ some d.first_user_id
  -- A read returns rows that match, and each that was there.
  pub get_devices-match :
      (h u : String) (s : db.S)
      → is_accepted (db.get_devices h u s).1 ≡ true
      → has_rows (body (db.get_devices h u s).1) ≡ true
      → db.first_user (db.get_devices h u s).0 h ≡ some u
  pub get_devices-there :
      (h u : String) (s : db.S)
      → db.first_user s h ≡ some u
      → is_accepted (db.get_devices h u s).1 ≡ true
      → has_rows (body (db.get_devices h u s).1) ≡ true
  -- An update reaches each row that matches.
  pub expire_trials-none :
      (u : String) (s : db.S)
      → is_accepted (db.expire_trials u s).1 ≡ true
      → db.on_trial (db.expire_trials u s).0 u ≡ false
