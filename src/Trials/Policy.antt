-- ===== src/Trials/Policy.antt =====
-- api-web/app/authn/trial_policy.py, and the lines of auth_exchange in authn/routes.py that apply it.
-- Python's text functions, sha256 and ipaddress are a parameter.
use Prim.Native.String.{String, ◌++◌ as str_append}
use text.Mathlib.Text.{◌==◌ as str_eq}
use ai_trading_backend.Common.{
  ℕ, Bool, true, false, not, ◌&&◌, ◌==◌, Option, none, some, List, [], ◌∷◌, leb, length, take,
  if◌then◌else◌,
}
use ai_trading_backend.Common.Errors.{M, ◌>>=◌, ◌>>◌, return, fail}
use ai_trading_backend.Trials.Database.{
  Body, invalid, no_list, rows, Reply, request_error, answered, Trial, Device, has_rows, Database,
}

-- An address: its version, its text at the dots, and its exploded text at the colons.
pub record Address : Type 0 where
  pub version : ℕ
  pub parts : List String
  pub groups : List String

pub record Platform : Type 0 where
  pub strip : String → String
  pub lower : String → String
  pub sha256_hex : String → String
  pub ip_address : String → Option Address

-- SUPABASE_URL and SUPABASE_ADMIN_KEY
pub record Credentials : Type 0 where
  pub supabase_url : Option String
  pub supabase_admin_key : Option String

pub record TrialPolicyOutcome : Type 0 where
  pub trial_allowed : Bool
  pub reason : String
  pub device_id_hash : Option String
  pub had_active_trial : Bool

-- What a request to exchange a token brings: the fields that the policy reads.
pub record Exchange : Type 0 where
  pub user_id : String
  pub body_device_id : Option String
  pub header_value : Option String
  pub user_agent : String
  pub ip_address : String

abbrev is_set : Option String → Bool
is_set none = false
is_set (some text) = not (str_eq text "")

-- `text or None`
abbrev or_none : String → Option String
or_none text = if str_eq text "" then none else some text

abbrev join : String → List String → String
join separator [] = ""
join separator (text ∷ []) = text
join separator (text ∷ next ∷ texts) =
    str_append text (str_append separator (join separator (next ∷ texts)))

abbrev first_trial : List (Option Trial) → Option Trial
first_trial [] = none
first_trial (row ∷ more) = row

abbrev prefix_of : Option Address → String
prefix_of none = ""
prefix_of (some ip) =
    if ip.version == 4
    then (if length ip.parts == 4 then join "." (take 3 ip.parts) else "")
    else join ":" (take 4 ip.groups)

module _ (platform : Platform) where
  open platform use {strip, lower, sha256_hex}

  -- `(value or "").strip()`
  abbrev stripped : Option String → String
  stripped none = strip ""
  stripped (some text) = strip text

  abbrev pub body_device : Option String → String
  body_device none = ""
  body_device (some raw) = strip raw

  unfoldable pub extract_device_id : Option String → Option String → String
  extract_device_id device_id header_value =
      let header_device = stripped header_value in
      if str_eq header_device "" then body_device device_id else header_device

  unfoldable pub hash_device_id : String → String
  hash_device_id device_id =
      let normalized = lower (strip device_id) in
      if str_eq normalized "" then "" else sha256_hex normalized

  unfoldable pub hash_user_agent : String → String
  hash_user_agent user_agent =
      let normalized = strip user_agent in
      if str_eq normalized "" then "" else sha256_hex normalized

  unfoldable pub ip_prefix : String → String
  ip_prefix address =
      let raw = strip address in
      if str_eq raw "" then "" else prefix_of (Platform.ip_address platform raw)

  unfoldable pub is_same_email_reclaim_trial : Option Trial → Bool
  is_same_email_reclaim_trial none = false
  is_same_email_reclaim_trial (some trial) = elim trial.trial_source [
    | none ↦ false
    | some source ↦ str_eq (lower (strip source)) "same_email_reclaim_resume"
  ]

abbrev pub checked : {S A : Type 0} → S × Reply A → S × Option (Body A)
checked (s, request_error) = (s, none)
checked (s, answered code json) = (s, if leb 400 code then none else some json)

-- A request whose failure, and whose status code from 400 on, raises a TrialPolicyError.
unfoldable pub send : {S A : Type 0} → (S → S × Reply A) → M S (Body A)
send ask s = checked (ask s)

module _ (platform : Platform) (settings : Credentials) (db : Database) where
  open db use {S, get_trials, insert_device, get_devices, expire_trials}

  -- `_rest_url` and `_base_headers` raise where a setting is missing.
  unfoldable pub configured : M S (Unit {0})
  configured =
      if is_set settings.supabase_url && is_set settings.supabase_admin_key then return tt else fail

  abbrev pub first_active : Body Trial → M S (Option Trial)
  first_active invalid = fail
  first_active no_list = return none
  first_active (rows found) = return (first_trial found)

  unfoldable pub get_active_trial_subscription : String → M S (Option Trial)
  get_active_trial_subscription user_id = configured >> send (get_trials user_id) >>= first_active

  unfoldable pub mark_device_trial_first_use : String → String → String → String → M S Bool
  mark_device_trial_first_use device_id_hash user_id user_agent address =
      let device : Device = record {
        device_id_hash = device_id_hash;
        first_user_id = user_id;
        ip_prefix = or_none (ip_prefix platform address);
        ua_hash = or_none (hash_user_agent platform user_agent);
      } in
      configured >> send (insert_device device) >>= λ result. return (has_rows result)

  unfoldable pub device_belongs_to_current_user : String → String → M S Bool
  device_belongs_to_current_user device_id_hash user_id =
      configured >> send (get_devices device_id_hash user_id) >>= λ payload.
      return (has_rows payload)

  unfoldable pub disable_trial_entitlement : String → M S (Unit {0})
  disable_trial_entitlement user_id =
      configured >> send (expire_trials user_id) >>= λ payload. return tt

  abbrev pub judged : Bool → String → String → M S TrialPolicyOutcome
  judged trial_allowed reason device_hash = return (record {
    trial_allowed = trial_allowed;
    reason = reason;
    device_id_hash = some device_hash;
    had_active_trial = true;
  })

  -- What is left to do for a device that was there already.
  unfoldable pub decide_known_device : String → String → Option Trial → M S TrialPolicyOutcome
  decide_known_device user_id device_hash active_trial =
      device_belongs_to_current_user device_hash user_id >>= λ same_user.
      if same_user
      then judged true "allow_same_user_device_resumption" device_hash
      else if is_same_email_reclaim_trial platform active_trial
      then judged true "allow_same_email_reclaim" device_hash
      else (disable_trial_entitlement user_id >> judged false "deny_same_device" device_hash)

  unfoldable pub decide_trial :
      String → String → String → String → Option Trial → M S TrialPolicyOutcome
  decide_trial user_id device_hash user_agent address none = return (record {
    trial_allowed = true;
    reason = "skip_no_active_trial";
    device_id_hash = some device_hash;
    had_active_trial = false;
  })
  decide_trial user_id device_hash user_agent address (some trial) =
      mark_device_trial_first_use device_hash user_id user_agent address >>= λ first_use.
      if first_use
      then judged true "allow_first_device_trial" device_hash
      else decide_known_device user_id device_hash (some trial)

  unfoldable pub apply_trial_policy_for_exchange :
      String → String → String → String → M S TrialPolicyOutcome
  apply_trial_policy_for_exchange user_id device_id user_agent address =
      let device_hash = hash_device_id platform device_id in
      if str_eq device_hash ""
      then return (record {
        trial_allowed = true;
        reason = "skip_no_device_id";
        device_id_hash = none;
        had_active_trial = false;
      })
      else (get_active_trial_subscription user_id
          >>= decide_trial user_id device_hash user_agent address)

  -- The policy in `auth_exchange`, where an error leaves no outcome.
  unfoldable pub apply_in_exchange : Exchange → M S TrialPolicyOutcome
  apply_in_exchange e =
      apply_trial_policy_for_exchange e.user_id
        (extract_device_id platform e.body_device_id e.header_value) e.user_agent e.ip_address

abbrev pub skip_cached_perms : Option TrialPolicyOutcome → Bool
skip_cached_perms none = false
skip_cached_perms (some o) = o.had_active_trial && not o.trial_allowed
