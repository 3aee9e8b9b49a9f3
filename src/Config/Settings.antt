-- ===== src/Config/Settings.antt =====
-- The loading of a configuration: `Load`, `validate` and `validateDatasetID` of
-- internal/config/config.go. What the YAML decoder gives, the defaults included, is a record of texts
-- and numbers; an absent `validity_until`, `transfer_sequence` or `require_auth` is `none`. URL
-- parsing, the parsing of numbers and durations, and `os.Stat` stand as the fields of a record.
use dataspace_in_a_box.Base.{
  ℕ, String, Bool, true, false, not, ◌&&◌, Option, none, some, List, [], ◌∷◌, ◌==◌, ltb, contains,
  if◌then◌else◌,
}
use dataspace_in_a_box.Range.{codes}
use dataspace_in_a_box.Auth.Roster.{contains_any, ends_in}

-- An int64: `negsuc n` is -(n + 1).
pub data ℤ : Type 0 where
  pos negsuc : ℕ → ℤ

pub record DatasetSettings : Type 0 where
  pub id : String
  pub validity_until : Option ℕ
  pub source_file : String
  pub terminate_on_verify : Bool
  pub transfer_sequence : Option (List String)
  pub simulate_interrupt_after_bytes : ℤ

pub record ConsumerPolicySettings : Type 0 where
  pub dataset_id : String
  pub on_offer : String
  pub on_agreement : String
  pub on_idle : String

pub record TransferPolicySettings : Type 0 where
  pub agreement_id : String
  pub sequence : List String

pub record ConsumerTransferPolicySettings : Type 0 where
  pub agreement_id : String
  pub after : String
  pub sequence : List String

pub record Settings : Type 0 where
  pub public_url : String
  pub dsp_addr : String
  pub mgmt_addr : String
  pub mgmt_token : String
  pub participant_id : String
  pub data_dir : String
  pub dev_mode : Bool
  pub data_idle_timeout : ℤ
  pub max_download_bytes : ℤ
  pub datasets : List DatasetSettings
  pub consumer_policies : List ConsumerPolicySettings
  pub transfer_policies : List TransferPolicySettings
  pub consumer_transfer_policies : List ConsumerTransferPolicySettings
  pub participant_key : String
  pub roster : String
  pub roster_signer : String
  pub require_auth : Option Bool

pub record PublicUrl : Type 0 where
  pub scheme : String
  pub host : String

-- `stat` answers whether a file is a directory, and `none` for an error. The length of a text is that
-- of its bytes.
pub record Surroundings : Type 0 where
  pub parse_url : String → Option PublicUrl
  pub parse_int : String → Option ℤ
  pub parse_duration : String → Option ℤ
  pub stat : String → Option Bool
  pub getenv : String → String
  pub byte_length : String → ℕ

pub data SettingsError : Type 0 where
  undecodable bad_variable : SettingsError
  no_public_url bad_public_url relative_public_url insecure_public_url trailing_slash :
      SettingsError
  no_participant_id no_dataset_id bad_dataset_id bad_source_file duplicate_dataset : SettingsError
  no_policy_dataset bad_on_offer bad_on_agreement bad_on_idle : SettingsError
  no_policy_agreement bad_transfer_state bad_after negative_interrupt : SettingsError
  unauthenticated no_participant_key no_roster no_roster_signer : SettingsError
  no_data_dir short_token bad_idle_timeout bad_max_download_bytes : SettingsError

-- An error or nil.
abbrev pub Check : Type 0
Check = Option SettingsError

infixl 5 ◌>>◌
abbrev pub ◌>>◌ : Check → Check → Check
none >> k = k
some x >> k = some x

abbrev pub refuse_if : Bool → SettingsError → Check
refuse_if true x = some x
refuse_if false x = none

module _ {A : Type 0} where
  unfoldable pub check_each : (A → Check) → List A → Check
  check_each f [] = none
  check_each f (x ∷ xs) = do f x; check_each f xs

unfoldable pub requires_auth : Settings → Bool
requires_auth c = elim c.require_auth [ none ↦ true | some required ↦ required ]

abbrev pub offer_words : List String
offer_words = "accept" ∷ "passive" ∷ "reject" ∷ "counter" ∷ []

abbrev pub agreement_words : List String
agreement_words = "verify" ∷ "reject" ∷ []

abbrev pub idle_words : List String
idle_words = "wait" ∷ "abandon" ∷ []

abbrev pub state_words : List String
state_words = "STARTED" ∷ "SUSPENDED" ∷ "COMPLETED" ∷ "TERMINATED" ∷ []

abbrev pub after_words : List String
after_words = "REQUESTED" ∷ "STARTED" ∷ "SUSPENDED" ∷ []

-- Where a word may be left empty.
abbrev pub unlisted : List String → String → Bool
unlisted words word = not (word == "") && not (contains words word)

unfoldable pub check_state : String → Check
check_state word = refuse_if (not (contains state_words word)) bad_transfer_state

unfoldable pub check_scheme : Settings → String → Check
check_scheme c scheme =
    if scheme == "https"
    then none
    else if scheme == "http"
    then refuse_if (not c.dev_mode) insecure_public_url
    else some bad_public_url

unfoldable pub check_public_url : Surroundings → Settings → Check
check_public_url around c = elim (around.parse_url c.public_url) [
  | none ↦ some bad_public_url
  | some u ↦ do refuse_if (u.host == "") relative_public_url; check_scheme c u.scheme
]

unfoldable pub is_absolute : Option PublicUrl → Bool
is_absolute none = false
is_absolute (some u) = not (u.scheme == "")

unfoldable pub validate_dataset_id : Surroundings → String → Check
validate_dataset_id around id = do
  refuse_if (id == "") no_dataset_id
  refuse_if (not (is_absolute (around.parse_url id))) bad_dataset_id
  refuse_if (contains_any (codes id) (b'/' ∷ b'?' ∷ b'#' ∷ 32 ∷ 9 ∷ 10 ∷ [])) bad_dataset_id

unfoldable pub is_file : Option Bool → Bool
is_file none = false
is_file (some directory) = not directory

unfoldable pub check_source_file : Surroundings → String → Check
check_source_file around path =
    refuse_if (not (path == "") && not (is_file (around.stat path))) bad_source_file

-- The ids that came before are passed on.
unfoldable pub check_datasets : Surroundings → List String → List DatasetSettings → Check
check_datasets around seen [] = none
check_datasets around seen (d ∷ ds) = do
  validate_dataset_id around d.id
  check_source_file around d.source_file
  refuse_if (contains seen d.id) duplicate_dataset
  check_datasets around (d.id ∷ seen) ds

unfoldable pub check_consumer_policy : ConsumerPolicySettings → Check
check_consumer_policy p = do
  refuse_if (p.dataset_id == "") no_policy_dataset
  refuse_if (unlisted offer_words p.on_offer) bad_on_offer
  refuse_if (unlisted agreement_words p.on_agreement) bad_on_agreement
  refuse_if (unlisted idle_words p.on_idle) bad_on_idle

unfoldable pub check_transfer_policy : TransferPolicySettings → Check
check_transfer_policy p = do
  refuse_if (p.agreement_id == "") no_policy_agreement
  check_each check_state p.sequence

unfoldable pub is_negative : ℤ → Bool
is_negative (pos n) = false
is_negative (negsuc n) = true

unfoldable pub is_positive : ℤ → Bool
is_positive (pos n) = ltb 0 n
is_positive (negsuc n) = false

unfoldable pub states_of : Option (List String) → List String
states_of none = []
states_of (some states) = states

unfoldable pub check_dataset_transfer : DatasetSettings → Check
check_dataset_transfer d = do
  refuse_if (is_negative d.simulate_interrupt_after_bytes) negative_interrupt
  check_each check_state (states_of d.transfer_sequence)

unfoldable pub check_consumer_transfer_policy : ConsumerTransferPolicySettings → Check
check_consumer_transfer_policy p = do
  refuse_if (p.agreement_id == "") no_policy_agreement
  refuse_if (unlisted after_words p.after) bad_after
  check_each check_state p.sequence

unfoldable pub check_authentication : Settings → Check
check_authentication c =
    if requires_auth c
    then (do
      refuse_if (c.participant_key == "") no_participant_key
      refuse_if (c.roster == "") no_roster
      refuse_if (c.roster_signer == "") no_roster_signer)
    else none

abbrev pub min_mgmt_token_len : ℕ
min_mgmt_token_len = 16

unfoldable pub check_limits : Surroundings → Settings → Check
check_limits around c = do
  refuse_if (c.data_dir == "") no_data_dir
  refuse_if (not (c.mgmt_token == "") && ltb (around.byte_length c.mgmt_token) min_mgmt_token_len)
      short_token
  refuse_if (not (is_positive c.data_idle_timeout)) bad_idle_timeout
  refuse_if (not (is_positive c.max_download_bytes)) bad_max_download_bytes

unfoldable pub validate : Surroundings → Settings → Check
validate around c = do
  refuse_if (c.public_url == "") no_public_url
  check_public_url around c
  refuse_if (ends_in b'/' (codes c.public_url)) trailing_slash
  refuse_if (c.participant_id == "") no_participant_id
  check_datasets around [] c.datasets
  check_each check_consumer_policy c.consumer_policies
  check_each check_transfer_policy c.transfer_policies
  check_each check_dataset_transfer c.datasets
  check_each check_consumer_transfer_policy c.consumer_transfer_policies
  refuse_if (not (requires_auth c) && not c.dev_mode) unauthenticated
  check_authentication c
  check_limits around c

pub data Loading : Type 0 where
  loaded : Settings → Loading
  refused : SettingsError → Loading

unfoldable pub accept : Surroundings → Settings → Loading
accept around c = elim (validate around c) [ none ↦ loaded c | some x ↦ refused x ]

-- `if v := getenv(name); v != "" { field = v }`
unfoldable pub override : Surroundings → String → String → String
override around name value = let v = around.getenv name in if v == "" then value else v

unfoldable pub with_texts : Surroundings → Settings → Settings
with_texts around c = record c {
  public_url = override around "DSBOX_PUBLIC_URL" c.public_url;
  participant_id = override around "DSBOX_PARTICIPANT_ID" c.participant_id;
  data_dir = override around "DSBOX_DATA_DIR" c.data_dir;
  dsp_addr = override around "DSBOX_DSP_ADDR" c.dsp_addr;
  mgmt_addr = override around "DSBOX_MGMT_ADDR" c.mgmt_addr;
  participant_key = override around "DSBOX_PARTICIPANT_KEY" c.participant_key;
  roster = override around "DSBOX_ROSTER" c.roster;
  roster_signer = override around "DSBOX_ROSTER_SIGNER" c.roster_signer;
  mgmt_token = override around "DSBOX_MGMT_TOKEN" c.mgmt_token;
}

-- `strconv.ParseBool`
unfoldable pub parse_bool : String → Option Bool
parse_bool v =
    if contains ("1" ∷ "t" ∷ "T" ∷ "TRUE" ∷ "true" ∷ "True" ∷ []) v
    then some true
    else if contains ("0" ∷ "f" ∷ "F" ∷ "FALSE" ∷ "false" ∷ "False" ∷ []) v
    then some false
    else none

-- A variable that is set must parse.
unfoldable pub override_parsed : {A : Type 0} → (String → Option A) → String → A → Option A
override_parsed parse v value = if v == "" then some value else parse v

unfoldable pub with_limits : Settings → Option Bool → Option ℤ → Option ℤ → Option Settings
with_limits c (some mode) (some idle) (some max) =
    some (record c { dev_mode = mode; data_idle_timeout = idle; max_download_bytes = max })
with_limits c mode idle max = none

unfoldable pub with_environment : Surroundings → Settings → Option Settings
with_environment around c =
    with_limits (with_texts around c)
      (override_parsed parse_bool (around.getenv "DSBOX_DEV_MODE") c.dev_mode)
      (override_parsed around.parse_duration (around.getenv "DSBOX_DATA_IDLE_TIMEOUT")
        c.data_idle_timeout)
      (override_parsed around.parse_int (around.getenv "DSBOX_MAX_DOWNLOAD_BYTES")
        c.max_download_bytes)

-- The decoded file, `none` where it does not decode.
unfoldable pub load : Surroundings → Option Settings → Loading
load around none = refused undecodable
load around (some c) = elim (with_environment around c) [
  | none ↦ refused bad_variable
  | some c' ↦ accept around c'
]
