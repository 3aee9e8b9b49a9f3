-- ===== src/Tests/Configurations.antt =====
-- Concrete configurations.
use dataspace_in_a_box.Base.{
  String, false, none, some, List, [], ◌∷◌, ◌==◌, ◌≡◌, refl, if◌then◌else◌,
}
use dataspace_in_a_box.Config.Settings.{
  pos, DatasetSettings, Settings, Surroundings, loaded, refused, load, accept, validate,
  with_environment, with_limits, with_texts, override, override_parsed, check_public_url,
  check_scheme, check_datasets, check_source_file, validate_dataset_id, check_each,
  check_consumer_policy, check_transfer_policy, check_dataset_transfer,
  check_consumer_transfer_policy, check_state, check_authentication, check_limits, requires_auth,
  is_absolute, is_file, is_negative, is_positive, states_of, bad_after, duplicate_dataset,
}
use dataspace_in_a_box.Auth.Roster.{ends_in, contains_any, is_byte_of}
use dataspace_in_a_box.Config.Loaded.{Sound, load-Sound}

abbrev around : (String → String) → Surroundings
around getenv = record {
  parse_url = λ url.
      if url == "urn:weather"
      then some (record { scheme = "urn"; host = "" })
      else some (record { scheme = "https"; host = "acme.example" });
  parse_int = λ v. none;
  parse_duration = λ v. none;
  stat = λ path. some false;
  getenv = getenv;
  byte_length = λ v. 20;
}

-- Only the address of the management API is set.
abbrev address_set : String → String
address_set name = if name == "DSBOX_MGMT_ADDR" then "127.0.0.1:9000" else ""

abbrev weather : DatasetSettings
weather = record {
  id = "urn:weather";
  validity_until = none;
  source_file = "weather.csv";
  terminate_on_verify = false;
  transfer_sequence = some ("STARTED" ∷ "COMPLETED" ∷ []);
  simulate_interrupt_after_bytes = pos 0;
}

abbrev file : String → List DatasetSettings → String → Settings
file mgmt_addr datasets after = record {
  public_url = "https://acme.example";
  dsp_addr = "0.0.0.0:8080";
  mgmt_addr = mgmt_addr;
  mgmt_token = "correct horse battery";
  participant_id = "acme";
  data_dir = "data";
  dev_mode = false;
  data_idle_timeout = pos 60000000000;
  max_download_bytes = pos 8589934592;
  datasets = datasets;
  consumer_policies =
      record { dataset_id = "urn:roads"; on_offer = "counter"; on_agreement = ""; on_idle = "wait" }
      ∷ [];
  transfer_policies = record { agreement_id = "a1"; sequence = "STARTED" ∷ "SUSPENDED" ∷ [] } ∷ [];
  consumer_transfer_policies =
      record { agreement_id = "a2"; after = after; sequence = "TERMINATED" ∷ [] } ∷ [];
  participant_key = "key.pem";
  roster = "roster.json";
  roster_signer = "signer";
  require_auth = none;
}

abbrev address : String
address = "127.0.0.1:9000"

file_loads :
    load (around address_set) (some (file "127.0.0.1:8081" (weather ∷ []) "REQUESTED"))
    ≡ loaded (file address (weather ∷ []) "REQUESTED")
unfolding load accept validate with_environment with_limits with_texts override override_parsed
    check_public_url check_scheme check_datasets check_source_file validate_dataset_id check_each
    check_consumer_policy check_transfer_policy check_dataset_transfer
    check_consumer_transfer_policy check_state check_authentication check_limits requires_auth
    is_absolute is_file is_negative is_positive states_of ends_in contains_any is_byte_of
file_loads = refl

-- A sequence that waits for an end of the transfer does not load, nor does a list that repeats an id.
file_refused :
    load (around address_set) (some (file "" (weather ∷ []) "COMPLETED")) ≡ refused bad_after
unfolding load accept validate with_environment with_limits with_texts override override_parsed
    check_public_url check_scheme check_datasets check_source_file validate_dataset_id check_each
    check_consumer_policy check_transfer_policy check_dataset_transfer
    check_consumer_transfer_policy check_state is_absolute is_file is_negative states_of ends_in
    contains_any is_byte_of
file_refused = refl

list_refused :
    load (around address_set) (some (file "" (weather ∷ weather ∷ []) ""))
    ≡ refused duplicate_dataset
unfolding load accept validate with_environment with_limits with_texts override override_parsed
    check_public_url check_scheme check_datasets check_source_file validate_dataset_id is_absolute
    is_file ends_in contains_any is_byte_of
list_refused = refl

load-Sound_example : Sound (around address_set) (file address (weather ∷ []) "REQUESTED")
load-Sound_example =
    load-Sound (around address_set) (some (file "127.0.0.1:8081" (weather ∷ []) "REQUESTED"))
      (file address (weather ∷ []) "REQUESTED") file_loads
