-- ===== src/Tests/Fixtures.antt =====
-- One connector with one dataset, rows in several states, and an environment without faults.
use dataspace_in_a_box.Base.{ℕ, List, refl, true, false, none, some, [], ◌∷◌}
use dataspace_in_a_box.Config.{Dataset, Config}
use dataspace_in_a_box.Store.Rows.{
  Negotiation, ConsumerNegotiation, Origin, Agreement, Store, empty_store,
}
use dataspace_in_a_box.Pull.Outcome.{Disk, Site, unanswered, idle}
use dataspace_in_a_box.Action.{Env, World}
use dataspace_in_a_box.Guarantee.{Rely}
use dataspace_in_a_box.Store.Evolution.{StoreEvolves-refl}
use dataspace_in_a_box.Store.Swap.{Undisturbed}
use dataspace_in_a_box.Envelope.{Request, context_url}
use dataspace_in_a_box.Initiate.{Connector}
use dataspace_in_a_box.Negotiation.State.{NegotiationState, requested}
use dataspace_in_a_box.Negotiation.Provider.{EnvelopeBody, RequestMessage}

abbrev pub weather : Dataset
weather = record {
  id = "weather";
  validity_until = some 1000;
  source_file = "/data/weather.csv";
  terminate_on_verify = false;
  transfer_sequence = none;
  simulate_interrupt_after_bytes = 0;
}

abbrev pub acme : Config
acme = record {
  participant_id = "acme";
  public_url = "https://acme.example";
  require_auth = none;
  data_dir = "/var/lib/acme";
  max_download_bytes = 100;
  datasets = weather ∷ [];
  consumer_policies = [];
  transfer_policies = [];
  consumer_transfer_policies = [];
}

abbrev pub connector : Connector
connector = record {
  cfg = acme;
  usable = true;
  known_participant = some (λ id. true);
  provider_address = some (λ id. some "https://bolt.example");
}

abbrev pub quiet : Env
quiet = record {
  others = λ k s. s;
  fails = λ k. false;
  now = λ k. k;
  uuid = λ k. some "urn:uuid:1";
  sendable = λ k url. true;
  delivered = λ k p. true;
  opened = λ k url. some "urn:uuid:2";
}

pub quiet-Rely : Rely quiet
quiet-Rely k s = StoreEvolves-refl s

pub quiet-Undisturbed : Undisturbed quiet
quiet-Undisturbed = record { alone = λ k s. refl; sound = λ k. refl }

-- The negotiation of the participant bolt, as the provider keeps it.
abbrev pub row : NegotiationState → Negotiation
row state = record {
  provider_pid = "p1";
  consumer_pid = "c1";
  state = state;
  dataset_id = "weather";
  offer_id = "weather#offer";
  callback_address = "https://bolt.example";
  rerequested = false;
  counterparty_id = "bolt";
  created_at = 1;
  updated_at = 1;
}

abbrev pub consumer_row : NegotiationState → ConsumerNegotiation
consumer_row state = record {
  consumer_pid = "p1";
  provider_pid = "q1";
  provider_base_url = "https://bolt.example";
  state = state;
  dataset_id = "weather";
  offer_id = "weather#offer";
  counterparty_id = "bolt";
  created_at = 1;
  updated_at = 1;
}

abbrev pub weather_agreement : Agreement
weather_agreement = record {
  agreement_id = "p1";
  dataset_id = "weather";
  consumer_pid = "c1";
  origin = Origin.negotiated;
  counterparty_id = "bolt";
  created_at = 2;
}

abbrev pub store_at : NegotiationState → Store
store_at state = record empty_store {
  negotiations = row state ∷ [];
  consumer_negotiations = [];
  agreements = weather_agreement ∷ [];
}

abbrev pub requested_store : Store
requested_store = record empty_store { negotiations = row requested ∷ [] }

abbrev pub consumer_store_at : NegotiationState → Store
consumer_store_at state = record empty_store { consumer_negotiations = consumer_row state ∷ [] }

abbrev pub world : Store → World
world s = record { tick = 0; store = s; replies = []; sent = []; spawned = [] }

abbrev pub from_bolt : Request
from_bolt = record { issuer = "bolt"; id = "p1" }

abbrev pub from_stranger : Request
from_stranger = record { issuer = "eve"; id = "p1" }

abbrev pub termination_body : EnvelopeBody
termination_body = record {
  context = context_url ∷ [];
  type = "ContractNegotiationTerminationMessage";
}

abbrev pub request_body : RequestMessage
request_body = record {
  context = context_url ∷ [];
  type = "ContractRequestMessage";
  consumer_pid = "c1";
  offer_id = "weather#offer";
  offer_target = "weather";
  callback_address = "https://bolt.example";
}

abbrev pub bytes : List ℕ
bytes = 104 ∷ 105 ∷ 10 ∷ []

abbrev pub no_download : Disk
no_download = record { partial = none; final = none }

-- A counterparty that does not answer, on a disk that works.
abbrev pub download_site : Site
download_site = record {
  in_flight = false;
  stats = true;
  makes_directory = true;
  builds = λ endpoint. true;
  mint = λ id. some "Bearer token";
  fetch = λ q. unanswered idle;
  removes = true;
  opens = true;
  room = none;
  syncs = true;
  closes = true;
  renames = true;
}
