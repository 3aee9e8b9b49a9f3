-- ===== src/Tests/Pulls.antt =====
-- Concrete uses of the theorems on the pull of data, and runs of it.
use dataspace_in_a_box.Base.{◌≡◌, refl, true, false, inr, none, some, [], ◌∷◌, arith}
use dataspace_in_a_box.Action.{ret}
use dataspace_in_a_box.Store.Rows.{ConsumerTransfer, Store, empty_store, consumer_transfer_key}
use dataspace_in_a_box.Store.Table.{find}
use dataspace_in_a_box.Transfer.State.{started}
use dataspace_in_a_box.Data.{serve_content}
use dataspace_in_a_box.Range.{
  Bytes, codes, parse_range_start, parse_content_range, cut_prefix, split_first, split_last,
  parse_int64, first_of,
}
use dataspace_in_a_box.Pull.Outcome.{Disk, Site, answered}
use dataspace_in_a_box.Pull.Run.{Pulled, pull, run_pull_transfer_data}
use dataspace_in_a_box.Pull.Described.{Described, pull-Described}
use dataspace_in_a_box.Pull.Recorded.{Recorded, run_pull_transfer_data-Recorded}
use dataspace_in_a_box.Pull.Finishing.{Works, Complete}
use dataspace_in_a_box.Pull.Exchange.{respond, pull-Complete}
use dataspace_in_a_box.Message.{DataAddress}
use dataspace_in_a_box.Tests.Fixtures.{acme, quiet, quiet-Rely, weather, world}

abbrev row : ConsumerTransfer
row = record {
  consumer_pid = "c7";
  provider_pid = "p7";
  provider_base_url = "https://bolt.example";
  agreement_id = "a1";
  format = "HttpData-PULL";
  state = started;
  counterparty_id = "bolt";
  expected_bytes = 5;
  received_bytes = 2;
  data_path = "";
  data_completed_at = none;
  data_error = "";
  created_at = 0;
  updated_at = 0;
}

abbrev store : Store
store = record empty_store { consumer_transfer_processes = row ∷ [] }

abbrev address : DataAddress
address = record {
  endpoint_type = "https://w3id.org/idsa/v4.1/HTTP";
  endpoint = "https://bolt.example/data/p7";
}

abbrev content : Bytes
content = codes "rainy"

-- Two bytes are there already.
abbrev disk : Disk
disk = record { partial = some (codes "ra"); final = none }

abbrev site : Site
site = record {
  in_flight = false;
  stats = true;
  makes_directory = true;
  builds = λ endpoint. true;
  mint = λ id. some "Bearer token";
  fetch = λ q. answered (
      respond content
        (serve_content weather (parse_range_start q.range) content quiet (world empty_store)).0);
  removes = true;
  opens = true;
  room = none;
  syncs = true;
  closes = true;
  renames = true;
}

site-Works : Works site address.endpoint row.counterparty_id
site-Works = record {
  stats = refl;
  makes_directory = refl;
  builds = refl;
  authorization = "Bearer token";
  mints = refl;
  opens = refl;
  room = refl;
  syncs = refl;
  closes = refl;
  renames = refl;
}

-- The second half may be a star, and then only the first byte is known.
content_range_unknown :
    parse_content_range (codes "bytes 7-119/*") ≡ record { first = some 7; complete = none }
unfolding parse_content_range cut_prefix split_last split_first first_of parse_int64
content_range_unknown = refl

pull-Described_example :
    (r : Pulled) × ((pull acme site row (some address) disk quiet (world store)).0 ≡ ret r)
    × Described acme site row disk r
pull-Described_example = pull-Described acme site row (some address) disk quiet (world store)

run_pull_transfer_data-Recorded_example :
    (r : Pulled) × Described acme site row disk r
    × ((run_pull_transfer_data acme site row (some address) disk quiet (world store)).0 ≡ ret r.1)
    × Recorded r (
        find consumer_transfer_key "c7"
          (run_pull_transfer_data acme site row
            (some address)
            disk
            quiet
            (world store)).1.store.consumer_transfer_processes)
unfolding find
run_pull_transfer_data-Recorded_example =
    run_pull_transfer_data-Recorded acme site row (some address) disk quiet (world store) quiet-Rely
      (λ k. refl) refl row refl

pull-Complete_example :
    (r : Pulled) × ((pull acme site row (some address) disk quiet (world store)).0 ≡ ret r)
    × Complete content r
pull-Complete_example =
    pull-Complete acme site row address site-Works content (omega arith) (omega arith) weather refl
      disk refl (omega arith) (inr refl) quiet (world empty_store) (λ q. refl) quiet (world store)
      refl refl
