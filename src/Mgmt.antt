-- ===== src/Mgmt.antt =====
-- The management API of internal/mgmt/router.go: health, the bearer check, the import of an agreement
-- and the two lists. The text of a refusal is left out, and so is the limit on the size of a body: a
-- body that does not decode is `none`.
pub mod Import
pub mod Listing
use Prim.Native.Char.{code}
use dataspace_in_a_box.Base.{
  ℕ, String, Bool, true, false, not, ◌||◌, ◌&&◌, Option, none, some, List, [], ◌∷◌, ◌++◌, ◌==◌, ltb,
  if◌then◌else◌,
}
use dataspace_in_a_box.Range.{Bytes, same}
use dataspace_in_a_box.Message.{Reply, no_body}
use dataspace_in_a_box.Action.{
  Result, ok, err, Act, pure, return_now, db, time_now, write_reply, require, or_500, or_reply,
  ◌>>=◌, ◌>>◌,
}
use dataspace_in_a_box.Transfer.State.{TransferState}
use dataspace_in_a_box.Store.Rows.{
  Origin, imported, Agreement, TransferProcess, ConsumerTransfer, Store,
}
use dataspace_in_a_box.Store.Agreements.{get_agreement, create_agreement}
use dataspace_in_a_box.Auth.Middleware.{cut_fold}

abbrev pub bare : ℕ → Reply
bare status = record { status = status; body = no_body }

-- `rosterUsable` is nil with authentication off.
unfoldable pub health : Option Bool → Reply
health none = bare 200
health (some usable) = if usable then bare 200 else bare 503

unfoldable pub cut_bearer_prefix : String → Option String
cut_bearer_prefix header = cut_fold "Bearer " header

-- Whether the next handler serves the request; the answer is 401 where it does not. The comparison
-- in constant time is one of texts.
unfoldable pub presents : String → Option String → Bool
presents token none = false
presents token (some presented) = presented == token

unfoldable pub authenticated : String → String → Bool
authenticated token header = not (token == "") && presents token (cut_bearer_prefix header)

pub record ImportBody : Type 0 where
  pub agreement_id : String
  pub dataset_id : String
  pub counterparty_id : String

unfoldable pub is_found : Result (Option Agreement) → Bool
is_found (ok (some a)) = true
is_found (ok none) = false
is_found (err x) = false

-- Why an agreement was not created: its id is taken, or something else failed.
unfoldable pub after_create : ImportBody → Result (Unit {0}) → Act (Unit {0})
after_create body (ok u) = write_reply (bare 201)
after_create body (err x) = do
  found ← get_agreement body.agreement_id
  write_reply (if is_found found then bare 409 else bare 500)

unfoldable pub imported_agreement : ImportBody → ℕ → Agreement
imported_agreement body now = record {
  agreement_id = body.agreement_id;
  dataset_id = body.dataset_id;
  consumer_pid = "";
  origin = imported;
  counterparty_id = body.counterparty_id;
  created_at = now;
}

unfoldable pub import_agreement : Option ImportBody → Act (Unit {0})
import_agreement decoded = do
  body ← or_reply decoded (bare 400)
  require (not (body.agreement_id == "" || body.dataset_id == "")) (bare 400)
  now ← time_now
  created ← create_agreement (imported_agreement body now)
  after_create body created

-- SQLite compares texts byte by byte.
unfoldable pub not_after : Bytes → Bytes → Bool
not_after [] t = true
not_after (c ∷ s) [] = false
not_after (c ∷ s) (d ∷ t) = ltb c d || (same c d && not_after s t)

-- ORDER BY created_at: the order of the texts in which the times are kept, rows of one text as they
-- stand.
module _ {Row : Type 0} (created : Row → Bytes) where
  unfoldable pub place : Row → List Row → List Row
  place r [] = r ∷ []
  place r (x ∷ rows) = if not_after (created r) (created x) then r ∷ x ∷ rows else x ∷ place r rows

  unfoldable pub by_created : List Row → List Row
  unfolding place
  by_created [] = []
  by_created (r ∷ rows) = place r (by_created rows)

-- `text` is how a time is kept, `t.Format(time.RFC3339Nano)`.
module _ (text : ℕ → Bytes) where
  unfoldable pub list_agreements : Act (Result (List Agreement))
  list_agreements = db (λ s. (ok (by_created (λ a. text a.created_at) s.agreements), s))

  unfoldable pub list_transfers : Act (Result (List TransferProcess))
  list_transfers = db (λ s. (ok (by_created (λ t. text t.created_at) s.transfer_processes), s))

  unfoldable pub list_consumer_transfers : Act (Result (List ConsumerTransfer))
  list_consumer_transfers =
      db (λ s. (ok (by_created (λ t. text t.created_at) s.consumer_transfer_processes), s))

pub record AgreementView : Type 0 where
  pub agreement_id : String
  pub dataset_id : String
  pub origin : Origin
  pub created_at : ℕ
  pub counterparty_id : String

unfoldable pub agreement_view : Agreement → AgreementView
agreement_view a = record {
  agreement_id = a.agreement_id;
  dataset_id = a.dataset_id;
  origin = a.origin;
  created_at = a.created_at;
  counterparty_id = a.counterparty_id;
}

pub data Role : Type 0 where
  consumer provider : Role

pub record TransferView : Type 0 where
  pub role : Role
  pub consumer_pid : String
  pub provider_pid : String
  pub agreement_id : String
  pub state : TransferState
  pub counterparty_id : String
  pub created_at : ℕ
  pub expected_bytes : ℕ
  pub received_bytes : ℕ
  pub data_path : String
  pub data_completed_at : Option ℕ
  pub data_error : String

unfoldable pub consumer_view : ConsumerTransfer → TransferView
consumer_view t = record {
  role = consumer;
  consumer_pid = t.consumer_pid;
  provider_pid = t.provider_pid;
  agreement_id = t.agreement_id;
  state = t.state;
  counterparty_id = t.counterparty_id;
  created_at = t.created_at;
  expected_bytes = t.expected_bytes;
  received_bytes = t.received_bytes;
  data_path = t.data_path;
  data_completed_at = t.data_completed_at;
  data_error = t.data_error;
}

unfoldable pub provider_view : TransferProcess → TransferView
provider_view t = record {
  role = provider;
  consumer_pid = t.consumer_pid;
  provider_pid = t.provider_pid;
  agreement_id = t.agreement_id;
  state = t.state;
  counterparty_id = t.counterparty_id;
  created_at = t.created_at;
  expected_bytes = 0;
  received_bytes = 0;
  data_path = "";
  data_completed_at = none;
  data_error = "";
}

module _ {A B : Type 0} (f : A → B) where
  unfoldable pub each : List A → List B
  each [] = []
  each (x ∷ xs) = f x ∷ each xs

-- What is listed; a failed SELECT is answered 500.
module _ (text : ℕ → Bytes) where
  unfoldable pub handle_list_agreements : Act (List AgreementView)
  handle_list_agreements = do
    agreements ← list_agreements text
    rows ← or_500 agreements
    pure (each agreement_view rows)

  unfoldable pub handle_list_transfers : Act (List TransferView)
  handle_list_transfers = do
    consumers ← list_consumer_transfers text
    consumer_rows ← or_500 consumers
    providers ← list_transfers text
    provider_rows ← or_500 providers
    pure (each consumer_view consumer_rows ++ each provider_view provider_rows)
