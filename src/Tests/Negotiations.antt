-- ===== src/Tests/Negotiations.antt =====
-- Concrete uses of the theorems on the negotiation endpoints and goroutines.
use dataspace_in_a_box.Base.{◌≢◌, false≢true, eq_true, ◌≡◌, refl, ◌⊎◌, true, false, some, []}
use dataspace_in_a_box.Store.Table.{find}
use dataspace_in_a_box.Store.Rows.{empty_store, Negotiation, negotiation_key}
use dataspace_in_a_box.Action.{halt}
use dataspace_in_a_box.Guarantee.{Safe}
use dataspace_in_a_box.Answering.{OneMore}
use dataspace_in_a_box.Sending.{SendsOnly}
use dataspace_in_a_box.Config.{auth_required}
use dataspace_in_a_box.Action.{pure, validate_outgoing_callback, continue, require, or_reply, ◌>>=◌}
use dataspace_in_a_box.Message.{negotiation_error}
use dataspace_in_a_box.Initiate.{is_known, base_url, check_dialed, resolve_base_url}
use dataspace_in_a_box.Initiate.Laws.{Dialed, resolve_base_url-Dialed}
use dataspace_in_a_box.Negotiation.State.{requested, offered, agreed, finalized}
use dataspace_in_a_box.Negotiation.Decision.{outcome_agree}
use dataspace_in_a_box.Negotiation.Decision.Laws.{Routed, decide_initial_request-Routed}
use dataspace_in_a_box.Negotiation.Provider.{
  record_issued_agreement, handle_contract_request, run_dispatch,
}
use dataspace_in_a_box.Negotiation.Consumer.{run_react_to_offer, run_react_to_agreement}
use dataspace_in_a_box.Negotiation.Service.{contract_request, termination, serve}
use dataspace_in_a_box.Negotiation.Safety.Service.{Safe-serve, serve-keeps_terminal}
use dataspace_in_a_box.Negotiation.Answers.{serve-answers_once}
use dataspace_in_a_box.Negotiation.Refusal.{refused, serve-refuses_stranger}
use dataspace_in_a_box.Negotiation.Reactions.{
  Declines, run_react_to_offer-Declines, run_react_to_agreement-Declines,
}
use dataspace_in_a_box.Negotiation.Accepting.{
  Complete, row_of, Accepted, handle_contract_request-Accepted,
}
use dataspace_in_a_box.Negotiation.Dispatching.{Concluded, run_dispatch-Concluded}
use dataspace_in_a_box.Negotiation.Issuance.{Issues, agreement_of, record_issued_agreement-Issues}
use dataspace_in_a_box.Tests.Fixtures.{
  acme, connector, quiet, quiet-Rely, quiet-Undisturbed, requested_store, row, consumer_row,
  store_at, world, from_bolt, from_stranger, termination_body, request_body,
}

Safe-serve_example : Safe (serve connector from_bolt (contract_request (some request_body)))
Safe-serve_example = Safe-serve connector from_bolt (contract_request (some request_body))

serve-keeps_terminal_example :
    (m : Negotiation) × (find negotiation_key "p1"
        (serve connector from_bolt
          (termination (some termination_body))
          quiet
          (world (store_at finalized))).1.store.negotiations
      ≡ some m)
    × (m.state ≡ finalized)
unfolding find
serve-keeps_terminal_example =
    serve-keeps_terminal connector from_bolt (termination (some termination_body)) quiet
      (world (store_at finalized)) quiet-Rely "p1" (row finalized) refl tt

serve-answers_once_example :
    OneMore []
      (serve connector from_bolt
        (termination (some termination_body))
        quiet
        (world (store_at offered))).1.replies
serve-answers_once_example =
    serve-answers_once connector from_bolt (termination (some termination_body)) quiet
      (world (store_at offered))

eve_not_bolt : from_stranger.issuer ≢ "bolt"
eve_not_bolt h = false≢true (eq_true "eve" "bolt" h)

serve-refuses_stranger_example :
    serve connector from_stranger
      (termination (some termination_body))
      quiet
      (world (store_at offered))
    ≡ (halt, refused quiet (world (store_at offered)))
unfolding find auth_required
serve-refuses_stranger_example =
    serve-refuses_stranger connector from_stranger quiet (world (store_at offered)) refl
      (row offered) refl refl eve_not_bolt (termination (some termination_body)) tt

decide_initial_request-Routed_example : Routed acme "weather" "weather#offer" 7
decide_initial_request-Routed_example =
    decide_initial_request-Routed acme "weather" "weather#offer" 7

run_react_to_offer-Declines_example :
    SendsOnly Declines (run_react_to_offer acme (consumer_row offered) true)
run_react_to_offer-Declines_example = run_react_to_offer-Declines acme (consumer_row offered)

run_react_to_agreement-Declines_example :
    SendsOnly Declines (run_react_to_agreement acme (consumer_row agreed) false true)
run_react_to_agreement-Declines_example =
    run_react_to_agreement-Declines acme (consumer_row agreed) false true refl

record_issued_agreement-Issues_example :
    ((record_issued_agreement (row agreed) quiet (world (store_at agreed))).1.store
      ≡ store_at agreed)
    ⊎ Issues
        (row agreed)
        (agreement_of (row agreed) quiet (world (store_at agreed)))
        (store_at agreed)
        (record_issued_agreement (row agreed) quiet (world (store_at agreed))).1.store
record_issued_agreement-Issues_example =
    record_issued_agreement-Issues (row agreed) quiet (world (store_at agreed))

request_body-Complete : Complete request_body
request_body-Complete = record {
  context = refl;
  type = refl;
  consumer_pid = refl;
  offer_id = refl;
  offer_target = refl;
  callback_address = refl;
}

handle_contract_request-Accepted_example :
    Accepted acme
      (row_of from_bolt request_body "urn:uuid:1" 1)
      (world empty_store)
      (handle_contract_request acme from_bolt (some request_body) quiet (world empty_store)).1
unfolding find
handle_contract_request-Accepted_example =
    handle_contract_request-Accepted acme from_bolt request_body request_body-Complete quiet
      (world empty_store) "urn:uuid:1" refl refl refl

run_dispatch-Concluded_example :
    Concluded
      (row requested)
      (run_dispatch acme (row requested) outcome_agree quiet (world requested_store)).1.store
unfolding find
run_dispatch-Concluded_example =
    run_dispatch-Concluded quiet quiet-Undisturbed acme (row requested) (world requested_store)
      (record { row = row requested; found = refl; in_state = refl }) refl

resolve_base_url-Dialed_example :
    Dialed
      (λ id. true)
      (λ id. some "https://bolt.example")
      "bolt"
      "https://eve.example"
      quiet
      (world empty_store)
      "https://bolt.example"
unfolding resolve_base_url is_known base_url check_dialed require or_reply pure
    validate_outgoing_callback continue ◌>>=◌
resolve_base_url-Dialed_example =
    resolve_base_url-Dialed negotiation_error connector (λ id. true)
      (λ id. some "https://bolt.example") refl refl "bolt" "https://eve.example" quiet
      (world empty_store) "https://bolt.example" refl
