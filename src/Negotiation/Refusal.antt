-- ===== src/Negotiation/Refusal.antt =====
-- What a caller that is not party to a negotiation gets from its endpoints.
use dataspace_in_a_box.Base.{
  String, ◌≢◌, eq_false, true, suc, ◌≡◌, refl, false, some, [], ◌∷◌, ◌++◌,
}
use dataspace_in_a_box.Config.{Config, auth_required}
use dataspace_in_a_box.Message.{refusal, negotiation_error, not_yours}
use dataspace_in_a_box.Store.Table.{find}
use dataspace_in_a_box.Store.Rows.{
  Negotiation, ConsumerNegotiation, negotiation_key, consumer_negotiation_key,
}
use dataspace_in_a_box.Store.Negotiations.{
  get, select_negotiation, get_consumer, select_consumer_negotiation,
}
use dataspace_in_a_box.Action.{
  Env, World, halt, pure, return_now, db, write_reply, continue, require, or_500, or_reply, ◌>>=◌,
}
use dataspace_in_a_box.Envelope.{Request, is_party, refuse_if_not_party}
use dataspace_in_a_box.Initiate.{Connector}
use dataspace_in_a_box.Negotiation.Provider.{
  lookup, handle_re_request, handle_verification, handle_provider_accepted_event,
  handle_provider_termination,
}
use dataspace_in_a_box.Negotiation.Consumer.{lookup_consumer, handle_offers, handle_agreement}
use dataspace_in_a_box.Negotiation.Endpoints.{
  try_consumer, by_role, get_as_provider, handle_event, handle_termination, handle_get_negotiation,
}
use dataspace_in_a_box.Negotiation.Service.{
  Call, contract_request, re_request, event, verification, termination, get_negotiation, initiate,
  offers, agreement, serve,
}

-- The calls that look for {id} in the provider's table first, and those that look only in the
-- consumer's.
abbrev pub NamesProviderRow : Call → Type 0
NamesProviderRow (re_request body) = Unit
NamesProviderRow (event body) = Unit
NamesProviderRow (verification body) = Unit
NamesProviderRow (termination body) = Unit
NamesProviderRow get_negotiation = Unit
NamesProviderRow _ = ⊥

abbrev pub NamesConsumerRow : Call → Type 0
NamesConsumerRow (offers body) = Unit
NamesConsumerRow (agreement body) = Unit
NamesConsumerRow _ = ⊥

-- The world in which the one look-up was made and the call refused, and nothing else happened.
abbrev pub refused : Env → World → World
refused e w = record w {
  tick = suc w.tick;
  store = e.others w.tick w.store;
  replies = w.replies ++ refusal 403 (negotiation_error not_yours) ∷ [];
}

-- With authentication on, only the participant that is recorded is party.
pub stranger-is_party :
    (cfg : Config) (r : Request) (stored : String)
    → auth_required cfg ≡ true
    → r.issuer ≢ stored
    → is_party cfg r stored ≡ false
unfolding is_party
stranger-is_party cfg r stored auth other = rw (auth, eq_false r.issuer stored other) refl

module _ (h : Connector) (r : Request) (e : Env) (w : World) (sound : e.fails w.tick ≡ false) where
  module _ (n : Negotiation)
      (found : find negotiation_key r.id (e.others w.tick w.store).negotiations ≡ some n)
      (auth : auth_required h.cfg ≡ true) (stranger : r.issuer ≢ n.counterparty_id) where
    -- With authentication on, where the look-up of {id} in the provider's table succeeds with a row
    -- of another participant than the caller, each of the five endpoints that address such a row
    -- answers 403, and does nothing else: the database is as the other goroutines left it, nothing
    -- is pushed and no goroutine starts.
    pub serve-refuses_stranger :
        (call : Call) → NamesProviderRow call → serve h r call e w ≡ (halt, refused e w)
    unfolding serve handle_re_request handle_verification handle_event handle_termination
        handle_get_negotiation by_role try_consumer lookup get select_negotiation db or_500 or_reply
        refuse_if_not_party require pure return_now write_reply continue ◌>>=◌
        handle_provider_accepted_event handle_provider_termination get_as_provider
    serve-refuses_stranger (re_request body) t =
        rw (sound, found, stranger-is_party h.cfg r n.counterparty_id auth stranger) refl
    serve-refuses_stranger (event body) t =
        rw (sound, found, stranger-is_party h.cfg r n.counterparty_id auth stranger) refl
    serve-refuses_stranger (verification body) t =
        rw (sound, found, stranger-is_party h.cfg r n.counterparty_id auth stranger) refl
    serve-refuses_stranger (termination body) t =
        rw (sound, found, stranger-is_party h.cfg r n.counterparty_id auth stranger) refl
    serve-refuses_stranger get_negotiation t =
        rw (sound, found, stranger-is_party h.cfg r n.counterparty_id auth stranger) refl
    serve-refuses_stranger (contract_request body) t = absurd t
    serve-refuses_stranger (initiate body) t = absurd t
    serve-refuses_stranger (offers body) t = absurd t
    serve-refuses_stranger (agreement body) t = absurd t

  module _ (n : ConsumerNegotiation)
      (found : find consumer_negotiation_key r.id (e.others w.tick w.store).consumer_negotiations
        ≡ some n)
      (auth : auth_required h.cfg ≡ true) (stranger : r.issuer ≢ n.counterparty_id) where
    -- With authentication on, where the look-up of {id} in the consumer's table succeeds with a row
    -- of another participant than the caller, the offers and agreement endpoints answer 403, and do
    -- nothing else, whatever the body holds.
    pub serve-refuses_stranger_as_consumer :
        (call : Call) → NamesConsumerRow call → serve h r call e w ≡ (halt, refused e w)
    unfolding serve handle_offers handle_agreement lookup_consumer get_consumer
        select_consumer_negotiation db or_500 or_reply refuse_if_not_party require pure return_now
        write_reply continue ◌>>=◌
    serve-refuses_stranger_as_consumer (offers body) t =
        rw (sound, found, stranger-is_party h.cfg r n.counterparty_id auth stranger) refl
    serve-refuses_stranger_as_consumer (agreement body) t =
        rw (sound, found, stranger-is_party h.cfg r n.counterparty_id auth stranger) refl
    serve-refuses_stranger_as_consumer (re_request body) t = absurd t
    serve-refuses_stranger_as_consumer (event body) t = absurd t
    serve-refuses_stranger_as_consumer (verification body) t = absurd t
    serve-refuses_stranger_as_consumer (termination body) t = absurd t
    serve-refuses_stranger_as_consumer get_negotiation t = absurd t
    serve-refuses_stranger_as_consumer (contract_request body) t = absurd t
    serve-refuses_stranger_as_consumer (initiate body) t = absurd t
