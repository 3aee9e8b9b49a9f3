-- ===== src/Callback.antt =====
-- The outgoing calls of internal/dsp/callback.go: the push with its retries, the guard over the
-- addresses that a counterparty names, and the minter that internal/dsp/router.go installs. A push
-- is given by its URL and its marshalled body, `none` where marshalling fails. The network, the
-- resolver, `url.Parse` and `net.ParseIP` are parameters.
pub mod Retries
pub mod Guard
use Prim.Native.String.{◌++◌}
use dataspace_in_a_box.Base.{
  ℕ, suc, ◌+◌, String, Bool, true, false, Option, none, some, List, [], ◌∷◌, ◌==◌, ltb, length,
  if◌then◌else◌,
}

pub record CallbackRequest : Type 0 where
  pub url : String
  pub body : String
  pub authorization : String

-- What comes of one request: it cannot be built, it gets no response, or it gets a status.
pub data Posted : Type 0 where
  not_built unreachable : Posted
  answered : ℕ → Posted

-- What the attempt with a given number meets. `mint` answers `none` where nothing may be sent, and
-- the empty text where the request goes unsigned.
pub record Wire : Type 0 where
  pub mint : ℕ → String → Option String
  pub post : ℕ → CallbackRequest → Posted

-- In milliseconds.
abbrev pub callback_retry_backoffs : List ℕ
callback_retry_backoffs = 300 ∷ 700 ∷ 1500 ∷ 3000 ∷ []

unfoldable pub attempt_push : Wire → ℕ → CallbackRequest → Bool
attempt_push wire attempt request = elim (wire.post attempt request) [
  | not_built ↦ false
  | unreachable ↦ false
  | answered status ↦ ltb status 300
]

-- The result of a push, the requests that it sent and the waits between them.
pub record PushRun : Type 0 where
  pub delivered : Bool
  pub requests : List CallbackRequest
  pub waits : List ℕ

abbrev pub withheld : PushRun
withheld = record { delivered = false; requests = []; waits = [] }

abbrev pub first : CallbackRequest → PushRun → PushRun
first request run = record run { requests = request ∷ run.requests }

abbrev pub after_wait : ℕ → PushRun → PushRun
after_wait wait run = record run { waits = wait ∷ run.waits }

module _ (wire : Wire) (url body aud : String) where
  unfoldable pub request_with : String → CallbackRequest
  request_with authorization = record { url = url; body = body; authorization = authorization }

  -- One round of the loop, `rest` being the rounds that may follow it.
  unfoldable pub round : ℕ → PushRun → PushRun
  round attempt rest = elim (wire.mint attempt aud) [
    | none ↦ withheld
    | some authorization ↦
        let request = request_with authorization in
        if attempt_push wire attempt request
        then first request (record { delivered = true; requests = []; waits = [] })
        else first request rest
  ]

  -- The loop from an attempt on, with the backoffs that are left.
  unfoldable pub push_loop : ℕ → List ℕ → PushRun
  push_loop attempt [] = round attempt withheld
  push_loop attempt (wait ∷ waits) = round attempt (after_wait wait (push_loop (suc attempt) waits))

unfoldable pub push_callback : Wire → String → Option String → String → PushRun
push_callback wire url none aud = withheld
push_callback wire url (some body) aud = push_loop wire url body aud 0 callback_retry_backoffs

unfoldable pub bearer : String → String
bearer token = "Bearer " ++ token

-- The minter that `NewRouter` installs where authentication is on: `usable` is the roster guard's
-- answer, `minted` the result of `auth.Mint`.
unfoldable pub mint_outbound_credential : Bool → String → Option String → Option String
mint_outbound_credential false aud minted = none
mint_outbound_credential true aud minted =
    if aud == "" then some "" else elim minted [ none ↦ some "" | some token ↦ some (bearer token) ]
