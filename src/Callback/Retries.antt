-- ===== src/Callback/Retries.antt =====
-- How often a push is tried, and when it is delivered.
use dataspace_in_a_box.Base.{
  ℕ, suc, ◌+◌, ◌≤◌, ◌<◌, ◌≡◌, ◌↔◌, ◌⊎◌, ◌∙◌, ap, inl, inr, String, true, false, none, some, List,
  [], ◌∷◌, length, ltb, arith, if◌then◌else◌,
}
use native.Mathlib.Decide.{dec_le}
use dataspace_in_a_box.Callback.{
  Wire, not_built, unreachable, answered, attempt_push, PushRun, withheld, request_with, round,
  push_loop, push_callback, callback_retry_backoffs,
}

-- What an attempt comes to: it is withheld, it is not answered with a status below 300, or it is.
pub data Turn : Type 0 where
  stops fails succeeds : Turn

pub sum : List ℕ → ℕ
sum [] = 0
sum (n ∷ ns) = n + sum ns

module _ (wire : Wire) (url body aud : String) where
  unfoldable pub turn : ℕ → Turn
  turn attempt = elim (wire.mint attempt aud) [
    | none ↦ stops
    | some authorization ↦
        elim (wire.post attempt
          (record { url = url; body = body; authorization = authorization })) [
            | not_built ↦ fails
            | unreachable ↦ fails
            | answered status ↦ if ltb status 300 then succeeds else fails
          ]
  ]

  round_stops :
      (k : ℕ) (rest : PushRun) → turn k ≡ stops → (round wire url body aud k rest).delivered ≡ false
  unfolding turn round attempt_push request_with
  round_stops k rest h = ground arith

  round_fails :
      (k : ℕ) (rest : PushRun)
      → turn k ≡ fails
      → (round wire url body aud k rest).delivered ≡ rest.delivered
  unfolding turn round attempt_push request_with
  round_fails k rest h = ground arith

  round_succeeds :
      (k : ℕ) (rest : PushRun)
      → turn k ≡ succeeds
      → (round wire url body aud k rest).delivered ≡ true
  unfolding turn round attempt_push request_with
  round_succeeds k rest h = ground arith

  -- The attempts from one on, with the backoffs that are left.
  record Delivers (k : ℕ) (waits : List ℕ) : Type 0 where
    last : ℕ
    from : k ≤ last
    to : last ≤ k + length waits
    success : turn last ≡ succeeds
    before : (j : ℕ) → k ≤ j → j < last → turn j ≡ fails

  sooner :
      (k : ℕ) (rest : PushRun)
      → (round wire url body aud k rest).delivered ≡ true
      → (turn k ≡ succeeds) ⊎ ((turn k ≡ fails) × (rest.delivered ≡ true))
  unfolding round turn attempt_push request_with
  sooner k rest h = ground arith

  push_loop-Delivers :
      (k : ℕ) (waits : List ℕ)
      → (push_loop wire url body aud k waits).delivered ≡ true
      → Delivers k waits
  unfolding push_loop
  push_loop-Delivers k [] h = elim (sooner k withheld h) [
    | inl s ↦ record {
      last = k;
      from = ground arith;
      to = ground arith;
      success = s;
      before = λ j a b. absurd (omega arith);
    }
    | inr (f, d) ↦ absurd (ground arith)
  ]
  push_loop-Delivers k (wait ∷ waits) h = elim (sooner k _ h) [
    | inl s ↦ record {
      last = k;
      from = ground arith;
      to = ground arith;
      success = s;
      before = λ j a b. absurd (omega arith);
    }
    | inr (f, d) ↦
        let later = push_loop-Delivers (suc k) waits d in
        record {
          last = later.last;
          from = ground arith;
          to = ground arith;
          success = later.success;
          before = λ j a b. elim (dec_le (suc k) j) [
            | yes c ↦ later.before j c b
            | no c ↦ let same : j ≡ k = omega arith in rw same f
          ];
        }
  ]

  Delivers-push_loop :
      (k : ℕ) (waits : List ℕ)
      → Delivers k waits
      → (push_loop wire url body aud k waits).delivered ≡ true
  unfolding push_loop
  Delivers-push_loop k [] d =
      let here : d.last ≡ k = ground arith in round_succeeds k withheld (rw (← here) d.success)
  Delivers-push_loop k (wait ∷ waits) d = elim (dec_le (suc k) d.last) [
    | yes c ↦
        round_fails k _ (d.before k (omega arith) c)
        ∙ Delivers-push_loop (suc k) waits (record {
          last = d.last;
          from = c;
          to = ground arith;
          success = d.success;
          before = λ j a b. d.before j (omega arith) b;
        })
    | no c ↦ let here : d.last ≡ k = omega arith in round_succeeds k _ (rw (← here) d.success)
  ]

  loop_bounds :
      (k : ℕ) (waits : List ℕ)
      → (length (push_loop wire url body aud k waits).requests ≤ suc (length waits))
        × (sum (push_loop wire url body aud k waits).waits ≤ sum waits)
  unfolding push_loop round sum
  loop_bounds k [] = ground arith
  loop_bounds k (wait ∷ waits) = ground (arith, loop_bounds (suc k) waits)

  failing_requests :
      (k : ℕ) (rest : PushRun)
      → turn k ≡ fails
      → (length (round wire url body aud k rest).requests ≡ suc (length rest.requests))
        × ((round wire url body aud k rest).waits ≡ rest.waits)
  unfolding turn round attempt_push request_with
  failing_requests k rest h = ground arith

  loop_exhausts :
      (k : ℕ) (waits : List ℕ)
      → ((j : ℕ) → k ≤ j → j ≤ k + length waits → turn j ≡ fails)
      → (length (push_loop wire url body aud k waits).requests ≡ suc (length waits))
        × ((push_loop wire url body aud k waits).waits ≡ waits)
  unfolding push_loop
  loop_exhausts k [] h = failing_requests k withheld (h k (omega arith) (ground arith))
  loop_exhausts k (wait ∷ waits) h =
      let (requests, waited) = failing_requests k _ (h k (omega arith) (ground arith)) in
      let (n, w) = loop_exhausts (suc k) waits (λ j a b. h j (omega arith) (ground arith)) in
      (requests ∙ ap suc n, waited ∙ ap (λ ws. wait ∷ ws) w)

-- A push ends after five requests at most and 5.5 seconds of waiting at most, and where every
-- attempt may be sent and fails it makes all five, with the waits of the backoffs between them.
pub push_callback_bounds :
    (wire : Wire) (url body aud : String)
    → (length (push_callback wire url (some body) aud).requests ≤ 5)
      × (sum (push_callback wire url (some body) aud).waits ≤ 5500)
      × (((j : ℕ) → j ≤ 4 → turn wire url body aud j ≡ fails)
          → (length (push_callback wire url (some body) aud).requests ≡ 5)
            × ((push_callback wire url (some body) aud).waits ≡ callback_retry_backoffs))
unfolding push_callback sum
push_callback_bounds wire url body aud =
    let (requests, waits) = loop_bounds wire url body aud 0 callback_retry_backoffs in
    (
      requests,
      waits,
      λ all. loop_exhausts wire url body aud 0 callback_retry_backoffs (λ j a b. all j b),
    )

-- A push with a body that marshals is reported delivered exactly where one of the first five attempts
-- is let through by the minter and answered with a status below 300, and every attempt before it was
-- let through too, but could not be built, got no answer or got a status of 300 or more.
pub push_callback_delivered :
    (wire : Wire) (url body aud : String)
    → ((push_callback wire url (some body) aud).delivered ≡ true) ↔ (
        (n : ℕ) × (n ≤ 4)
        × (turn wire url body aud n ≡ succeeds)
        × ((j : ℕ) → j < n → turn wire url body aud j ≡ fails))
unfolding push_callback
push_callback_delivered wire url body aud = (
  λ h.
      let d = push_loop-Delivers wire url body aud 0 callback_retry_backoffs h in
      (d.last, d.to, d.success, λ j b. d.before j (omega arith) b),
  λ (n, small, s, b).
      Delivers-push_loop wire url body aud 0 callback_retry_backoffs
        (record { last = n; from = omega arith; to = small; success = s; before = λ j a c. b j c }),
)
