-- ===== src/Tests/Callbacks.antt =====
-- Concrete uses of the theorems on outgoing callbacks, and runs of them.
use dataspace_in_a_box.Base.{
  ℕ, ◌≤◌, ◌<◌, ◌≡◌, ◌↔◌, refl, true, false, Option, none, some, List, [], ◌∷◌, length, All,
  if◌then◌else◌,
}
use dataspace_in_a_box.Callback.{
  Wire, unreachable, answered, push_callback, push_loop, round, attempt_push,
  callback_retry_backoffs,
}
use dataspace_in_a_box.Callback.Retries.{
  turn, fails, succeeds, sum, push_callback_bounds, push_callback_delivered,
}
use dataspace_in_a_box.Callback.Guard.{
  Ip, v4, Resolver, InRange, addresses_of, validate_callback_url, all_allowed,
  is_disallowed_callback_ip, is_loopback, is_link_local_unicast, is_link_local_multicast,
  is_unspecified,
}
use dataspace_in_a_box.Range.{same}

-- The counterparty comes up at the third attempt.
abbrev late : Wire
late = record {
  mint = λ k aud. some "Bearer token";
  post = λ k request. if same k 2 then answered 200 else unreachable;
}

late_run : (push_callback late "https://bolt.example" (some "{}") "bolt").waits ≡ 300 ∷ 700 ∷ []
unfolding push_callback push_loop round attempt_push
late_run = refl

push_callback_bounds_example :
    (length (push_callback late "https://bolt.example" (some "{}") "bolt").requests ≤ 5)
    × (sum (push_callback late "https://bolt.example" (some "{}") "bolt").waits ≤ 5500)
    × (((j : ℕ) → j ≤ 4 → turn late "https://bolt.example" "{}" "bolt" j ≡ fails)
        → (length (push_callback late "https://bolt.example" (some "{}") "bolt").requests ≡ 5)
          × ((push_callback late "https://bolt.example" (some "{}") "bolt").waits
              ≡ callback_retry_backoffs))
push_callback_bounds_example = push_callback_bounds late "https://bolt.example" "{}" "bolt"

push_callback_delivered_example :
    ((push_callback late "https://bolt.example" (some "{}") "bolt").delivered ≡ true) ↔ (
      (n : ℕ) × (n ≤ 4)
      × (turn late "https://bolt.example" "{}" "bolt" n ≡ succeeds)
      × ((j : ℕ) → j < n → turn late "https://bolt.example" "{}" "bolt" j ≡ fails))
push_callback_delivered_example = push_callback_delivered late "https://bolt.example" "{}" "bolt"

-- One name, with a public and a loopback address.
abbrev resolver : Resolver
resolver = record {
  parse_url = λ raw. some (record { scheme = "https"; host = raw });
  parse_ip = λ host. none;
  lookup_ip = λ host. some (v4 0x5db8_d822 ∷ v4 0x7f00_0001 ∷ []);
}

loopback_refused : validate_callback_url resolver "bolt.example" ≡ false
unfolding validate_callback_url addresses_of all_allowed is_disallowed_callback_ip is_loopback
    is_link_local_unicast is_link_local_multicast is_unspecified
loopback_refused = refl

AllInRange : Option (List Ip) → Type 0
AllInRange none = Unit
AllInRange (some ips) = All InRange ips
