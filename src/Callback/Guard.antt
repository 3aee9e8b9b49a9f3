-- ===== src/Callback/Guard.antt =====
-- The guard over addresses: `validateCallbackURL` and `isDisallowedCallbackIP`. An IPv4 address is a
-- number of 32 bits, also where it is written as an IPv6 one; an IPv6 address is one of 128 bits.
use Prim.Native.Nat.{◌*◌, ◌/◌, ◌%◌, ◌^◌}
use dataspace_in_a_box.Base.{
  ℕ, ◌≤◌, ◌<◌, ◌≡◌, ◌⊎◌, String, Bool, true, false, not, ◌||◌, ◌&&◌, Option, none, some, List, [],
  ◌∷◌, ◌==◌, All, if◌then◌else◌,
}
use dataspace_in_a_box.Range.{same}

pub data Ip : Type 0 where
  v4 v6 : ℕ → Ip

pub record CallbackUrl : Type 0 where
  pub scheme : String
  pub host : String

-- `url.Parse`, `net.ParseIP` and `LookupIPAddr`.
pub record Resolver : Type 0 where
  pub parse_url : String → Option CallbackUrl
  pub parse_ip : String → Option Ip
  pub lookup_ip : String → Option (List Ip)

-- The byte of an address above the given power of two.
abbrev byte : ℕ → ℕ → ℕ
byte n unit = n / unit % 256

unfoldable pub is_loopback : Ip → Bool
is_loopback (v4 n) = same (byte n (2 ^ 24)) 127
is_loopback (v6 n) = same n 1

unfoldable pub is_link_local_unicast : Ip → Bool
is_link_local_unicast (v4 n) = same (byte n (2 ^ 24)) 169 && same (byte n (2 ^ 16)) 254
is_link_local_unicast (v6 n) = same (byte n (2 ^ 120)) 0xfe && same (byte n (2 ^ 112) / 64) 2

unfoldable pub is_link_local_multicast : Ip → Bool
is_link_local_multicast (v4 n) =
    same (byte n (2 ^ 24)) 224 && (same (byte n (2 ^ 16)) 0 && same (byte n (2 ^ 8)) 0)
is_link_local_multicast (v6 n) = same (byte n (2 ^ 120)) 0xff && same (byte n (2 ^ 112) % 16) 2

unfoldable pub is_unspecified : Ip → Bool
is_unspecified (v4 n) = same n 0
is_unspecified (v6 n) = same n 0

unfoldable pub is_disallowed_callback_ip : Ip → Bool
is_disallowed_callback_ip ip =
    is_loopback ip
    || (is_link_local_unicast ip || (is_link_local_multicast ip || is_unspecified ip))

-- `for _, ip := range ips`
unfoldable pub all_allowed : List Ip → Bool
all_allowed [] = true
all_allowed (ip ∷ ips) = not (is_disallowed_callback_ip ip) && all_allowed ips

unfoldable pub addresses_of : Resolver → String → Option (List Ip)
addresses_of resolver host = elim (resolver.parse_ip host) [
  | some ip ↦ some (ip ∷ [])
  | none ↦ resolver.lookup_ip host
]

-- True where no error is returned.
unfoldable pub validate_callback_url : Resolver → String → Bool
validate_callback_url resolver raw = elim (resolver.parse_url raw) [
  | none ↦ false
  | some u ↦
      if u.scheme == "http" || u.scheme == "https"
      then if u.host == ""
        then false
        else elim (addresses_of resolver u.host) [ none ↦ false | some ips ↦ all_allowed ips ]
      else false
]

-- The networks 0.0.0.0/32, 127.0.0.0/8, 169.254.0.0/16 and 224.0.0.0/24; ::/128, ::1/128, fe80::/10,
-- and ff02::/16 with any flags.
abbrev pub Disallowed : Ip → Type 0
Disallowed (v4 n) =
    (n ≡ 0)
    ⊎ ((0x7f00_0000 ≤ n) × (n ≤ 0x7fff_ffff))
    ⊎ ((0xa9fe_0000 ≤ n) × (n ≤ 0xa9fe_ffff))
    ⊎ ((0xe000_0000 ≤ n) × (n ≤ 0xe000_00ff))
Disallowed (v6 n) =
    (n ≤ 1)
    ⊎ ((0xfe80 * 2 ^ 112 ≤ n) × (n < 0xfec0 * 2 ^ 112))
    ⊎ ((0xff00 * 2 ^ 112 ≤ n) × (n / 2 ^ 112 % 16 ≡ 2))

abbrev pub InRange : Ip → Type 0
InRange (v4 n) = n < 2 ^ 32
InRange (v6 n) = n < 2 ^ 128

-- An address that the guard lets through: a URL of the two schemes, with a host that has addresses,
-- of which none is disallowed.
pub record Allowed (resolver : Resolver) (raw : String) : Type 0 where
  pub url : CallbackUrl
  pub parsed : resolver.parse_url raw ≡ some url
  pub scheme : (url.scheme == "http" || url.scheme == "https") ≡ true
  pub host : (url.host == "") ≡ false
  pub addresses : List Ip
  pub found : addresses_of resolver url.host ≡ some addresses
  pub safe : All (λ ip. ¬ Disallowed ip) addresses
