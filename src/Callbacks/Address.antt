-- ===== src/Callbacks/Address.antt =====
-- src/state.rs: `validate_callback_url`, which addresses a webhook may have. The reading of a URL is
-- a parameter: it gives the scheme, the host's text and the IP address that the text parses to.
use rust_zap.Prelude.{
  ℕ, ◌/◌, String, Bool, ◌&&◌, ◌||◌, Option, none, some, List, [], ◌∷◌, if◌then◌else◌, not, leb,
  nat_eq, is_some_and,
}
use rust_zap.Dict.{◌==◌, string_eq}
use rust_zap.Text.{codes, to_ascii_lowercase, codes_eq, codes_end_with}
use rust_zap.Error.{Result, ok, err, bad_request, ◌>>=◌}

-- The four bytes of an IPv4 address; the eight segments of an IPv6 address.
pub data IpAddr : Type 0 where
  v4 : ℕ → ℕ → ℕ → ℕ → IpAddr
  v6 : ℕ → ℕ → ℕ → ℕ → ℕ → ℕ → ℕ → ℕ → IpAddr

-- `is_loopback`, `is_private`, `is_link_local`, and the two masks that the code writes out.
unfoldable pub is_local : IpAddr → Bool
is_local (v4 a b c d) =
    nat_eq a 127
    || (nat_eq a 10 || nat_eq a 172 && leb 16 b && leb b 31 || nat_eq a 192 && nat_eq b 168)
    || nat_eq a 169 && nat_eq b 254
is_local (v6 a b c d e f g h) =
    nat_eq a 0
      && nat_eq b 0
      && nat_eq c 0
      && nat_eq d 0
      && nat_eq e 0
      && nat_eq f 0
      && nat_eq g 0
      && nat_eq h 1
    || nat_eq (a / 512) 126
    || nat_eq (a / 64) 1018

-- `is_unspecified`, `is_broadcast`, `is_multicast`
unfoldable pub is_unusable : IpAddr → Bool
is_unusable (v4 a b c d) =
    nat_eq a 0 && nat_eq b 0 && nat_eq c 0 && nat_eq d 0
    || nat_eq a 255 && nat_eq b 255 && nat_eq c 255 && nat_eq d 255
    || leb 224 a && leb a 239
is_unusable (v6 a b c d e f g h) =
    nat_eq a 0
      && nat_eq b 0
      && nat_eq c 0
      && nat_eq d 0
      && nat_eq e 0
      && nat_eq f 0
      && nat_eq g 0
      && nat_eq h 0
    || nat_eq (a / 256) 255

unfoldable pub callback_ip_is_disallowed : IpAddr → Bool → Bool
callback_ip_is_disallowed ip dev_mode = is_unusable ip || not dev_mode && is_local ip

-- `trim_end_matches('.')`, on the code points.
abbrev pub cons_unless_end : ℕ → List ℕ → List ℕ
cons_unless_end c [] = if nat_eq c b'.' then [] else c ∷ []
cons_unless_end c (d ∷ s) = c ∷ d ∷ s

abbrev pub trim_end_dots : List ℕ → List ℕ
trim_end_dots [] = []
trim_end_dots (c ∷ s) = cons_unless_end c (trim_end_dots s)

unfoldable pub callback_host_is_localhost : String → Bool
callback_host_is_localhost host =
    let normalized = to_ascii_lowercase (trim_end_dots (codes host)) in
    codes_eq normalized (codes "localhost") || codes_end_with normalized (codes ".localhost")

pub record Url : Type 0 where
  pub scheme : String
  pub host : Option String
  pub ip : Option IpAddr

unfoldable pub check_scheme : String → Bool → Result (Unit {0})
check_scheme scheme dev_mode =
    if scheme == "https"
    then ok tt
    else if scheme == "http"
    then (if dev_mode
        then ok tt
        else err (bad_request "callback url must use https outside dev mode"))
    else err (bad_request "callback url scheme must be https")

unfoldable pub check_host : Url → Bool → Result (Unit {0})
check_host url dev_mode = elim url.host [
  | none ↦ err (bad_request "callback url must include a host")
  | some host ↦
      if callback_host_is_localhost host && not dev_mode
      then err (bad_request "callback url host is not allowed outside dev mode")
      else if is_some_and url.ip (λ ip. callback_ip_is_disallowed ip dev_mode)
      then err (bad_request "callback url host is not allowed outside dev mode")
      else ok tt
]

unfoldable pub validate_callback_url : (String → Result Url) → String → Bool → Result (Unit {0})
validate_callback_url parse_url url dev_mode = do
  parsed ← parse_url url
  _ ← check_scheme parsed.scheme dev_mode
  check_host parsed dev_mode
