-- ===== src/Risk/Endpoint.antt =====
-- src/risk.rs: the checks of endpoint addresses. A text is the list of its code points.
use hype_trigger_twap.Prelude.{
  ℕ, Bool, true, false, not, ◌&&◌, ◌||◌, Option, none, some, List, [], ◌∷◌, is_empty, any, Result,
  ok, fail_if, ◌>>◌, ◌==◌, if◌then◌else◌,
}
use hype_trigger_twap.Prelude.Text.{codes, codes_eq, starts_with}

-- `Network` of src/client.rs, with its derived `PartialEq`.
pub data Network : Type 0 where
  mainnet testnet : Network

abbrev pub network_eq : Network → Network → Bool
network_eq mainnet mainnet = true
network_eq testnet testnet = true
network_eq _ _ = false

pub data EndpointError : Type 0 where
  custom_endpoint_rejected : List ℕ → EndpointError
  custom_endpoint_not_https : List ℕ → EndpointError
  official_endpoint_network_mismatch : List ℕ → Network → EndpointError

unfoldable pub strip_prefix : List ℕ → List ℕ → Option (List ℕ)
strip_prefix [] text = some text
strip_prefix (x ∷ xs) [] = none
strip_prefix (x ∷ xs) (y ∷ ys) = if x == y then strip_prefix xs ys else none

abbrev pub ends_authority : ℕ → Bool
ends_authority letter = letter == b'/' || (letter == b'?' || letter == b'#')

-- The text before the first `/`, `?` or `#`.
unfoldable pub authority_of : List ℕ → List ℕ
authority_of [] = []
authority_of (x ∷ xs) = let rest = authority_of xs in if ends_authority x then [] else x ∷ rest

abbrev pub at_port : List ℕ → Bool
at_port [] = true
at_port (x ∷ xs) = x == b':'

abbrev pub host_matches : Option (List ℕ) → Bool
host_matches none = false
host_matches (some rest) = at_port rest

unfoldable pub is_loopback_authority : List ℕ → Bool
unfolding strip_prefix
is_loopback_authority authority =
    not (any (λ letter. letter == b'@') authority)
    && (host_matches (strip_prefix (codes "127.0.0.1") authority)
        || host_matches (strip_prefix (codes "localhost") authority))

abbrev loopback_after : Option (List ℕ) → Bool
loopback_after none = false
loopback_after (some after_scheme) = is_loopback_authority (authority_of after_scheme)

unfoldable pub is_loopback_url : List ℕ → Bool
is_loopback_url url = loopback_after (strip_prefix (codes "http://") url)

unfoldable pub validate_endpoint_override : List ℕ → Bool → Result EndpointError (Unit {0})
validate_endpoint_override url allow_custom_endpoints = do
  fail_if (not allow_custom_endpoints) (custom_endpoint_rejected url)
  fail_if (not (starts_with (codes "https://") url) && not (is_loopback_url url))
      (custom_endpoint_not_https url)

-- `trim_end_matches('.')`
unfoldable pub trim_dots : List ℕ → List ℕ
trim_dots [] = []
trim_dots (x ∷ xs) = let rest = trim_dots xs in if is_empty rest && x == b'.' then [] else x ∷ rest

-- The network that an official host belongs to.
unfoldable pub official_network : List ℕ → Option Network
unfolding codes_eq
official_network host =
    if codes_eq host (codes "api.hyperliquid.xyz")
    then some mainnet
    else if codes_eq host (codes "api.hyperliquid-testnet.xyz")
    then some testnet
    else none

abbrev is_other : Option Network → Network → Bool
is_other none selected = false
is_other (some network) selected = not (network_eq network selected)

abbrev check_host : Option (List ℕ) → Network → Result EndpointError (Unit {0})
check_host none selected = ok tt
check_host (some host) selected =
    fail_if (is_other (official_network (trim_dots host)) selected)
      (official_endpoint_network_mismatch host selected)

-- `host_of` is `reqwest::Url::parse` followed by `host_str`, where both give something.
module _ (host_of : List ℕ → Option (List ℕ)) where
  unfoldable pub validate_official_endpoint_network :
      List ℕ → Network → Result EndpointError (Unit {0})
  validate_official_endpoint_network url selected_network =
      check_host (host_of url) selected_network
