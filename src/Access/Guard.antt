-- ===== src/Access/Guard.antt =====
-- `IpWhitelistGuard`. The package ipaddr.js is a parameter: it parses addresses and ranges, says of an
-- address of which kind it is and how it is written, and whether it lies in a range of its kind.
use crypto_sim_backend.Common.{
  ℕ, ◌+◌, ltb, ◌==◌, if◌then◌else◌, Bool, true, false, ◌&&◌, ◌||◌, List, [], ◌∷◌, any, Option, none,
  some, Text, text, text_eq, trim, strip_prefix, Result, ok, err,
}

pub record IpAddr : Type 1 where
  pub Addr : Type 0
  pub parse : Text → Option Addr
  pub parse_cidr : Text → Option (Addr × ℕ)
  pub kind : Addr → ℕ
  pub normalized : Addr → Text
  pub lies_in : Addr → Addr × ℕ → Bool

pub record IpWhitelistConfig : Type 0 where
  pub ips : List Text
  pub enabled : Bool

pub data GuardError : Type 0 where
  unknown_client not_listed : GuardError

-- The cached configuration and the time until which it is used.
abbrev pub Cache : Type 0
Cache = Option (IpWhitelistConfig × ℕ)

abbrev pub cache_ttl_ms : ℕ
cache_ttl_ms = 5000

-- `(?:\/|$)` behind the word.
abbrev pub ends_word : Option Text → Bool
ends_word none = false
ends_word (some []) = true
ends_word (some (c ∷ s)) = c == b'/'

-- `/^\/(?:api\/)?admin(?:\/|$)/`
unfoldable pub is_admin_path : Text → Bool
is_admin_path path =
    ends_word (strip_prefix (text "/admin") path)
    || ends_word (strip_prefix (text "/api/admin") path)

-- `current` is what the settings hold.
unfoldable pub get_cached_config : ℕ → IpWhitelistConfig → Cache → IpWhitelistConfig × Cache
get_cached_config now current none = (current, some (current, now + cache_ttl_ms))
get_cached_config now current (some (config, expires_at)) =
    if ltb now expires_at
    then (config, some (config, expires_at))
    else (current, some (current, now + cache_ttl_ms))

abbrev pub without_prefix : Text → Option Text → Text
without_prefix raw none = raw
without_prefix raw (some s) = s

-- An IPv4 address that is written as one of IPv6 loses its prefix.
unfoldable pub get_client_ip : Option Text → Option Text
get_client_ip none = none
get_client_ip (some []) = none
get_client_ip (some (c ∷ s)) = some (without_prefix (c ∷ s) (strip_prefix (text "::ffff:") (c ∷ s)))

abbrev pub is_loopback : Text → Bool
is_loopback ip = text_eq ip (text "127.0.0.1") || text_eq ip (text "::1")

module _ (lib : IpAddr) where
  open lib use {Addr, parse, parse_cidr, kind, normalized, lies_in}

  abbrev pub lies_in_range : Addr → Option (Addr × ℕ) → Bool
  lies_in_range addr none = false
  lies_in_range addr (some r) = (kind addr == kind r.0) && lies_in addr r

  abbrev pub is_single : Addr → Option Addr → Bool
  is_single addr none = false
  is_single addr (some a) = (kind addr == kind a) && text_eq (normalized addr) (normalized a)

  abbrev pub matches_rule : Addr → Text → Bool
  matches_rule addr [] = false
  matches_rule addr (c ∷ s) =
      if any (λ x. x == b'/') (c ∷ s)
      then lies_in_range addr (parse_cidr (c ∷ s))
      else is_single addr (parse (c ∷ s))

  abbrev pub matches_any_of : List Text → Option Addr → Bool
  matches_any_of rules none = false
  matches_any_of rules (some addr) = any (λ rule. matches_rule addr (trim rule)) rules

  unfoldable pub match_any : Text → List Text → Bool
  match_any ip rules = matches_any_of rules (parse ip)

  abbrev pub check_client : List Text → Option Text → Result GuardError (Unit {0})
  check_client ips none = err GuardError.unknown_client
  check_client ips (some ip) =
      if is_loopback ip
      then ok tt
      else (if match_any ip ips then ok tt else err GuardError.not_listed)

  abbrev pub check_config : IpWhitelistConfig → Option Text → Result GuardError (Unit {0})
  check_config config client =
      if config.enabled && any (λ ip. true) config.ips
      then check_client config.ips client
      else ok tt

  -- For a request over HTTP.
  unfoldable pub can_activate :
      ℕ → Text → Option Text → IpWhitelistConfig → Cache → Result GuardError (Unit {0}) × Cache
  unfolding get_cached_config get_client_ip match_any
  can_activate now path raw_ip current cache =
      if is_admin_path path
      then (let (config, cache') = get_cached_config now current cache in
          (check_config config (get_client_ip raw_ip), cache'))
      else (ok tt, cache)
