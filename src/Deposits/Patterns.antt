-- ===== src/Deposits/Patterns.antt =====
-- `ADDRESS_PATTERNS`: the addresses of the three networks, which DepositAddressService and
-- FundingService (backend/src/funding/funding.service.ts) both test.
use crypto_sim_backend.Common.{
  ℕ, leb, ◌==◌, Bool, true, false, not, ◌&&◌, ◌||◌, [], ◌∷◌, Option, none, some, length, Text, text,
  strip_prefix,
}
use crypto_sim_backend.Database.{FundingNetwork}

abbrev pub all? : (ℕ → Bool) → Text → Bool
all? p [] = true
all? p (c ∷ s) = p c && all? p s

-- `[0-9]`, `[a-z]` and `[A-Z]`
abbrev is_digit : ℕ → Bool
is_digit c = leb 48 c && leb c 57

abbrev is_lower : ℕ → Bool
is_lower c = leb 97 c && leb c 122

abbrev is_upper : ℕ → Bool
is_upper c = leb 65 c && leb c 90

-- `[1-9A-HJ-NP-Za-km-z]`: without 0, O, I and l.
unfoldable pub is_base58 : ℕ → Bool
is_base58 c =
    (is_digit c && not (c == 48))
    || (is_upper c && not (c == 73) && not (c == 79))
    || (is_lower c && not (c == 108))

-- `[a-fA-F0-9]`
unfoldable pub is_hex : ℕ → Bool
is_hex c = is_digit c || (leb 97 c && leb c 102) || (leb 65 c && leb c 70)

-- `[a-z0-9]`
unfoldable pub is_bech32 : ℕ → Bool
is_bech32 c = is_lower c || is_digit c

-- `^P[class]{low,high}$` for a literal P.
abbrev pub is_run : (ℕ → Bool) → ℕ → ℕ → Option Text → Bool
is_run p low high none = false
is_run p low high (some s) = all? p s && leb low (length s) && leb (length s) high

unfoldable pub matches_address : FundingNetwork → Text → Bool
unfolding is_base58 is_hex is_bech32
matches_address FundingNetwork.trc20 s = is_run is_base58 33 33 (strip_prefix (text "T") s)
matches_address FundingNetwork.erc20 s = is_run is_hex 40 40 (strip_prefix (text "0x") s)
matches_address FundingNetwork.btc s =
    is_run is_bech32 39 59 (strip_prefix (text "bc1") s)
    || is_run is_base58 25 34 (strip_prefix (text "1") s)
    || is_run is_base58 25 34 (strip_prefix (text "3") s)
