-- ===== src/Funding/Checks.antt =====
-- The checks and the parsers of FundingService. Its DTOs' amounts are `none` where they are not
-- finite numbers.
use crypto_sim_backend.Common.{
  none_if_empty, ℕ, ◌*◌, ltb, ℤ, pos, negsuc, if◌then◌else◌, not, [], ◌∷◌, Option, none, some, Text,
  text, text_eq, trim, Result, ok, err, ◌>>=◌, throw_if, or_throw,
}
use crypto_sim_backend.Database.{FundingNetwork, FundingType, FundingStatus, same_network}
use crypto_sim_backend.Deposits.Patterns.{matches_address}
use crypto_sim_backend.Deposits.Review.{Outcome}

pub data FundingError : Type 0 where
  invalid_amount validation_error invalid_currency_network invalid_address : FundingError
  tx_hash_required duplicate_tx_hash invalid_deposit_address : FundingError
  deposit_address_unavailable deposit_allocation_expired kyc_required : FundingError
  insufficient_balance record_not_found user_not_found withdraw_only : FundingError
  already_reviewed balance_not_applicable insufficient_real_balance : FundingError
  invalid_review_action : FundingError

-- The amount that passes is positive.
abbrev pub ensure_valid_amount : Option ℤ → Result FundingError ℕ
ensure_valid_amount none = err FundingError.invalid_amount
ensure_valid_amount (some (pos n)) = if ltb 0 n then ok n else err FundingError.invalid_amount
ensure_valid_amount (some (negsuc n)) = err FundingError.invalid_amount

-- 10, in units of 10^-8.
abbrev pub min_withdraw_amount : ℕ
min_withdraw_amount = 10 * 100000000

abbrev pub ensure_valid_withdraw_amount : Option ℤ → Result FundingError (Unit {0})
ensure_valid_withdraw_amount amount = do
  n ← ensure_valid_amount amount
  throw_if (ltb n min_withdraw_amount) FundingError.invalid_amount

abbrev pub network_of : Text → Option FundingNetwork
network_of s =
    if text_eq s (text "TRC20")
    then some FundingNetwork.trc20
    else if text_eq s (text "ERC20")
    then some FundingNetwork.erc20
    else if text_eq s (text "BTC")
    then some FundingNetwork.btc
    else none

abbrev pub ensure_supported_network : Text → Result FundingError FundingNetwork
ensure_supported_network s = or_throw (network_of s) FundingError.validation_error

-- `CURRENCY_NETWORK_MAP`
abbrev pub currency_network : Text → Option FundingNetwork
currency_network s =
    if text_eq s (text "BTC")
    then some FundingNetwork.btc
    else if text_eq s (text "ETH")
    then some FundingNetwork.erc20
    else if text_eq s (text "USDC")
    then some FundingNetwork.erc20
    else if text_eq s (text "USDT")
    then some FundingNetwork.trc20
    else none

abbrev pub ensure_currency_network_match : Text → FundingNetwork → Result FundingError (Unit {0})
ensure_currency_network_match currency network = do
  expected ← or_throw (currency_network currency) FundingError.invalid_currency_network
  throw_if (not (same_network expected network)) FundingError.invalid_currency_network

abbrev pub ensure_address_for_network : Text → FundingNetwork → Result FundingError (Unit {0})
ensure_address_for_network address network =
    throw_if (not (matches_address network (trim address))) FundingError.invalid_address

-- `value?.trim()`, and `none` where nothing is left.
abbrev pub normalize_optional_text : Option Text → Option Text
normalize_optional_text none = none
normalize_optional_text (some s) = none_if_empty (trim s)

abbrev pub normalize_tx_hash : Option Text → Result FundingError Text
normalize_tx_hash hash = or_throw (normalize_optional_text hash) FundingError.tx_hash_required

-- A filter that is left out or empty selects all.
unfoldable pub parse_funding_type : Option Text → Result FundingError (Option FundingType)
parse_funding_type none = ok none
parse_funding_type (some []) = ok none
parse_funding_type (some (c ∷ s)) =
    if text_eq (c ∷ s) (text "deposit")
    then ok (some FundingType.deposit)
    else if text_eq (c ∷ s) (text "withdraw")
    then ok (some FundingType.withdraw)
    else err FundingError.validation_error

unfoldable pub parse_funding_status : Option Text → Result FundingError (Option FundingStatus)
parse_funding_status none = ok none
parse_funding_status (some []) = ok none
parse_funding_status (some (c ∷ s)) =
    if text_eq (c ∷ s) (text "pending")
    then ok (some FundingStatus.pending)
    else if text_eq (c ∷ s) (text "completed")
    then ok (some FundingStatus.completed)
    else if text_eq (c ∷ s) (text "failed")
    then ok (some FundingStatus.failed)
    else err FundingError.validation_error

abbrev pub parse_review_action : Text → Result FundingError Outcome
parse_review_action action =
    if text_eq action (text "approve")
    then ok Outcome.approve
    else if text_eq action (text "reject")
    then ok Outcome.reject
    else err FundingError.invalid_review_action
