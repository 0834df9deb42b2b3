-- ===== src/Deposits/Addresses.antt =====
-- The administrator's part: `create`, `update`, `remove`, `findByAddress`, `getById`, and the risk
-- check of an address, whose page is an argument.
use crypto_sim_backend.Common.{
  ℕ, ℤ, pos, ltb, ◌==◌, if◌then◌else◌, Bool, true, false, not, List, [], ◌∷◌, find?, Option, none,
  some, get_or, Text, text, text_eq, trim, strip_prefix, Result, ok, err, ◌>>=◌, ◌>>◌, throw_if,
  or_throw,
}
use crypto_sim_backend.Common.Table.{find_unique, update, delete}
use crypto_sim_backend.Database.{
  Database, DepositAddress, DepositAddressRisk, address_key, FundingNetwork, DepositAllocation,
}
use crypto_sim_backend.Deposits.Patterns.{matches_address}

pub data DepositError : Type 0 where
  address_exists address_not_found has_pending : DepositError
  invalid_range invalid_address no_available_address : DepositError

pub record CreateDepositAddressDto : Type 0 where
  pub network : Option FundingNetwork
  pub address : Text
  pub qr_code_url : Text
  pub min_amount : ℕ
  pub max_amount : Option ℕ
  pub capacity : Option ℕ
  pub enabled : Option Bool
  pub sort_order : Option ℕ

-- A field that may be left out, set to null, or set to a value.
pub data Field {ℓ} (A : Type ℓ) : Type ℓ where
  left_out null : Field A
  value : A → Field A

pub record UpdateDepositAddressDto : Type 0 where
  pub qr_code_url : Option Text
  pub min_amount : Option ℕ
  pub max_amount : Field ℕ
  pub capacity : Field ℕ
  pub enabled : Option Bool
  pub sort_order : Option ℕ

abbrev pub has_address : Text → DepositAddress → Bool
has_address s a = text_eq a.address s

abbrev pub find_by_address : Text → List DepositAddress → Option DepositAddress
find_by_address s addresses = find? (has_address s) addresses

abbrev pub validate_range : ℕ → Option ℕ → Result DepositError (Unit {0})
validate_range low none = ok tt
validate_range low (some high) = throw_if (ltb high low) DepositError.invalid_range

unfoldable pub validate_address_for_network : Text → FundingNetwork → Result DepositError (Unit {0})
validate_address_for_network address network =
    throw_if (not (matches_address network (trim address))) DepositError.invalid_address

abbrev pub insert_address :
    DepositAddress → Database → Result DepositError (DepositAddress × Database)
insert_address a db = elim (find_by_address a.address db.deposit_addresses) [
  | some old ↦ err DepositError.address_exists
  | none ↦ ok (a, record db { deposit_addresses = a ∷ db.deposit_addresses })
]

abbrev pub new_address : ℕ → ℕ → CreateDepositAddressDto → DepositAddress
new_address now id dto = record {
  id = id;
  network = get_or dto.network FundingNetwork.trc20;
  address = trim dto.address;
  qr_code_url = dto.qr_code_url;
  min_amount = dto.min_amount;
  max_amount = dto.max_amount;
  capacity = dto.capacity;
  used_amount = pos 0;
  pending_amount = pos 0;
  enabled = get_or dto.enabled true;
  risk_status = DepositAddressRisk.unknown;
  sort_order = get_or dto.sort_order 0;
  created_at = now;
}

unfoldable pub create :
    ℕ → ℕ → CreateDepositAddressDto → Database → Result DepositError (DepositAddress × Database)
create now id dto db = do
  validate_range dto.min_amount dto.max_amount
  validate_address_for_network dto.address (get_or dto.network FundingNetwork.trc20)
  insert_address (new_address now id dto) db

abbrev pub set_field {ℓ} : {A : Type ℓ} → Field A → Option A → Option A
set_field left_out old = old
set_field null old = none
set_field (value a) old = some a

abbrev pub updated_address : UpdateDepositAddressDto → DepositAddress → DepositAddress
updated_address dto a = record a {
  qr_code_url = get_or dto.qr_code_url a.qr_code_url;
  min_amount = get_or dto.min_amount a.min_amount;
  max_amount = set_field dto.max_amount a.max_amount;
  capacity = set_field dto.capacity a.capacity;
  enabled = get_or dto.enabled a.enabled;
  sort_order = get_or dto.sort_order a.sort_order;
}

unfoldable pub update_address :
    ℕ → UpdateDepositAddressDto → Database → Result DepositError (DepositAddress × Database)
update_address id dto db = do
  a ← or_throw (find_unique address_key id db.deposit_addresses) DepositError.address_not_found
  validate_range (get_or dto.min_amount a.min_amount) (set_field dto.max_amount a.max_amount)
  let row = updated_address dto a
  ok (row, record db { deposit_addresses = update address_key id (λ _. row) db.deposit_addresses })

abbrev pub is_zero : ℤ → Bool
is_zero (pos n) = n == 0
is_zero _ = false

-- The allocations of a deleted address go with it.
abbrev pub drop_allocations : ℕ → List DepositAllocation → List DepositAllocation
drop_allocations id [] = []
drop_allocations id (l ∷ ls) =
    let rest = drop_allocations id ls in if l.address_id == id then rest else l ∷ rest

unfoldable pub remove : ℕ → Database → Result DepositError Database
remove id db = do
  a ← or_throw (find_unique address_key id db.deposit_addresses) DepositError.address_not_found
  throw_if (not (is_zero a.pending_amount)) DepositError.has_pending
  ok (record db {
    deposit_addresses = delete address_key id db.deposit_addresses;
    deposit_allocations = drop_allocations id db.deposit_allocations;
  })

unfoldable pub get_by_id : ℕ → Database → Result DepositError DepositAddress
get_by_id id db =
    or_throw (find_unique address_key id db.deposit_addresses) DepositError.address_not_found

-- `body.includes(keyword)`
unfoldable pub includes_text : Text → Text → Bool
includes_text keyword [] = elim (strip_prefix keyword []) [ none ↦ false | some s ↦ true ]
includes_text keyword (c ∷ s) =
    let later = includes_text keyword s in
    elim (strip_prefix keyword (c ∷ s)) [ none ↦ later | some r ↦ true ]

abbrev pub risk_of_body : Text → DepositAddressRisk
risk_of_body body =
    if includes_text (text "该地址被举报") body then DepositAddressRisk.risky else DepositAddressRisk.safe

abbrev pub write_risk : ℕ → DepositAddressRisk → Database → Database
write_risk id risk db = record db {
  deposit_addresses =
      update address_key id (λ a. record a { risk_status = risk }) db.deposit_addresses;
}

-- `body` is `none` where the page cannot be fetched.
unfoldable pub check_one :
    ℕ → FundingNetwork → Option Text → Database → DepositAddressRisk × Database
check_one id FundingNetwork.trc20 none db = (DepositAddressRisk.unknown, db)
check_one id FundingNetwork.trc20 (some body) db =
    (risk_of_body body, write_risk id (risk_of_body body) db)
check_one id FundingNetwork.erc20 body db = (DepositAddressRisk.unknown, db)
check_one id FundingNetwork.btc body db = (DepositAddressRisk.unknown, db)

-- `runScheduled`: the enabled addresses of TRC20, as the query gave them.
unfoldable pub check_each : (Text → Option Text) → List DepositAddress → Database → Database
check_each page [] db = db
check_each page (a ∷ rest) db =
    check_each page rest (check_one a.id a.network (page a.address) db).1
