-- ===== src/Gas/Constants.antt =====
-- crates/interpreter/src/gas/constants.rs.
use baron_evm.Base.{ℕ, ◌-◌}

abbrev pub verylow : ℕ
verylow = 3

abbrev pub create : ℕ
create = 32000

abbrev pub callvalue : ℕ
callvalue = 9000

abbrev pub newaccount : ℕ
newaccount = 25000

abbrev pub exp : ℕ
exp = 10

abbrev pub memory : ℕ
memory = 3

abbrev pub log : ℕ
log = 375

abbrev pub logdata : ℕ
logdata = 8

abbrev pub logtopic : ℕ
logtopic = 375

abbrev pub keccak256 : ℕ
keccak256 = 30

abbrev pub keccak256word : ℕ
keccak256word = 6

abbrev pub copy : ℕ
copy = 3

abbrev pub instanbul_sload_gas : ℕ
instanbul_sload_gas = 800

abbrev pub sstore_set : ℕ
sstore_set = 20000

abbrev pub sstore_reset : ℕ
sstore_reset = 5000

abbrev pub refund_sstore_clears : ℕ
refund_sstore_clears = 15000

abbrev pub transaction_zero_data : ℕ
transaction_zero_data = 4

abbrev pub access_list_address : ℕ
access_list_address = 2400

abbrev pub access_list_storage_key : ℕ
access_list_storage_key = 1900

abbrev pub cold_sload_cost : ℕ
cold_sload_cost = 2100

abbrev pub cold_account_access_cost : ℕ
cold_account_access_cost = 2600

abbrev pub warm_storage_read_cost : ℕ
warm_storage_read_cost = 100

abbrev pub warm_sstore_reset : ℕ
warm_sstore_reset = sstore_reset - cold_sload_cost

abbrev pub initcode_word_cost : ℕ
initcode_word_cost = 2

abbrev pub call_stipend : ℕ
call_stipend = 2300
