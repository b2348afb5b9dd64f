-- ===== src/Web3Utils/Bitcoin/Transfers.antt =====
-- web3utils/bitcoin/transaction.go: the options of a transfer, and the wait for its confirmation. Rates are
-- floating-point numbers, whose tests are arguments.
use public_golibs.Common.{
  ℕ, Bool, true, false, ◌||◌, not, Option, none, some, List, [], ◌∷◌, Text, codes, if◌then◌else◌,
  is_empty, text_eq, trim_space, ◌⊎◌, inl, inr,
}
use public_golibs.Common.Int.{ℤ, pos, leb_ℤ, ltb_ℤ}
use public_golibs.Common.Words.{to_lower}
use public_golibs.Web3Utils.Bitcoin.Unspent.{is_transaction_id}

-- addressPurpose: the purpose and the name of a type of address.
unfoldable pub address_purpose : Text → Option (ℕ × Text)
address_purpose address_type =
    let kind = to_lower (trim_space address_type) in
    if text_eq kind (codes "legacy")
    then some (44, codes "legacy")
    else if text_eq kind (codes "p2sh-segwit")
    then some (49, codes "p2sh-segwit")
    else if is_empty kind || text_eq kind (codes "segwit")
    then some (84, codes "segwit")
    else if text_eq kind (codes "taproot")
    then some (86, codes "taproot")
    else none

pub record TransferCoinOptions (Rate : Type 0) : Type 0 where
  pub address_type : Text
  pub fee_rate_sat_per_vbyte : Rate
  pub fee_target_blocks : ℤ
  pub fee_rate_buffer : Rate
  pub change_address : Text
  pub include_unconfirmed : Bool
  pub verify_utxos : Bool
  pub enable_rbf : Bool
  pub randomize_change : Bool
  pub max_inputs : ℤ
  pub wait_for_confirmation : Bool
  pub confirmation_timeout_s : ℤ
  pub confirmation_poll_s : ℤ

-- Zero, the default buffer, and the tests of the signs.
pub record Numbers (Rate : Type 0) : Type 0 where
  pub zero_rate : Rate
  pub default_buffer : Rate
  pub is_positive : Rate → Bool
  pub is_negative : Rate → Bool

pub data OptionsError : Type 0 where
  unsupported_address_type negative_fee_rate : OptionsError

abbrev pub positive_or : ℤ → ℤ → ℤ
positive_or d n = if leb_ℤ n (pos 0) then d else n

module _ {Rate : Type 0} (f : Numbers Rate) where
  abbrev pub default_transfer_coin_options : TransferCoinOptions Rate
  default_transfer_coin_options = record {
    address_type = codes "segwit";
    fee_rate_sat_per_vbyte = f.zero_rate;
    fee_target_blocks = pos 3;
    fee_rate_buffer = f.default_buffer;
    change_address = [];
    include_unconfirmed = false;
    verify_utxos = true;
    enable_rbf = true;
    randomize_change = true;
    max_inputs = pos 100;
    wait_for_confirmation = false;
    confirmation_timeout_s = pos 1800;
    confirmation_poll_s = pos 10;
  }

  abbrev pub with_kind :
      TransferCoinOptions Rate → Option (ℕ × Text) → TransferCoinOptions Rate ⊎ OptionsError
  with_kind options none = inr unsupported_address_type
  with_kind options (some (purpose, kind)) =
      if f.is_negative options.fee_rate_sat_per_vbyte
      then inr negative_fee_rate
      else inl (record options {
        address_type = kind;
        fee_target_blocks = positive_or (pos 3) options.fee_target_blocks;
        fee_rate_buffer =
            if f.is_positive options.fee_rate_buffer
            then options.fee_rate_buffer
            else f.default_buffer;
        max_inputs = positive_or (pos 100) options.max_inputs;
        confirmation_timeout_s = positive_or (pos 1800) options.confirmation_timeout_s;
        confirmation_poll_s = positive_or (pos 10) options.confirmation_poll_s;
      })

  unfoldable pub normalize_transfer_coin_options :
      Option (TransferCoinOptions Rate) → TransferCoinOptions Rate ⊎ OptionsError
  unfolding address_purpose
  normalize_transfer_coin_options none = inl default_transfer_coin_options
  normalize_transfer_coin_options (some options) =
      with_kind options (address_purpose options.address_type)

pub record EsploraStatus : Type 0 where
  pub confirmed : Bool
  pub block_height : ℤ
  pub block_hash : Text
  pub block_time : ℤ

-- What the map of a transaction's status has.
pub record StatusMap : Type 0 where
  pub transaction_hash : Text
  pub is_confirmed : Bool
  pub height : Option ℤ
  pub hash : Option Text
  pub time : Option ℤ

abbrev positive_only : ℤ → Option ℤ
positive_only n = if ltb_ℤ (pos 0) n then some n else none

unfoldable pub transaction_status_map : Text → Option EsploraStatus → StatusMap
transaction_status_map tx_hash none = record {
  transaction_hash = to_lower tx_hash;
  is_confirmed = false;
  height = none;
  hash = none;
  time = none;
}
transaction_status_map tx_hash (some s) = record {
  transaction_hash = to_lower tx_hash;
  is_confirmed = s.confirmed;
  height = positive_only s.block_height;
  hash = if is_empty s.block_hash then none else some s.block_hash;
  time = positive_only s.block_time;
}

-- A round of the loop: the answer of the service, and whether the time is over behind it.
pub record Poll : Type 0 where
  pub answer : EsploraStatus ⊎ Text
  pub over : Bool

pub data WaitError : Type 0 where
  no_api_url invalid_transaction_id confirmation_timeout : WaitError
  service_error : Text → WaitError

-- Confirmed or not, with the status; there is none where the polls end before the loop does.
pub data Waited : Type 0 where
  confirmed_with : StatusMap → Waited
  gave_up : Option StatusMap → WaitError → Waited
  polling : Waited

abbrev pub on_poll :
    Text
    → Option EsploraStatus
    → EsploraStatus ⊎ Text
    → Bool
    → (Option EsploraStatus → Waited)
    → Waited
on_poll tx_hash last (inl s) over next =
    if s.confirmed
    then confirmed_with (transaction_status_map tx_hash (some s))
    else if over
    then gave_up (some (transaction_status_map tx_hash (some s))) confirmation_timeout
    else next (some s)
on_poll tx_hash last (inr e) over next =
    if over
    then gave_up (some (transaction_status_map tx_hash last)) (service_error e)
    else next last

unfoldable pub poll_status : Text → Option EsploraStatus → List Poll → Waited
unfolding transaction_status_map
poll_status tx_hash last [] = polling
poll_status tx_hash last (p ∷ polls) =
    on_poll tx_hash last p.answer p.over (λ seen. poll_status tx_hash seen polls)

unfoldable pub wait_for_transaction_receipt : Bool → Text → List Poll → Waited
unfolding poll_status is_transaction_id
wait_for_transaction_receipt connected tx_hash polls =
    if not connected
    then gave_up none no_api_url
    else if not (is_transaction_id tx_hash)
    then gave_up none invalid_transaction_id
    else poll_status tx_hash none polls
