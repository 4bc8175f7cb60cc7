-- ===== src/Store/Columns.antt =====
-- internal/infrastructure/postgres/wager_repository.go: the columns that `Create` and `Update` write
-- for a transaction, and `scanWager`. A NUMERIC column holds the number that the text of an amount
-- spells, and is read as a text that spells it. The CHECK constraints of
-- migrations/000004_add_wager_transaction_constraints.up.sql are not modelled: a statement that one
-- of them refuses succeeds here.
use junglegaming_test.Base.{
  ℕ, String, str_eq, ◌==◌, Option, none, some, Result, ok, ◌>>=◌, if◌then◌else◌,
}
use junglegaming_test.Decimal.{Decimal}
use junglegaming_test.Errors.{DomainError}
use junglegaming_test.Currency
use junglegaming_test.Currency.{Currency}
use junglegaming_test.Money.{Money}
use junglegaming_test.Wager.Kinds.{WagerType, unset, is_unset, Status}
use junglegaming_test.Wager.State.{WagerTransaction}
use junglegaming_test.Wager.Rehydrate.{RehydrateParams, rehydrate}
use junglegaming_test.Store.Ledger.{read_money}

-- A row of `wager_transactions`; NULL is `none`.
pub record WagerColumns (A : Type 0) : Type 0 where
  pub id : ℕ
  pub provider_id : Option String
  pub external_transaction_id : Option String
  pub idempotency_key : Option String
  pub payload_hash : Option String
  pub wallet_id : ℕ
  pub player_id : ℕ
  pub round_id : Option String
  pub game_id : Option String
  pub transaction_type : WagerType
  pub amount : A
  pub currency : String
  pub reference_external_transaction_id : Option String
  pub reference_transaction_id : Option ℕ
  pub reference_transaction_type : Option WagerType
  pub status : Status
  pub failure_code : Option String
  pub failure_message : Option String
  pub balance_before : Option A
  pub balance_after : Option A
  pub created_at : ℕ
  pub updated_at : ℕ
  pub completed_at : Option ℕ

abbrev pub nullable_string : String → Option String
nullable_string value = if str_eq value "" then none else some value

abbrev pub nullable_uuid : ℕ → Option ℕ
nullable_uuid value = if value == 0 then none else some value

abbrev pub nullable_wager_type : WagerType → Option WagerType
nullable_wager_type value = if is_unset value then none else some value

abbrev pub string_value : Option String → String
string_value none = ""
string_value (some value) = value

abbrev pub uuid_value : Option ℕ → ℕ
uuid_value none = 0
uuid_value (some value) = value

-- The type that `stringValue` spells.
abbrev pub type_value : Option WagerType → WagerType
type_value none = unset
type_value (some value) = value

module _ {A : Type 0} where
  -- `wagerBalanceBefore` and `wagerBalanceAfter`
  abbrev pub balance_column : Option (Money A) → Option A
  balance_column none = none
  balance_column (some money) = some money.amount

  -- The arguments of the statement of `Create`.
  abbrev pub columns_of : WagerTransaction A → WagerColumns A
  columns_of w = record {
    id = w.id;
    provider_id = nullable_string w.provider_id;
    external_transaction_id = nullable_string w.external_transaction_id;
    idempotency_key = nullable_string w.idempotency_key;
    payload_hash = nullable_string w.payload_hash;
    wallet_id = w.wallet_id;
    player_id = w.player_id;
    round_id = nullable_string w.round_id;
    game_id = nullable_string w.game_id;
    transaction_type = w.transaction_type;
    amount = w.amount.amount;
    currency = w.amount.currency.code;
    reference_external_transaction_id = nullable_string w.reference_external_transaction_id;
    reference_transaction_id = nullable_uuid w.reference_transaction_id;
    reference_transaction_type = nullable_wager_type w.reference_transaction_type;
    status = w.status;
    failure_code = nullable_string w.failure_code;
    failure_message = nullable_string w.failure_message;
    balance_before = balance_column w.balance_before;
    balance_after = balance_column w.balance_after;
    created_at = w.created_at;
    updated_at = w.updated_at;
    completed_at = w.completed_at;
  }

module _ {A : Type 0} ⦃decimal : Decimal A⦄ where
  -- `nullableMoney`
  unfoldable pub nullable_money : Option A → Currency → Result DomainError (Option (Money A))
  unfolding read_money
  nullable_money none currency = ok none
  nullable_money (some amount) currency = do money ← read_money amount currency; ok (some money)

  -- The parameters that `scanWager` passes on.
  unfoldable pub scanned_params :
      WagerColumns A → Money A → Option (Money A) → Option (Money A) → RehydrateParams A
  scanned_params c amount before after = record {
    id = c.id;
    provider_id = string_value c.provider_id;
    external_transaction_id = string_value c.external_transaction_id;
    idempotency_key = string_value c.idempotency_key;
    payload_hash = string_value c.payload_hash;
    wallet_id = c.wallet_id;
    player_id = c.player_id;
    round_id = string_value c.round_id;
    game_id = string_value c.game_id;
    transaction_type = c.transaction_type;
    amount = amount;
    reference_external_transaction_id = string_value c.reference_external_transaction_id;
    reference_transaction_id = uuid_value c.reference_transaction_id;
    reference_transaction_type = type_value c.reference_transaction_type;
    status = c.status;
    failure_code = string_value c.failure_code;
    failure_message = string_value c.failure_message;
    balance_before = before;
    balance_after = after;
    created_at = c.created_at;
    updated_at = c.updated_at;
    completed_at = c.completed_at;
  }

  -- `scanWager` on a row.
  unfoldable pub scan_columns : WagerColumns A → Result DomainError (WagerTransaction A)
  unfolding nullable_money scanned_params read_money
  scan_columns c = do
    currency ← Currency.new_currency c.currency
    amount ← read_money c.amount currency
    before ← nullable_money c.balance_before currency
    after ← nullable_money c.balance_after currency
    rehydrate (scanned_params c amount before after)
