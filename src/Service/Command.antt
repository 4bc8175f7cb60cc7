-- ===== src/Service/Command.antt =====
-- internal/application/wager_request.go and commands.go: the command of `Process` and what is parsed
-- of it. The functions of the packages that read an identifier and that hash the canonical JSON of a
-- request (encoding/json, crypto/sha256) are parameters; `none` is their error.
use junglegaming_test.Base.{
  ℕ, String, str_eq, not, Option, none, some, Result, ok, err, ◌>>=◌, ◌>>◌, fail_if, if◌then◌else◌,
}
use junglegaming_test.Decimal.{Decimal}
use junglegaming_test.Errors.{invalid_wallet_id, invalid_player_id, invalid_wager_type}
use junglegaming_test.Currency
use junglegaming_test.Money
use junglegaming_test.Wager.Kinds.{
  WagerType, opening, bet, win, loss, refund, rollback, unset, is_external,
}
use junglegaming_test.Store.{AppError, infrastructure}
use junglegaming_test.Service.Process.{WagerRequest}
use junglegaming_test.Account.{known_id, of_result}

-- `ProcessWagerCommand`
pub record ProcessWagerCommand : Type 0 where
  pub provider_id : String
  pub external_transaction_id : String
  pub idempotency_key : String
  pub wallet_id : String
  pub player_id : String
  pub round_id : String
  pub game_id : String
  pub type_text : String
  pub amount : String
  pub currency : String
  pub reference_external_transaction_id : String

-- `domain.WagerTransactionType(text)`
unfoldable pub wager_type_of : String → WagerType
wager_type_of text =
    if str_eq text "OPENING"
    then opening
    else if str_eq text "BET"
    then bet
    else if str_eq text "WIN"
    then win
    else if str_eq text "LOSS"
    then loss
    else if str_eq text "REFUND"
    then refund
    else if str_eq text "ROLLBACK"
    then rollback
    else if str_eq text ""
    then unset
    else WagerType.unknown text

-- `encoding/json` and `crypto/sha256` on a request.
unfoldable pub hashed : Option String → Result AppError String
hashed none = err (infrastructure "json")
hashed (some h) = ok h

module _ {A : Type 0} ⦃decimal : Decimal A⦄ where
  -- `parseWagerRequest`
  unfoldable pub parse_wager_request :
      (String → Option ℕ)
      → (WagerRequest A → Option String)
      → ProcessWagerCommand
      → Result AppError (WagerRequest A)
  unfolding known_id of_result wager_type_of hashed
  parse_wager_request parse_uuid hash c = do
    wallet ← of_result (known_id invalid_wallet_id (parse_uuid c.wallet_id))
    player ← of_result (known_id invalid_player_id (parse_uuid c.player_id))
    currency ← of_result (Currency.new_currency c.currency)
    amount ← of_result (Money.parse_money c.amount currency)
    of_result (fail_if (not (is_external (wager_type_of c.type_text))) invalid_wager_type)
    let request : WagerRequest A = record {
      provider_id = c.provider_id;
      external_transaction_id = c.external_transaction_id;
      idempotency_key = c.idempotency_key;
      round_id = c.round_id;
      game_id = c.game_id;
      reference_external_transaction_id = c.reference_external_transaction_id;
      wallet_id = wallet;
      player_id = player;
      transaction_type = wager_type_of c.type_text;
      amount = amount;
      payload_hash = "";
    }
    payload_hash ← hashed (hash request)
    ok (record request { payload_hash = payload_hash })
