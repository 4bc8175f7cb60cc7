-- ===== src/Tests/Lookup.antt =====
-- A bet that its provider looks up.
use junglegaming_test.Base.{◌≡◌, refl, none, some, [], ◌∷◌, is_blank}
use junglegaming_test.Base.Int.{ℤ}
use junglegaming_test.Decimal.Scaled.{scaled, scaled_laws, parse, require}
use junglegaming_test.Currency
use junglegaming_test.Money
use junglegaming_test.Wager.Kinds.{
  is_external, requires_reference, allows_reference, is_terminal, is_valid_status, is_valid_type,
}
use junglegaming_test.Wager.State.{
  is_valid_identifier, validate_external_reference, validate_wager_amount,
}
use junglegaming_test.Wager.Create.{validate_external_wager}
use junglegaming_test.Wager.Rehydrate.{
  rehydrate, validate_rehydrated_wager, validate_rehydrated_external, validate_state,
  validate_persisted_reference,
}
use junglegaming_test.Store.{Store, statement, lift, raise_if}
use junglegaming_test.Store.Wagers.{read_rows, find_row, scan_wager, find_by_external_id}
use junglegaming_test.Store.Ledger.{read_money}
use junglegaming_test.Store.Columns.{scan_columns, scanned_params, nullable_money}
use junglegaming_test.Store.Retries.{find_by_id}
use junglegaming_test.Store.Opening.{required}
use junglegaming_test.Account.{known_id}
use junglegaming_test.Account.Creation.{answer}
use junglegaming_test.Service.Lookup.{
  shown_to, wager_result, get_by_id, get_by_external_transaction_id, get_by_id-own,
  get_by_external_transaction_id-own,
}
use junglegaming_test.Tests.Wager.{pending_bet}
use junglegaming_test.Tests.Service.{opened, calm}

abbrev with_bet : Store ℤ
with_bet = record opened {
  wagers =
      record {
        transaction = pending_bet;
        retry_count = 0;
        next_attempt_at = none;
        expires_at = none;
        correlation_id = "";
        causation_id = "";
      }
      ∷ [];
}

abbrev seen : Store ℤ
seen = record with_bet { steps = 1 }

get_by_id-own_example : pending_bet.provider_id ≡ "prov"
unfolding wager_result get_by_id answer known_id find_by_id required shown_to raise_if statement
    lift read_rows find_row scan_wager scan_columns nullable_money scanned_params read_money
    Currency.new_currency Money.new_money Money.is_negative rehydrate validate_rehydrated_wager
    validate_rehydrated_external validate_state validate_persisted_reference is_valid_type
    is_valid_status is_external requires_reference allows_reference is_terminal is_valid_identifier
    validate_external_reference validate_wager_amount validate_external_wager Money.is_valid
    Money.is_amount_in_range Money.is_positive Currency.is_valid parse require is_blank
get_by_id-own_example =
    get_by_id-own ⦃env = calm 0⦄ (λ s. some 100) "prov" "w" with_bet seen (wager_result pending_bet)
      refl

get_by_external_transaction_id-own_example :
    (pending_bet.provider_id ≡ "prov") × (pending_bet.external_transaction_id ≡ "x-1")
unfolding wager_result get_by_external_transaction_id find_by_external_id required raise_if
    statement lift read_rows find_row scan_wager scan_columns nullable_money scanned_params
    read_money Currency.new_currency Money.new_money Money.is_negative rehydrate
    validate_rehydrated_wager validate_rehydrated_external validate_state
    validate_persisted_reference is_valid_type is_valid_status is_external requires_reference
    allows_reference is_terminal is_valid_identifier validate_external_reference
    validate_wager_amount validate_external_wager Money.is_valid Money.is_amount_in_range
    Money.is_positive Currency.is_valid parse require is_blank
get_by_external_transaction_id-own_example =
    get_by_external_transaction_id-own ⦃env = calm 0⦄ "prov" "x-1" with_bet seen
      (wager_result pending_bet) refl
