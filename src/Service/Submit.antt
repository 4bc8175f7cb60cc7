-- ===== src/Service/Submit.antt =====
-- internal/application/wager_service.go: `Process` on its command.
use junglegaming_test.Base.{ℕ, String, Option, Result, ok, err, is_blank}
use junglegaming_test.Decimal.{Decimal}
use junglegaming_test.Backoff.{ReferenceRetryPolicy}
use junglegaming_test.Store.Events.{CommandMetadata}
use junglegaming_test.Store.{
  Environment, Action, AppError, invalid_correlation_id, raise, raise_if, ◌>>◌,
}
use junglegaming_test.Service.{ProcessResult}
use junglegaming_test.Service.Process.{WagerRequest, process}
use junglegaming_test.Service.Command.{ProcessWagerCommand, parse_wager_request}

module _ {A : Type 0} ⦃decimal : Decimal A⦄ ⦃env : Environment⦄ where
  -- `Process` on the outcome of `parseWagerRequest`.
  unfoldable pub process_parsed :
      ReferenceRetryPolicy
      → CommandMetadata
      → Result AppError (WagerRequest A)
      → Action A (ProcessResult A)
  unfolding process
  process_parsed policy metadata (err e) = raise e
  process_parsed policy metadata (ok r) = process policy r metadata

  -- `Process`
  unfoldable pub process_command :
      (String → Option ℕ)
      → (WagerRequest A → Option String)
      → ReferenceRetryPolicy
      → ProcessWagerCommand
      → CommandMetadata
      → Action A (ProcessResult A)
  unfolding process_parsed raise_if parse_wager_request
  process_command parse_uuid hash policy command metadata = do
    raise_if (is_blank metadata.correlation_id) invalid_correlation_id
    process_parsed policy metadata (parse_wager_request parse_uuid hash command)
