-- ===== src/Store/Wagers.antt =====
-- internal/infrastructure/postgres/wager_repository.go: the statements on transactions, with the
-- unique indexes and the foreign key that the code handles errors of. A type that is no constant
-- and a status that is none do not occur in a column, whose type is an enumeration. The empty text
-- and the nil uuid are NULL in a column, which equals nothing.
use junglegaming_test.Base.{
  ℕ, ◌==◌, String, str_eq, Bool, true, false, not, ◌&&◌, ◌||◌, Option, none, some, List, [], ◌∷◌,
  ok, err, if◌then◌else◌,
}
use junglegaming_test.Decimal.{Decimal}
use junglegaming_test.Currency
use junglegaming_test.Wallet.{Wallet}
use junglegaming_test.Wager.Kinds.{is_opening, is_processed, requires_reference}
use junglegaming_test.Wager.State.{WagerTransaction}
use junglegaming_test.Store.Columns.{columns_of, scan_columns}
use junglegaming_test.Store.Events.{CommandMetadata}
use junglegaming_test.Store.{
  WagerRow, Environment, Action, infrastructure, invalid_wallet_reference, not_found, pure,
  raise_if, lift, statement, ◌>>=◌, ◌>>◌,
}

module _ {A : Type 0} where
  unfoldable pub any_row : (WagerRow A → Bool) → List (WagerRow A) → Bool
  any_row test [] = false
  any_row test (r ∷ rs) = test r || any_row test rs

  unfoldable pub find_row : (WagerRow A → Bool) → List (WagerRow A) → Option (WagerRow A)
  find_row test [] = none
  find_row test (r ∷ rs) = let rest = find_row test rs in if test r then some r else rest

  unfoldable pub update_rows :
      (WagerRow A → Bool) → (WagerRow A → WagerRow A) → List (WagerRow A) → List (WagerRow A)
  update_rows test f [] = []
  update_rows test f (r ∷ rs) =
      let rest = update_rows test f rs in if test r then f r ∷ rest else r ∷ rest

  -- `WHERE id = $1`
  abbrev pub has_id : ℕ → WagerRow A → Bool
  has_id id r = r.transaction.id == id

  -- `WHERE provider_id = $1 AND external_transaction_id = $2`
  abbrev pub has_external_id : String → String → WagerRow A → Bool
  has_external_id provider external r =
      not (str_eq r.transaction.provider_id "")
      && str_eq r.transaction.provider_id provider
      && str_eq r.transaction.external_transaction_id external

  -- `WHERE provider_id = $1 AND idempotency_key = $2`
  abbrev pub has_key : String → String → WagerRow A → Bool
  has_key provider key r =
      not (str_eq r.transaction.provider_id "")
      && str_eq r.transaction.provider_id provider
      && str_eq r.transaction.idempotency_key key

  -- The rows that `INSERT ... ON CONFLICT DO NOTHING` of transaction `w` conflicts with.
  unfoldable pub conflicts : WagerTransaction A → WagerRow A → Bool
  conflicts w r =
      has_id w.id r
      || (if is_opening w.transaction_type
          then is_opening r.transaction.transaction_type && r.transaction.wallet_id == w.wallet_id
          else not (is_opening r.transaction.transaction_type)
            && (has_external_id w.provider_id w.external_transaction_id r
                || has_key w.provider_id w.idempotency_key r))

  -- A processed refund or rollback of the transaction `reference`.
  unfoldable pub is_reversal_of : ℕ → WagerTransaction A → Bool
  is_reversal_of reference w =
      not (w.reference_transaction_id == 0)
      && w.reference_transaction_id == reference
      && is_processed w.status
      && requires_reference w.transaction_type

  -- The unique index `uq_wager_transactions_successful_reversal`.
  unfoldable pub reverses_again : WagerTransaction A → WagerRow A → Bool
  unfolding is_reversal_of
  reverses_again w r =
      not (has_id w.id r)
      && is_reversal_of w.reference_transaction_id w
      && is_reversal_of w.reference_transaction_id r.transaction

  -- The columns that `Update` sets.
  unfoldable pub updated_wager : WagerTransaction A → WagerRow A → WagerRow A
  updated_wager w r = record {
    transaction = record r.transaction {
      reference_transaction_id = w.reference_transaction_id;
      reference_transaction_type = w.reference_transaction_type;
      status = w.status;
      failure_code = w.failure_code;
      failure_message = w.failure_message;
      balance_before = w.balance_before;
      balance_after = w.balance_after;
      updated_at = w.updated_at;
      completed_at = w.completed_at;
    };
    retry_count = 0;
    next_attempt_at = none;
    expires_at = none;
    correlation_id = "";
    causation_id = "";
  }

  -- The columns that `UpdatePendingReference` sets.
  unfoldable pub waiting_wager :
      WagerTransaction A → ℕ → ℕ → CommandMetadata → WagerRow A → WagerRow A
  waiting_wager w next_attempt_at expires_at metadata r = record {
    transaction = record r.transaction { status = w.status; updated_at = w.updated_at };
    retry_count = 0;
    next_attempt_at = some next_attempt_at;
    expires_at = some expires_at;
    correlation_id = metadata.correlation_id;
    causation_id = metadata.causation_id;
  }

  -- The foreign key `fk_wager_transactions_wallet_currency`.
  unfoldable pub names_wallet : WagerTransaction A → Option (Wallet A) → Bool
  names_wallet w none = false
  names_wallet w (some row) = Currency.equal row.balance.currency w.amount.currency

  unfoldable pub read_rows : Action A (List (WagerRow A))
  read_rows s = ok (s.wagers, s)

  unfoldable pub write_rows : List (WagerRow A) → Action A (Unit {0})
  write_rows rows s = ok (tt, record s { wagers = rows })

  -- The insertion where no row conflicts.
  unfoldable pub insert_wager : WagerTransaction A → Action A Bool
  unfolding names_wallet
  insert_wager w s =
      if names_wallet w (s.wallets w.wallet_id)
      then ok (
        true,
        record s {
          wagers =
              record {
                transaction = w;
                retry_count = 0;
                next_attempt_at = none;
                expires_at = none;
                correlation_id = "";
                causation_id = "";
              }
              ∷ s.wagers;
        },
      )
      else err invalid_wallet_reference

module _ {A : Type 0} ⦃decimal : Decimal A⦄ where
  -- `scanWager`; no row is `ErrNotFound`.
  unfoldable pub scan_wager : Option (WagerRow A) → Action A (Option (WagerTransaction A))
  unfolding scan_columns
  scan_wager none = pure none
  scan_wager (some r) = do w ← lift (scan_columns (columns_of r.transaction)); pure (some w)

module _ {A : Type 0} ⦃decimal : Decimal A⦄ ⦃env : Environment⦄ where
  -- `WagerRepository.Create`; `false` is `ErrAlreadyExists`.
  unfoldable pub create_wager : WagerTransaction A → Action A Bool
  unfolding statement any_row conflicts insert_wager read_rows
  create_wager w = do
    statement
    rows ← read_rows
    (if any_row (conflicts w) rows then pure false else insert_wager w)

  -- `WagerRepository.Update`
  unfoldable pub update_wager : WagerTransaction A → Action A (Unit {0})
  unfolding statement raise_if any_row update_rows updated_wager reverses_again read_rows write_rows
  update_wager w = do
    statement
    rows ← read_rows
    raise_if (any_row (reverses_again w) rows) (infrastructure "23505")
    raise_if (not (any_row (has_id w.id) rows)) not_found
    write_rows (update_rows (has_id w.id) (updated_wager w) rows)

  -- `WagerRepository.UpdatePendingReference`
  unfoldable pub update_pending_reference :
      WagerTransaction A → ℕ → ℕ → CommandMetadata → Action A (Unit {0})
  unfolding statement raise_if any_row update_rows waiting_wager read_rows write_rows
  update_pending_reference w next_attempt_at expires_at metadata = do
    statement
    rows ← read_rows
    raise_if (not (any_row (has_id w.id) rows)) not_found
    write_rows
        (update_rows (has_id w.id) (waiting_wager w next_attempt_at expires_at metadata) rows)

  -- `WagerRepository.FindByProviderAndExternalTransactionID`
  unfoldable pub find_by_external_id : String → String → Action A (Option (WagerTransaction A))
  unfolding statement find_row scan_wager read_rows
  find_by_external_id provider external = do
    statement
    rows ← read_rows
    scan_wager (find_row (has_external_id provider external) rows)

  -- `WagerRepository.FindByProviderAndIdempotencyKey`
  unfoldable pub find_by_key : String → String → Action A (Option (WagerTransaction A))
  unfolding statement find_row scan_wager read_rows
  find_by_key provider key = do
    statement
    rows ← read_rows
    scan_wager (find_row (has_key provider key) rows)

  -- `WagerRepository.HasProcessedDirectReversal`
  unfoldable pub has_processed_reversal : ℕ → Action A Bool
  unfolding statement any_row is_reversal_of read_rows
  has_processed_reversal reference = do
    statement
    rows ← read_rows
    pure (any_row (λ r. is_reversal_of reference r.transaction) rows)
