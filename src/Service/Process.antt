-- ===== src/Service/Process.antt =====
-- internal/application/wager_service.go: `Process`, from the parsed request on.
use junglegaming_test.Base.{
  ℕ, String, str_eq, true, not, Option, none, some, is_blank, if◌then◌else◌,
}
use junglegaming_test.Decimal.{Decimal}
use junglegaming_test.Money.{Money}
use junglegaming_test.Wallet.{Wallet}
use junglegaming_test.Wager.Kinds.{WagerType}
use junglegaming_test.Wager.State.{WagerTransaction, NewExternalParams}
use junglegaming_test.Wager.Create.{new_external}
use junglegaming_test.Backoff.{ReferenceRetryPolicy}
use junglegaming_test.Store.Events.{CommandMetadata}
use junglegaming_test.Store.{
  Environment, Action, invalid_correlation_id, idempotency_conflict, external_transaction_conflict,
  already_exists, pure, raise, raise_if, lift, clock_now, new_uuid, ◌>>=◌, ◌>>◌,
}
use junglegaming_test.Store.Wagers.{create_wager, find_by_external_id, find_by_key}
use junglegaming_test.Service.{
  ProcessResult, ReferenceOutcome, available, unavailable, refused, resolve, reject,
  wait_for_reference, settle, lock_wallet,
}

-- `wagerRequest`, with the fields of its command.
pub record WagerRequest (A : Type 0) : Type 0 where
  pub provider_id : String
  pub external_transaction_id : String
  pub idempotency_key : String
  pub round_id : String
  pub game_id : String
  pub reference_external_transaction_id : String
  pub wallet_id : ℕ
  pub player_id : ℕ
  pub transaction_type : WagerType
  pub amount : Money A
  pub payload_hash : String

module _ {A : Type 0} where
  -- The parameters of `newTransaction`.
  unfoldable pub params_of : WagerRequest A → ℕ → ℕ → NewExternalParams A
  params_of r id created_at = record {
    id = id;
    provider_id = r.provider_id;
    external_transaction_id = r.external_transaction_id;
    idempotency_key = r.idempotency_key;
    payload_hash = r.payload_hash;
    wallet_id = r.wallet_id;
    player_id = r.player_id;
    round_id = r.round_id;
    game_id = r.game_id;
    transaction_type = r.transaction_type;
    amount = r.amount;
    reference_external_transaction_id = r.reference_external_transaction_id;
    created_at = created_at;
  }

  -- `resolveExistingTransaction` on the row of the idempotency key, that of the external
  -- identifier following.
  unfoldable pub replay : WagerRequest A → WagerTransaction A → Action A (ProcessResult A)
  unfolding raise_if
  replay r existing = do
    raise_if (not (str_eq existing.payload_hash r.payload_hash)) idempotency_conflict
    pure (record { transaction = existing; idempotent_replay = true })

  unfoldable pub conflict : Option (WagerTransaction A) → Action A (ProcessResult A)
  conflict (some other) = raise external_transaction_conflict
  conflict none = raise already_exists

module _ {A : Type 0} ⦃decimal : Decimal A⦄ ⦃env : Environment⦄ where
  -- `resolveExistingTransaction` where the idempotency key has no row.
  unfoldable pub resolve_conflict : WagerRequest A → Action A (ProcessResult A)
  unfolding conflict
  resolve_conflict r = do
    other ← find_by_external_id r.provider_id r.external_transaction_id
    conflict other

  unfoldable pub resolve_found :
      WagerRequest A → Option (WagerTransaction A) → Action A (ProcessResult A)
  unfolding replay resolve_conflict
  resolve_found r (some existing) = replay r existing
  resolve_found r none = resolve_conflict r

  -- `resolveExistingTransaction`
  unfoldable pub resolve_existing : WagerRequest A → Action A (ProcessResult A)
  unfolding resolve_found
  resolve_existing r = do
    existing ← find_by_key r.provider_id r.idempotency_key
    resolve_found r existing

  -- `processNew` on the outcome of the reference.
  unfoldable pub process_outcome :
      ReferenceRetryPolicy
      → Wallet A
      → WagerTransaction A
      → CommandMetadata
      → ℕ
      → ReferenceOutcome A
      → Action A (ProcessResult A)
  unfolding reject wait_for_reference settle
  process_outcome policy wallet w metadata now (available resolved) =
      settle wallet resolved metadata now
  process_outcome policy wallet w metadata now unavailable =
      wait_for_reference policy w metadata now
  process_outcome policy wallet w metadata now (refused rejection) = reject w rejection metadata now

  unfoldable pub process_referring :
      ReferenceRetryPolicy
      → Wallet A
      → WagerTransaction A
      → CommandMetadata
      → ℕ
      → Action A (ProcessResult A)
  unfolding process_outcome resolve
  process_referring policy wallet w metadata now = do
    outcome ← resolve w now
    process_outcome policy wallet w metadata now outcome

  -- `processNew`
  unfoldable pub process_new :
      ReferenceRetryPolicy
      → Wallet A
      → WagerTransaction A
      → CommandMetadata
      → ℕ
      → Action A (ProcessResult A)
  unfolding process_referring settle
  process_new policy wallet w metadata now =
      if str_eq w.reference_external_transaction_id ""
      then settle wallet w metadata now
      else process_referring policy wallet w metadata now

  -- `Process` after a row was inserted.
  unfoldable pub process_inserted :
      ReferenceRetryPolicy → WagerTransaction A → CommandMetadata → Action A (ProcessResult A)
  unfolding process_new lock_wallet
  process_inserted policy w metadata = do
    wallet ← lock_wallet w
    now ← clock_now
    process_new policy wallet w metadata now

  -- `Process`
  unfoldable pub process :
      ReferenceRetryPolicy → WagerRequest A → CommandMetadata → Action A (ProcessResult A)
  unfolding process_inserted resolve_existing params_of
  process policy r metadata = do
    raise_if (is_blank metadata.correlation_id) invalid_correlation_id
    created_at ← clock_now
    id ← new_uuid
    w ← lift (new_external (params_of r id created_at))
    inserted ← create_wager w
    (if inserted then process_inserted policy w metadata else resolve_existing r)
