-- ===== src/Tests/Wager.antt =====
-- A bet, its rollback, and their lives.
use junglegaming_test.Base.{inl, ◌≡◌, refl, ok, true, none, some, arith, IsOk, is_blank}
use junglegaming_test.Base.Int.{ℤ}
use junglegaming_test.Decimal.Scaled.{scaled, scaled_laws, parse, require}
use junglegaming_test.Currency
use junglegaming_test.Money
use junglegaming_test.Money.Laws.{cents}
use junglegaming_test.LedgerEntry.{Direction}
use junglegaming_test.Wager.Kinds.{
  bet, rollback, unset, pending, pending_reference, processed, is_external, requires_reference,
  allows_reference, is_allowed_reference_type, is_valid_status, is_terminal, is_allowed_transition,
}
use junglegaming_test.Wager.State.{
  WagerTransaction, NewExternalParams, movement_direction, is_valid_identifier,
  validate_external_reference, validate_wager_amount,
}
use junglegaming_test.Wager.Create.{new_external, validate_external_wager}
use junglegaming_test.Wager.Reference.{
  mark_pending_reference, resolve_reference, validate_reference, validate_reference_ready,
}
use junglegaming_test.Wager.Complete.{mark_processed}
use junglegaming_test.Wager.Stored.{IsStorable}
use junglegaming_test.Wager.Settled.{new_external-IsStorable}
use junglegaming_test.Wager.Machine.{
  ◌⟶◌, Step, Reach, IsSameOperation, Reach-IsSameOperation, Reach-follows, IsFinal,
  finished-IsFinal,
}
use junglegaming_test.Wager.Reversal.{opposite, resolved_reversal, movement_direction_ok}
use junglegaming_test.Tests.Data.{cash}

abbrev bet_params : NewExternalParams ℤ
bet_params = record {
  id = 100;
  provider_id = "prov";
  external_transaction_id = "x-1";
  idempotency_key = "k-1";
  payload_hash = "h-1";
  wallet_id = 7;
  player_id = 3;
  round_id = "r-1";
  game_id = "g-1";
  transaction_type = bet;
  amount = cash 2500;
  reference_external_transaction_id = "";
  created_at = 10;
}

abbrev rollback_params : NewExternalParams ℤ
rollback_params = record {
  id = 101;
  provider_id = "prov";
  external_transaction_id = "x-2";
  idempotency_key = "k-2";
  payload_hash = "h-2";
  wallet_id = 7;
  player_id = 3;
  round_id = "r-1";
  game_id = "g-1";
  transaction_type = rollback;
  amount = cash 2500;
  reference_external_transaction_id = "x-1";
  created_at = 30;
}

abbrev pub pending_bet : WagerTransaction ℤ
pending_bet = record {
  id = 100;
  provider_id = "prov";
  external_transaction_id = "x-1";
  idempotency_key = "k-1";
  payload_hash = "h-1";
  wallet_id = 7;
  player_id = 3;
  round_id = "r-1";
  game_id = "g-1";
  transaction_type = bet;
  amount = cash 2500;
  reference_external_transaction_id = "";
  reference_transaction_id = 0;
  reference_transaction_type = unset;
  status = pending;
  failure_code = "";
  failure_message = "";
  balance_before = none;
  balance_after = none;
  created_at = 10;
  updated_at = 10;
  completed_at = none;
}

abbrev processed_bet : WagerTransaction ℤ
processed_bet = record pending_bet {
  status = processed;
  updated_at = 20;
  balance_before = some (cash 10000);
  balance_after = some (cash 7500);
  completed_at = some 20;
}

abbrev pending_rollback : WagerTransaction ℤ
pending_rollback = record pending_bet {
  id = 101;
  external_transaction_id = "x-2";
  idempotency_key = "k-2";
  payload_hash = "h-2";
  transaction_type = rollback;
  reference_external_transaction_id = "x-1";
  created_at = 30;
  updated_at = 30;
}

abbrev waiting_rollback : WagerTransaction ℤ
waiting_rollback = record pending_rollback { status = pending_reference; updated_at = 31 }

abbrev resolved_rollback : WagerTransaction ℤ
resolved_rollback = record pending_rollback {
  reference_transaction_id = 100;
  reference_transaction_type = bet;
  updated_at = 40;
}

new_external-bet : new_external bet_params ≡ ok pending_bet
unfolding new_external validate_external_wager is_valid_identifier validate_external_reference
    validate_wager_amount is_blank is_external requires_reference allows_reference Money.is_valid
    Money.is_amount_in_range Money.is_positive Currency.is_valid parse require
new_external-bet = refl

wait-rollback : mark_pending_reference pending_rollback 31 ≡ ok waiting_rollback
unfolding mark_pending_reference is_terminal allows_reference is_blank is_valid_status
    is_allowed_transition
wait-rollback = refl

resolve-rollback : resolve_reference waiting_rollback processed_bet 40 ≡ ok resolved_rollback
unfolding resolve_reference is_terminal validate_reference is_blank requires_reference
    is_allowed_reference_type Money.equal Currency.equal
resolve-rollback = refl

process-bet : mark_processed pending_bet (cash 10000) (cash 7500) 20 ≡ ok processed_bet
unfolding mark_processed is_terminal requires_reference is_blank is_allowed_reference_type
    Money.is_valid Money.is_amount_in_range Money.is_negative Money.equal Currency.is_valid
    Currency.equal parse require is_valid_status is_allowed_transition
process-bet = refl

rollback_life : Reach pending_rollback resolved_rollback
rollback_life =
    Reach.next (Reach.next Reach.here (Step.waits 31 wait-rollback))
      (Step.resolves processed_bet 40 (omega arith) resolve-rollback)

Reach-IsSameOperation_example : IsSameOperation pending_rollback resolved_rollback
Reach-IsSameOperation_example = Reach-IsSameOperation rollback_life

bet-IsStorable : IsStorable pending_bet
bet-IsStorable = (new_external-IsStorable bet_params new_external-bet).0

Reach-follows_example : pending ⟶ processed
Reach-follows_example =
    Reach-follows bet_params new_external-bet Reach.here
      (Step.processes (cash 10000) (cash 7500) 20 process-bet)

finished-IsFinal_example : IsFinal processed_bet
finished-IsFinal_example =
    finished-IsFinal pending_bet processed_bet (cash 10000) (cash 7500) "" "" 20 (inl process-bet)

resolved_reversal_example :
    (d : Direction) × (movement_direction processed_bet ≡ ok (d, true))
    × (movement_direction resolved_rollback ≡ ok (opposite d, true))
    × (cents waiting_rollback.amount ≡ cents processed_bet.amount)
    × (waiting_rollback.amount.currency.code ≡ processed_bet.amount.currency.code)
    × (waiting_rollback.wallet_id ≡ processed_bet.wallet_id)
unfolding requires_reference
resolved_reversal_example =
    resolved_reversal waiting_rollback processed_bet 40 refl resolve-rollback

movement_direction_ok_example : IsOk (movement_direction pending_bet)
unfolding validate_reference_ready requires_reference is_blank is_allowed_reference_type
movement_direction_ok_example = movement_direction_ok pending_bet bet-IsStorable refl
