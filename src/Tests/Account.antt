-- ===== src/Tests/Account.antt =====
-- A wallet that is created with 100.00 in an empty database, and what `Reconcile` says of it.
use junglegaming_test.Base.{ℕ, ◌≡◌, refl, true, none, some, ok, is_blank, [], ◌∷◌, Option, String}
use junglegaming_test.Base.Int.{ℤ, ◌+ℤ◌, ◌-ℤ◌}
use junglegaming_test.Decimal.Scaled.{scaled, scaled_laws, parse, require}
use junglegaming_test.Currency
use junglegaming_test.Money
use junglegaming_test.Backoff.{default_reference_retry_policy}
use junglegaming_test.Store.{Store, statement, lift, raise_if, clock_now, new_uuid}
use junglegaming_test.Store.Run.{succeeds, within_transaction, attempt, committed, is_conflict}
use junglegaming_test.Store.Opening.{create_wallet, insert_wallet, has_account}
use junglegaming_test.Store.Wallets.{put_wallet, wallet_row, create_entry, create_event}
use junglegaming_test.Store.Wagers.{
  create_wager, any_row, conflicts, insert_wager, names_wallet, read_rows,
}
use junglegaming_test.Wager.Create.{new_opening}
use junglegaming_test.LedgerEntry.{
  new_ledger_entry, build_ledger_entry, is_valid_direction, expected_balance,
  validate_ledger_balance,
}
use junglegaming_test.Wallet.{new_wallet, Wallet}
use junglegaming_test.Service.Events.{
  processed_data, create_processed_event, create_balance_changed_event,
}
use junglegaming_test.Service.Serve.{Command, creating, run_all, run_command}
use junglegaming_test.Service.Lifetime.{empty_store, reconcile-run_all}
use junglegaming_test.Account.{
  ReconciliationResult, known_id, of_result, parse_opening, reconciliation_of,
}
use junglegaming_test.Account.Creation.{
  create, open_parsed, open_wallet, open_balance, create_opening, reconcile, answer, with_error,
}
use junglegaming_test.Tests.Data.{cash, purse}
use junglegaming_test.Store.Queries.{reconciliation_snapshot, read_snapshot}
use junglegaming_test.Store.Ledger.{
  snapshot_of, read_money, parse_signed_money, ledger_sum, add_signed, ledger_count,
}
use junglegaming_test.Account.Audit.{IsVerdict, reconcile-IsVerdict}
use junglegaming_test.Tests.Service.{opened, calm}

-- Identifiers of one letter.
abbrev read_id : String → Option ℕ
read_id String.[] = none
read_id (String.◌∷◌ c String.[]) = some 1001
read_id other = some 3

abbrev creation : Command ℤ
creation = creating (record {
  parse_uuid = read_id;
  command = record { player_id = "p3"; currency = "BRL"; initial_balance = "100.00" };
  of_command = record { correlation_id = "c-1"; causation_id = "" };
  during = record { world = calm; commits = λ n. succeeds; waits = λ n. true };
})

abbrev fresh_purse : Wallet ℤ
fresh_purse = record purse { id = 1001; created_at = 100; updated_at = 100 }

created :
    (run_all default_reference_retry_policy (creation ∷ []) empty_store).wallets 1001
    ≡ some fresh_purse
unfolding run_all run_command create open_parsed parse_opening known_id of_result is_blank
    Currency.new_currency Money.parse_money Money.matches_amount Money.new_money_from
    Money.new_money Money.is_amount_in_range Money.is_zero parse require Currency.is_valid
    within_transaction attempt committed is_conflict open_wallet clock_now new_uuid statement lift
    raise_if new_wallet Money.is_valid Money.is_negative create_wallet wallet_row insert_wallet
    has_account put_wallet open_balance create_opening new_opening Money.is_positive
    Money.zero_money create_wager any_row conflicts insert_wager names_wallet read_rows
    Currency.equal new_ledger_entry build_ledger_entry is_valid_direction expected_balance
    validate_ledger_balance Money.add Money.equal ◌+ℤ◌ ◌-ℤ◌ create_entry create_event processed_data
    create_processed_event create_balance_changed_event empty_store
created = refl

reconcile-run_all_example :
    let s = run_all default_reference_retry_policy (creation ∷ []) empty_store in
    (r : ReconciliationResult ℤ) × (u : Store ℤ) × (reconcile ⦃env = calm 0⦄ read_id "w" s
      ≡ ok (r, u))
    × (r.consistent ≡ true)
    × (r.stored_balance ≡ cash 10000)
reconcile-run_all_example =
    reconcile-run_all default_reference_retry_policy (creation ∷ []) ⦃env = calm 0⦄ read_id "w" 1001
      fresh_purse refl created refl

abbrev verdict : ReconciliationResult ℤ
verdict = record {
  wallet_id = 7;
  stored_balance = cash 10000;
  calculated_balance = cash 10000;
  difference = cash 0;
  consistent = true;
  checked_entries = 1;
}

reconcile-IsVerdict_example :
    (w : Wallet ℤ) × (opened.wallets 7 ≡ some w) × IsVerdict opened w 7 verdict
unfolding reconcile answer known_id with_error reconciliation_snapshot read_snapshot statement lift
    snapshot_of Currency.new_currency read_money parse_signed_money ledger_sum add_signed
    ledger_count Money.new_money Money.is_amount_in_range Currency.is_valid parse require ◌+ℤ◌
    reconciliation_of Money.sub Money.is_valid Currency.equal ◌-ℤ◌ Money.is_zero
reconcile-IsVerdict_example =
    reconcile-IsVerdict ⦃env = calm 0⦄ (λ s. some 7) "w" opened (record opened { steps = 1 })
      verdict refl
