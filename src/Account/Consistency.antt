-- ===== src/Account/Consistency.antt =====
-- internal/application/wallet_service.go: what `Reconcile` reports.
use junglegaming_test.Base.{
  ℕ, ◌==◌, true, ◌≡◌, ◌↔◌, ap, ◌∙◌, List, [], ◌∷◌, ok, arith, inl, inr, Bool-cases, Result-cases,
}
use junglegaming_test.Base.Int.{◌-ℤ◌, negate, eq_of_parts, negate_parts}
use junglegaming_test.Decimal.{Decimal, DecimalLaws}
use junglegaming_test.Currency
use junglegaming_test.Currency.{Currency}
use junglegaming_test.Money
use junglegaming_test.Money.{Money}
use junglegaming_test.Money.Laws.{cents, sub-cents, is_zero-cents}
use junglegaming_test.Wallet.{Wallet}
use junglegaming_test.LedgerEntry.{Direction, debit, credit, other, LedgerEntry}
use junglegaming_test.Store.Ledger.{
  Snapshot, add_signed, ledger_sum, ledger_count, read_money, parse_signed_money, snapshot_of,
}
use junglegaming_test.Service.Moves.{signed_cents, ledger_total}
use junglegaming_test.Account.{ReconciliationResult, reconciliation_of}

module _ {A : Type 0} ⦃decimal : Decimal A⦄ ⦃laws : DecimalLaws A decimal⦄ where
  add_signed-cents :
      (d : Direction) (a rest : A)
      → laws.cents (add_signed d a rest) ≡ signed_cents d (laws.cents a) (laws.cents rest)
  unfolding add_signed
  add_signed-cents debit a rest = laws.cents-sub rest a
  add_signed-cents credit a rest = laws.cents-add rest a
  add_signed-cents (other s) a rest = laws.cents-sub rest a

  -- The sum of the database is the sum of the entries.
  pub ledger_sum-cents :
      (es : List (LedgerEntry A)) (id : ℕ) → laws.cents (ledger_sum es id) ≡ ledger_total es id
  unfolding ledger_sum ledger_total
  ledger_sum-cents [] id = laws.cents-zero_value
  ledger_sum-cents (e ∷ es) id = elim (Bool-cases (e.wallet_id == id)) [
    | inl own ↦ rw own (
        add_signed-cents e.direction e.amount.amount (ledger_sum es id)
        ∙ ap (signed_cents e.direction (cents e.amount)) (ledger_sum-cents es id))
    | inr not_own ↦ rw not_own (ledger_sum-cents es id)
  ]

  parse_signed_money-cents :
      (a : A) (c : Currency) {m : Money A}
      → parse_signed_money a c ≡ ok m
      → (cents m ≡ laws.cents a) × (m.currency ≡ c) × (Money.is_valid m ≡ true)
  unfolding parse_signed_money read_money Money.new_money Money.negate Money.is_valid
  parse_signed_money-cents a c h = ground (
    arith,
    laws.cents-absolute a,
    laws.is_negative-cents a,
    laws.cents-neg (decimal.absolute a),
    negate_parts (laws.cents (decimal.absolute a)),
    eq_of_parts (laws.cents (decimal.absolute a)) (laws.cents a),
    eq_of_parts (negate (laws.cents (decimal.absolute a))) (laws.cents a),
  )

  -- A snapshot has the balance of the row and the sum of the entries.
  pub snapshot_of-cents :
      (w : Wallet A) (es : List (LedgerEntry A)) (id : ℕ) {p : Snapshot A}
      → snapshot_of w es id ≡ ok p
      → (p.stored_balance ≡ w.balance)
        × (cents p.calculated_balance ≡ ledger_total es id)
        × (p.checked_entries ≡ ledger_count es id)
        × (p.calculated_balance.currency ≡ w.balance.currency)
        × (Money.is_valid p.calculated_balance ≡ true)
  unfolding snapshot_of read_money Money.new_money Currency.new_currency
  snapshot_of-cents w es id {p} h =
      elim (Result-cases
        (parse_signed_money (ledger_sum es id) (record { code = w.balance.currency.code }))) [
          | inl (c, parsed) ↦
              let (sum, named, valid) = parse_signed_money-cents (ledger_sum es id) _ parsed in
              let same : p.calculated_balance ≡ c = ground arith in
              (
                ground arith,
                ap cents same ∙ sum ∙ ledger_sum-cents es id,
                ground arith,
                rw same named,
                rw same valid,
              )
          | inr (e, refused) ↦ absurd (ground arith)
        ]

  -- The verdict on a snapshot.
  pub reconciliation_of-cents :
      (id : ℕ) (p : Snapshot A) {r : ReconciliationResult A}
      → reconciliation_of id p ≡ ok r
      → (r.stored_balance ≡ p.stored_balance)
        × (r.checked_entries ≡ p.checked_entries)
        × ((r.consistent ≡ true) ↔ (cents p.stored_balance ≡ cents p.calculated_balance))
        × (cents r.difference ≡ cents p.stored_balance -ℤ cents p.calculated_balance)
  unfolding reconciliation_of ◌-ℤ◌
  reconciliation_of-cents id p {r} h =
      elim (Result-cases (Money.sub p.stored_balance p.calculated_balance)) [
        | inl (d, e) ↦
            let (_, _, total) = sub-cents p.stored_balance p.calculated_balance e in
            (
              ground arith,
              ground arith,
              ground (
                arith,
                is_zero-cents d,
                eq_of_parts (cents p.stored_balance) (cents p.calculated_balance),
              ),
              ground arith,
            )
        | inr (x, e) ↦ absurd (ground arith)
      ]
