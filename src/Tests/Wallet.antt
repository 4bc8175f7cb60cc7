-- ===== src/Tests/Wallet.antt =====
-- Movements of a wallet.
use junglegaming_test.Base.{◌≡◌, refl, ok, err, arith, IsOk, ◌↔◌}
use junglegaming_test.Base.Int.{pos, ◌+ℤ◌, ◌-ℤ◌, ◌≤ℤ◌}
use junglegaming_test.Errors.{insufficient_funds}
use junglegaming_test.Decimal.Scaled.{scaled, scaled_laws, parse, require}
use junglegaming_test.Currency
use junglegaming_test.Currency.{matches_currency}
use junglegaming_test.Money
use junglegaming_test.Money.Laws.{max_cents}
use junglegaming_test.Wallet.{credit, debit}
use junglegaming_test.Wallet.Invariant.{IsValid, IsMovement, IsMoved}
use junglegaming_test.Wallet.Credit.{credit-IsMoved, credit-IsOk_iff}
use junglegaming_test.Wallet.Debit.{debit-IsMoved, debit-IsOk_iff, debit_refused_iff}
use junglegaming_test.Tests.Data.{cash, purse, fuller, emptier}

pub credit-purse : credit purse (cash 2500) 20 ≡ ok fuller
unfolding credit Money.add Money.new_money Money.is_valid Money.is_amount_in_range Money.is_positive
    Currency.is_valid Currency.equal parse require ◌+ℤ◌
credit-purse = refl

pub debit-purse : debit purse (cash 2500) 20 ≡ ok emptier
unfolding debit Money.sub Money.compare Money.new_money Money.is_valid Money.is_amount_in_range
    Money.is_positive Currency.is_valid Currency.equal parse require ◌-ℤ◌
debit-purse = refl

pub purse-IsValid : IsValid purse
unfolding Money.is_valid Money.is_amount_in_range Currency.is_valid parse require
purse-IsValid = ground arith

credit-IsMoved_example :
    IsMovement purse (cash 2500) 20 × IsMoved purse fuller (pos 10000 +ℤ pos 2500) 20
credit-IsMoved_example =
    credit-IsMoved purse (cash 2500) 20 purse-IsValid (omega arith) credit-purse

credit-IsOk_iff_example :
    IsOk (credit purse (cash 2500) 20)
    ↔ (IsMovement purse (cash 2500) 20 × (pos 10000 +ℤ pos 2500 ≤ℤ pos max_cents))
credit-IsOk_iff_example = credit-IsOk_iff purse (cash 2500) 20 purse-IsValid

debit-IsMoved_example :
    IsMovement purse (cash 2500) 20
    × (pos 2500 ≤ℤ pos 10000)
    × IsMoved purse emptier (pos 10000 -ℤ pos 2500) 20
debit-IsMoved_example = debit-IsMoved purse (cash 2500) 20 purse-IsValid (omega arith) debit-purse

debit-IsOk_iff_example :
    IsOk (debit purse (cash 10000) 20)
    ↔ (IsMovement purse (cash 10000) 20 × (pos 10000 ≤ℤ pos 10000))
debit-IsOk_iff_example = debit-IsOk_iff purse (cash 10000) 20 purse-IsValid

debit_refused_iff_example :
    (debit purse (cash 10001) 20 ≡ err insufficient_funds)
    ↔ (IsMovement purse (cash 10001) 20 × ¬ (pos 10001 ≤ℤ pos 10000))
debit_refused_iff_example = debit_refused_iff purse (cash 10001) 20 purse-IsValid
