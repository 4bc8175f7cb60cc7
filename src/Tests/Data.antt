-- ===== src/Tests/Data.antt =====
-- Values that the tests share: amounts in BRL over the scaled decimals, a wallet, a bet.
use junglegaming_test.Base.{ℕ}
use junglegaming_test.Base.Int.{ℤ, pos}
use junglegaming_test.Currency.{Currency}
use junglegaming_test.Money.{Money}
use junglegaming_test.Wallet.{Wallet}

abbrev pub brl : Currency
brl = record { code = "BRL" }

-- An amount of that many cents.
abbrev pub cash : ℕ → Money ℤ
cash n = record { amount = pos n; currency = brl }

abbrev pub purse : Wallet ℤ
purse = record {
  id = 7;
  player_id = 3;
  balance = cash 10000;
  version = 1;
  created_at = 10;
  updated_at = 10;
}

-- The purse after a credit of 25.00 at instant 20.
abbrev pub fuller : Wallet ℤ
fuller = record {
  id = 7;
  player_id = 3;
  balance = cash 12500;
  version = 2;
  created_at = 10;
  updated_at = 20;
}

abbrev pub emptier : Wallet ℤ
emptier = record {
  id = 7;
  player_id = 3;
  balance = cash 7500;
  version = 2;
  created_at = 10;
  updated_at = 20;
}
