-- ===== src/Store/Opening.antt =====
-- internal/infrastructure/postgres/wallet_repository.go: the insertion of a wallet, with the primary
-- key and the unique index on the player and the currency, and the queries outside a lock.
use junglegaming_test.Base.{
  ℕ, ◌==◌, Bool, true, false, ◌&&◌, ◌||◌, Option, none, some, List, [], ◌∷◌, ok, if◌then◌else◌,
}
use junglegaming_test.Decimal.{Decimal}
use junglegaming_test.Currency
use junglegaming_test.Wallet.{Wallet}
use junglegaming_test.Store.{
  Account, Environment, Action, not_found, raise, pure, statement, ◌>>=◌, ◌>>◌,
}
use junglegaming_test.Store.Wallets.{put_wallet, wallet_row, scan_wallet}

-- Whether the index has the player and the currency.
unfoldable pub has_account : Account → List Account → Bool
has_account a [] = false
has_account a (x ∷ xs) =
    (x.player_id == a.player_id && Currency.equal x.currency a.currency) || has_account a xs

module _ {A : Type 0} where
  abbrev pub account_of : Wallet A → Account
  account_of w = record { player_id = w.player_id; currency = w.balance.currency }

  -- `INSERT INTO wallets`, by the row that has the identifier; `false` is a unique violation.
  unfoldable pub insert_wallet : Option (Wallet A) → Wallet A → Action A Bool
  unfolding put_wallet has_account
  insert_wallet (some row) w s = ok (false, s)
  insert_wallet none w s =
      if has_account (account_of w) s.accounts
      then ok (false, s)
      else ok (
        true,
        record s { wallets = put_wallet s.wallets w.id w; accounts = account_of w ∷ s.accounts },
      )

module _ {A : Type 0} ⦃env : Environment⦄ where
  -- `WalletRepository.Create`; `false` is `ErrAlreadyExists`.
  unfoldable pub create_wallet : Wallet A → Action A Bool
  unfolding statement insert_wallet
  create_wallet w = do statement; row ← wallet_row w.id; insert_wallet row w

-- A row that must be there, else `ErrNotFound`.
unfoldable pub required : {A X : Type 0} → Option X → Action A X
required none = raise not_found
required (some x) = pure x

module _ {A : Type 0} ⦃decimal : Decimal A⦄ ⦃env : Environment⦄ where
  -- `WalletRepository.FindByID`
  unfoldable pub find_wallet : ℕ → Action A (Wallet A)
  unfolding statement scan_wallet required
  find_wallet id = do statement; row ← wallet_row id; found ← scan_wallet row; required found
