-- ===== src/Store/Frame.antt =====
-- The statements, by what they leave alone: all but the update of a wallet and the insertion of a
-- ledger entry leave the wallets and the ledger as they are.
use junglegaming_test.Base.{
  ℕ, String, Bool, List, ◌≡◌, refl, Option, ok, err, Result, arith, none, some,
}
use junglegaming_test.Decimal.{Decimal}
use junglegaming_test.Errors.{DomainError}
use junglegaming_test.Wager.State.{WagerTransaction}
use junglegaming_test.Store.Columns.{columns_of, scan_columns}
use junglegaming_test.Store.Events.{CommandMetadata, EventData}
use junglegaming_test.Store.{
  Store, WagerRow, Environment, Action, AppError, pure, raise, raise_if, lift, statement, clock_now,
  new_uuid, ◌>>=◌,
}
use junglegaming_test.Store.Wallets.{create_event}
use junglegaming_test.Store.Wagers.{
  create_wager, update_wager, update_pending_reference, find_by_external_id, find_by_key,
  has_processed_reversal, read_rows, write_rows, scan_wager,
}

module _ {A : Type 0} where
  pub record SameMoney (s s' : Store A) : Type 0 where
    pub same_wallets : s'.wallets ≡ s.wallets
    pub same_ledger : s'.ledger ≡ s.ledger

  -- Where the action succeeds, it leaves the wallets and the ledger alone.
  abbrev pub KeepsMoney : {X : Type 0} → Action A X → Type 0
  KeepsMoney {X} m = (s : Store A) (x : X) (s' : Store A) → m s ≡ ok (x, s') → SameMoney s s'

  pub SameMoney-trans : {s u v : Store A} → SameMoney s u → SameMoney u v → SameMoney s v
  SameMoney-trans h k = ground arith

  after :
      {X Y : Type 0} (r : Result AppError (X × Store A)) (f : X → Action A Y) {y : Y} {s' : Store A}
      → elim r [ ok p ↦ f p.0 p.1 | err e ↦ err e ] ≡ ok (y, s')
      → (x : X) × (u : Store A) × (r ≡ ok (x, u)) × (f x u ≡ ok (y, s'))
  after (ok p) f h = (p.0, p.1, refl, h)
  after (err e) f h = absurd (ground arith)

  -- A sequence that succeeds passed through a state between.
  pub bind_parts :
      {X Y : Type 0} (m : Action A X) (f : X → Action A Y) (s : Store A) {y : Y} {s' : Store A}
      → (m >>= f) s ≡ ok (y, s')
      → (x : X) × (u : Store A) × (m s ≡ ok (x, u)) × (f x u ≡ ok (y, s'))
  bind_parts m f s h = after (m s) f h

  pub bind-KeepsMoney :
      {X Y : Type 0} (m : Action A X) (f : X → Action A Y)
      → KeepsMoney m
      → ((x : X) → KeepsMoney (f x))
      → KeepsMoney (m >>= f)
  bind-KeepsMoney m f k l s y s' h =
      let (x, u, first, rest) = bind_parts m f s h in
      SameMoney-trans (k s x u first) (l x u y s' rest)

pub pure-KeepsMoney : (A : Type 0) {X : Type 0} (x : X) → KeepsMoney {A = A} (pure x)
pure-KeepsMoney A x s y s' h = ground arith

pub raise-KeepsMoney : (A X : Type 0) (e : AppError) → KeepsMoney {A = A} {X = X} (raise e)
raise-KeepsMoney A X e s y s' h = ground arith

pub raise_if-KeepsMoney : (A : Type 0) (b : Bool) (e : AppError) → KeepsMoney {A = A} (raise_if b e)
unfolding raise_if
raise_if-KeepsMoney A b e s x s' h = ground arith

pub lift-KeepsMoney :
    (A : Type 0) {X : Type 0} (r : Result DomainError X) → KeepsMoney {A = A} (lift r)
unfolding lift
lift-KeepsMoney A (ok x) s y s' h = ground arith
lift-KeepsMoney A (err e) s y s' h = ground arith

module _ (A : Type 0) ⦃env : Environment⦄ where
  pub statement-KeepsMoney : KeepsMoney {A = A} statement
  unfolding statement
  statement-KeepsMoney s x s' h = ground arith

  pub clock_now-KeepsMoney : KeepsMoney {A = A} clock_now
  unfolding clock_now
  clock_now-KeepsMoney s x s' h = ground arith

  pub new_uuid-KeepsMoney : KeepsMoney {A = A} new_uuid
  unfolding new_uuid
  new_uuid-KeepsMoney s x s' h = ground arith

module _ {A : Type 0} ⦃decimal : Decimal A⦄ ⦃env : Environment⦄ where
  pub create_event-KeepsMoney :
      (id : ℕ) (metadata : CommandMetadata) (at : ℕ) (e : EventData A)
      → KeepsMoney (create_event id metadata at e)
  unfolding create_event new_uuid
  create_event-KeepsMoney id metadata at e s x s' h = ground arith

  pub create_wager-KeepsMoney : (w : WagerTransaction A) → KeepsMoney (create_wager w)
  unfolding create_wager
  create_wager-KeepsMoney w s x s' h = ground arith

  pub update_wager-KeepsMoney : (w : WagerTransaction A) → KeepsMoney (update_wager w)
  unfolding update_wager
  update_wager-KeepsMoney w s x s' h = ground arith

  pub update_pending_reference-KeepsMoney :
      (w : WagerTransaction A) (next expires : ℕ) (metadata : CommandMetadata)
      → KeepsMoney (update_pending_reference w next expires metadata)
  unfolding update_pending_reference
  update_pending_reference-KeepsMoney w next expires metadata s x s' h = ground arith

  pub has_processed_reversal-KeepsMoney : (id : ℕ) → KeepsMoney {A = A} (has_processed_reversal id)
  unfolding has_processed_reversal
  has_processed_reversal-KeepsMoney id s x s' h = ground arith

  pub scan_wager-KeepsMoney : (r : Option (WagerRow A)) → KeepsMoney (scan_wager r)
  unfolding scan_wager
  scan_wager-KeepsMoney none s x s' h = ground arith
  scan_wager-KeepsMoney (some r) s x s' h =
      bind-KeepsMoney _ _ (lift-KeepsMoney A (scan_columns (columns_of r.transaction)))
        (λ w. pure-KeepsMoney A (some w)) s x s' h

  pub read_rows-KeepsMoney : KeepsMoney {A = A} read_rows
  unfolding read_rows
  read_rows-KeepsMoney s x s' h = ground arith

  pub write_rows-KeepsMoney : (rows : List (WagerRow A)) → KeepsMoney (write_rows rows)
  unfolding write_rows
  write_rows-KeepsMoney rows s x s' h = ground arith

  pub find_by_external_id-KeepsMoney : (p x : String) → KeepsMoney {A = A} (find_by_external_id p x)
  unfolding find_by_external_id
  find_by_external_id-KeepsMoney p x =
      bind-KeepsMoney _ _ (statement-KeepsMoney A)
        (λ _. bind-KeepsMoney _ _ read_rows-KeepsMoney (λ rows. scan_wager-KeepsMoney _))

  pub find_by_key-KeepsMoney : (p k : String) → KeepsMoney {A = A} (find_by_key p k)
  unfolding find_by_key
  find_by_key-KeepsMoney p k =
      bind-KeepsMoney _ _ (statement-KeepsMoney A)
        (λ _. bind-KeepsMoney _ _ read_rows-KeepsMoney (λ rows. scan_wager-KeepsMoney _))
