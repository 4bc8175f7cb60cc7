-- ===== src/Service/Lookup.antt =====
-- internal/application/wager_service.go with wager_results.go: `GetByID` and
-- `GetByExternalTransactionID`.
use junglegaming_test.Base.{
  ℕ, String, str_eq, eq_iff, ◌≡◌, refl, ◌∙◌, sym, ap, not, true, Bool, Option, none, some, List, [],
  ◌∷◌, ok, arith, inl, inr, Result-cases, Bool-cases,
}
use mathlib.Core.Path.{subst}
use junglegaming_test.Decimal.{Decimal}
use junglegaming_test.Wager.State.{WagerTransaction}
use junglegaming_test.Wager.Kinds.{WagerType, Status}
use junglegaming_test.Wager.Rehydrate.{RehydrateParams, rehydrate}
use junglegaming_test.Currency
use junglegaming_test.Money.{Money}
use junglegaming_test.Store.Ledger.{read_money}
use junglegaming_test.Store.Columns.{
  WagerColumns, columns_of, scan_columns, scanned_params, nullable_money,
}
use junglegaming_test.Store.Readable.{string_value-nullable_string}
use junglegaming_test.Store.{
  Store, WagerRow, Environment, Action, not_found, pure, raise_if, lift, statement, ◌>>=◌, ◌>>◌,
}
use junglegaming_test.Store.Frame.{bind_parts}
use junglegaming_test.Store.Wagers.{
  find_by_external_id, find_row, has_external_id, read_rows, scan_wager,
}
use junglegaming_test.Store.Retries.{find_by_id}
use junglegaming_test.Store.Opening.{required}
use junglegaming_test.Account.{known_id}
use junglegaming_test.Account.Creation.{answer}

-- `WagerResult`
pub record WagerResult (A : Type 0) : Type 0 where
  pub transaction_id : ℕ
  pub provider_id : String
  pub external_transaction_id : String
  pub wallet_id : ℕ
  pub player_id : ℕ
  pub round_id : String
  pub game_id : String
  pub kind : WagerType
  pub amount : Money A
  pub reference_external_transaction_id : String
  pub status : Status
  pub failure_code : String
  pub failure_message : String
  pub balance_before : Option (Money A)
  pub balance_after : Option (Money A)
  pub created_at : ℕ
  pub updated_at : ℕ

-- `wagerResultFromTransaction`
unfoldable pub wager_result : {A : Type 0} → WagerTransaction A → WagerResult A
wager_result w = record {
  transaction_id = w.id;
  provider_id = w.provider_id;
  external_transaction_id = w.external_transaction_id;
  wallet_id = w.wallet_id;
  player_id = w.player_id;
  round_id = w.round_id;
  game_id = w.game_id;
  kind = w.transaction_type;
  amount = w.amount;
  reference_external_transaction_id = w.reference_external_transaction_id;
  status = w.status;
  failure_code = w.failure_code;
  failure_message = w.failure_message;
  balance_before = w.balance_before;
  balance_after = w.balance_after;
  created_at = w.created_at;
  updated_at = w.updated_at;
}

module _ {A : Type 0} ⦃decimal : Decimal A⦄ ⦃env : Environment⦄ where
  -- What `GetByID` shows of a transaction.
  unfoldable pub shown_to : String → WagerTransaction A → Action A (WagerResult A)
  unfolding raise_if wager_result
  shown_to provider w = do
    raise_if (not (str_eq w.provider_id provider)) not_found
    pure (wager_result w)

  -- `GetByID`
  unfoldable pub get_by_id : (String → Option ℕ) → String → String → Action A (WagerResult A)
  unfolding answer known_id find_by_id required shown_to
  get_by_id parse_uuid provider text = do
    id ← answer (known_id not_found (parse_uuid text))
    found ← find_by_id id
    w ← required found
    shown_to provider w

  -- `GetByExternalTransactionID`
  unfoldable pub get_by_external_transaction_id : String → String → Action A (WagerResult A)
  unfolding find_by_external_id required wager_result
  get_by_external_transaction_id provider external = do
    found ← find_by_external_id provider external
    w ← required found
    pure (wager_result w)

  shown_to-own :
      (provider : String) (w : WagerTransaction A) (s s' : Store A) {x : WagerResult A}
      → shown_to provider w s ≡ ok (x, s')
      → x.provider_id ≡ provider
  unfolding shown_to raise_if wager_result
  shown_to-own provider w s s' h = ground (arith, eq_iff w.provider_id provider)

  -- `GetByID` shows a provider no transaction but its own.
  pub get_by_id-own :
      (parse_uuid : String → Option ℕ) (provider text : String) (s s' : Store A) (w : WagerResult A)
      → get_by_id parse_uuid provider text s ≡ ok (w, s')
      → w.provider_id ≡ provider
  unfolding get_by_id
  get_by_id-own parse_uuid provider text s s' w h =
      let (id, t, _, rest) =
        bind_parts (answer (known_id not_found (parse_uuid text)))
          (λ id. find_by_id id >>= λ found. required found >>= shown_to provider) s h in
      let (found, u, _, rest') =
        bind_parts (find_by_id id) (λ found. required found >>= shown_to provider) t rest in
      let (x, v, _, last) = bind_parts (required found) (shown_to provider) u rest' in
      shown_to-own provider x v s' last

  find_row-holds :
      (test : WagerRow A → Bool) (rows : List (WagerRow A)) {r : WagerRow A}
      → find_row test rows ≡ some r
      → test r ≡ true
  unfolding find_row
  find_row-holds test [] h = absurd (ground arith)
  find_row-holds test (x ∷ xs) {r} h = elim (Bool-cases (test x)) [
    | inl hit ↦ let same : x ≡ r = ground arith in subst (λ z. test z ≡ true) same hit
    | inr miss ↦ find_row-holds test xs (ground arith)
  ]

  rehydrate-provider :
      (p : RehydrateParams A) {x : WagerTransaction A}
      → rehydrate p ≡ ok x
      → (x.provider_id ≡ p.provider_id) × (x.external_transaction_id ≡ p.external_transaction_id)
  unfolding rehydrate
  rehydrate-provider p h = (ground arith, ground arith)

  -- A row that can be read has the parameters of its columns.
  scan_columns_parts :
      (c : WagerColumns A) {x : WagerTransaction A}
      → scan_columns c ≡ ok x
      → (amount : Money A) × (before : Option (Money A)) × (after : Option (Money A)) × (rehydrate
            (scanned_params c amount before after)
          ≡ ok x)
  unfolding scan_columns
  scan_columns_parts c h = elim (Result-cases (Currency.new_currency c.currency)) [
    | inr (e, failed) ↦ absurd (ground arith)
    | inl (currency, known) ↦ elim (Result-cases (read_money c.amount currency)) [
      | inr (e, failed) ↦ absurd (ground arith)
      | inl (amount, read) ↦ elim (Result-cases (nullable_money c.balance_before currency)) [
        | inr (e, failed) ↦ absurd (ground arith)
        | inl (before, first) ↦ elim (Result-cases (nullable_money c.balance_after currency)) [
          | inr (e, failed) ↦ absurd (ground arith)
          | inl (after, second) ↦ (amount, before, after, ground arith)
        ]
      ]
    ]
  ]

  scan_columns-provider :
      (w : WagerTransaction A) {x : WagerTransaction A}
      → scan_columns (columns_of w) ≡ ok x
      → (x.provider_id ≡ w.provider_id) × (x.external_transaction_id ≡ w.external_transaction_id)
  unfolding scanned_params
  scan_columns-provider w h =
      let (amount, before, after, built) = scan_columns_parts (columns_of w) h in
      let (a, b) = rehydrate-provider (scanned_params (columns_of w) amount before after) built in
      (
        a ∙ string_value-nullable_string w.provider_id,
        b ∙ string_value-nullable_string w.external_transaction_id,
      )

  scanned :
      (provider external : String) (o : Option (WagerRow A)) (s s' : Store A)
      {x : Option (WagerTransaction A)} {w : WagerTransaction A}
      → ((r : WagerRow A) → o ≡ some r → has_external_id provider external r ≡ true)
      → scan_wager o s ≡ ok (x, s')
      → x ≡ some w
      → (w.provider_id ≡ provider) × (w.external_transaction_id ≡ external)
  unfolding scan_wager lift
  scanned provider external none s s' k h e = absurd (ground arith)
  scanned provider external (some r) s s' {x} {w} k h e =
      elim (Result-cases (scan_columns (columns_of r.transaction))) [
        | inl (y, built) ↦
            let same : y ≡ w = ground arith in
            let (a, b) = scan_columns-provider r.transaction built in
            let hit = k r refl in
            let (p, q) : (r.transaction.provider_id ≡ provider)
                × (r.transaction.external_transaction_id ≡ external) =
              (
                ground (arith, eq_iff r.transaction.provider_id provider),
                ground (arith, eq_iff r.transaction.external_transaction_id external),
              ) in
            (
              ap (λ (t : WagerTransaction A). t.provider_id) (sym same) ∙ a ∙ p,
              ap (λ (t : WagerTransaction A). t.external_transaction_id) (sym same) ∙ b ∙ q,
            )
        | inr (x, failed) ↦ absurd (ground arith)
      ]

  required-some :
      (o : Option (WagerTransaction A)) (s s' : Store A) {w : WagerTransaction A}
      → required o s ≡ ok (w, s')
      → o ≡ some w
  unfolding required
  required-some none s s' h = absurd (ground arith)
  required-some (some x) s s' h = ground arith

  -- `GetByExternalTransactionID` shows the transaction of the provider and the external identifier
  -- that it was asked for.
  pub get_by_external_transaction_id-own :
      (provider external : String) (s s' : Store A) (w : WagerResult A)
      → get_by_external_transaction_id provider external s ≡ ok (w, s')
      → (w.provider_id ≡ provider) × (w.external_transaction_id ≡ external)
  unfolding get_by_external_transaction_id find_by_external_id wager_result
  get_by_external_transaction_id-own provider external s s' w h =
      let (x, u, found, last) =
        bind_parts (find_by_external_id provider external)
          (λ o. required o >>= λ y. pure (wager_result y)) s h in
      let (y, k, present, shown) = bind_parts (required x) (λ z. pure (wager_result z)) u last in
      let (_, t, _, rest) =
        bind_parts statement
          (λ _.
            read_rows >>= λ rows. scan_wager (find_row (has_external_id provider external) rows))
          s found in
      let (rows, v, _, scan) =
        bind_parts read_rows
          (λ rows. scan_wager (find_row (has_external_id provider external) rows)) t rest in
      let (p, q) =
        scanned provider external (find_row (has_external_id provider external) rows) v u
          (λ r e. find_row-holds (has_external_id provider external) rows e) scan
          (required-some x u k present) in
      let same : wager_result y ≡ w = ground arith in
      (
        ap (λ (t : WagerResult A). t.provider_id) (sym same) ∙ p,
        ap (λ (t : WagerResult A). t.external_transaction_id) (sym same) ∙ q,
      )
