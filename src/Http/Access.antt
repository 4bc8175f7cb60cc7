-- ===== src/Http/Access.antt =====
-- internal/transport/http/wager_handler.go and authorization.go: what passes.
use junglegaming_test.Base.{
  String, eq_iff, false, ◌≡◌, ◌≢◌, ◌↔◌, ◌∙◌, sym, ap, refl, Option, none, some, ok, arith,
}
use junglegaming_test.Service.Command.{ProcessWagerCommand}
use junglegaming_test.Http.Wagers.{
  Principal, CreateWagerRequest, authenticated, bound, lacks_field, command_of, accept_wager,
}

-- What `Create` asks of a request before it calls the service, and what it passes on.
pub record IsAccepted (context : Option Principal) (body : Option CreateWagerRequest) (key : String)
    (c : ProcessWagerCommand) : Type 0 where
  pub principal : Principal
  pub request : CreateWagerRequest
  pub known : context ≡ some principal
  pub read : body ≡ some request
  pub names_transaction : request.external_transaction_id ≢ ""
  pub names_player : request.player_id ≢ ""
  pub names_wallet : request.wallet_id ≢ ""
  pub names_round : request.round_id ≢ ""
  pub names_game : request.game_id ≢ ""
  pub has_type : request.kind ≢ ""
  pub has_amount : request.amount ≢ ""
  pub has_currency : request.currency ≢ ""
  pub named : principal.provider_id ≢ ""
  pub own : request.provider_id ≡ principal.provider_id
  pub keyed : key ≢ ""
  pub passed : c ≡ record {
    provider_id = principal.provider_id;
    external_transaction_id = request.external_transaction_id;
    idempotency_key = key;
    wallet_id = request.wallet_id;
    player_id = request.player_id;
    round_id = request.round_id;
    game_id = request.game_id;
    type_text = request.kind;
    amount = request.amount;
    currency = request.currency;
    reference_external_transaction_id = request.reference_external_transaction_id;
  }

accepted :
    (p : Principal) (r : CreateWagerRequest) (key : String) (c : ProcessWagerCommand)
    → accept_wager (some p) (some r) key ≡ ok c
    → IsAccepted (some p) (some r) key c
unfolding accept_wager authenticated bound lacks_field command_of
accepted p r key c h = record {
  principal = p;
  request = r;
  known = refl;
  read = refl;
  names_transaction = ground (arith, eq_iff r.external_transaction_id "");
  names_player = ground (arith, eq_iff r.player_id "");
  names_wallet = ground (arith, eq_iff r.wallet_id "");
  names_round = ground (arith, eq_iff r.round_id "");
  names_game = ground (arith, eq_iff r.game_id "");
  has_type = ground (arith, eq_iff r.kind "");
  has_amount = ground (arith, eq_iff r.amount "");
  has_currency = ground (arith, eq_iff r.currency "");
  named = ground (arith, eq_iff r.provider_id "", eq_iff r.provider_id p.provider_id);
  own = ground (arith, eq_iff r.provider_id p.provider_id);
  keyed = ground (arith, eq_iff key "");
  passed = ground arith;
}

filled :
    (r : CreateWagerRequest)
    → r.provider_id ≢ ""
    → r.external_transaction_id ≢ ""
    → r.player_id ≢ ""
    → r.wallet_id ≢ ""
    → r.round_id ≢ ""
    → r.game_id ≢ ""
    → r.kind ≢ ""
    → r.amount ≢ ""
    → r.currency ≢ ""
    → lacks_field r ≡ false
unfolding lacks_field
filled r a b c d e f g h i = ground (
  arith,
  eq_iff r.provider_id "",
  eq_iff r.external_transaction_id "",
  eq_iff r.player_id "",
  eq_iff r.wallet_id "",
  eq_iff r.round_id "",
  eq_iff r.game_id "",
  eq_iff r.kind "",
  eq_iff r.amount "",
  eq_iff r.currency "",
)

passes :
    (p : Principal) (r : CreateWagerRequest) (key : String)
    → lacks_field r ≡ false
    → r.provider_id ≡ p.provider_id
    → key ≢ ""
    → accept_wager (some p) (some r) key ≡ ok (command_of p r key)
unfolding accept_wager authenticated bound
passes p r key h own keyed = ground (arith, eq_iff r.provider_id p.provider_id, eq_iff key "")

IsAccepted-passes :
    (context : Option Principal) (body : Option CreateWagerRequest) (key : String)
    (c : ProcessWagerCommand)
    → IsAccepted context body key c
    → accept_wager context body key ≡ ok c
unfolding command_of
IsAccepted-passes context body key c a =
    let p = a.principal in
    let r = a.request in
    let complete : lacks_field r ≡ false =
      filled r (λ e. a.named (sym a.own ∙ e)) a.names_transaction a.names_player a.names_wallet
        a.names_round a.names_game a.has_type a.has_amount a.has_currency in
    rw (a.known, a.read) (passes p r key complete a.own a.keyed ∙ ap (λ z. ok z) (sym a.passed))

-- `Create` passes a command to the service just where the caller is authenticated and has a
-- provider, the body can be read and has the identifiers of the transaction, the player, the wallet,
-- the round and the game, a type, an amount and a currency, its provider is that of the caller, and
-- there is an idempotency key; the command has these texts, the provider of the caller, this key and
-- the reference of the body, each in its place.
pub accept_wager_iff :
    (context : Option Principal) (body : Option CreateWagerRequest) (key : String)
    (c : ProcessWagerCommand)
    → (accept_wager context body key ≡ ok c) ↔ IsAccepted context body key c
unfolding accept_wager authenticated bound
accept_wager_iff none body key c = ((λ h. absurd (ground arith)), IsAccepted-passes none body key c)
accept_wager_iff (some p) none key c =
    ((λ h. absurd (ground arith)), IsAccepted-passes (some p) none key c)
accept_wager_iff (some p) (some r) key c =
    ((λ h. accepted p r key c h), IsAccepted-passes (some p) (some r) key c)
