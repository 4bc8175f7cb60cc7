-- ===== src/Http/Wagers.antt =====
-- internal/transport/http/wager_handler.go, authorization.go and internal/auth/principal.go: who may
-- ask for a wager, and what is passed to the service. The body of a request is the record that the
-- framework binds it to; `none` is its error.
use junglegaming_test.Base.{
  ℕ, String, str_eq, Bool, false, not, ◌&&◌, ◌||◌, Option, none, some, List, [], ◌∷◌, Result, ok,
  err, ◌>>=◌, ◌>>◌, fail_if,
}
use junglegaming_test.Wager.Kinds.{Status, pending, pending_reference, processed, rejected, failed}
use junglegaming_test.Service.Command.{ProcessWagerCommand}
use junglegaming_test.Http.Errors.{
  ApiError, unauthorized, forbidden, invalid_payload, idempotency_key_required,
}

-- `Principal`
pub record Principal : Type 0 where
  pub subject : String
  pub client_id : String
  pub provider_id : String
  pub roles : List String

unfoldable pub contains : String → List String → Bool
contains role [] = false
contains role (r ∷ rs) = str_eq r role || contains role rs

-- `HasRole`
unfoldable pub has_role : Principal → String → Bool
unfolding contains
has_role p role = contains role p.roles

-- `IsProvider`
unfoldable pub is_provider : Principal → Bool
unfolding has_role
is_provider p = not (str_eq p.provider_id "") && has_role p "provider"

-- `IsInternal`
unfoldable pub is_internal : Principal → Bool
unfolding has_role
is_internal p = has_role p "internal"

-- `PrincipalFromContext`, where there must be one.
unfoldable pub authenticated : Option Principal → Result ApiError Principal
authenticated none = err unauthorized
authenticated (some p) = ok p

-- `RequireProvider`, up to `c.Next`.
unfoldable pub require_provider : Option Principal → Result ApiError (Unit {0})
unfolding authenticated is_provider
require_provider context = do
  principal ← authenticated context
  fail_if (not (is_provider principal)) forbidden

-- `RequireInternal`, up to `c.Next`.
unfoldable pub require_internal : Option Principal → Result ApiError (Unit {0})
unfolding authenticated is_internal
require_internal context = do
  principal ← authenticated context
  fail_if (not (is_internal principal)) forbidden

-- `createWagerRequest`
pub record CreateWagerRequest : Type 0 where
  pub provider_id : String
  pub external_transaction_id : String
  pub player_id : String
  pub wallet_id : String
  pub round_id : String
  pub game_id : String
  pub kind : String
  pub amount : String
  pub currency : String
  pub reference_external_transaction_id : String

-- `c.Bind().Body`
unfoldable pub bound : {X : Type 0} → Option X → Result ApiError X
bound none = err invalid_payload
bound (some request) = ok request

-- The test of the required fields.
unfoldable pub lacks_field : CreateWagerRequest → Bool
lacks_field r =
    str_eq r.provider_id ""
    || str_eq r.external_transaction_id ""
    || str_eq r.player_id ""
    || str_eq r.wallet_id ""
    || str_eq r.round_id ""
    || str_eq r.game_id ""
    || str_eq r.kind ""
    || str_eq r.amount ""
    || str_eq r.currency ""

-- The command that `Create` passes on.
unfoldable pub command_of : Principal → CreateWagerRequest → String → ProcessWagerCommand
command_of p r key = record {
  provider_id = p.provider_id;
  external_transaction_id = r.external_transaction_id;
  idempotency_key = key;
  wallet_id = r.wallet_id;
  player_id = r.player_id;
  round_id = r.round_id;
  game_id = r.game_id;
  type_text = r.kind;
  amount = r.amount;
  currency = r.currency;
  reference_external_transaction_id = r.reference_external_transaction_id;
}

-- `WagerHandler.Create` up to the call of the service.
unfoldable pub accept_wager :
    Option Principal → Option CreateWagerRequest → String → Result ApiError ProcessWagerCommand
unfolding authenticated bound lacks_field command_of
accept_wager context body key = do
  principal ← authenticated context
  request ← bound body
  fail_if (lacks_field request) invalid_payload
  fail_if (not (str_eq request.provider_id principal.provider_id)) forbidden
  fail_if (str_eq key "") idempotency_key_required
  ok (command_of principal request key)

-- The status of the answer of `Create`.
unfoldable pub wager_status : Status → ℕ
wager_status pending = 202
wager_status pending_reference = 202
wager_status processed = 200
wager_status rejected = 200
wager_status failed = 200
wager_status (Status.unknown s) = 200
