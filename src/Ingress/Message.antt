-- ===== src/Ingress/Message.antt =====
-- internal/infrastructure/sqs/wager_message.go: the message of a wager. The function of
-- encoding/json that reads the envelope is a parameter; its error is `none`.
use junglegaming_test.Base.{
  ℕ, String, str_eq, not, Option, none, some, Result, ok, err, ◌>>=◌, ◌>>◌, fail_if, is_blank, ◌==◌,
  Bool, false, ◌||◌, List, [], ◌∷◌,
}
use junglegaming_test.Store.{AppError}
use junglegaming_test.Service.Command.{ProcessWagerCommand}

-- `WagerMessageData` with `WagerMessageMoney`
pub record MessageData : Type 0 where
  pub provider_id : String
  pub external_transaction_id : String
  pub idempotency_key : String
  pub player_id : String
  pub wallet_id : String
  pub round_id : String
  pub game_id : String
  pub kind : String
  pub amount : String
  pub currency : String
  pub reference_external_transaction_id : Option String

-- `WagerMessageEnvelope`
pub record Envelope : Type 0 where
  pub message_id : String
  pub type_text : String
  pub occurred_at : ℕ
  pub data_of : MessageData

-- The errors of the handler, and those that it passes on.
pub data HandlerError : Type 0 where
  invalid_message_id invalid_message_body malformed_body : HandlerError
  invalid_wager_message_id invalid_wager_message_type : HandlerError
  invalid_wager_message_occurred_at provider_not_allowed : HandlerError
  of_application : AppError → HandlerError

abbrev pub wager_requested_message_type : String
wager_requested_message_type = "WagerTransactionRequested"

-- `json.Unmarshal`
unfoldable pub decoded : Option Envelope → Result HandlerError Envelope
decoded none = err malformed_body
decoded (some m) = ok m

-- `parseWagerMessage`
unfoldable pub parse_wager_message :
    (String → Option Envelope) → String → Result HandlerError Envelope
unfolding decoded
parse_wager_message unmarshal body = do
  fail_if (is_blank body) invalid_message_body
  message ← decoded (unmarshal body)
  fail_if (is_blank message.message_id) invalid_wager_message_id
  fail_if (not (str_eq message.type_text wager_requested_message_type)) invalid_wager_message_type
  fail_if (message.occurred_at == 0) invalid_wager_message_occurred_at
  ok message

unfoldable pub text_or_empty : Option String → String
text_or_empty none = ""
text_or_empty (some s) = s

-- `wagerMessageToCommand`
unfoldable pub wager_message_to_command : MessageData → ProcessWagerCommand
unfolding text_or_empty
wager_message_to_command m = record {
  provider_id = m.provider_id;
  external_transaction_id = m.external_transaction_id;
  idempotency_key = m.idempotency_key;
  wallet_id = m.wallet_id;
  player_id = m.player_id;
  round_id = m.round_id;
  game_id = m.game_id;
  type_text = m.kind;
  amount = m.amount;
  currency = m.currency;
  reference_external_transaction_id = text_or_empty m.reference_external_transaction_id;
}

-- `allowedProviders[provider]`
unfoldable pub is_allowed_provider : List String → String → Bool
is_allowed_provider [] provider = false
is_allowed_provider (p ∷ ps) provider = str_eq p provider || is_allowed_provider ps provider

-- The tests of `Handle` before its transaction.
unfoldable pub accepted :
    (String → Option Envelope) → List String → String → String → Result HandlerError Envelope
unfolding parse_wager_message is_allowed_provider
accepted unmarshal providers transport_id body = do
  fail_if (is_blank transport_id) invalid_message_id
  message ← parse_wager_message unmarshal body
  fail_if (not (is_allowed_provider providers message.data_of.provider_id)) provider_not_allowed
  ok message
