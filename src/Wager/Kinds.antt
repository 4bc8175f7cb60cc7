-- ===== src/Wager/Kinds.antt =====
-- internal/domain/wager_transaction.go: the types and states of a transaction, which are texts in
-- Go. `unset` is the empty text, `unknown` stands for each text that is no constant.
use junglegaming_test.Base.{ℕ, String, Bool, true, false, not, ◌&&◌, str_eq, ◌==◌}

-- `WagerTransactionType`
pub data WagerType : Type 0 where
  opening bet win loss refund rollback unset : WagerType
  unknown : String → WagerType

-- `WagerTransactionStatus`
pub data Status : Type 0 where
  pending pending_reference processed rejected failed : Status
  unknown : String → Status

abbrev type_tag : WagerType → ℕ
type_tag opening = 0
type_tag bet = 1
type_tag win = 2
type_tag loss = 3
type_tag refund = 4
type_tag rollback = 5
type_tag unset = 6
type_tag (WagerType.unknown s) = 7

abbrev type_rest : WagerType → String
type_rest (WagerType.unknown s) = s
type_rest opening = ""
type_rest _ = ""

-- `==` on types
unfoldable pub equal_type : WagerType → WagerType → Bool
equal_type a b = type_tag a == type_tag b && str_eq (type_rest a) (type_rest b)

abbrev pub is_unset : WagerType → Bool
is_unset unset = true
is_unset opening = false
is_unset _ = false

abbrev pub is_opening : WagerType → Bool
is_opening opening = true
is_opening bet = false
is_opening _ = false

abbrev pub is_loss : WagerType → Bool
is_loss loss = true
is_loss opening = false
is_loss _ = false

-- `WagerTransactionType.IsValid`
unfoldable pub is_valid_type : WagerType → Bool
is_valid_type unset = false
is_valid_type (WagerType.unknown s) = false
is_valid_type _ = true

-- `IsExternal`
unfoldable pub is_external : WagerType → Bool
unfolding is_valid_type
is_external t = is_valid_type t && not (is_opening t)

-- `RequiresReference`
unfoldable pub requires_reference : WagerType → Bool
requires_reference refund = true
requires_reference rollback = true
requires_reference _ = false

-- `AllowsReference`
unfoldable pub allows_reference : WagerType → Bool
unfolding requires_reference
allows_reference win = true
allows_reference t = requires_reference t

-- `isAllowedReferenceType`
unfoldable pub is_allowed_reference_type : WagerType → WagerType → Bool
is_allowed_reference_type win bet = true
is_allowed_reference_type refund bet = true
is_allowed_reference_type rollback bet = true
is_allowed_reference_type rollback win = true
is_allowed_reference_type rollback refund = true
is_allowed_reference_type _ _ = false

-- `WagerTransactionStatus.IsValid`
unfoldable pub is_valid_status : Status → Bool
is_valid_status (Status.unknown s) = false
is_valid_status _ = true

-- `IsTerminal`
unfoldable pub is_terminal : Status → Bool
is_terminal processed = true
is_terminal rejected = true
is_terminal failed = true
is_terminal _ = false

abbrev pub is_pending : Status → Bool
is_pending pending = true
is_pending _ = false

abbrev pub is_pending_reference : Status → Bool
is_pending_reference pending_reference = true
is_pending_reference _ = false

abbrev pub is_processed : Status → Bool
is_processed processed = true
is_processed _ = false

-- `isAllowedWagerTransition`
unfoldable pub is_allowed_transition : Status → Status → Bool
is_allowed_transition pending pending_reference = true
is_allowed_transition pending processed = true
is_allowed_transition pending rejected = true
is_allowed_transition pending failed = true
is_allowed_transition pending_reference pending = true
is_allowed_transition pending_reference rejected = true
is_allowed_transition pending_reference failed = true
is_allowed_transition _ _ = false
