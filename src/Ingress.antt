-- ===== src/Ingress.antt =====
-- internal/infrastructure/postgres/inbox_repository.go: the inbox of the messages, beside the tables
-- of Store. A transaction of the message handler works on both.
pub mod Message
pub mod Handler
pub mod Registered
pub mod Kept
pub mod Once
pub mod Balanced
pub mod Consumer
pub mod Fates
pub mod Polling
use junglegaming_test.Base.{
  ℕ, String, str_eq, Bool, true, false, not, ◌&&◌, ◌||◌, Option, none, some, List, [], ◌∷◌, Result,
  ok, err, if◌then◌else◌,
}
use junglegaming_test.Store.{
  Store, Environment, Action, AppError, inbox_message_conflict, inbox_message_not_found, statement,
}

-- A row of `inbox_messages`.
pub record InboxRow : Type 0 where
  pub consumer_name : String
  pub message_id : String
  pub message_hash : String
  pub completed_at : Option ℕ

pub record Desk (A : Type 0) : Type 0 where
  pub store : Store A
  pub inbox : List InboxRow

abbrev pub Work : Type 0 → Type 0 → Type 0
Work A X = Desk A → Result AppError (X × Desk A)

-- The primary key of `inbox_messages`.
abbrev pub is_message : String → String → InboxRow → Bool
is_message consumer id r = str_eq r.consumer_name consumer && str_eq r.message_id id

unfoldable pub find_message : String → String → List InboxRow → Option InboxRow
find_message consumer id [] = none
find_message consumer id (r ∷ rs) =
    let rest = find_message consumer id rs in if is_message consumer id r then some r else rest

unfoldable pub is_complete : Option ℕ → Bool
is_complete none = false
is_complete (some at) = true

-- `UPDATE inbox_messages ... AND completed_at IS NULL`
unfoldable pub complete_rows : String → String → ℕ → List InboxRow → List InboxRow
unfolding is_complete
complete_rows consumer id at [] = []
complete_rows consumer id at (r ∷ rs) =
    let rest = complete_rows consumer id at rs in
    if is_message consumer id r && not (is_complete r.completed_at)
    then record r { completed_at = some at } ∷ rest
    else r ∷ rest

-- `RowsAffected() == 1`, for the one row that the primary key allows.
unfoldable pub is_open : Option InboxRow → Bool
unfolding is_complete
is_open none = false
is_open (some r) = not (is_complete r.completed_at)

module _ {A : Type 0} where
  infixl 5 ◌>>=◌ ◌>>◌
  abbrev pub ◌>>=◌ : {X Y : Type 0} → Work A X → (X → Work A Y) → Work A Y
  ◌>>=◌ m f d = elim (m d) [ ok p ↦ f p.0 p.1 | err e ↦ err e ]

  abbrev pub ◌>>◌ : {Y : Type 0} → Work A (Unit {0}) → Work A Y → Work A Y
  m >> k = m >>= λ _. k

  abbrev pub done : {X : Type 0} → X → Work A X
  done x d = ok (x, d)

  -- The outcome of an action on the tables of Store.
  unfoldable pub with_store :
      {X : Type 0} → Desk A → Result AppError (X × Store A) → Result AppError (X × Desk A)
  with_store d (ok p) = ok (p.0, record d { store = p.1 })
  with_store d (err e) = err e

  unfoldable pub on_store : {X : Type 0} → Action A X → Work A X
  unfolding with_store
  on_store m d = with_store d (m d.store)

  -- The insertion where no row has the key.
  unfoldable pub insert_message : String → String → String → Work A Bool
  insert_message consumer id hash d = ok (
    false,
    record d {
      inbox =
          record {
            consumer_name = consumer;
            message_id = id;
            message_hash = hash;
            completed_at = none;
          }
          ∷ d.inbox;
    },
  )

  -- The row that has the key: the hash must agree.
  unfoldable pub agreed : InboxRow → String → Work A Bool
  unfolding is_complete
  agreed r hash d =
      if str_eq r.message_hash hash
      then ok (is_complete r.completed_at, d)
      else err inbox_message_conflict

  -- The statement of `Complete`.
  unfoldable pub completed : String → String → ℕ → Work A (Unit {0})
  unfolding find_message complete_rows is_open
  completed consumer id at d =
      if is_open (find_message consumer id d.inbox)
      then ok (tt, record d { inbox = complete_rows consumer id at d.inbox })
      else err inbox_message_not_found

module _ {A : Type 0} ⦃env : Environment⦄ where
  -- `Register` after its first statement: where a row has the key, a second one reads it.
  unfoldable pub registered : String → String → String → Option InboxRow → Work A Bool
  unfolding insert_message agreed on_store statement
  registered consumer id hash none = insert_message consumer id hash
  registered consumer id hash (some r) = do on_store statement; agreed r hash

  -- `InboxRepository.Register`
  unfoldable pub register : String → String → String → Work A Bool
  unfolding on_store registered find_message statement
  register consumer id hash = do
    on_store statement
    λ d. registered consumer id hash (find_message consumer id d.inbox) d

  -- `InboxRepository.Complete`
  unfoldable pub complete : String → String → ℕ → Work A (Unit {0})
  unfolding on_store completed statement
  complete consumer id at = do on_store statement; completed consumer id at
