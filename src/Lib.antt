-- ===== src/Lib.antt =====
-- A wager service moves money between the wallets of players: providers send bets, wins, losses,
-- refunds and rollbacks over HTTP and SQS, each is stored once, moves the balance of a wallet and
-- writes an entry of its ledger. This library models the domain, the application services with the
-- statements that they run, the consumer of messages, and parts of the HTTP interface.
--
-- Base, Errors: results of fallible functions, tests on numbers and texts, int64 arithmetic with
-- its wrap-around, integers; internal/domain/errors.go.
-- Decimal: the package github.com/shopspring/decimal as an interface of operations and laws. A
-- decimal stands for a whole number of hundredths: ParseMoney lets no other through, and the
-- columns have two places. Decimal/Scaled is the instance of the tests, over the integers.
-- Currency, Money: internal/domain/currency.go and money.go. The regular expressions are written
-- out as tests on the list of character codes.
-- Wallet: internal/domain/wallet.go. Wallet/Invariant says what a valid wallet and a movement are,
-- Wallet/Credit and Wallet/Debit what the two movements do.
-- LedgerEntry: internal/domain/wallet_ledger_entry.go; LedgerEntry/Movements joins it to Wallet.
-- Wager: internal/domain/wager_transaction.go. Kinds has the types and states, State the record
-- and transitionTo, Create the constructors of new transactions, Reference and Complete the
-- methods, Rehydrate the reading of stored ones; Stored, Keeps, Settled and Machine prove what
-- sequences of method calls keep, Reversal relates a reversal to its reference.
-- Backoff: the three retry schedules, of internal/application/wager_reference.go,
-- internal/application/outbox_dispatcher_service.go and internal/infrastructure/sqs/consumer.go.
-- Store: the tables of the database as a state, its errors and the actions on it: Store/Wallets,
-- Store/Wagers and Store/Retries have the statements of internal/infrastructure/postgres, Store/Run
-- its WithinTransaction, Store/Events the events of internal/application/events.go. Store/Columns has
-- the columns of a transaction and scanWager, Store/Readable proves that what is written can be
-- read. Store/Attempted, Store/Frame and Store/Ensures prove what transactions and actions keep.
-- Service: internal/application/wager_service.go, wager_reference.go and wager_request.go on that
-- state: Service/Process and Submit have Process, Service/Command the parsing of its command,
-- Service/Lookup the queries with their results, Service/Retry the retries, Service/Events wager_events.go,
-- Service/Serve sequences of transactions, Service/Lifetime those from an empty database;
-- Service/Frame, Moves, Replaced, Reconciled, Balance and Retried prove that balances and ledger
-- agree, Service/Posting and Answers what a call may change.
-- Account: internal/application/wallet_service.go. Account/Creation has its four operations,
-- Account/Opened proves what Create keeps, Consistency, Readable and Audit what Reconcile
-- reports.
-- Store/Opening, Store/Ledger and Store/Queries have the statements, Store/Ledger/Rows the pages.
-- Outbox: the statements of internal/infrastructure/postgres/outbox_dispatcher_repository.go, and in
-- Outbox/Dispatch internal/application/outbox_dispatcher_service.go as steps of workers. Sent and
-- Delivered prove what interleaved steps keep, Order which event is claimed, Settled and Drained that
-- a worker empties the outbox.
-- Ingress: internal/infrastructure/postgres/inbox_repository.go; Ingress/Message and Handler have
-- wager_message.go and wager_handler.go of internal/infrastructure/sqs, Ingress/Consumer consumer.go,
-- Ingress/Polling both together. Registered, Kept and Once prove that a message is handled once,
-- Balanced and Polling that balances and ledger agree, Fates what becomes of a batch.
-- Http: of internal/transport/http, the pages of wallet_handler.go, the guards of wager_handler.go
-- and authorization.go with internal/auth/principal.go (Http/Wagers), and errors.go (Http/Errors).
-- Sorted, Cut and Pages prove what a client reads that follows the cursors.
-- Worker: internal/worker/loop.go over the outcomes of its steps.
-- Tests: concrete wallets, entries, transactions and stores.
--
-- A method with a pointer receiver returns the changed object, or the error with the object as it
-- was. A uuid is the number that its bytes spell, with 0 for uuid.Nil. An instant is a number of
-- nanoseconds, with 0 for the zero time, so that UTC changes nothing. A version and a duration
-- are int64 in two's complement. Loops are recursion on the number of rounds left, so no fuel is
-- needed. A text of a Go string type with constants is a data type with a constructor for each
-- constant and one for all other texts.
--
-- The service runs in an environment that says at each step whether the statement fails, what the
-- clock shows and which uuid comes next; a theorem holds for every environment. Each attempt of a
-- transaction has its own one, and transactions run one after the other: the row lock of the wallet
-- is taken for granted. A COMMIT may succeed, be refused, or be done without an answer; that an attempt
-- whose function fails is rolled back is what pgx.BeginTxFunc documents. The number of attempts is 3,
-- as in the source. A lookup that Go answers with
-- ErrNotFound gives none, and ErrAlreadyExists of Create is false. A row holds the value of an
-- amount of money, not its text, and an event its data, not the JSON text.
--
-- The handler of messages works on a pair of the tables and the inbox, and its transaction contains
-- that of Process, which joins it as in the source. The outbox of the dispatcher is a list of rows
-- of its own, to which the services only add. A client that reads the ledger makes at most a given
-- number of requests; one more than there are entries is enough.
--
-- What stands for code of other packages is a parameter: reading and printing uuids, JSON and
-- SHA-256, the publisher, the refusals of the queue, and which errors are transient.
--
-- Not modelled: the CHECK constraints of migrations/000004_add_wager_transaction_constraints.up.sql,
-- which refuse some rows that the statements of Store accept, among them a processed transaction
-- whose balances do not differ by its amount; the getters and printers of the domain, the choice of RetryNextPendingReference
-- between another attempt and failure by the kind of an error, the text of a cursor and the limit of
-- a page, the request context, tokens, Start and Stop of a worker, the SQS publisher, health checks,
-- logs, metrics, configuration and wiring. The database, the queues and the identity provider are
-- outside the repository.
pub mod Base
pub mod Decimal
pub mod Errors
pub mod Currency
pub mod Money
pub mod Wallet
pub mod LedgerEntry
pub mod Wager
pub mod Backoff
pub mod Store
pub mod Service
pub mod Account
pub mod Outbox
pub mod Ingress
pub mod Http
pub mod Worker
pub mod Tests
