-- ===== src/Ingress/Registered.antt =====
-- internal/infrastructure/postgres/inbox_repository.go: what the inbox knows of a message after the
-- statements on it.
use junglegaming_test.Base.{
  ℕ, ◌+◌, ◌≡◌, refl, sym, ap, ◌∙◌, String, str_eq, eq_iff, Bool, true, false, Option, none, some,
  List, [], ◌∷◌, Result, ok, err, arith, inl, inr, Bool-cases,
}
use junglegaming_test.Store.{Store, Environment, Action, AppError, statement}
use junglegaming_test.Ingress.{
  InboxRow, Desk, Work, is_message, find_message, is_complete, complete_rows, is_open, with_store,
  on_store, insert_message, agreed, completed, registered, register, ◌>>=◌,
}
use junglegaming_test.Ingress.Handler.{wager_consumer_name}

module _ {A : Type 0} where
  after :
      {X Y : Type 0} (r : Result AppError (X × Desk A)) (f : X → Work A Y) {y : Y} {d' : Desk A}
      → elim r [ ok p ↦ f p.0 p.1 | err e ↦ err e ] ≡ ok (y, d')
      → (x : X) × (u : Desk A) × (r ≡ ok (x, u)) × (f x u ≡ ok (y, d'))
  after (ok p) f h = (p.0, p.1, refl, h)
  after (err e) f h = absurd (ground arith)

  -- A sequence that succeeds passed through a state between.
  pub work_parts :
      {X Y : Type 0} (m : Work A X) (f : X → Work A Y) (d : Desk A) {y : Y} {d' : Desk A}
      → (m >>= f) d ≡ ok (y, d')
      → (x : X) × (u : Desk A) × (m d ≡ ok (x, u)) × (f x u ≡ ok (y, d'))
  work_parts m f d h = after (m d) f h

  with_store_parts :
      {X : Type 0} (d : Desk A) (r : Result AppError (X × Store A)) {x : X} {d' : Desk A}
      → with_store d r ≡ ok (x, d')
      → (r ≡ ok (x, d'.store)) × (d'.inbox ≡ d.inbox)
  unfolding with_store
  with_store_parts d (ok p) h = (ground arith, ground arith)
  with_store_parts d (err e) h = absurd (ground arith)

  pub on_store_parts :
      {X : Type 0} (m : Action A X) (d : Desk A) {x : X} {d' : Desk A}
      → on_store m d ≡ ok (x, d')
      → (m d.store ≡ ok (x, d'.store)) × (d'.inbox ≡ d.inbox)
  unfolding on_store
  on_store_parts m d h = with_store_parts d (m d.store) h

-- The row of a message, with the hash of its body, that was completed.
pub record IsHandled (id hash : String) (inbox : List InboxRow) : Type 0 where
  pub row : InboxRow
  pub found : find_message wager_consumer_name id inbox ≡ some row
  pub same_hash : str_eq row.message_hash hash ≡ true
  pub finished : is_complete row.completed_at ≡ true

-- The row of a message, with the hash of its body.
pub record IsKnown (id hash : String) (inbox : List InboxRow) : Type 0 where
  row : InboxRow
  found : find_message wager_consumer_name id inbox ≡ some row
  same_hash : str_eq row.message_hash hash ≡ true

find-complete_rows :
    (consumer id : String) (at : ℕ) (inbox : List InboxRow) (r : InboxRow)
    → find_message consumer id inbox ≡ some r
    → is_complete r.completed_at ≡ false
    → find_message consumer id (complete_rows consumer id at inbox)
      ≡ some (record r { completed_at = some at })
unfolding find_message complete_rows
find-complete_rows consumer id at [] r h k = absurd (ground arith)
find-complete_rows consumer id at (x ∷ xs) r h k = elim (Bool-cases (is_message consumer id x)) [
  | inl own ↦ let same : x ≡ r = ground arith in ground arith
  | inr other ↦ let rest = find-complete_rows consumer id at xs r (ground arith) k in ground arith
]

module _ {A : Type 0} where
  pub completed-IsHandled :
      (id hash : String) (at : ℕ) (d d' : Desk A) {x : Unit}
      → IsKnown id hash d.inbox
      → completed wager_consumer_name id at d ≡ ok (x, d')
      → IsHandled id hash d'.inbox
  unfolding completed is_open is_complete
  completed-IsHandled id hash at d d' known h =
      let open_row : is_complete known.row.completed_at ≡ false =
        elim (Bool-cases (is_complete known.row.completed_at)) [
          | inl yes_ ↦ let f = known.found in absurd (ground arith)
          | inr no_ ↦ no_
        ] in
      let f = find-complete_rows wager_consumer_name id at d.inbox known.row known.found open_row in
      let g = known.found in
      let inbox : d'.inbox ≡ complete_rows wager_consumer_name id at d.inbox = ground arith in
      record {
        row = record known.row { completed_at = some at };
        found = ap (find_message wager_consumer_name id) inbox ∙ f;
        same_hash = known.same_hash;
        finished = refl;
      }

  agreed_parts :
      (r : InboxRow) (hash : String) (d : Desk A) {b : Bool} {d' : Desk A}
      → agreed r hash d ≡ ok (b, d')
      → (str_eq r.message_hash hash ≡ true) × (b ≡ is_complete r.completed_at) × (d' ≡ d)
  unfolding agreed
  agreed_parts r hash d h = (ground arith, ground arith, ground arith)

module _ {A : Type 0} ⦃env : Environment⦄ where
  registered_parts :
      (id hash : String) (u : Desk A) (o : Option InboxRow) {b : Bool} {d' : Desk A}
      → find_message wager_consumer_name id u.inbox ≡ o
      → registered wager_consumer_name id hash o u ≡ ok (b, d')
      → ((b ≡ true) → IsHandled id hash d'.inbox) × ((b ≡ false) → IsKnown id hash d'.inbox)
  unfolding registered insert_message find_message
  registered_parts id hash u none {b} {d'} e h = (
    (λ t. absurd (ground arith)),
    (λ _. record {
      row = record {
        consumer_name = wager_consumer_name;
        message_id = id;
        message_hash = hash;
        completed_at = none;
      };
      found = ground (arith, eq_iff id id);
      same_hash = ground (arith, eq_iff hash hash);
    }),
  )
  registered_parts id hash u (some r) {b} {d'} e h =
      let (x, v, first, second) = work_parts (on_store statement) (λ _. agreed r hash) u h in
      let (_, kept) = on_store_parts statement u first in
      let (same, value, stays) = agreed_parts r hash v second in
      let found : find_message wager_consumer_name id d'.inbox ≡ some r =
        ap (λ w. find_message wager_consumer_name id w.inbox) stays
        ∙ ap (find_message wager_consumer_name id) kept
        ∙ e in
      (
        (λ t. record { row = r; found = found; same_hash = same; finished = sym value ∙ t }),
        (λ f. record { row = r; found = found; same_hash = same }),
      )

  -- What a registration that succeeds has found: a message that is completed, or one to handle.
  pub register_parts :
      (id hash : String) (d : Desk A) {b : Bool} {d' : Desk A}
      → register wager_consumer_name id hash d ≡ ok (b, d')
      → ((b ≡ true) → IsHandled id hash d'.inbox) × ((b ≡ false) → IsKnown id hash d'.inbox)
  unfolding register
  register_parts id hash d {b} {d'} h =
      let (x, u, first, second) =
        work_parts (on_store statement)
          (λ _. λ e.
            registered wager_consumer_name id hash (find_message wager_consumer_name id e.inbox) e)
          d h in
      registered_parts id hash u (find_message wager_consumer_name id u.inbox) refl second

  -- A handled message is found to be one.
  pub register_again :
      (id hash : String) (d : Desk A)
      → IsHandled id hash d.inbox
      → env.fault d.store.steps ≡ none
      → env.fault (d.store.steps + 1) ≡ none
      → register wager_consumer_name id hash d
        ≡ ok (true, record d { store = record d.store { steps = d.store.steps + 1 + 1 } })
  unfolding register registered agreed on_store with_store statement
  register_again id hash d v calm still =
      let f = v.found in let g = v.same_hash in let k = v.finished in ground arith
