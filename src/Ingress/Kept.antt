-- ===== src/Ingress/Kept.antt =====
-- internal/infrastructure/postgres/inbox_repository.go with wager_handler.go: a message that was
-- handled stays handled while others arrive.
use junglegaming_test.Base.{
  ℕ, ◌≡◌, refl, sym, ap, ◌∙◌, String, str_eq, eq_iff, Bool, true, false, Option, none, some, List,
  [], ◌∷◌, ok, arith, inl, inr, Bool-cases,
}
use mathlib.Core.Path.{subst}
use junglegaming_test.Decimal.{Decimal}
use junglegaming_test.Backoff.{ReferenceRetryPolicy}
use junglegaming_test.Store.{Environment, clock_now, statement}
use junglegaming_test.Service.{ProcessResult}
use junglegaming_test.Service.Submit.{process_command}
use junglegaming_test.Ingress.{
  InboxRow, Desk, Work, is_message, find_message, is_complete, complete_rows, on_store, done,
  insert_message, agreed, completed, registered, register, complete, ◌>>=◌,
}
use junglegaming_test.Ingress.Message.{Envelope, wager_message_to_command}
use junglegaming_test.Ingress.Registered.{IsHandled, work_parts, on_store_parts}
use junglegaming_test.Ingress.Handler.{
  Codec, wager_consumer_name, message_metadata, handle_registered, handle_message,
}

find-complete_rows-kept :
    (consumer id other : String) (at : ℕ) (inbox : List InboxRow) (r : InboxRow)
    → find_message consumer id inbox ≡ some r
    → is_complete r.completed_at ≡ true
    → find_message consumer id (complete_rows consumer other at inbox) ≡ some r
unfolding find_message complete_rows
find-complete_rows-kept consumer id other at [] r h k = absurd (ground arith)
find-complete_rows-kept consumer id other at (x ∷ xs) r h k =
    elim (Bool-cases (is_message consumer id x)) [
      | inl own ↦ let same : x ≡ r = ground arith in ground arith
      | inr miss ↦
          let rest = find-complete_rows-kept consumer id other at xs r (ground arith) k in
          ground arith
    ]

module _ {A : Type 0} where
  -- An action after whose success the message is still handled.
  abbrev KeepsHandled : {X : Type 0} → String → String → Work A X → Type 0
  KeepsHandled {X} id hash m =
      (d : Desk A) (x : X) (d' : Desk A)
      → IsHandled id hash d.inbox
      → m d ≡ ok (x, d')
      → IsHandled id hash d'.inbox

  bind-KeepsHandled :
      {X Y : Type 0} (id hash : String) (m : Work A X) (f : X → Work A Y)
      → KeepsHandled id hash m
      → ((x : X) → KeepsHandled id hash (f x))
      → KeepsHandled id hash (m >>= f)
  bind-KeepsHandled id hash m f k l d y d' v h =
      let (x, u, first, rest) = work_parts m f d h in l x u y d' (k d x u v first) rest

  on_store-KeepsHandled :
      {X : Type 0} (id hash : String) (m : _) → KeepsHandled {X = X} id hash (on_store m)
  on_store-KeepsHandled id hash m d x d' v h =
      let (_, same) = on_store_parts m d h in subst (IsHandled id hash) (sym same) v

  same-KeepsHandled :
      {X : Type 0} (id hash : String) (m : Work A X)
      → ((d : Desk A) (x : X) (d' : Desk A) → m d ≡ ok (x, d') → d' ≡ d)
      → KeepsHandled id hash m
  same-KeepsHandled id hash m k d x d' v h =
      subst (λ (u : Desk A). IsHandled id hash u.inbox) (sym (k d x d' h)) v

  completed-KeepsHandled :
      (id hash other : String) (at : ℕ)
      → KeepsHandled id hash (completed wager_consumer_name other at)
  unfolding completed
  completed-KeepsHandled id hash other at d x d' v h =
      let inbox : d'.inbox ≡ complete_rows wager_consumer_name other at d.inbox = ground arith in
      record {
        row = v.row;
        found =
            ap (find_message wager_consumer_name id) inbox
            ∙ find-complete_rows-kept wager_consumer_name id other at d.inbox v.row v.found
                v.finished;
        same_hash = v.same_hash;
        finished = v.finished;
      }

  -- A new row has the key of no other.
  insert_message-IsHandled :
      (id hash other text : String) (d d' : Desk A) {b : Bool}
      → find_message wager_consumer_name other d.inbox ≡ none
      → IsHandled id hash d.inbox
      → insert_message wager_consumer_name other text d ≡ ok (b, d')
      → IsHandled id hash d'.inbox
  unfolding insert_message find_message
  insert_message-IsHandled id hash other text d d' free v h = elim (Bool-cases (str_eq other id)) [
    | inl same ↦
        let e : other ≡ id = ground (arith, eq_iff other id) in
        let f = v.found in
        let g : find_message wager_consumer_name id d.inbox ≡ none =
          subst (λ i. find_message wager_consumer_name i d.inbox ≡ none) e free in
        absurd (ground arith)
    | inr differs ↦ record {
      row = v.row;
      found = (let f = v.found in ground arith);
      same_hash = v.same_hash;
      finished = v.finished;
    }
  ]

module _ {A : Type 0} ⦃env : Environment⦄ where
  registered-IsHandled :
      (id hash other text : String) (u d' : Desk A) (o : Option InboxRow) {b : Bool}
      → find_message wager_consumer_name other u.inbox ≡ o
      → IsHandled id hash u.inbox
      → registered wager_consumer_name other text o u ≡ ok (b, d')
      → IsHandled id hash d'.inbox
  unfolding registered agreed
  registered-IsHandled id hash other text u d' none e v h =
      insert_message-IsHandled id hash other text u d' e v h
  registered-IsHandled id hash other text u d' (some r) {b} e v h =
      bind-KeepsHandled id hash (on_store statement) (λ _. agreed r text)
        (on_store-KeepsHandled id hash statement)
        (λ _. same-KeepsHandled id hash (agreed r text) (λ d x w k. ground arith)) u b d' v h

  register-KeepsHandled :
      (id hash other text : String)
      → KeepsHandled {A = A} id hash (register wager_consumer_name other text)
  unfolding register
  register-KeepsHandled id hash other text d x d' v h =
      let (_, u, first, second) =
        work_parts (on_store statement)
          (λ _ (e : Desk A).
            registered wager_consumer_name other text
              (find_message wager_consumer_name other e.inbox) e)
          d h in
      registered-IsHandled id hash other text u d' (find_message wager_consumer_name other u.inbox)
        refl (on_store-KeepsHandled id hash statement d tt u v first) second

module _ {A : Type 0} ⦃decimal : Decimal A⦄ ⦃env : Environment⦄ where
  handle_registered-KeepsHandled :
      (id hash : String) (codec : Codec A) (policy : ReferenceRetryPolicy) (m : Envelope) (b : Bool)
      → KeepsHandled id hash (handle_registered codec policy m b)
  unfolding handle_registered complete
  handle_registered-KeepsHandled id hash codec policy m true =
      same-KeepsHandled id hash _ (λ d x d' h. ground arith)
  handle_registered-KeepsHandled id hash codec policy m false =
      bind-KeepsHandled id hash _ _
        (on_store-KeepsHandled id hash (
          process_command codec.parse_uuid codec.hash_request policy
            (wager_message_to_command m.data_of) (message_metadata m)))
        (λ result. bind-KeepsHandled id hash _ _ (on_store-KeepsHandled id hash clock_now) (λ now.
          bind-KeepsHandled id hash _ _
            (bind-KeepsHandled id hash _ _ (on_store-KeepsHandled id hash statement)
              (λ _. completed-KeepsHandled id hash m.message_id now))
            (λ _. same-KeepsHandled id hash (done (some result)) (λ d x d' h. ground arith))))

  -- A transaction of the handler for any message keeps the others handled.
  pub handle_message-KeepsHandled :
      (id hash : String) (codec : Codec A) (policy : ReferenceRetryPolicy) (m : Envelope)
      (text : String)
      → KeepsHandled id hash (handle_message codec policy m text)
  unfolding handle_message
  handle_message-KeepsHandled id hash codec policy m text =
      bind-KeepsHandled id hash _ _ (register-KeepsHandled id hash m.message_id text)
        (handle_registered-KeepsHandled id hash codec policy m)

module _ {A : Type 0} ⦃decimal : Decimal A⦄ where
  -- Between two states the handler takes further messages, each in a transaction that succeeds and
  -- in an environment of its own, and the rest of the program works on the other tables.
  pub data Handling (d : Desk A) : Desk A → Type 0 where
    here : Handling d d
    handles :
        {u v : Desk A} (env : Environment) (codec : Codec A) (policy : ReferenceRetryPolicy)
        (m : Envelope) (text : String) (r : Option (ProcessResult A))
        → Handling d u
        → handle_message ⦃env = env⦄ codec policy m text u ≡ ok (r, v)
        → Handling d v
    works : {u v : Desk A} → Handling d u → v.inbox ≡ u.inbox → Handling d v

  pub Handling-keeps :
      (id hash : String) (d d' : Desk A)
      → Handling d d'
      → IsHandled id hash d.inbox
      → IsHandled id hash d'.inbox
  Handling-keeps id hash d d' here v = v
  Handling-keeps id hash d d' (handles {u} env codec policy m text r k h) v =
      handle_message-KeepsHandled ⦃env = env⦄ id hash codec policy m text u r d'
        (Handling-keeps id hash d u k v) h
  Handling-keeps id hash d d' (works {u} k same) v =
      subst (IsHandled id hash) (sym same) (Handling-keeps id hash d u k v)
