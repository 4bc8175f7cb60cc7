-- ===== src/Store/Attempted.antt =====
-- internal/infrastructure/postgres/transaction_manager.go: what the attempts of a transaction keep.
use junglegaming_test.Base.{
  ℕ, zero, suc, ◌≡◌, refl, Bool, true, false, ◌&&◌, Result, ok, err, if◌then◌else◌,
}
use junglegaming_test.Store.{Environment, AppError}
use junglegaming_test.Store.Run.{
  Attempts, Commit, succeeds, aborts, unanswered, attempt, is_conflict, committed,
}

module _ {S : Type 0} where
  committed-keeps :
      {X : Type 0} (P : S → Type 0) (c : Commit) (s : S) (r : Result AppError (X × S))
      → ((x : X) (s' : S) → r ≡ ok (x, s') → P s')
      → P s
      → P (committed c s r).1
  unfolding committed
  committed-keeps P c s (err e) k p = p
  committed-keeps P succeeds s (ok q) k p = k q.0 q.1 refl
  committed-keeps P (aborts e) s (ok q) k p = p
  committed-keeps P (unanswered e) s (ok q) k p = k q.0 q.1 refl

  pick :
      {X : Type 0} (P : S → Type 0) (b : Bool) (u v : X × S)
      → P u.1
      → P v.1
      → P (if b then u else v).1
  pick P true u v p q = p
  pick P false u v p q = q

  -- A property that every attempt keeps is kept by the transaction, whatever becomes of a COMMIT.
  pub attempt-keeps :
      {X : Type 0} (P : S → Type 0) (world : Attempts)
      (f : Environment → S → Result AppError (X × S)) (n : ℕ) (s : S)
      → ((env : Environment) (u : S) (x : X) (s' : S) → P u → f env u ≡ ok (x, s') → P s')
      → P s
      → P (attempt world f n s).1
  unfolding attempt
  attempt-keeps P world f zero s k p =
      committed-keeps P (world.commits zero) s (f (world.world zero) s) (λ x s' h. k _ s x s' p h) p
  attempt-keeps P world f (suc n) s k p =
      let outcome = committed (world.commits (suc n)) s (f (world.world (suc n)) s) in
      let kept : P outcome.1 =
        committed-keeps P (world.commits (suc n)) s (f (world.world (suc n)) s)
          (λ x s' h. k _ s x s' p h) p in
      pick P (is_conflict outcome.0 && world.waits (suc n)) _ _
        (attempt-keeps P world f n outcome.1 k kept) kept
