-- ===== src/Store/Ensures.antt =====
-- What the actions of the store ensure: conditions on the state before and after a success.
use junglegaming_test.Base.{
  ◌≡◌, refl, Result, ok, err, arith, sym, Bool, true, false, if◌then◌else◌,
}
use mathlib.Core.Path.{subst}
use junglegaming_test.Errors.{DomainError}
use junglegaming_test.Store.{Store, Action, AppError, lift, raise_if, ◌>>=◌}
use junglegaming_test.Store.Frame.{SameMoney, KeepsMoney, bind_parts}

lift_parts :
    {A X : Type 0} (r : Result DomainError X) (s : Store A) {x : X} {s' : Store A}
    → lift r s ≡ ok (x, s')
    → (r ≡ ok x) × (s' ≡ s)
unfolding lift
lift_parts (ok x) s h = ground arith
lift_parts (err e) s h = absurd (ground arith)

module _ {A : Type 0} where
  -- From a state of which `P` holds, an action that succeeds leads to one of which `Q` holds.
  abbrev pub Ensures :
      {X : Type 0} → (Store A → Type 0) → Action A X → (X → Store A → Type 0) → Type 0
  Ensures {X} P m Q = (s : Store A) (x : X) (s' : Store A) → P s → m s ≡ ok (x, s') → Q x s'

  pub bind-Ensures :
      {X Y : Type 0} (P : Store A → Type 0) (m : Action A X) (Q : X → Store A → Type 0)
      (f : X → Action A Y) (R : Y → Store A → Type 0)
      → Ensures P m Q
      → ((x : X) → Ensures (Q x) (f x) R)
      → Ensures P (m >>= f) R
  bind-Ensures P m Q f R k l s y s' p h =
      let (x, u, first, rest) = bind_parts m f s h in l x u y s' (k s x u p first) rest

  pub keeps-Ensures :
      {X : Type 0} {P : Store A → Type 0} {m : Action A X}
      → ((s s' : Store A) → SameMoney s s' → P s → P s')
      → KeepsMoney m
      → Ensures P m (λ _. P)
  keeps-Ensures stable k s x s' p h = stable s s' (k s x s' h) p

  pub lift-Ensures :
      {X : Type 0} (P : Store A → Type 0) (r : Result DomainError X)
      → Ensures P (lift r) (λ x s. P s × (r ≡ ok x))
  lift-Ensures P r s x s' p h = let (e, same) = lift_parts r s h in (subst P (sym same) p, e)

  pub if-Ensures :
      {X : Type 0} {P : Store A → Type 0} {Q : X → Store A → Type 0} (b : Bool) (m n : Action A X)
      → Ensures P m Q
      → Ensures P n Q
      → Ensures P (if b then m else n) Q
  if-Ensures true m n k l = k
  if-Ensures false m n k l = l

  pub test-Ensures :
      {X : Type 0} {P : Store A → Type 0} {Q : X → Store A → Type 0} (b : Bool) (m n : Action A X)
      → (b ≡ true → Ensures P m Q)
      → (b ≡ false → Ensures P n Q)
      → Ensures P (if b then m else n) Q
  test-Ensures true m n k l = k refl
  test-Ensures false m n k l = l refl

  pub raise_if-Ensures :
      (P : Store A → Type 0) (b : Bool) (e : AppError)
      → Ensures P (raise_if b e) (λ _ s. P s × (b ≡ false))
  unfolding raise_if
  raise_if-Ensures P true e s x s' p h = absurd (ground arith)
  raise_if-Ensures P false e s x s' p h = let same : s ≡ s' = ground arith in (subst P same p, refl)
