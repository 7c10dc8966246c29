-- ===== src/Outcome.antt =====
-- Stateful code that may return an error or panic. A method on `&mut self` and the machine's state
-- is a command on the pair of both. An `Err` value keeps the state that the code left; after a
-- panic the kernel shuts down, and no state is left.
pub mod Post
use package.hj.Base.{Bool, true, false, Option, none, some}

pub data Outcome (S E A : Type 0) : Type 0 where
  ok : A → S → Outcome S E A
  err : E → S → Outcome S E A
  panic : Outcome S E A

abbrev pub Cmd : Type 0 → Type 0 → Type 0 → Type 0
Cmd S E A = S → Outcome S E A

module _ {S E A : Type 0} where
  abbrev pub pure : A → Cmd S E A
  pure a = λ s. ok a s

  -- `return Err(e)`
  abbrev pub fail : E → Cmd S E A
  fail e = λ s. err e s

  abbrev pub abort : Cmd S E A
  abort = λ s. panic

  -- `unwrap`, `expect`, and the panics of the checked operations.
  abbrev pub or_panic : Option A → Cmd S E A
  or_panic (some a) = pure a
  or_panic none = abort

  abbrev pub ok_or : E → Option A → Cmd S E A
  ok_or e (some a) = pure a
  ok_or e none = fail e

  abbrev pub and_then : {B : Type 0} → Outcome S E A → (A → Cmd S E B) → Outcome S E B
  and_then (ok a s) k = k a s
  and_then (err e s) k = err e s
  and_then panic k = panic

  infixl 5 ◌>>=◌
  abbrev pub ◌>>=◌ : {B : Type 0} → Cmd S E A → (A → Cmd S E B) → Cmd S E B
  m >>= k = λ s. and_then (m s) k

  abbrev pub outcome_map_err : {F : Type 0} → (E → F) → Outcome S E A → Outcome S F A
  outcome_map_err f (ok a s) = ok a s
  outcome_map_err f (err e s) = err (f e) s
  outcome_map_err f panic = panic

  abbrev pub map_err : {F : Type 0} → (E → F) → Cmd S E A → Cmd S F A
  map_err f m = λ s. outcome_map_err f (m s)

  -- What runs when an error leaves a scope: the drops of its values.
  abbrev pub outcome_on_err : (S → S) → Outcome S E A → Outcome S E A
  outcome_on_err clean (ok a s) = ok a s
  outcome_on_err clean (err e s) = err e (clean s)
  outcome_on_err clean panic = panic

  abbrev pub on_err : (S → S) → Cmd S E A → Cmd S E A
  on_err clean m = λ s. outcome_on_err clean (m s)

module _ {S E : Type 0} where
  -- A change of the state that cannot fail.
  abbrev pub modify : (S → S) → Cmd S E (Unit {0})
  modify f = λ s. ok tt (f s)

  infixl 5 ◌>>◌
  abbrev pub ◌>>◌ : {B : Type 0} → Cmd S E (Unit {0}) → Cmd S E B → Cmd S E B
  m >> k = m >>= λ _. k

  -- `assert!`
  abbrev pub assert : Bool → Cmd S E (Unit {0})
  assert true = pure tt
  assert false = abort

module _ {M A B E X : Type 0} where
  abbrev pub put_back : (A → B → B) → B → Outcome (M × A) E X → Outcome (M × B) E X
  put_back put b (ok x (m, a)) = ok x (m, put a b)
  put_back put b (err e (m, a)) = err e (m, put a b)
  put_back put b panic = panic

  -- A call of a method of a field of the object.
  abbrev pub zoom : (B → A) → (A → B → B) → Cmd (M × A) E X → Cmd (M × B) E X
  zoom get put c = λ (m, b). put_back put b (c (m, get b))
