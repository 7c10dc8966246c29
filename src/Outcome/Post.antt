-- ===== src/Outcome/Post.antt =====
-- Postconditions of stateful code. `M` says when it may panic: it is ⊥ for code that never does.
use package.hj.Base.{Bool, true, false, ◌≡◌, refl, if◌then◌else◌}
use package.hj.Outcome.{Outcome, Cmd, ok, err, panic, and_then}

module _ {S E A : Type 0} where
  unfoldable pub Ends : Type 0 → (A → S → Type 0) → Outcome S E A → Type 0
  Ends M P (ok a s) = P a s
  Ends M P (err e s) = ⊥
  Ends M P panic = M

  pub Ends-weaken :
      (M N : Type 0) (P : A → S → Type 0) (Q : A → S → Type 0) (o : Outcome S E A)
      → (M → N)
      → ((a : A) (s : S) → P a s → Q a s)
      → Ends M P o
      → Ends N Q o
  unfolding Ends
  Ends-weaken M N P Q (ok a s) f g h = g a s h
  Ends-weaken M N P Q (err e s) f g h = h
  Ends-weaken M N P Q panic f g h = f h

  pub Ends-both :
      (M N : Type 0) (P Q : A → S → Type 0) (o : Outcome S E A)
      → Ends M P o
      → Ends N Q o
      → Ends M (λ a s. P a s × Q a s) o
  unfolding Ends
  Ends-both M N P Q (ok a s) f g = (f, g)
  Ends-both M N P Q (err e s) f g = f
  Ends-both M N P Q panic f g = f

  pub Ends-if :
      (M : Type 0) (P : A → S → Type 0) (b : Bool) (m n : Cmd S E A) (s : S)
      → (b ≡ true → Ends M P (m s))
      → (b ≡ false → Ends M P (n s))
      → Ends M P ((if b then m else n) s)
  Ends-if M P true m n s f g = f refl
  Ends-if M P false m n s f g = g refl

module _ {S A : Type 0} where
  pub Ends-ok :
      (E M : Type 0) (P : A → S → Type 0) {a : A} {s : S} → P a s → Ends {E = E} M P (ok a s)
  unfolding Ends
  Ends-ok E M P h = h

  pub Ends-panic : (E M : Type 0) (P : A → S → Type 0) → M → Ends {E = E} M P panic
  unfolding Ends
  Ends-panic E M P h = h

  pub Ends-panicked : (E M : Type 0) (P : A → S → Type 0) → Ends {E = E} M P panic → M
  unfolding Ends
  Ends-panicked E M P h = h

  pub Ends-from :
      (E M : Type 0) (P : A → S → Type 0) {a : A} {s : S} → Ends {E = E} M P (ok a s) → P a s
  unfolding Ends
  Ends-from E M P h = h

  pub Ends-err :
      {E : Type 0} (M : Type 0) (P : A → S → Type 0) (e : E) (s : S) → Ends M P (err e s) → ⊥
  unfolding Ends
  Ends-err M P e s h = h

module _ {S E A B : Type 0} where
  pub Ends-and_then :
      (M : Type 0) (P : A → S → Type 0) (Q : B → S → Type 0) (o : Outcome S E A) (f : A → Cmd S E B)
      → Ends M P o
      → ((a : A) (s : S) → P a s → Ends M Q (f a s))
      → Ends M Q (and_then o f)
  unfolding Ends
  Ends-and_then M P Q (ok a s) f h next = next a s h
  Ends-and_then M P Q (err e s) f h next = absurd h
  Ends-and_then M P Q panic f h next = h
