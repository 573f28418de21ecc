-- ===== src/Exec.antt =====
-- Methods on a mutable state that may return an error. What was written before the error stays
-- written, so the state comes back beside it. `transaction` is BeginTx … Commit, with
-- `defer tx.Rollback()`.
use snw_agent_link.Prelude.{Bool, true, false}
use snw_agent_link.Errors.{Error, Result, ok, err}

abbrev pub Exec : Type 0 → Type 0 → Type 0
Exec S A = S → Result A × S

module _ {S A : Type 0} where
  unfoldable pub pure : A → Exec S A
  pure a s = (ok a, s)

  unfoldable pub fail : Error → Exec S A
  fail e s = (err e, s)

  -- A function that reads and does not write.
  unfoldable pub query : (S → Result A) → Exec S A
  query f s = (f s, s)

  -- The error as a value: `value, err := m()`.
  unfoldable pub attempt : Exec S A → Exec S (Result A)
  attempt m s = let (r, s') = m s in (ok r, s')

  abbrev pub settle : S → Result (A × Bool) → S → Result A × S
  settle old (ok (a, true)) new = (ok a, new)
  settle old (ok (a, false)) new = (ok a, old)
  settle old (err e) new = (err e, old)

  -- The body says whether it reached Commit; any other way out rolls back.
  unfoldable pub transaction : Exec S (A × Bool) → Exec S A
  transaction m s = let (r, s') = m s in settle s r s'

module _ {S : Type 0} where
  -- `if b { return e }`
  unfoldable pub reject_if : Bool → Error → Exec S (Unit {0})
  reject_if true e s = (err e, s)
  reject_if false e s = (ok tt, s)

module _ {S A B : Type 0} where
  abbrev pub resume : Result A → (A → Exec S B) → Exec S B
  resume (ok a) f s = f a s
  resume (err e) f s = (err e, s)

  infixl 10 ◌>>=◌ ◌>>◌
  -- Opening this opens the actions above too.
  unfoldable pub ◌>>=◌ : Exec S A → (A → Exec S B) → Exec S B
  unfolding pure fail query attempt transaction reject_if
  ◌>>=◌ m f s = let (r, s') = m s in resume r f s'

  abbrev pub ◌>>◌ : Exec S A → Exec S B → Exec S B
  m >> n = m >>= λ _. n
