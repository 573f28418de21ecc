-- ===== src/Pairing/Guards.antt =====
-- Rules for what an operation does to the table of contacts, one for each way to build an operation
-- that writes the table once.
use snw_agent_link.Prelude.{◌≡◌, refl, ◌∙◌, Bool, true, false, Option, none, some, List, sym}
use mathlib.Core.Path.{subst}
use snw_agent_link.Errors.{Error, Result, ok, err}
use snw_agent_link.Exec.{pure, fail, query, attempt, reject_if, settle, transaction, resume, ◌>>=◌}
use snw_agent_link.Model.{Contact}
use snw_agent_link.Platform.{Platform}
use snw_agent_link.Store.Tables.{Database, Db}
use snw_agent_link.Pairing.Invite.{require, or_mismatch}

-- The table of contacts stays.
pub record Quiet {A : Type 0} (m : Db A) : Type 0 where
  pub at : (d : Database) → (m d).1.contacts ≡ d.contacts

-- The tables before and after are related, also where the operation fails.
pub record Guards {A : Type 0} (R : List Contact → List Contact → Type 0) (m : Db A) : Type 0 where
  pub at : (d : Database) → R d.contacts (m d).1.contacts

module _ {A : Type 0} where
  pub Quiet-pure : (a : A) → Quiet (pure a)
  unfolding pure
  Quiet-pure a = record { at = λ d. refl }

  pub Quiet-fail : (e : Error) → Quiet (fail {A = A} e)
  unfolding fail
  Quiet-fail e = record { at = λ d. refl }

  pub Quiet-query : (f : Database → Result A) → Quiet (query f)
  unfolding query
  Quiet-query f = record { at = λ d. refl }

  pub Quiet-attempt : (m : Db A) → Quiet m → Quiet (attempt m)
  unfolding attempt
  Quiet-attempt m q = record { at = q.at }

  pub Quiet-require : (o : Option A) (e : Error) → Quiet (require o e)
  unfolding require
  Quiet-require none e = Quiet-fail e
  Quiet-require (some a) e = Quiet-pure a

  pub Quiet-or_mismatch : (p : Platform) (r : Result A) → Quiet (or_mismatch p r)
  unfolding or_mismatch
  Quiet-or_mismatch p (ok a) = Quiet-pure a
  Quiet-or_mismatch p (err e) = Quiet-fail _

  pub Quiet-transaction : (m : Db (A × Bool)) → Quiet m → Quiet (transaction m)
  unfolding transaction
  Quiet-transaction m q = record { at = λ d. settled d (m d) (q.at d) }
    where
      settled :
          (d : Database) (x : Result (A × Bool) × Database)
          → x.1.contacts ≡ d.contacts
          → (settle d x.0 x.1).1.contacts ≡ d.contacts
      settled d (ok (a, true), new) h = h
      settled d (ok (a, false), new) h = refl
      settled d (err e, new) h = refl

pub Quiet-reject_if : (b : Bool) (e : Error) → Quiet (reject_if b e)
unfolding reject_if
Quiet-reject_if true e = record { at = λ d. refl }
Quiet-reject_if false e = record { at = λ d. refl }

module _ {A B : Type 0} (m : Db A) (f : A → Db B) where
  pub Quiet-bind : Quiet m → ((a : A) → Quiet (f a)) → Quiet (m >>= f)
  unfolding ◌>>=◌
  Quiet-bind q qf = record { at = λ d. rest d (m d) (q.at d) }
    where
      rest :
          (d : Database) (x : Result A × Database)
          → x.1.contacts ≡ d.contacts
          → (resume x.0 f x.1).1.contacts ≡ d.contacts
      rest d (ok a, new) h = (qf a).at new ∙ h
      rest d (err e, new) h = h

  module _ (R : List Contact → List Contact → Type 0) where
    -- The write comes later.
    pub Guards-later :
        ((xs : List Contact) → R xs xs) → Quiet m → ((a : A) → Guards R (f a)) → Guards R (m >>= f)
    unfolding ◌>>=◌
    Guards-later same q gf = record { at = λ d. rest d (m d) (q.at d) }
      where
        rest :
            (d : Database) (x : Result A × Database)
            → x.1.contacts ≡ d.contacts
            → R d.contacts (resume x.0 f x.1).1.contacts
        rest d (ok a, new) h = subst (λ xs. R xs (f a new).1.contacts) h ((gf a).at new)
        rest d (err e, new) h = subst (R d.contacts) (sym h) (same d.contacts)

    -- The write is done.
    pub Guards-first : Guards R m → ((a : A) → Quiet (f a)) → Guards R (m >>= f)
    unfolding ◌>>=◌
    Guards-first g qf = record { at = λ d. rest d (m d) (g.at d) }
      where
        rest :
            (d : Database) (x : Result A × Database)
            → R d.contacts x.1.contacts
            → R d.contacts (resume x.0 f x.1).1.contacts
        rest d (ok a, new) h = subst (R d.contacts) (sym ((qf a).at new)) h
        rest d (err e, new) h = h

pub Guards-attempt :
    {A : Type 0} (R : List Contact → List Contact → Type 0) (m : Db A)
    → Guards R m
    → Guards R (attempt m)
unfolding attempt
Guards-attempt R m g = record { at = g.at }

pub ruleset quiet_rules = (
  Quiet-pure, Quiet-fail, Quiet-query, Quiet-attempt, Quiet-require, Quiet-or_mismatch,
  Quiet-transaction, Quiet-reject_if, Quiet-bind,
)
