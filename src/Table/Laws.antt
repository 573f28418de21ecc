-- ===== src/Table/Laws.antt =====
-- What the statements do to a look-up by key.
use snw_agent_link.Prelude.{
  ◌+◌, ◌≤◌, ◌≡◌, refl, Bool, true, false, none, some, List, [], ◌∷◌, arith, if◌then◌else◌,
  Bool-cases, All, inl, inr,
}
use mathlib.Core.Path.{subst}
use mathlib.Core.Option
use snw_agent_link.Table.{select_one, select, update, affected, delete, taken, insert}

module _ {A : Type 0} (p : A → Bool) where
  pub taken-select_one : (xs : List A) → taken p xs ≡ false → select_one p xs ≡ none
  unfolding taken select_one
  taken-select_one [] h = refl
  taken-select_one (x ∷ xs) h = ground (arith, taken-select_one xs)

  pub select_one-taken : (xs : List A) → select_one p xs ≡ none → taken p xs ≡ false
  unfolding taken select_one
  select_one-taken [] h = refl
  select_one-taken (x ∷ xs) h = ground (arith, select_one-taken xs)

  pub select_one-holds : (a : A) (xs : List A) → select_one p xs ≡ some a → p a ≡ true
  unfolding select_one
  select_one-holds a [] h = cc
  select_one-holds a (x ∷ xs) h = ground (arith, select_one-holds a xs)

  -- An insert at the end is found where nothing was found before.
  pub select_one-insert :
      (x : A) (xs : List A)
      → select_one p (insert x xs)
        ≡ elim (select_one p xs) [ none ↦ if p x then some x else none | some a ↦ some a ]
  unfolding select_one insert
  select_one-insert x [] = refl
  select_one-insert x (y ∷ ys) = elim (Bool-cases (p y)) [
    | inl e ↦ rw e
    | inr e ↦ rw e (select_one-insert x ys)
  ]

  pub affected-zero : (xs : List A) → affected p xs ≡ 0 → select_one p xs ≡ none
  unfolding affected select_one
  affected-zero [] h = refl
  affected-zero (x ∷ xs) h = ground (arith, affected-zero xs)

  pub affected-none : (xs : List A) → select_one p xs ≡ none → affected p xs ≡ 0
  unfolding affected select_one
  affected-none [] h = refl
  affected-none (x ∷ xs) h = ground (arith, affected-none xs)

  pub update-none : (f : A → A) (xs : List A) → select_one p xs ≡ none → update p f xs ≡ xs
  unfolding update select_one
  update-none f [] h = refl
  update-none f (x ∷ xs) h = ground (arith, update-none f xs)

  -- What is found is one of the rows.
  pub All-select_one {ℓ} :
      (P : A → Type ℓ) (a : A) (xs : List A) → All P xs → select_one p xs ≡ some a → P a
  unfolding select_one
  All-select_one P a [] ps h = cc
  All-select_one P a (x ∷ xs) ps h = elim (Bool-cases (p x)) [
    | inl e ↦ let q : x ≡ a = ground arith in subst P q ps.0
    | inr e ↦ All-select_one P a xs ps.1 (rw e at h)
  ]

module _ {ℓ} {A : Type 0} (P : A → Type ℓ) where
  pub All-insert : (x : A) (xs : List A) → All P xs → P x → All P (insert x xs)
  unfolding insert
  All-insert x [] ps px = (px, tt)
  All-insert x (y ∷ ys) ps px = (ps.0, All-insert x ys ps.1 px)

  pub All-update :
      (p : A → Bool) (f : A → A) (xs : List A)
      → ((x : A) → p x ≡ true → P x → P (f x))
      → All P xs
      → All P (update p f xs)
  unfolding update
  All-update p f [] keep ps = tt
  All-update p f (x ∷ xs) keep ps = elim (Bool-cases (p x)) [
    | inl e ↦ rw e (keep x e ps.0, All-update p f xs keep ps.1)
    | inr e ↦ rw e (ps.0, All-update p f xs keep ps.1)
  ]

  pub All-select : (p : A → Bool) (xs : List A) → All P xs → All P (select p xs)
  unfolding select
  All-select p [] ps = tt
  All-select p (x ∷ xs) ps = elim (Bool-cases (p x)) [
    | inl e ↦ rw e (ps.0, All-select p xs ps.1)
    | inr e ↦ rw e (All-select p xs ps.1)
  ]

  pub All-delete : (p : A → Bool) (xs : List A) → All P xs → All P (delete p xs)
  unfolding delete
  All-delete p [] ps = tt
  All-delete p (x ∷ xs) ps = elim (Bool-cases (p x)) [
    | inl e ↦ rw e (All-delete p xs ps.1)
    | inr e ↦ rw e (ps.0, All-delete p xs ps.1)
  ]

-- The rows of a SELECT pass its WHERE clause.
pub select-holds : {A : Type 0} (p : A → Bool) (xs : List A) → All (λ x. p x ≡ true) (select p xs)
unfolding select
select-holds p [] = tt
select-holds p (x ∷ xs) = elim (Bool-cases (p x)) [
  | inl e ↦ rw e (e, select-holds p xs)
  | inr e ↦ rw e (select-holds p xs)
]

module _ {A : Type 0} (p q : A → Bool) (f : A → A) where
  -- The row that an update leaves under a key that it does not move.
  abbrev pub changed : A → A
  changed x = if q x then f x else x

  pub select_one-update :
      (xs : List A)
      → ((x : A) → p (f x) ≡ p x)
      → select_one p (update q f xs) ≡ Option.map changed (select_one p xs)
  unfolding select_one update
  select_one-update [] keep = refl
  select_one-update (x ∷ xs) keep = elim (Bool-cases (q x)) [
    | inl e ↦
        rw (e, keep)
          (elim (Bool-cases (p x)) [ inl k ↦ rw (k, e) | inr k ↦ rw k (select_one-update xs keep) ])
    | inr e ↦
        rw e
          (elim (Bool-cases (p x)) [ inl k ↦ rw (k, e) | inr k ↦ rw k (select_one-update xs keep) ])
  ]

  pub affected-update :
      (xs : List A) → ((x : A) → p (f x) ≡ p x) → affected p (update q f xs) ≡ affected p xs
  unfolding affected update
  affected-update [] keep = refl
  affected-update (x ∷ xs) keep = ground (arith, keep x, affected-update xs)

module _ {A : Type 0} (p : A → Bool) where
  pub affected-insert :
      (x : A) (xs : List A) → affected p (insert x xs) ≡ affected p xs + (if p x then 1 else 0)
  unfolding affected insert
  affected-insert x [] = ground arith
  affected-insert x (y ∷ ys) = ground (arith, affected-insert x ys)

  -- A row that is found is counted.
  pub affected-pos : (a : A) (xs : List A) → select_one p xs ≡ some a → 1 ≤ affected p xs
  unfolding affected select_one
  affected-pos a [] h = cc
  affected-pos a (x ∷ xs) h = ground (arith, affected-pos a xs)

module _ {A : Type 0} (p q : A → Bool) where
  -- A row that a DELETE spares is still found.
  pub select_one-delete :
      (a : A) (xs : List A)
      → select_one p xs ≡ some a
      → q a ≡ false
      → select_one p (delete q xs) ≡ some a
  unfolding select_one delete
  select_one-delete a [] h k = cc
  select_one-delete a (x ∷ xs) h k = ground (arith, select_one-delete a xs)

  -- Nothing is found where the DELETE takes every row that would be.
  pub select_one-delete-none :
      (xs : List A) → All (λ x. q x ≡ p x) xs → select_one p (delete q xs) ≡ none
  unfolding select_one delete
  select_one-delete-none [] h = refl
  select_one-delete-none (x ∷ xs) h = ground (arith, h.0, select_one-delete-none xs h.1)

-- An UPDATE after which no row passes its WHERE clause.
pub update-clears :
    {A : Type 0} (p : A → Bool) (f : A → A) (xs : List A)
    → ((x : A) → p (f x) ≡ false)
    → All (λ x. p x ≡ false) (update p f xs)
unfolding update
update-clears p f [] h = tt
update-clears p f (x ∷ xs) h = elim (Bool-cases (p x)) [
  | inl e ↦ rw e (h x, update-clears p f xs h)
  | inr e ↦ rw e (e, update-clears p f xs h)
]
