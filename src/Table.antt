-- ===== src/Table.antt =====
-- The SQL statements that the store runs, over a table as the list of its rows in the order in
-- which they were inserted. A WHERE clause is a test on rows. Result sets that the source leaves
-- unordered, and ties of an ORDER BY, come in that order here.
pub mod Laws
pub mod Sort
use snw_agent_link.Prelude.{
  ℕ, suc, Bool, true, false, Option, none, some, List, [], ◌∷◌, ◌++◌, not, if◌then◌else◌,
}

module _ {A : Type 0} where
  -- SELECT … WHERE, read by QueryRow: the first row, or sql.ErrNoRows.
  unfoldable pub select_one : (A → Bool) → List A → Option A
  select_one p [] = none
  select_one p (x ∷ xs) = let rest = select_one p xs in if p x then some x else rest

  -- SELECT … WHERE
  unfoldable pub select : (A → Bool) → List A → List A
  select p [] = []
  select p (x ∷ xs) = let rest = select p xs in if p x then x ∷ rest else rest

  -- UPDATE … SET … WHERE
  unfoldable pub update : (A → Bool) → (A → A) → List A → List A
  update p f [] = []
  update p f (x ∷ xs) = (if p x then f x else x) ∷ update p f xs

  -- RowsAffected of an UPDATE
  unfoldable pub affected : (A → Bool) → List A → ℕ
  affected p [] = 0
  affected p (x ∷ xs) = let rest = affected p xs in if p x then suc rest else rest

  -- DELETE … WHERE
  unfoldable pub delete : (A → Bool) → List A → List A
  delete p [] = []
  delete p (x ∷ xs) = let rest = delete p xs in if p x then rest else x ∷ rest

  -- Is the key taken?
  unfoldable pub taken : (A → Bool) → List A → Bool
  taken p [] = false
  taken p (x ∷ xs) = let rest = taken p xs in if p x then true else rest

  -- INSERT of a row whose key is free
  unfoldable pub insert : A → List A → List A
  insert x xs = xs ++ x ∷ []
