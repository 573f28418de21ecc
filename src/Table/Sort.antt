-- ===== src/Table/Sort.antt =====
-- ORDER BY: a stable insertion sort by a test on pairs of rows, and LIMIT.
use mathlib.Core.List.{Perm}
use mathlib.Core.List.Perm
use snw_agent_link.Prelude.{
  ◌≡◌, Bool, true, false, List, [], ◌∷◌, if◌then◌else◌, Bool-cases, All, inl, inr, ℕ, zero, suc,
  take,
}

module _ {A : Type 0} (le : A → A → Bool) where
  place : A → List A → List A
  place x [] = x ∷ []
  place x (y ∷ ys) = let rest = place x ys in if le x y then x ∷ y ∷ ys else y ∷ rest

  -- ORDER BY
  unfoldable pub order_by : List A → List A
  unfolding place
  order_by [] = []
  order_by (x ∷ xs) = place x (order_by xs)

  -- Each row may stand before the next.
  abbrev pub IsOrdered : List A → Type 0
  IsOrdered [] = Unit
  IsOrdered (x ∷ []) = Unit
  IsOrdered (x ∷ y ∷ ys) = (le x y ≡ true) × IsOrdered (y ∷ ys)

  module _ (total : (x y : A) → le x y ≡ false → le y x ≡ true) where
    IsOrdered-place_cons :
        (x y : A) (ys : List A) → le y x ≡ true → IsOrdered (y ∷ ys) → IsOrdered (y ∷ place x ys)
    unfolding place
    IsOrdered-place_cons x y [] h o = (h, tt)
    IsOrdered-place_cons x y (z ∷ zs) h o = elim (Bool-cases (le x z)) [
      | inl e ↦ rw e (h, (e, o.1))
      | inr e ↦ rw e (o.0, IsOrdered-place_cons x z zs (total x z e) o.1)
    ]

    IsOrdered-place : (x : A) (ys : List A) → IsOrdered ys → IsOrdered (place x ys)
    unfolding place
    IsOrdered-place x [] o = tt
    IsOrdered-place x (y ∷ ys) o = elim (Bool-cases (le x y)) [
      | inl e ↦ rw e (e, o)
      | inr e ↦ rw e (IsOrdered-place_cons x y ys (total x y e) o)
    ]

    pub IsOrdered-order_by : (xs : List A) → IsOrdered (order_by xs)
    unfolding order_by
    IsOrdered-order_by [] = tt
    IsOrdered-order_by (x ∷ xs) = IsOrdered-place x (order_by xs) (IsOrdered-order_by xs)

  pub IsOrdered-take : (n : ℕ) (xs : List A) → IsOrdered xs → IsOrdered (take n xs)
  IsOrdered-take zero xs o = tt
  IsOrdered-take (suc n) [] o = tt
  IsOrdered-take (suc zero) (x ∷ []) o = tt
  IsOrdered-take (suc (suc n)) (x ∷ []) o = tt
  IsOrdered-take (suc zero) (x ∷ y ∷ ys) o = tt
  IsOrdered-take (suc (suc n)) (x ∷ y ∷ ys) o = (o.0, IsOrdered-take (suc n) (y ∷ ys) o.1)

  place-perm : (x : A) (ys : List A) → Perm (place x ys) (x ∷ ys)
  unfolding place
  place-perm x [] = Perm.refl (x ∷ [])
  place-perm x (y ∷ ys) = elim (Bool-cases (le x y)) [
    | inl e ↦ rw e (Perm.refl (x ∷ y ∷ ys))
    | inr e ↦ rw e (Perm.trans (Perm.cons y (place-perm x ys)) (Perm.swap x y ys))
  ]

  -- The rows are those of the table, in another order.
  pub order_by-perm : (xs : List A) → Perm (order_by xs) xs
  unfolding order_by
  order_by-perm [] = Perm.refl []
  order_by-perm (x ∷ xs) = Perm.trans (place-perm x (order_by xs)) (Perm.cons x (order_by-perm xs))

  module _ {ℓ} (P : A → Type ℓ) where
    All-place : (x : A) (ys : List A) → P x → All P ys → All P (place x ys)
    unfolding place
    All-place x [] px ps = (px, tt)
    All-place x (y ∷ ys) px ps = elim (Bool-cases (le x y)) [
      | inl e ↦ rw e (px, ps)
      | inr e ↦ rw e (ps.0, All-place x ys px ps.1)
    ]

    pub All-order_by : (xs : List A) → All P xs → All P (order_by xs)
    unfolding order_by
    All-order_by [] ps = tt
    All-order_by (x ∷ xs) ps = All-place x (order_by xs) ps.0 (All-order_by xs ps.1)

pub All-take {ℓ} :
    {A : Type 0} (P : A → Type ℓ) (n : ℕ) (xs : List A) → All P xs → All P (take n xs)
All-take P zero xs ps = tt
All-take P (suc n) [] ps = tt
All-take P (suc n) (x ∷ xs) ps = (ps.0, All-take P n xs ps.1)
