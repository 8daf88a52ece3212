-- ===== src/Prelude/Sort.antt =====
-- Array.prototype.sort: a stable insertion sort by the test that a comparator is not positive.
use Prim.Native.Nat.{ℕ, zero, suc, ◌+◌}
use native.Mathlib.Omega.{arith}
use mathlib.Core.List.{List, [], ◌∷◌, ◌++◌, Perm}
use mathlib.Core.List.Perm
use mathlib.Core.Path.{◌≡◌, refl}
use mathlib.Core.Bool.{Bool, true, false}
use mathlib.Core.Logic.{inl, inr}
use gateway_monitoring_platf.Prelude.Tests.{if◌then◌else◌, Bool-cases}
use gateway_monitoring_platf.Prelude.Lists.{All, take, All-take}

module _ {ℓ} {A : Type ℓ} where
  -- `before a b` says that compare(a, b) <= 0.
  unfoldable pub insert_by : (A → A → Bool) → A → List A → List A
  insert_by before a [] = a ∷ []
  insert_by before a (b ∷ bs) =
      let rest = insert_by before a bs in if before a b then a ∷ b ∷ bs else b ∷ rest

  unfoldable pub sort_by : (A → A → Bool) → List A → List A
  unfolding insert_by
  sort_by before [] = []
  sort_by before (a ∷ others) = insert_by before a (sort_by before others)

  -- Each element stands in the relation to all that follow it.
  abbrev pub IsOrdered {κ} : (A → A → Type κ) → List A → Type κ
  IsOrdered R [] = Unit
  IsOrdered R (a ∷ others) = All (R a) others × IsOrdered R others

  module _ (before : A → A → Bool) where
    insert_by-perm : (a : A) (bs : List A) → Perm (insert_by before a bs) (a ∷ bs)
    unfolding insert_by
    insert_by-perm a [] = Perm.refl (a ∷ [])
    insert_by-perm a (b ∷ bs) = elim (Bool-cases (before a b)) [
      | inl first ↦ rw first (Perm.refl (a ∷ b ∷ bs))
      | inr after ↦ rw after (Perm.trans (Perm.cons b (insert_by-perm a bs)) (Perm.swap a b bs))
    ]

    pub sort_by-perm : (xs : List A) → Perm (sort_by before xs) xs
    unfolding sort_by
    sort_by-perm [] = Perm.refl []
    sort_by-perm (a ∷ others) =
        Perm.trans (insert_by-perm a (sort_by before others)) (Perm.cons a (sort_by-perm others))

    module _ {κ} (R : A → A → Type κ) (sound : (a b : A) → before a b ≡ true → R a b)
        (flip : (a b : A) → before a b ≡ false → R b a)
        (trans : (a b c : A) → R a b → R b c → R a c) where
      All-trans : (a b : A) (cs : List A) → R a b → All (R b) cs → All (R a) cs
      All-trans a b [] h k = tt
      All-trans a b (c ∷ cs) h k = (trans a b c h k.0, All-trans a b cs h k.1)

      All-insert_by :
          (a b : A) (cs : List A) → R a b → All (R a) cs → All (R a) (insert_by before b cs)
      unfolding insert_by
      All-insert_by a b [] h k = (h, tt)
      All-insert_by a b (c ∷ cs) h k = elim (Bool-cases (before b c)) [
        | inl first ↦ rw first (h, k)
        | inr after ↦ rw after (k.0, All-insert_by a b cs h k.1)
      ]

      insert_by-IsOrdered :
          (a : A) (bs : List A) → IsOrdered R bs → IsOrdered R (insert_by before a bs)
      unfolding insert_by
      insert_by-IsOrdered a [] h = (tt, tt)
      insert_by-IsOrdered a (b ∷ bs) h = elim (Bool-cases (before a b)) [
        | inl first ↦ rw first ((sound a b first, All-trans a b bs (sound a b first) h.0), h)
        | inr after ↦
            rw after (All-insert_by b a bs (flip a b after) h.0, insert_by-IsOrdered a bs h.1)
      ]

      pub sort_by-IsOrdered : (xs : List A) → IsOrdered R (sort_by before xs)
      unfolding sort_by
      sort_by-IsOrdered [] = tt
      sort_by-IsOrdered (a ∷ others) =
          insert_by-IsOrdered a (sort_by before others) (sort_by-IsOrdered others)

pub IsOrdered-take {ℓ κ} :
    {A : Type ℓ} (R : A → A → Type κ) (n : ℕ) (xs : List A)
    → IsOrdered R xs
    → IsOrdered R (take n xs)
IsOrdered-take R zero xs h = tt
IsOrdered-take R (suc n) [] h = tt
IsOrdered-take R (suc n) (x ∷ xs) h = (All-take (R x) n xs h.0, IsOrdered-take R n xs h.1)

-- The sum of what `f` says of each.
abbrev pub total {ℓ} : {R : Type ℓ} → (R → ℕ) → List R → ℕ
total f [] = 0
total f (x ∷ xs) = f x + total f xs

module _ {ℓ} {R : Type ℓ} where
  pub total-append : (f : R → ℕ) (xs ys : List R) → total f (xs ++ ys) ≡ total f xs + total f ys
  total-append f [] ys = omega arith
  total-append f (x ∷ xs) ys = omega (arith, total-append f xs ys)

  total-insert_by :
      (f : R → ℕ) (before : R → R → Bool) (a : R) (bs : List R)
      → total f (insert_by before a bs) ≡ f a + total f bs
  unfolding insert_by
  total-insert_by f before a [] = refl
  total-insert_by f before a (b ∷ bs) = ground (arith, total-insert_by f before a bs)

  pub total-sort_by :
      (f : R → ℕ) (before : R → R → Bool) (xs : List R) → total f (sort_by before xs) ≡ total f xs
  unfolding sort_by
  total-sort_by f before [] = refl
  total-sort_by f before (x ∷ xs) =
      omega (arith, total-insert_by f before x (sort_by before xs), total-sort_by f before xs)

  pub All-insert {κ} :
      (P : R → Type κ) (before : R → R → Bool) (a : R) (bs : List R)
      → P a
      → All P bs
      → All P (insert_by before a bs)
  unfolding insert_by
  All-insert P before a [] h hs = (h, tt)
  All-insert P before a (b ∷ bs) h hs = elim (Bool-cases (before a b)) [
    | inl first ↦ rw first (h, hs)
    | inr after ↦ rw after (hs.0, All-insert P before a bs h hs.1)
  ]

  pub All-sort {κ} :
      (P : R → Type κ) (before : R → R → Bool) (xs : List R) → All P xs → All P (sort_by before xs)
  unfolding sort_by
  All-sort P before [] h = tt
  All-sort P before (x ∷ xs) h =
      All-insert P before x (sort_by before xs) h.0 (All-sort P before xs h.1)
