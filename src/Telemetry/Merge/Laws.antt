-- ===== src/Telemetry/Merge/Laws.antt =====
-- What merging rows by a key keeps (api/telemetry/merge.ts).
use gateway_monitoring_platf.Prelude.{
  ℕ, ◌+◌, ◌≡◌, refl, ◌∙◌, Bool, true, false, ◌||◌, List, [], ◌∷◌, ◌++◌, arith, All, total,
  All-insert, All-sort, IsOrdered, insert_by, sort_by, Bool-cases, inl, inr,
}
use gateway_monitoring_platf.Telemetry.Merge.{put, put_all}

abbrev pub any {ℓ} : {R : Type ℓ} → (R → Bool) → List R → Bool
any p [] = false
any p (x ∷ xs) = p x || any p xs

module _ {ℓ} {R : Type ℓ} where
  any-append : (p : R → Bool) (xs ys : List R) → any p (xs ++ ys) ≡ (any p xs || any p ys)
  any-append p [] ys = refl
  any-append p (x ∷ xs) ys = ground (arith, any-append p xs ys)

  any-insert_by :
      (p : R → Bool) (before : R → R → Bool) (a : R) (bs : List R)
      → any p (insert_by before a bs) ≡ (p a || any p bs)
  unfolding insert_by
  any-insert_by p before a [] = refl
  any-insert_by p before a (b ∷ bs) = ground (arith, any-insert_by p before a bs)

  pub any-sort_by :
      (p : R → Bool) (before : R → R → Bool) (xs : List R) → any p (sort_by before xs) ≡ any p xs
  unfolding sort_by
  any-sort_by p before [] = refl
  any-sort_by p before (x ∷ xs) =
      ground (arith, any-insert_by p before x (sort_by before xs), any-sort_by p before xs)

  -- Sorting keeps a symmetric relation between all pairs.
  module _ {κ} (S : R → R → Type κ) (flip : (a b : R) → S a b → S b a) (before : R → R → Bool) where
    insert_by-pairs :
        (a : R) (bs : List R) → All (S a) bs → IsOrdered S bs → IsOrdered S (insert_by before a bs)
    unfolding insert_by
    insert_by-pairs a [] h hs = (tt, tt)
    insert_by-pairs a (b ∷ bs) h hs = elim (Bool-cases (before a b)) [
      | inl first ↦ rw first (h, hs)
      | inr after ↦
          rw after (All-insert (S b) before a bs (flip a b h.0) hs.0, insert_by-pairs a bs h.1 hs.1)
    ]

    pub sort_by-pairs : (xs : List R) → IsOrdered S xs → IsOrdered S (sort_by before xs)
    unfolding sort_by
    sort_by-pairs [] h = tt
    sort_by-pairs (x ∷ xs) h =
        insert_by-pairs x (sort_by before xs) (All-sort (S x) before xs h.0) (sort_by-pairs xs h.1)

  module _ (same : R → R → Bool) (merge : R → R → R) where
    put-total :
        (f : R → ℕ)
        → ((x r : R) → same x r ≡ true → f (merge x r) ≡ f x + f r)
        → (r : R) (m : List R) → total f (put same merge r m) ≡ f r + total f m
    unfolding put
    put-total f add r [] = refl
    put-total f add r (x ∷ m) = ground (arith, add x r, put-total f add r m)

    pub put_all-total :
        (f : R → ℕ)
        → ((x r : R) → same x r ≡ true → f (merge x r) ≡ f x + f r)
        → (rs m : List R) → total f (put_all same merge rs m) ≡ total f rs + total f m
    unfolding put_all
    put_all-total f add [] m = omega arith
    put_all-total f add (r ∷ rs) m =
        omega (arith, put_all-total f add rs (put same merge r m), put-total f add r m)

    put-any :
        (p : R → Bool)
        → ((x r : R) → same x r ≡ true → p (merge x r) ≡ (p x || p r))
        → (r : R) (m : List R) → any p (put same merge r m) ≡ (p r || any p m)
    unfolding put
    put-any p keep r [] = refl
    put-any p keep r (x ∷ m) = ground (arith, keep x r, put-any p keep r m)

    pub put_all-any :
        (p : R → Bool)
        → ((x r : R) → same x r ≡ true → p (merge x r) ≡ (p x || p r))
        → (rs m : List R) → any p (put_all same merge rs m) ≡ (any p rs || any p m)
    unfolding put_all
    put_all-any p keep [] m = refl
    put_all-any p keep (r ∷ rs) m =
        ground (arith, put_all-any p keep rs (put same merge r m), put-any p keep r m)

    abbrev pub Apart : R → R → Type 0
    Apart x y = same x y ≡ false

    module _ (left : (x r y : R) → same (merge x r) y ≡ same x y)
        (right : (x r y : R) → same y (merge x r) ≡ same y x) where
      put-All :
          (r y : R) (m : List R) → Apart y r → All (Apart y) m → All (Apart y) (put same merge r m)
      unfolding put
      put-All r y [] h hs = (h, tt)
      put-All r y (x ∷ m) h hs = elim (Bool-cases (same x r)) [
        | inl hit ↦ rw hit (right x r y ∙ hs.0, hs.1)
        | inr miss ↦ rw miss (hs.0, put-All r y m h hs.1)
      ]

      All-left : (x r : R) (m : List R) → All (Apart x) m → All (Apart (merge x r)) m
      All-left x r [] h = tt
      All-left x r (y ∷ m) h = (left x r y ∙ h.0, All-left x r m h.1)

      put-Apart : (r : R) (m : List R) → IsOrdered Apart m → IsOrdered Apart (put same merge r m)
      unfolding put
      put-Apart r [] h = (tt, tt)
      put-Apart r (x ∷ m) h = elim (Bool-cases (same x r)) [
        | inl hit ↦ rw hit (All-left x r m h.0, h.1)
        | inr miss ↦ rw miss (put-All r x m miss h.0, put-Apart r m h.1)
      ]

      pub put_all-Apart :
          (rs m : List R) → IsOrdered Apart m → IsOrdered Apart (put_all same merge rs m)
      unfolding put_all
      put_all-Apart [] m h = h
      put_all-Apart (r ∷ rs) m h = put_all-Apart rs (put same merge r m) (put-Apart r m h)
