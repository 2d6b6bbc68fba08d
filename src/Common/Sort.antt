-- ===== src/Common/Sort.antt =====
-- `sort_by_key(|x| Reverse(key(x)))`: the stable sort, greatest key first.
use trunk_scope.Common.{
  ℕ, zero, suc, ◌≤◌, ◌≡◌, refl, Bool, ◌||◌, List, [], ◌∷◌, arith, leb, if◌then◌else◌, Bool-cases,
  inl, inr, length, take, any, All, All-take,
}
use mathlib.Core.List.{Perm}
use mathlib.Core.List.Perm

module _ {ℓ} {A : Type ℓ} (key : A → ℕ) where
  -- In front of the elements that are no greater, so equal ones keep their order.
  unfoldable pub insert_desc : A → List A → List A
  insert_desc x [] = x ∷ []
  insert_desc x (y ∷ ys) =
      let rest = insert_desc x ys in if leb (key y) (key x) then x ∷ y ∷ ys else y ∷ rest

  unfoldable pub sort_desc : List A → List A
  unfolding insert_desc
  sort_desc [] = []
  sort_desc (x ∷ xs) = insert_desc x (sort_desc xs)

  -- No element is below one that stands behind it.
  abbrev pub IsSortedDesc : List A → Type 0
  IsSortedDesc [] = Unit
  IsSortedDesc (x ∷ xs) = All (λ y. key y ≤ key x) xs × IsSortedDesc xs

  All-insert_desc {κ} :
      (P : A → Type κ) (x : A) (ys : List A) → P x → All P ys → All P (insert_desc x ys)
  unfolding insert_desc
  All-insert_desc P x [] p h = (p, tt)
  All-insert_desc P x (y ∷ ys) p (q, h) = elim (Bool-cases (leb (key y) (key x))) [
    | inl e ↦ rw e (p, (q, h))
    | inr e ↦ rw e (q, All-insert_desc P x ys p h)
  ]

  All-le_trans : (a b : ℕ) (ys : List A) → a ≤ b → All (λ y. key y ≤ a) ys → All (λ y. key y ≤ b) ys
  All-le_trans a b [] h k = tt
  All-le_trans a b (y ∷ ys) h (p, k) = (omega arith, All-le_trans a b ys h k)

  insert_desc-IsSortedDesc :
      (x : A) (ys : List A) → IsSortedDesc ys → IsSortedDesc (insert_desc x ys)
  unfolding insert_desc
  insert_desc-IsSortedDesc x [] h = (tt, tt)
  insert_desc-IsSortedDesc x (y ∷ ys) (below, h) = elim (Bool-cases (leb (key y) (key x))) [
    | inl e ↦
        let first : key y ≤ key x = ground arith in
        rw e ((first, All-le_trans (key y) (key x) ys first below), (below, h))
    | inr e ↦
        let first : key x ≤ key y = ground arith in
        rw e
          (All-insert_desc (λ z. key z ≤ key y) x ys first below, insert_desc-IsSortedDesc x ys h)
  ]

  pub sort_desc-IsSortedDesc : (xs : List A) → IsSortedDesc (sort_desc xs)
  unfolding sort_desc
  sort_desc-IsSortedDesc [] = tt
  sort_desc-IsSortedDesc (x ∷ xs) =
      insert_desc-IsSortedDesc x (sort_desc xs) (sort_desc-IsSortedDesc xs)

  insert_desc-perm : (x : A) (ys : List A) → Perm (insert_desc x ys) (x ∷ ys)
  unfolding insert_desc
  insert_desc-perm x [] = Perm.refl (x ∷ [])
  insert_desc-perm x (y ∷ ys) = elim (Bool-cases (leb (key y) (key x))) [
    | inl e ↦ rw e (Perm.refl (x ∷ y ∷ ys))
    | inr e ↦ rw e (Perm.trans (Perm.cons y (insert_desc-perm x ys)) (Perm.swap x y ys))
  ]

  pub sort_desc-perm : (xs : List A) → Perm (sort_desc xs) xs
  unfolding sort_desc
  sort_desc-perm [] = Perm.refl []
  sort_desc-perm (x ∷ xs) =
      Perm.trans (insert_desc-perm x (sort_desc xs)) (Perm.cons x (sort_desc-perm xs))

  -- A list in order is left as it is.
  pub sort_desc_of_IsSortedDesc : (xs : List A) → IsSortedDesc xs → sort_desc xs ≡ xs
  unfolding sort_desc
  sort_desc_of_IsSortedDesc [] h = refl
  sort_desc_of_IsSortedDesc (x ∷ []) h = refl
  sort_desc_of_IsSortedDesc (x ∷ y ∷ ys) ((first, _), h) =
      rw (sort_desc_of_IsSortedDesc (y ∷ ys) h) (ground (arith, first))

  length-insert_desc : (x : A) (ys : List A) → length (insert_desc x ys) ≡ suc (length ys)
  unfolding insert_desc
  length-insert_desc x [] = refl
  length-insert_desc x (y ∷ ys) = ground (arith, length-insert_desc x ys)

  pub length-sort_desc : (xs : List A) → length (sort_desc xs) ≡ length xs
  unfolding sort_desc
  length-sort_desc [] = refl
  length-sort_desc (x ∷ xs) =
      omega (arith, length-insert_desc x (sort_desc xs), length-sort_desc xs)

  pub any-insert_desc :
      (p : A → Bool) (x : A) (ys : List A) → any p (insert_desc x ys) ≡ (p x || any p ys)
  unfolding insert_desc
  any-insert_desc p x [] = refl
  any-insert_desc p x (y ∷ ys) = ground (arith, any-insert_desc p x ys)

  -- Sorting keeps what is there.
  pub any-sort_desc : (p : A → Bool) (xs : List A) → any p (sort_desc xs) ≡ any p xs
  unfolding sort_desc
  any-sort_desc p [] = refl
  any-sort_desc p (x ∷ xs) = ground (arith, any-insert_desc p x (sort_desc xs), any-sort_desc p xs)

  pub All-sort_desc {κ} : (P : A → Type κ) (xs : List A) → All P xs → All P (sort_desc xs)
  unfolding sort_desc
  All-sort_desc P [] h = tt
  All-sort_desc P (x ∷ xs) (p, h) = All-insert_desc P x (sort_desc xs) p (All-sort_desc P xs h)

  pub take-IsSortedDesc : (n : ℕ) (xs : List A) → IsSortedDesc xs → IsSortedDesc (take n xs)
  take-IsSortedDesc zero xs h = tt
  take-IsSortedDesc (suc n) [] h = tt
  take-IsSortedDesc (suc n) (x ∷ xs) (p, h) =
      (All-take (λ y. key y ≤ key x) n xs p, take-IsSortedDesc n xs h)
