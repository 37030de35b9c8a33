-- ===== src/Track/Positions.antt =====
-- Where `find_if` finds an element and where a sector is inserted.
use samdisk_plus.Prelude.{
  ℕ, zero, suc, ◌<◌, ◌≡◌, refl, ap, sym, ◌∙◌, Bool, true, List, [], ◌∷◌, if◌then◌else◌, length,
  get_elem?, arith, Option, none, some, if_both, Bool-cases, inl, inr,
}
use mathlib.Core.Path.{subst}
use samdisk_plus.Track.{find_if}
use samdisk_plus.Track.Add.{end_index}

bump : Option ℕ → Option ℕ
bump none = none
bump (some i) = some (suc i)

abbrev pub IsBelow : ℕ → Option ℕ → Type 0
IsBelow n none = Unit
IsBelow n (some i) = i < n

module _ {ℓ} {A : Type ℓ} (test : A → Bool) where
  find_if-suc : (i : ℕ) (xs : List A) → find_if test (suc i) xs ≡ bump (find_if test i xs)
  unfolding find_if bump
  find_if-suc i [] = refl
  find_if-suc i (x ∷ xs) =
      let P : Bool → Type 0 = λ c.
        (if c then some (suc i) else find_if test (suc (suc i)) xs)
        ≡ bump (if c then some i else find_if test (suc i) xs) in
      elim (Bool-cases (test x)) [
        | inl e ↦ subst P (sym e) refl
        | inr e ↦ subst P (sym e) (find_if-suc (suc i) xs)
      ]

  end_index-bump :
      (x : A) (xs : List A) (r : Option ℕ) → end_index (x ∷ xs) (bump r) ≡ suc (end_index xs r)
  unfolding bump
  end_index-bump x xs none = refl
  end_index-bump x xs (some i) = refl

  -- The place is that of the head, or one further than in the tail.
  pub end_index-find_if :
      (x : A) (xs : List A)
      → end_index (x ∷ xs) (find_if test 0 (x ∷ xs))
        ≡ (if test x then 0 else suc (end_index xs (find_if test 0 xs)))
  unfolding find_if
  end_index-find_if x xs =
      let P : Bool → Type 0 = λ c.
        end_index (x ∷ xs) (if c then some 0 else find_if test 1 xs)
        ≡ (if c then 0 else suc (end_index xs (find_if test 0 xs))) in
      elim (Bool-cases (test x)) [
        | inl e ↦ subst P (sym e) refl
        | inr e ↦
            subst P (sym e)
              (ap (end_index (x ∷ xs)) (find_if-suc 0 xs) ∙ end_index-bump x xs (find_if test 0 xs))
      ]

  bump-IsBelow : (n : ℕ) (r : Option ℕ) → IsBelow n r → IsBelow (suc n) (bump r)
  unfolding bump
  bump-IsBelow n none h = tt
  bump-IsBelow n (some i) h = omega arith

  pub find_if-IsBelow : (xs : List A) → IsBelow (length xs) (find_if test 0 xs)
  unfolding find_if
  find_if-IsBelow [] = tt
  find_if-IsBelow (x ∷ xs) =
      if_both (IsBelow (suc (length xs))) (test x) (some 0) (find_if test 1 xs) (λ _. omega arith)
        (λ _.
          subst (IsBelow (suc (length xs))) (sym (find_if-suc 0 xs))
            (bump-IsBelow (length xs) _ (find_if-IsBelow xs)))

pub get_elem?-exists {ℓ} :
    {A : Type ℓ} (xs : List A) (i : ℕ) → i < length xs → (a : A) × (get_elem? xs i ≡ some a)
get_elem?-exists [] i h = absurd (omega arith)
get_elem?-exists (x ∷ xs) zero h = (x, refl)
get_elem?-exists (x ∷ xs) (suc i) h = get_elem?-exists xs i (omega arith)

-- What is found passes the test.
abbrev pub Holds {ℓ} : {A : Type ℓ} → (A → Bool) → List A → Option ℕ → Type ℓ
Holds {A = A} test xs none = Unit
Holds {A = A} test xs (some i) = (a : A) × (get_elem? xs i ≡ some a) × (test a ≡ true)

module _ {ℓ} {A : Type ℓ} (test : A → Bool) where
  bump-Holds : (x : A) (xs : List A) (r : Option ℕ) → Holds test xs r → Holds test (x ∷ xs) (bump r)
  unfolding bump
  bump-Holds x xs none h = tt
  bump-Holds x xs (some i) h = h

  pub find_if-Holds : (xs : List A) → Holds test xs (find_if test 0 xs)
  unfolding find_if
  find_if-Holds [] = tt
  find_if-Holds (x ∷ xs) =
      if_both (Holds test (x ∷ xs)) (test x) (some 0) (find_if test 1 xs) (λ e. (x, refl, e))
        (λ _.
          subst (Holds test (x ∷ xs)) (sym (find_if-suc test 0 xs))
            (bump-Holds x xs _ (find_if-Holds xs)))
