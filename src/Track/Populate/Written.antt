-- ===== src/Track/Populate/Written.antt =====
-- What `Track::populate` writes.
use samdisk_plus.Prelude.{
  ℕ, zero, suc, ◌-◌, min, ltb, ◌≤◌, ◌≡◌, refl, ap, ap₂, sym, ◌∙◌, false, List, [], ◌∷◌, ◌++◌,
  length, take, drop, arith, if_both, length-take, length-drop, append-nil, append_assoc,
  take-append-drop, ◌≡⟨◌⟩◌, ◌∎, inl, inr, ◌⊎◌,
}
use mathlib.Core.Path.{subst}
use samdisk_plus.Sector.{Options, Sector, size, first_copy}
use samdisk_plus.Track.Populate.{populate_sector, populate_sectors, write_first, content, AllFull}

drop-append : (n : ℕ) (xs ys : List ℕ) → drop n (xs ++ ys) ≡ drop n xs ++ drop (n - length xs) ys
drop-append zero [] ys = refl
drop-append zero (x ∷ xs) ys =
    let none_left : 0 ≡ 0 - suc (length xs) = omega arith in
    ap (λ k. (x ∷ xs) ++ drop k ys) none_left
drop-append (suc n) [] ys = let same : suc n ≡ suc n - 0 = omega arith in ap (λ k. drop k ys) same
drop-append (suc n) (x ∷ xs) ys =
    drop-append n xs ys ∙ ap (λ k. drop n xs ++ drop k ys) (omega arith)

drop-all : (n : ℕ) (xs : List ℕ) → length xs ≤ n → drop n xs ≡ []
drop-all zero [] h = refl
drop-all zero (x ∷ xs) h = absurd (omega arith)
drop-all (suc n) [] h = refl
drop-all (suc n) (x ∷ xs) h = drop-all n xs (omega arith)

le_cases : (m n : ℕ) → (m ≤ n) ⊎ (n ≤ m)
le_cases m n = ground arith

-- Of what is left of the input and what is left of the sector one is empty.
rests_commute :
    (b : ℕ) (d input : List ℕ)
    → b ≡ min (length d) (length input)
    → drop b d ++ drop b input ≡ drop b input ++ drop b d
rests_commute b d input e = elim (le_cases (length d) (length input)) [
  | inl h ↦
      subst (λ r. r ++ drop b input ≡ drop b input ++ r) (sym (drop-all b d (omega arith)))
        (sym (append-nil (drop b input)))
  | inr h ↦
      subst (λ r. drop b d ++ r ≡ r ++ drop b d) (sym (drop-all b input (omega arith)))
        (append-nil (drop b d))
]

-- The input over the sector and what follows it.
overlay :
    (b : ℕ) (d input tail : List ℕ)
    → b ≡ min (length d) (length input)
    → (take b input ++ drop b d) ++ (drop b input ++ drop (length (drop b input)) tail)
      ≡ input ++ drop (length input) (d ++ tail)
overlay b d input tail e =
    let same : drop b d ≡ drop (length input) d = elim (le_cases (length d) (length input)) [
      | inl h ↦ drop-all b d (omega arith) ∙ sym (drop-all (length input) d h)
      | inr h ↦ ap (λ n. drop n d) (omega arith)
    ] in
    let count : length (drop b input) ≡ length input - length d =
      (let n = length-drop b input in omega arith) in
    (take b input ++ drop b d) ++ (drop b input ++ drop (length (drop b input)) tail)
    ≡⟨ append_assoc (take b input) (drop b d) _ ⟩
      take b input ++ (drop b d ++ (drop b input ++ drop (length (drop b input)) tail))
    ≡⟨ ap (λ r. take b input ++ r) (sym (append_assoc (drop b d) (drop b input) _)) ⟩
      take b input ++ ((drop b d ++ drop b input) ++ drop (length (drop b input)) tail)
    ≡⟨ ap (λ r. take b input ++ (r ++ drop (length (drop b input)) tail))
        (rests_commute b d input e) ⟩
      take b input ++ ((drop b input ++ drop b d) ++ drop (length (drop b input)) tail)
    ≡⟨ ap (λ r. take b input ++ r) (append_assoc (drop b input) (drop b d) _) ⟩
      take b input ++ (drop b input ++ (drop b d ++ drop (length (drop b input)) tail))
    ≡⟨ sym (append_assoc (take b input) (drop b input) _) ⟩
      (take b input ++ drop b input) ++ (drop b d ++ drop (length (drop b input)) tail)
    ≡⟨ ap (λ r. r ++ (drop b d ++ drop (length (drop b input)) tail)) (take-append-drop b input) ⟩
      input ++ (drop b d ++ drop (length (drop b input)) tail)
    ≡⟨ ap₂ (λ r k. input ++ (r ++ drop k tail)) same count ⟩
      input ++ (drop (length input) d ++ drop (length input - length d) tail)
    ≡⟨ ap (λ r. input ++ r) (sym (drop-append (length input) d tail)) ⟩
      input ++ drop (length input) (d ++ tail) ∎

-- The data of one sector afterwards, and what is left of the input.
record IsWritten (d input : List ℕ) (p : Sector × List ℕ) : Type 0 where
  pub data_of :
      first_copy p.0.data_copies
      ≡ take (min (length d) (length input)) input ++ drop (min (length d) (length input)) d
  pub left : p.1 ≡ drop (min (length d) (length input)) input

populate_sector-IsWritten :
    (o : Options) (s : Sector) (d input : List ℕ)
    → s.data_copies ≡ d ∷ []
    → length d ≡ size s
    → IsWritten d input (populate_sector o false s input)
unfolding populate_sector write_first
populate_sector-IsWritten o s d input e n =
    let bytes : ℕ = min (size s) (length input) in
    let same : bytes ≡ min (length d) (length input) = ap (λ k. min k (length input)) (sym n) in
    let count : length (take bytes input) ≡ bytes =
      (let m = length-take bytes input in omega arith) in
    if_both (IsWritten d input) (ltb 0 (length input)) _ (s, input)
      (λ _. record {
        data_of =
            ap (λ ds. first_copy (write_first (take bytes input) ds)) e
            ∙ ap (λ k. take bytes input ++ drop k d) count
            ∙ ap (λ k. take k input ++ drop k d) same;
        left = ap (λ k. drop k input) same;
      })
      (λ z.
        let none_left : min (length d) (length input) ≡ 0 = ground arith in
        record {
          data_of = ap first_copy e ∙ sym (ap (λ k. take k input ++ drop k d) none_left);
          left = sym (ap (λ k. drop k input) none_left);
        })

-- The sectors in the order of their numbers, each with one copy of its size, hold the input after
-- it is written, and what it does not reach stays as it was; what does not fit is left over.
pub populate_sectors-content :
    (o : Options) (ss : List Sector) (input : List ℕ)
    → AllFull ss
    → content (populate_sectors o false ss input).0 ++ (populate_sectors o false ss input).1
      ≡ input ++ drop (length input) (content ss)
unfolding populate_sectors
populate_sectors-content o [] input full =
    sym (ap (λ r. input ++ r) (drop-all (length input) [] (omega arith)) ∙ append-nil input)
populate_sectors-content o (s ∷ ss) input full =
    let d = full.0.0 in
    let b : ℕ = min (length d) (length input) in
    let w = populate_sector-IsWritten o s d input full.0.1 full.0.2 in
    let (s', rest) = populate_sector o false s input in
    let (new, left) = populate_sectors o false ss rest in
    append_assoc (first_copy s'.data_copies) (content new) left
    ∙ ap₂ ◌++◌ w.data_of (populate_sectors-content o ss rest full.1)
    ∙ ap (λ r. (take b input ++ drop b d) ++ (r ++ drop (length r) (content ss))) w.left
    ∙ overlay b d input (content ss) refl
    ∙ ap (λ ds. input ++ drop (length input) (first_copy ds ++ content ss)) (sym full.0.1)
