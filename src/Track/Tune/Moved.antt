-- ===== src/Track/Tune/Moved.antt =====
-- `Track::SetSectorOffsetAt` as a whole.
use samdisk_plus.Prelude.{
  ℕ, zero, suc, ◌+◌, ◌==◌, ltb, ◌≤◌, ◌<◌, ◌≡◌, refl, ap, sym, ◌∙◌, ◌&&◌, List, [], ◌∷◌, ◌++◌,
  append-nil, length, get_elem?, set, take, drop, arith, none, some, if_both, length-take,
}
use mathlib.Core.Path.{subst}
use mathlib.Core.Option.{some-injective, none-ne-some}
use mathlib.Core.List.{Perm, perm_middle}
use mathlib.Core.List.Perm
use samdisk_plus.Sector.{Sector}
use samdisk_plus.Track.Add.{insert_at}
use samdisk_plus.Track.Offsets.{position_down, position_up, move_sector, set_sector_offset_at}
use samdisk_plus.Track.Tune.{Sorted, Sorted-weaken, insert_up-Sorted, insert_down-Sorted}

module _ {ℓ} {A : Type ℓ} where
  take-set-drop :
      (i : ℕ) (x v : A) (xs : List A)
      → get_elem? xs i ≡ some x
      → set xs i v ≡ take i xs ++ v ∷ drop (suc i) xs
  take-set-drop i x v [] h = absurd (none-ne-some x h)
  take-set-drop zero x v (y ∷ ys) h = refl
  take-set-drop (suc i) x v (y ∷ ys) h = ap (λ zs. y ∷ zs) (take-set-drop i x v ys h)

  set_self : (i : ℕ) (x : A) (xs : List A) → get_elem? xs i ≡ some x → set xs i x ≡ xs
  set_self i x [] h = absurd (none-ne-some x h)
  set_self zero x (y ∷ ys) h = ap (λ z. z ∷ ys) (sym (some-injective y x h))
  set_self (suc i) x (y ∷ ys) h = ap (λ zs. y ∷ zs) (set_self i x ys h)

  lt_of_get : (i : ℕ) (x : A) (xs : List A) → get_elem? xs i ≡ some x → i < length xs
  lt_of_get i x [] h = absurd (none-ne-some x h)
  lt_of_get zero x (y ∷ ys) h = omega arith
  lt_of_get (suc i) x (y ∷ ys) h = let rest = lt_of_get i x ys h in omega arith

  insert_at-Perm : (i : ℕ) (x : A) (xs : List A) → Perm (insert_at i x xs) (x ∷ xs)
  insert_at-Perm zero x ys = Perm.rfl
  insert_at-Perm (suc i) x [] = Perm.rfl
  insert_at-Perm (suc i) x (y ∷ ys) =
      Perm.trans (Perm.cons y (insert_at-Perm i x ys)) (Perm.swap x y ys)

  get_elem?-insert_at :
      (i : ℕ) (x : A) (xs ys : List A)
      → i ≤ length xs
      → get_elem? (insert_at i x xs ++ ys) i ≡ some x
  get_elem?-insert_at zero x xs ys h = refl
  get_elem?-insert_at (suc i) x [] ys h = absurd (omega arith)
  get_elem?-insert_at (suc i) x (y ∷ xs) ys h = get_elem?-insert_at i x xs ys (omega arith)

  get_elem?-append :
      (i : ℕ) (xs ys : List A) → get_elem? (xs ++ ys) (length xs + i) ≡ get_elem? ys i
  get_elem?-append i [] ys = ap (get_elem? ys) (omega arith)
  get_elem?-append i (x ∷ xs) ys =
      let assoc : suc (length xs) + i ≡ suc (length xs + i) = omega arith in
      ap (get_elem? (x ∷ (xs ++ ys))) assoc ∙ get_elem?-append i xs ys

position_down-length : (offset : ℕ) (ss : List Sector) → position_down offset ss ≤ length ss
unfolding position_down
position_down-length offset [] = omega arith
position_down-length offset (s ∷ ss) =
    let rest = position_down-length offset ss in
    if_both (λ (n : ℕ). n ≤ suc (length ss)) ((position_down offset ss == 0) && ltb offset s.offset)
      0 _ (λ _. omega arith) (λ _. omega arith)

position_up-length : (offset : ℕ) (ss : List Sector) → position_up offset ss ≤ length ss
unfolding position_up
position_up-length offset [] = omega arith
position_up-length offset (s ∷ ss) =
    let rest = position_up-length offset ss in
    if_both (λ (n : ℕ). n ≤ suc (length ss)) (ltb s.offset offset) (suc (position_up offset ss)) 0
      (λ _. omega arith) (λ _. omega arith)

-- What is left without the sector, and what follows it.
Sorted-without :
    (m : ℕ) (before : List Sector) (s : Sector) (after : List Sector)
    → Sorted m (before ++ s ∷ after)
    → Sorted m (before ++ after)
Sorted-without m [] s after a = Sorted-weaken m s.offset after a.0 a.1
Sorted-without m (r ∷ before) s after a = (a.0, Sorted-without r.offset before s after a.1)

Sorted-after :
    (m : ℕ) (before : List Sector) (s : Sector) (after : List Sector)
    → Sorted m (before ++ s ∷ after)
    → Sorted s.offset after
Sorted-after m [] s after a = a.1
Sorted-after m (r ∷ before) s after a = Sorted-after r.offset before s after a.1

-- A greater sector moves up among those after it.
Sorted-up :
    (m : ℕ) (before : List Sector) (s moved : Sector) (after : List Sector)
    → s.offset ≤ moved.offset
    → Sorted m (before ++ s ∷ after)
    → Sorted m (before ++ insert_at (position_up moved.offset after) moved after)
Sorted-up m [] s moved after h a =
    let here = a.0 in
    insert_up-Sorted m moved.offset moved after refl (omega arith)
      (Sorted-weaken m s.offset after a.0 a.1)
Sorted-up m (r ∷ before) s moved after h a = (a.0, Sorted-up r.offset before s moved after h a.1)

-- The same sectors but for the moved one, in order, with the moved one at the index of the result.
pub record IsMoved (ss : List Sector) (moved : Sector) (p : List Sector × ℕ) : Type 0 where
  pub sorted : Sorted 0 p.0
  pub permuted : Perm p.0 ss
  pub found : get_elem? p.0 p.1 ≡ some moved

module _ (before after : List Sector) (s : Sector) (offset : ℕ)
    (sorted : Sorted 0 (before ++ s ∷ after)) where
  moved : Sector
  moved = record s { offset = offset }

  down-IsMoved :
      offset < s.offset
      → IsMoved (before ++ moved ∷ after) moved (
        insert_at (position_down offset before) moved before ++ after,
        position_down offset before,
      )
  unfolding moved
  down-IsMoved h = record {
    sorted =
        insert_down-Sorted 0 offset moved before after refl (omega arith)
          (Sorted-weaken offset s.offset after (omega arith) (Sorted-after 0 before s after sorted))
          (Sorted-without 0 before s after sorted);
    permuted =
        Perm.trans
          (Perm.append_right after (insert_at-Perm (position_down offset before) moved before))
          (Perm.symm (perm_middle before after));
    found =
        get_elem?-insert_at (position_down offset before) moved before after
          (position_down-length offset before);
  }

  up-IsMoved :
      s.offset ≤ offset
      → IsMoved (before ++ moved ∷ after) moved (
        before ++ insert_at (position_up offset after) moved after,
        length before + position_up offset after,
      )
  unfolding moved
  up-IsMoved h = record {
    sorted = Sorted-up 0 before s moved after h sorted;
    permuted = Perm.append_left before (insert_at-Perm (position_up offset after) moved after);
    found =
        get_elem?-append (position_up offset after) before _
        ∙ ap (λ xs. get_elem? xs (position_up offset after)) (sym (append-nil _))
        ∙ get_elem?-insert_at (position_up offset after) moved after []
            (position_up-length offset after);
  }

move_sector-IsMoved :
    (i offset : ℕ) (s : Sector) (ss : List Sector)
    → get_elem? ss i ≡ some s
    → Sorted 0 ss
    → IsMoved
        (set ss i (record s { offset = offset }))
        (record s { offset = offset })
        (move_sector i offset s ss)
unfolding move_sector moved
move_sector-IsMoved i offset s ss g sorted =
    let moved : Sector = record s { offset = offset } in
    let before = take i ss in
    let after = drop (suc i) ss in
    let split : set ss i moved ≡ before ++ moved ∷ after = take-set-drop i s moved ss g in
    let whole : ss ≡ before ++ s ∷ after = sym (set_self i s ss g) ∙ take-set-drop i s s ss g in
    let sorted' : Sorted 0 (before ++ s ∷ after) = subst (Sorted 0) whole sorted in
    let len : length before ≡ i =
      (let n = length-take i ss in let m = lt_of_get i s ss g in omega arith) in
    let P : List Sector × ℕ → Type 0 = IsMoved (set ss i moved) moved in
    if_both P (offset == s.offset) _ _
      (λ e.
        let same : moved ≡ s = ap (λ n. record s { offset = n }) (ground arith) in
        record {
          sorted = sorted;
          permuted =
              subst (λ (m : Sector). Perm ss (set ss i m)) (sym same)
                (subst (Perm ss) (sym (set_self i s ss g)) Perm.rfl);
          found = g ∙ ap some (sym same);
        })
      (λ _.
        if_both P (ltb offset s.offset) _ _
          (λ lt.
            subst
              (λ xs. IsMoved xs moved (
                insert_at (position_down offset before) moved before ++ after,
                position_down offset before,
              ))
              (sym split) (down-IsMoved before after s offset sorted' (ground arith)))
          (λ ge.
            subst
              (λ n. P (
                before ++ insert_at (position_up offset after) moved after,
                n + position_up offset after,
              ))
              len
              (subst
                (λ xs. IsMoved xs moved (
                  before ++ insert_at (position_up offset after) moved after,
                  length before + position_up offset after,
                ))
                (sym split) (up-IsMoved before after s offset sorted' (ground arith)))))

-- Setting the offset of a sector of a track whose offsets ascend: they ascend again, the sectors
-- are those of the track with the one offset changed, and the result is the new index of the
-- changed sector.
pub set_sector_offset_at-IsMoved :
    (i offset : ℕ) (s : Sector) (ss : List Sector)
    → get_elem? ss i ≡ some s
    → Sorted 0 ss
    → IsMoved
        (set ss i (record s { offset = offset }))
        (record s { offset = offset })
        (set_sector_offset_at i offset ss)
unfolding set_sector_offset_at
set_sector_offset_at-IsMoved i offset s ss g sorted =
    subst
      (λ r.
        IsMoved (set ss i (record s { offset = offset })) (record s { offset = offset })
          (elim r [ none ↦ (ss, i) | some t ↦ move_sector i offset t ss ]))
      (sym g) (move_sector-IsMoved i offset s ss g sorted)
