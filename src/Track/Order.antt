-- ===== src/Track/Order.antt =====
-- The invariant of a track: its sectors ascend by offset and are each well formed.
use samdisk_plus.Prelude.{
  ℕ, zero, suc, ltb, ◌≤◌, ◌<◌, ◌≡◌, ap, sym, ◌∙◌, Bool, true, List, [], ◌∷◌, get_elem?, set, arith,
  some, if_both,
}
use mathlib.Core.Path.{subst}
use mathlib.Core.Option.{some-injective, none-ne-some}
use samdisk_plus.Header.{bits_per_second}
use samdisk_plus.Sector.{Options, Sector}
use samdisk_plus.Sector.Inv.{IsValid}
use samdisk_plus.Track.{Track, find_if}
use samdisk_plus.Track.Add.{insert_at, end_index}
use samdisk_plus.Track.Positions.{end_index-find_if}

-- A valid sector with a position below the limit and the bits per second `rate`.
pub record Held (o : Options) (rate lim : ℕ) (s : Sector) : Type 0 where
  pub valid : IsValid o s
  pub positioned : 0 < s.offset
  pub below : s.offset < lim
  pub same_rate : bits_per_second s.datarate ≡ rate

-- Held sectors whose offsets ascend from `m`.
abbrev pub Ascends : Options → ℕ → ℕ → ℕ → List Sector → Type 0
Ascends o rate lim m [] = Unit
Ascends o rate lim m (s ∷ ss) = (m ≤ s.offset) × Held o rate lim s × Ascends o rate lim s.offset ss

abbrev pub IsTrack : Options → ℕ → ℕ → Track → Type 0
IsTrack o rate lim t = Ascends o rate lim 0 t.sectors

ltb_le : (a b : ℕ) → ltb a b ≡ true → a ≤ b
ltb_le a b h = ground arith

pub Ascends-weaken :
    (o : Options) (rate lim m n : ℕ) (ss : List Sector)
    → m ≤ n
    → Ascends o rate lim n ss
    → Ascends o rate lim m ss
Ascends-weaken o rate lim m n [] h a = tt
Ascends-weaken o rate lim m n (s ∷ ss) h a = (omega arith, a.1, a.2)

-- A sector before the first one of a greater offset.
pub insert-Ascends :
    (o : Options) (rate lim m : ℕ) (s : Sector) (ss : List Sector)
    → m ≤ s.offset
    → Held o rate lim s
    → Ascends o rate lim m ss
    → Ascends o rate lim m
        (insert_at (end_index ss (find_if (λ r. ltb s.offset r.offset) 0 ss)) s ss)
unfolding find_if
insert-Ascends o rate lim m s [] h held a = (h, held, tt)
insert-Ascends o rate lim m s (r ∷ ss) h held a =
    let test : Sector → Bool = λ x. ltb s.offset x.offset in
    let P : ℕ → Type 0 = λ i. Ascends o rate lim m (insert_at i s (r ∷ ss)) in
    let r_held = a.1 in
    let after = a.2 in
    let first = a.0 in
    subst P (sym (end_index-find_if test r ss)) (
      if_both P (test r) 0 (suc (end_index ss (find_if test 0 ss)))
        (λ e. (h, held, (ltb_le s.offset r.offset e, r_held, after)))
        (λ e. (first, r_held, insert-Ascends o rate lim r.offset s ss (ground arith) held after)))

-- A held sector may take the place of one of its offset.
pub set-Ascends :
    (o : Options) (rate lim m i : ℕ) (s old : Sector) (ss : List Sector)
    → get_elem? ss i ≡ some old
    → s.offset ≡ old.offset
    → Held o rate lim s
    → Ascends o rate lim m ss
    → Ascends o rate lim m (set ss i s)
set-Ascends o rate lim m i s old [] g e held a = tt
set-Ascends o rate lim m zero s old (r ∷ ss) g e held a =
    let same : s.offset ≡ r.offset =
      e ∙ sym (ap (λ (x : Sector). x.offset) (some-injective r old g)) in
    (subst (λ k. m ≤ k) (sym same) a.0, held, subst (λ k. Ascends o rate lim k ss) (sym same) a.2)
set-Ascends o rate lim m (suc i) s old (r ∷ ss) g e held a =
    (a.0, a.1, set-Ascends o rate lim r.offset i s old ss g e held a.2)

pub Held-at :
    (o : Options) (rate lim m i : ℕ) (s : Sector) (ss : List Sector)
    → get_elem? ss i ≡ some s
    → Ascends o rate lim m ss
    → Held o rate lim s
Held-at o rate lim m i s [] g a = absurd (none-ne-some s g)
Held-at o rate lim m zero s (r ∷ ss) g a = subst (Held o rate lim) (some-injective r s g) a.1
Held-at o rate lim m (suc i) s (r ∷ ss) g a = Held-at o rate lim r.offset i s ss g a.2
