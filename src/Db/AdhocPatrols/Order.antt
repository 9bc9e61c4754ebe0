-- ===== src/Db/AdhocPatrols/Order.antt =====
-- `ORDER BY position` of internal/db/adhocpatrol/store.go: the order that a query gives, under the
-- writes of the store.
use osm_device_adapter.Prelude.{
  ◌≡◌, refl, sym, ap, ◌∙◌, Bool, true, false, Option, none, some, List, [], ◌∷◌, ◌++◌, arith, suc,
  if◌then◌else◌, length, filter, All, if_split, if_both,
}
use osm_device_adapter.Prelude.Int.{ℤ, ltb_ℤ}
use osm_device_adapter.Db.Models.{AdhocPatrol}
use osm_device_adapter.Db.AdhocPatrols.{
  insert_by_position, sort_by_position, larger, max_position, update_rows,
}

-- None of the rows comes before `p`.
abbrev pub IsFirst : AdhocPatrol → List AdhocPatrol → Type 0
IsFirst p rows = All (λ q. ltb_ℤ q.position p.position ≡ false) rows

abbrev pub IsSorted : List AdhocPatrol → Type 0
IsSorted [] = Unit
IsSorted (p ∷ ps) = IsFirst p ps × IsSorted ps

module _ {ℓ} (P : AdhocPatrol → Type ℓ) where
  pub All-insert :
      (p : AdhocPatrol) (qs : List AdhocPatrol) → P p → All P qs → All P (insert_by_position p qs)
  All-insert p [] h hs = (h, tt)
  All-insert p (q ∷ qs) h (k, ks) =
      if_both (All P) (ltb_ℤ q.position p.position) (k, All-insert p qs h ks) (h, (k, ks))

  pub All-sort : (ps : List AdhocPatrol) → All P ps → All P (sort_by_position ps)
  All-sort [] hs = tt
  All-sort (p ∷ ps) (h, hs) = All-insert p (sort_by_position ps) h (All-sort ps hs)

  pub All-filter :
      (test : AdhocPatrol → Bool) (ps : List AdhocPatrol) → All P ps → All P (filter test ps)
  All-filter test [] hs = tt
  All-filter test (p ∷ ps) (h, hs) =
      let rest = All-filter test ps hs in if_both (All P) (test p) (h, rest) rest

-- A row that comes before another comes before all that the other precedes.
IsFirst-earlier :
    (p q : AdhocPatrol) (rows : List AdhocPatrol)
    → ltb_ℤ q.position p.position ≡ false
    → IsFirst q rows
    → IsFirst p rows
IsFirst-earlier p q [] before first = tt
IsFirst-earlier p q (r ∷ rs) before (first, firsts) =
    (ground (arith, before, first), IsFirst-earlier p q rs before firsts)

IsSorted-insert :
    (p : AdhocPatrol) (qs : List AdhocPatrol) → IsSorted qs → IsSorted (insert_by_position p qs)
IsSorted-insert p [] sorted = (tt, tt)
IsSorted-insert p (q ∷ qs) (first, sorted) =
    if_split IsSorted (ltb_ℤ q.position p.position)
      (λ e. (
        All-insert (λ r. ltb_ℤ r.position q.position ≡ false) p qs (ground (arith, e)) first,
        IsSorted-insert p qs sorted,
      ))
      (λ e. ((e, IsFirst-earlier p q qs e first), (first, sorted)))

pub sort-IsSorted : (ps : List AdhocPatrol) → IsSorted (sort_by_position ps)
sort-IsSorted [] = tt
sort-IsSorted (p ∷ ps) = IsSorted-insert p (sort_by_position ps) (sort-IsSorted ps)

-- A row that comes before all the others is put in front of them.
insert-first :
    (p : AdhocPatrol) (qs : List AdhocPatrol) → IsFirst p qs → insert_by_position p qs ≡ p ∷ qs
insert-first p [] first = refl
insert-first p (q ∷ qs) (first, firsts) = rw first

-- Taking rows away commutes with putting them in order.
filter-insert :
    (test : AdhocPatrol → Bool) (p : AdhocPatrol) (qs : List AdhocPatrol)
    → IsSorted qs
    → filter test (insert_by_position p qs)
      ≡ (if test p then insert_by_position p (filter test qs) else filter test qs)
filter-insert test p [] sorted = refl
filter-insert test p (q ∷ qs) (first, sorted) =
    let later = filter-insert test p qs sorted in
    let front : ltb_ℤ q.position p.position ≡ false
        → insert_by_position p (filter test qs) ≡ p ∷ filter test qs =
      (λ e. insert-first p (filter test qs) (
        All-filter (λ r. ltb_ℤ r.position p.position ≡ false) test qs
          (IsFirst-earlier p q qs e first))) in
    ground (arith, later, front)

pub filter-sort :
    (test : AdhocPatrol → Bool) (ps : List AdhocPatrol)
    → sort_by_position (filter test ps) ≡ filter test (sort_by_position ps)
filter-sort test [] = refl
filter-sort test (p ∷ ps) =
    ground
      (arith, filter-sort test ps, filter-insert test p (sort_by_position ps) (sort-IsSorted ps))

-- So does a write that keeps the positions.
module _ (test : AdhocPatrol → Bool) (f : AdhocPatrol → AdhocPatrol)
    (keeps : (p : AdhocPatrol) → (f p).position ≡ p.position) where
  update_rows-insert :
      (p : AdhocPatrol) (qs : List AdhocPatrol)
      → update_rows test f (insert_by_position p qs)
        ≡ insert_by_position (if test p then f p else p) (update_rows test f qs)
  update_rows-insert p [] = refl
  update_rows-insert p (q ∷ qs) = ground (arith, update_rows-insert p qs, keeps p, keeps q)

  pub update_rows-sort :
      (ps : List AdhocPatrol)
      → sort_by_position (update_rows test f ps) ≡ update_rows test f (sort_by_position ps)
  update_rows-sort [] = refl
  update_rows-sort (p ∷ ps) =
      ap (insert_by_position (if test p then f p else p)) (update_rows-sort ps)
      ∙ sym (update_rows-insert p (sort_by_position ps))

-- A row with the largest position of all is put behind them.
pub insert-last :
    (p : AdhocPatrol) (qs : List AdhocPatrol)
    → All (λ q. ltb_ℤ q.position p.position ≡ true) qs
    → insert_by_position p qs ≡ qs ++ p ∷ []
insert-last p [] below = refl
insert-last p (q ∷ qs) (below, belows) = rw (below, insert-last p qs belows)

length-insert :
    (p : AdhocPatrol) (qs : List AdhocPatrol) → length (insert_by_position p qs) ≡ suc (length qs)
length-insert p [] = refl
length-insert p (q ∷ qs) = ground (arith, length-insert p qs)

pub length-sort : (ps : List AdhocPatrol) → length (sort_by_position ps) ≡ length ps
length-sort [] = refl
length-sort (p ∷ ps) = length-insert p (sort_by_position ps) ∙ ap suc (length-sort ps)

-- No row is above the maximum.
abbrev pub is_below : Option ℤ → ℤ → Bool
is_below none top = true
is_below (some m) top = ltb_ℤ m top

larger-below :
    (a top : ℤ) (o : Option ℤ)
    → ltb_ℤ (larger a o) top ≡ true
    → (ltb_ℤ a top ≡ true) × (is_below o top ≡ true)
larger-below a top none below = (below, refl)
larger-below a top (some b) below = ground (arith, below)

pub max_position-above :
    (ps : List AdhocPatrol) (top : ℤ)
    → is_below (max_position ps) top ≡ true
    → All (λ q. ltb_ℤ q.position top ≡ true) ps
max_position-above [] top below = tt
max_position-above (p ∷ ps) top below =
    let (here, later) = larger-below p.position top (max_position ps) below in
    (here, max_position-above ps top later)
