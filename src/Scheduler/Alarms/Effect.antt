-- ===== src/Scheduler/Alarms/Effect.antt =====
-- What processing rows does to one row of the table, in closed form.
use aws_demo.Base.{
  refl, [], map, ◌≢◌, All, ◌≡◌, Bool, false, ◌&&◌, List, ◌∷◌, ◌++◌, if◌then◌else◌, ◌==◌, any,
  any-append, arith,
}
use aws_demo.Scheduler.Store.{AlarmRow, mark_row, decide_row}

-- The snapshot `row` asks for a mark on the row `x` of the table.
abbrev pub asks_mark : AlarmRow → AlarmRow → Bool
asks_mark x row = x.id == row.id && row.is_chained == 0

abbrev pub asks_decision : AlarmRow → AlarmRow → Bool
asks_decision x row = x.id == row.id && row.returned_spawn_decision_for_chained_set == 0

-- What the first loop, the second loop, and both do to a row of the table.
abbrev pub marked : List AlarmRow → AlarmRow → AlarmRow
marked rows x = record x { is_chained = if any (asks_mark x) rows then 1 else x.is_chained }

abbrev pub decided : List AlarmRow → AlarmRow → AlarmRow
decided rows x = record x {
  returned_spawn_decision_for_chained_set =
      if any (asks_decision x) rows then 1 else x.returned_spawn_decision_for_chained_set;
}

abbrev pub processed : List AlarmRow → AlarmRow → AlarmRow
processed rows x = decided rows (marked rows x)

-- What a whole pass does to a row: both columns are set.
unfoldable pub settle : AlarmRow → AlarmRow
settle x = record x {
  is_chained = if x.is_chained == 0 then 1 else x.is_chained;
  returned_spawn_decision_for_chained_set =
      if x.returned_spawn_decision_for_chained_set == 0
      then 1
      else x.returned_spawn_decision_for_chained_set;
}

pub marked-cons :
    (row : AlarmRow) (rows : List AlarmRow) (x : AlarmRow)
    → row.is_chained ≡ 0
    → marked rows (mark_row row.id x) ≡ marked (row ∷ rows) x
marked-cons row rows x h = ground arith

pub marked-cons_skip :
    (row : AlarmRow) (rows : List AlarmRow) (x : AlarmRow)
    → (row.is_chained == 0) ≡ false
    → marked rows x ≡ marked (row ∷ rows) x
marked-cons_skip row rows x h = ground arith

pub decided-cons :
    (row : AlarmRow) (rows : List AlarmRow) (x : AlarmRow)
    → row.returned_spawn_decision_for_chained_set ≡ 0
    → decided rows (decide_row 1 row.id x) ≡ decided (row ∷ rows) x
decided-cons row rows x h = ground arith

pub decided-cons_skip :
    (row : AlarmRow) (rows : List AlarmRow) (x : AlarmRow)
    → (row.returned_spawn_decision_for_chained_set == 0) ≡ false
    → decided rows x ≡ decided (row ∷ rows) x
decided-cons_skip row rows x h = ground arith

pub processed-append :
    (xs ys : List AlarmRow) (x : AlarmRow) → processed ys (processed xs x) ≡ processed (xs ++ ys) x
processed-append xs ys x =
    ground (arith, any-append (asks_mark x) xs ys, any-append (asks_decision x) xs ys)

-- The identifiers of a table's rows are distinct: a primary key.
abbrev pub IsKeyed : List AlarmRow → Type 0
IsKeyed [] = Unit
IsKeyed (x ∷ xs) = All (λ y. x.id ≢ y.id) xs × IsKeyed xs

absent :
    (x : AlarmRow) (p : AlarmRow → Bool) (xs : List AlarmRow)
    → All (λ y. x.id ≢ y.id) xs
    → any (λ row. x.id == row.id && p row) xs ≡ false
absent x p [] h = refl
absent x p (y ∷ ys) h = ground (arith, absent x p ys h.1)

-- In a keyed table a row meets no snapshot but its own.
asked-Mem :
    (p : AlarmRow → Bool) (l : List AlarmRow)
    → IsKeyed l
    → All (λ x. any (λ row. x.id == row.id && p row) l ≡ p x) l
asked-Mem p [] k = tt
asked-Mem p (x ∷ xs) k = (ground (arith, absent x p xs k.0), later xs k.0 (asked-Mem p xs k.1))
  where
    later :
        (ys : List AlarmRow)
        → All (λ y. x.id ≢ y.id) ys
        → All (λ y. any (λ row. y.id == row.id && p row) xs ≡ p y) ys
        → All (λ y. any (λ row. y.id == row.id && p row) (x ∷ xs) ≡ p y) ys
    later [] h ih = tt
    later (y ∷ ys) h ih = (ground (arith, h.0, ih.0), later ys h.1 ih.1)

map_cong_All :
    (f g : AlarmRow → AlarmRow) (l : List AlarmRow) → All (λ x. f x ≡ g x) l → map f l ≡ map g l
map_cong_All f g [] h = refl
map_cong_All f g (x ∷ l) h = cc (h.0, map_cong_All f g l h.1)

-- Processing every row of a keyed table, in any order that loses none, settles every row.
pub processed-settle :
    (order : List AlarmRow) (l : List AlarmRow)
    → ((p : AlarmRow → Bool) → any p order ≡ any p l)
    → IsKeyed l
    → map (processed order) l ≡ map settle l
unfolding settle
processed-settle order l same k = map_cong_All (processed order) settle l (
    pointwise l (asked-Mem (λ row. row.is_chained == 0) l k)
      (asked-Mem (λ row. row.returned_spawn_decision_for_chained_set == 0) l k))
  where
    pointwise :
        (xs : List AlarmRow)
        → All (λ x. any (asks_mark x) l ≡ (x.is_chained == 0)) xs
        → All (λ x. any (asks_decision x) l ≡ (x.returned_spawn_decision_for_chained_set == 0)) xs
        → All (λ x. processed order x ≡ settle x) xs
    pointwise [] hm hd = tt
    pointwise (x ∷ xs) hm hd = (
      ground (arith, same (asks_mark x), same (asks_decision x), hm.0, hd.0),
      pointwise xs hm.1 hd.1,
    )
