-- ===== src/Display/Examples.antt =====
-- Runs of DisplayBuffer, and the theorems at concrete inputs. A row for each character stands for
-- the wrapping.
use tfr.Base.{
  ℕ, suc, ◌*◌, ◌/◌, ◌≡◌, refl, ap, pos, Bool, true, false, Option, none, some, List, [], ◌∷◌, map,
  ok, length, codes,
}
use tfr.Pager
use tfr.Display.{
  DisplayBuffer, Wrapping, Call, appends, resizes, clears, advances, fresh, create, append, run,
  perform, trim_rows, drop_entries, cut_first, recent_rows, last_rows, clear_screen, resize,
  change_width,
}
use tfr.Display.Invariant.{IsValid}
use tfr.Display.Runs.{history-IsValid}
use tfr.Display.Recall.{recent_rows_lem, recallable_rows}

length-singles : (t : List ℕ) → length t ≡ length (map (λ c. c ∷ []) t)
length-singles [] = refl
length-singles (c ∷ t) = ap suc (length-singles t)

abbrev Line : Type 0
Line = List ℕ

abbrev singles : Wrapping Line Bool Line
singles = record {
  wrap = λ t s links width. (map (λ c. c ∷ []) t, t);
  find_urls = λ t. [];
  as_many_starts = λ t s links width. length-singles t;
}

abbrev floored : ℕ → ℕ → ℕ → ℕ
floored total old part = total * part / old

abbrev pager : Pager.PagerState
pager = record {
  height = 3;
  overlap = 1;
  enabled = true;
  total_rows = 0;
  visible_end = 0;
  top_row = 0;
  mode = Pager.follow;
  page_budget = 3;
}

abbrev empty : DisplayBuffer Line Bool Line
empty = fresh 4 10 pager

create_example : create (pos 5) 10 (pos 3) (pos 1) true ≡ ok empty
unfolding create Pager.create
create_example = refl

abbrev calls : List (Call Line Bool)
calls =
    appends (codes "ab") true true
    ∷ appends (codes "cdef") true false
    ∷ advances
    ∷ resizes (pos 8) (pos 4)
    ∷ clears
    ∷ []

abbrev kept : Option (DisplayBuffer Line Bool Line) → DisplayBuffer Line Bool Line
kept none = empty
kept (some b) = b

filled : DisplayBuffer Line Bool Line
filled = kept (run singles floored empty calls)

filled_rows : filled.rows ≡ map (λ c. c ∷ []) (codes "bcdef")
unfolding filled run perform append resize change_width trim_rows drop_entries cut_first
    clear_screen
filled_rows = refl

history-IsValid_example :
    (c : DisplayBuffer Line Bool Line) × (run singles floored empty calls ≡ some c) × IsValid c
history-IsValid_example =
    history-IsValid singles floored (pos 5) 10 (pos 3) (pos 1) true empty calls create_example

recent_rows_lem_example :
    recent_rows filled (pos 2) ≡ ok (last_rows 2 (recallable_rows filled.entries))
recent_rows_lem_example = recent_rows_lem filled 1
