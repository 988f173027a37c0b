-- ===== src/Pager/Examples.antt =====
-- Runs of PagerState, and the theorems at concrete inputs.
use tfr.Base.{
  ℕ, ◌+◌, ◌*◌, ◌/◌, ◌≤◌, ◌<◌, ◌≡◌, refl, min, pos, negsuc, true, List, [], ◌∷◌, arith, ok,
  if◌then◌else◌, ltb,
}
use tfr.Pager.{
  PagerState, follow, paused, Call, appends, scrolls, trims, resizes, reflows, advances, create,
  run, grow, more_rows,
}
use tfr.Pager.Invariant.{IsValid, run-IsValid}
use tfr.Pager.Reading.{append_batches, append_shows_budget, advances_by, advances_reach_end}

-- A screen of ten lines that overlaps by one.
abbrev screen : PagerState
screen = record {
  height = 10;
  overlap = 1;
  enabled = true;
  total_rows = 0;
  visible_end = 0;
  top_row = 0;
  mode = follow;
  page_budget = 10;
}

create_example : create (pos 10) (pos 1) true ≡ ok screen
unfolding create
create_example = refl

-- Twenty-five rows arrive: ten are shown.
abbrev waiting : PagerState
waiting = record screen { total_rows = 25; visible_end = 10; page_budget = 0; mode = paused }

grow_example : grow screen 25 ≡ waiting
unfolding grow
grow_example = refl

-- Floor instead of round: any rounding will do.
abbrev floored : ℕ → ℕ → ℕ → ℕ
floored total old part = total * part / old

abbrev calls : List Call
calls =
    appends (pos 25)
    ∷ advances
    ∷ trims (pos 3)
    ∷ resizes (pos 6)
    ∷ reflows (pos 40)
    ∷ scrolls (negsuc 2)
    ∷ []

run-IsValid_example : IsValid (run floored screen calls)
run-IsValid_example = run-IsValid floored (pos 10) (pos 1) true screen calls create_example

screen-IsValid : IsValid screen
screen-IsValid = ground arith

waiting-IsValid : IsValid waiting
waiting-IsValid = ground arith

append_batches_example : grow (grow screen 3) 9 ≡ grow screen 12
append_batches_example = append_batches screen 3 9

append_shows_budget_example :
    ((grow screen 25).visible_end ≡ 0 + min 25 10)
    × ((grow screen 25).top_row ≤ 0)
    × ((grow screen 25).mode ≡ (if ltb 10 25 then paused else follow))
append_shows_budget_example = append_shows_budget screen 25 screen-IsValid refl refl

more_rows-waiting : more_rows waiting < 16
unfolding more_rows
more_rows-waiting = omega arith

advances_reach_end_example :
    ((advances_by 16 waiting).mode ≡ follow)
    × ((advances_by 16 waiting).visible_end ≡ (advances_by 16 waiting).total_rows)
    × ((advances_by 16 waiting).total_rows ≡ 25)
advances_reach_end_example = advances_reach_end 16 waiting waiting-IsValid more_rows-waiting

abbrev second_page : PagerState
second_page = record waiting { visible_end = 19; top_row = 9 }

second_page-IsValid : IsValid second_page
second_page-IsValid = ground arith
