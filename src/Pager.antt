-- ===== src/Pager.antt =====
-- PagerState of src/tfr/pager.py: which rows of a buffer are on screen, and when output pauses.
-- Arguments that Python checks for a sign are integers; the fields never go below 0.
pub mod Invariant
pub mod Reading
pub mod Totals
pub mod Examples
use tfr.Base.{
  List, [], ◌∷◌, ℕ, suc, ◌+◌, ◌-◌, min, max, ℤ, pos, negsuc, Bool, true, false, ◌&&◌, ◌||◌, not,
  Option, none, some, ltb, leb, ◌==◌, if◌then◌else◌, Result, ok, err, ◌>>=◌,
}

pub data PagerMode : Type 0 where
  follow paused scrolled : PagerMode

pub record PagerState : Type 0 where
  pub height : ℕ
  pub overlap : ℕ
  pub enabled : Bool
  pub total_rows : ℕ
  pub visible_end : ℕ
  pub top_row : ℕ
  pub mode : PagerMode
  pub page_budget : ℕ

-- ValueError
pub data Error : Type 0 where
  height_not_positive overlap_negative count_negative total_negative : Error

-- self.mode is PagerMode.FOLLOW, and so on
unfoldable pub is_follow : PagerMode → Bool
is_follow follow = true
is_follow _ = false

unfoldable pub is_paused : PagerMode → Bool
is_paused paused = true
is_paused _ = false

unfoldable pub is_scrolled : PagerMode → Bool
is_scrolled scrolled = true
is_scrolled _ = false

new_state : ℕ → ℕ → Bool → PagerState
new_state height overlap enabled = record {
  height = height;
  overlap = overlap;
  enabled = enabled;
  total_rows = 0;
  visible_end = 0;
  top_row = 0;
  mode = follow;
  page_budget = height;
}

-- The constructor with its checks.
unfoldable pub create : ℤ → ℤ → Bool → Result Error PagerState
unfolding new_state
create (pos (suc h)) (pos overlap) enabled = ok (new_state (suc h) overlap enabled)
create (pos (suc h)) (negsuc n) enabled = err overlap_negative
create _ overlap enabled = err height_not_positive

abbrev pub page_size : PagerState → ℕ
page_size p = max 1 (p.height - min p.overlap (p.height - 1))

unfoldable pub more_rows : PagerState → ℕ
unfolding is_paused is_scrolled
more_rows p =
    if is_paused p.mode
    then p.total_rows - p.visible_end
    else if is_scrolled p.mode
    then p.total_rows - (p.top_row + p.height)
    else 0

unfoldable pub visible_range : PagerState → ℕ × ℕ
unfolding is_paused
visible_range p =
    let end = min p.total_rows (p.top_row + p.height) in
    (p.top_row, if is_paused p.mode then min end p.visible_end else end)

unfoldable pub jump_to_end : PagerState → PagerState
jump_to_end p = record p {
  visible_end = p.total_rows;
  top_row = p.total_rows - p.height;
  mode = follow;
  page_budget = if p.total_rows == 0 then p.height else page_size p;
}

-- append_rows from the addition on: the rows that the page budget lets through are shown, and
-- output pauses when some are held back.
unfoldable pub show_rows : PagerState → ℕ → PagerState
show_rows p count =
    let shown = min count p.page_budget in
    record p {
      visible_end = p.visible_end + shown;
      page_budget = p.page_budget - shown;
      top_row = p.visible_end + shown - p.height;
      mode = if ltb shown count then paused else p.mode;
    }

unfoldable pub grow : PagerState → ℕ → PagerState
unfolding is_follow show_rows jump_to_end
grow p count =
    if count == 0
    then p
    else (let q = record p { total_rows = p.total_rows + count } in
        if not p.enabled
        then jump_to_end q
        else if not (is_follow p.mode)
        then q
        else show_rows q count)

unfoldable pub append_rows : PagerState → ℤ → Result Error PagerState
append_rows p (pos count) = ok (grow p count)
append_rows p (negsuc n) = err count_negative

-- max(0, self.top_row + amount)
unfoldable pub moved : ℕ → ℤ → ℕ
moved top (pos n) = top + n
moved top (negsuc n) = top - suc n

unfoldable pub scroll_rows : PagerState → ℤ → PagerState
unfolding moved
scroll_rows p amount =
    let maximum_top = p.total_rows - p.height in
    let top = min maximum_top (moved p.top_row amount) in
    if top == maximum_top
    then record p {
      top_row = top;
      mode = follow;
      visible_end = p.total_rows;
      page_budget = page_size p;
    }
    else record p { top_row = top; mode = scrolled }

-- advance on a paused screen
unfoldable pub next_page : PagerState → PagerState
next_page p =
    let end = min p.total_rows (p.visible_end + page_size p) in
    let q = record p { visible_end = end; top_row = end - p.height } in
    if end == p.total_rows then record q { mode = follow; page_budget = page_size p } else q

unfoldable pub advance : PagerState → PagerState
unfolding is_scrolled is_paused next_page scroll_rows
advance p =
    if is_scrolled p.mode
    then scroll_rows p (pos (page_size p))
    else if not (is_paused p.mode)
    then p
    else next_page p

unfoldable pub drop_rows : PagerState → ℕ → PagerState
unfolding is_paused is_scrolled jump_to_end
drop_rows p count =
    let q = record p {
      total_rows = p.total_rows - count;
      visible_end = p.visible_end - count;
      top_row = p.top_row - count;
    } in
    if q.total_rows == 0 || (is_paused p.mode && leb q.total_rows q.visible_end)
    then jump_to_end q
    else if is_scrolled p.mode
    then record q { top_row = min q.top_row (q.total_rows - q.height) }
    else q

unfoldable pub trim_rows : PagerState → ℤ → Result Error PagerState
trim_rows p (pos count) = ok (drop_rows p count)
trim_rows p (negsuc n) = err count_negative

unfoldable pub clamp : PagerState → PagerState
clamp p = record p {
  visible_end = min p.visible_end p.total_rows;
  top_row = min p.top_row (p.total_rows - p.height);
}

unfoldable pub set_height : PagerState → ℕ → PagerState
unfolding is_follow is_paused jump_to_end clamp
set_height p height =
    let q = record p { height = height } in
    clamp (
      if is_follow p.mode
      then jump_to_end q
      else if is_paused p.mode
      then record q { top_row = q.visible_end - height }
      else record q { top_row = min q.top_row (q.total_rows - height) })

unfoldable pub resize : PagerState → ℤ → Result Error PagerState
resize p (pos (suc h)) = ok (set_height p (suc h))
resize p _ = err height_not_positive

-- `scaled total old part` is Python's round(total * (part / old)), in floating point.
module _ (scaled : ℕ → ℕ → ℕ → ℕ) where
  unfoldable pub rescale : PagerState → ℕ → PagerState
  unfolding is_paused jump_to_end
  rescale p total =
      let q = record p {
        total_rows = total;
        visible_end = min total (scaled total p.total_rows p.visible_end);
        top_row = min (total - p.height) (scaled total p.total_rows p.top_row);
      } in
      if is_paused p.mode
      then (let r = record q { top_row = q.visible_end - p.height } in
          if leb total q.visible_end then jump_to_end r else r)
      else q

  unfoldable pub set_total : PagerState → ℕ → PagerState
  unfolding is_follow jump_to_end rescale clamp
  set_total p total =
      if is_follow p.mode || p.total_rows == 0
      then jump_to_end (record p { total_rows = total })
      else clamp (rescale p total)

  unfoldable pub reflow : PagerState → ℤ → Result Error PagerState
  reflow p (pos total) = ok (set_total p total)
  reflow p (negsuc n) = err total_negative

-- The calls that the display makes.
pub data Call : Type 0 where
  appends scrolls trims resizes reflows : ℤ → Call
  advances jumps : Call

unfoldable pub perform : (ℕ → ℕ → ℕ → ℕ) → PagerState → Call → Result Error PagerState
perform scaled p (appends count) = append_rows p count
perform scaled p (scrolls amount) = ok (scroll_rows p amount)
perform scaled p (trims count) = trim_rows p count
perform scaled p (resizes height) = resize p height
perform scaled p (reflows total) = reflow scaled p total
perform scaled p advances = ok (advance p)
perform scaled p jumps = ok (jump_to_end p)

-- A call that raises leaves the state as it was.
abbrev pub after : PagerState → Result Error PagerState → PagerState
after p (ok q) = q
after p (err e) = p

unfoldable pub run : (ℕ → ℕ → ℕ → ℕ) → PagerState → List Call → PagerState
run scaled p [] = p
run scaled p (call ∷ calls) = run scaled (after p (perform scaled p call)) calls
