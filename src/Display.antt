-- ===== src/Display.antt =====
-- DisplayBuffer of src/tfr/pager.py: the entries of a screen's scrollback with their wrapped rows,
-- and the pager over them. The ten parallel lists of the class, which are always extended, trimmed
-- and zipped together, are one list of records here. The text of an entry, its styling (decorations,
-- presentations and style spans) and a row are types that the section takes with the wrapping.
pub mod Trimming
pub mod Invariant
pub mod Runs
pub mod Recall
pub mod Screen
pub mod Examples
use tfr.Base.{
  ℕ, zero, suc, ◌+◌, ◌-◌, ◌≤◌, ◌<◌, ◌≡◌, min, max, ℤ, pos, negsuc, Bool, true, false, not, ◌&&◌,
  ◌||◌, Option, none, some, List, [], ◌∷◌, ◌++◌, map, ltb, leb, ◌==◌, if◌then◌else◌, Result, ok,
  err, ◌>>=◌, length, take, drop, concat, replicate, get_elem?,
}
use mathlib.Core.List.{reverse}
use Prim.Native.Nat.{◌/◌}
use tfr.Pager
use tfr.Pager.{PagerState, is_scrolled}

-- A URL with the visible offsets that it covers.
pub record Link : Type 0 where
  pub start : ℕ
  pub end : ℕ
  pub url : List ℕ

-- wrap_ansi_text and find_urls as the buffer uses them: the rows of a text at a width, with the
-- visible offset at which each row starts.
pub record Wrapping (T S R : Type 0) : Type 0 where
  pub wrap : T → S → List Link → ℕ → List R × List ℕ
  pub find_urls : T → List Link
  pub as_many_starts :
      (t : T) (s : S) (links : List Link) (width : ℕ)
      → length (wrap t s links width).1 ≡ length (wrap t s links width).0

pub record Entry (T S R : Type 0) : Type 0 where
  pub text : T
  pub rows : List R
  pub row_offset : ℕ
  pub styling : S
  pub recallable : Bool
  pub urls : List Link
  pub row_starts : List ℕ

pub record DisplayBuffer (T S R : Type 0) : Type 0 where
  pub max_rows : ℕ
  pub width : ℕ
  pub entries : List (Entry T S R)
  pub rows : List R
  pub screen_start_entry : ℕ
  pub pager : PagerState

-- ValueError and IndexError
pub data Error : Type 0 where
  size_not_positive width_not_positive height_not_positive count_not_positive index_error : Error
  pager_error : Pager.Error → Error

module _ {R : Type 0} where
  -- rows[-count:], where count is positive
  unfoldable pub last_rows : ℕ → List R → List R
  last_rows count rows = drop (length rows - count) rows

  -- rows[start:end]
  unfoldable pub slice : ℕ → ℕ → List R → List R
  slice start end rows = take (end - start) (drop start rows)

module _ {T S R : Type 0} where
  abbrev pub all_rows : List (Entry T S R) → List R
  all_rows [] = []
  all_rows (e ∷ entries) = e.rows ++ all_rows entries

  -- The loop of _trim_rows: whole entries off the front, with their number and the rows still to go.
  unfoldable pub drop_entries : ℕ → List (Entry T S R) → ℕ × ℕ × List (Entry T S R)
  drop_entries remaining [] = (0, remaining, [])
  drop_entries remaining (e ∷ entries) =
      let (removed, left, kept) = drop_entries (remaining - length e.rows) entries in
      if leb (length e.rows) remaining
      then (suc removed, left, kept)
      else (0, remaining, e ∷ entries)

  -- The first rows of the first entry that stays.
  unfoldable pub cut_first : ℕ → List (Entry T S R) → Result Error (List (Entry T S R))
  cut_first zero entries = ok entries
  cut_first (suc n) [] = err index_error
  cut_first (suc n) (e ∷ entries) = ok (
      record e {
        rows = drop (suc n) e.rows;
        row_offset = e.row_offset + suc n;
        row_starts = drop (suc n) e.row_starts;
      }
      ∷ entries)

  unfoldable pub trim_rows : DisplayBuffer T S R → Result Error (DisplayBuffer T S R)
  trim_rows b =
      let trim_count = length b.rows - b.max_rows in
      let (removed, remaining, kept) = drop_entries trim_count b.entries in
      do
        entries ← cut_first remaining kept
        ok (record b {
          entries = entries;
          screen_start_entry = b.screen_start_entry - removed;
          rows = drop trim_count b.rows;
          pager = if trim_count == 0 then b.pager else Pager.drop_rows b.pager trim_count;
        })

  unfoldable pub clear_screen : DisplayBuffer T S R → DisplayBuffer T S R
  clear_screen b =
      let p = Pager.jump_to_end b.pager in
      record b {
        screen_start_entry = length b.entries;
        pager = record p { page_budget = p.height };
      }

  unfoldable pub restore_scrollback : DisplayBuffer T S R → DisplayBuffer T S R
  restore_scrollback b = record b { screen_start_entry = 0 }

  unfoldable pub screen_is_cleared : DisplayBuffer T S R → Bool
  screen_is_cleared b = ltb 0 b.screen_start_entry

  -- The loop of recent_rows, over the entries from the last one back.
  unfoldable pub recall : ℕ → List R → List (Entry T S R) → List R
  unfolding last_rows
  recall remaining selected [] = selected
  recall remaining selected (e ∷ entries) =
      let chunk = last_rows remaining e.rows in
      let skipped = recall remaining selected entries in
      let more = recall (remaining - length chunk) (chunk ++ selected) entries in
      if not e.recallable
      then skipped
      else if remaining - length chunk == 0
      then chunk ++ selected
      else more

  unfoldable pub recent_rows : DisplayBuffer T S R → ℤ → Result Error (List R)
  recent_rows b (pos (suc n)) = ok (recall (suc n) [] (reverse b.entries))
  recent_rows b _ = err count_not_positive

  -- The row at which the screen starts after a clear, by the shorter of the two sums.
  unfoldable pub screen_start : DisplayBuffer T S R → ℕ
  screen_start b =
      if leb b.screen_start_entry (length b.entries / 2)
      then length (all_rows (take b.screen_start_entry b.entries))
      else length b.rows - length (all_rows (drop b.screen_start_entry b.entries))

  unfoldable pub visible_bounds : DisplayBuffer T S R → ℕ × ℕ
  visible_bounds b =
      let (start, end) = Pager.visible_range b.pager in
      (if is_scrolled b.pager.mode then start else max start (screen_start b), end)

  -- visible_rows where nothing is animated.
  unfoldable pub visible_rows : DisplayBuffer T S R → List R
  visible_rows b = let (start, end) = visible_bounds b in slice start end b.rows

  -- Blank rows above, up to the pager's height.
  unfoldable pub padded_visible_rows : R → DisplayBuffer T S R → List R
  padded_visible_rows blank b =
      let rows = visible_rows b in
      let pad_count = b.pager.height - length rows in
      if pad_count == 0 then rows else replicate pad_count blank ++ rows

module _ {T S R : Type 0} where
  abbrev pub fresh : ℕ → ℕ → PagerState → DisplayBuffer T S R
  fresh m width pager = record {
    max_rows = suc m;
    width = width;
    entries = [];
    rows = [];
    screen_start_entry = 0;
    pager = pager;
  }

  abbrev pub opened : ℕ → ℕ → Result Pager.Error PagerState → Result Error (DisplayBuffer T S R)
  opened m width (ok pager) = ok (fresh m width pager)
  opened m width (err e) = err (pager_error e)

  unfoldable pub create : ℤ → ℕ → ℤ → ℤ → Bool → Result Error (DisplayBuffer T S R)
  create (pos (suc m)) width height overlap enabled =
      opened m width (Pager.create height overlap enabled)
  create _ width height overlap enabled = err size_not_positive

module _ {T S R : Type 0} (w : Wrapping T S R) where
  -- The new entry with its rows.
  abbrev pub wrapped : T → S → Bool → ℕ → Entry T S R
  wrapped text styling recallable width =
      let urls = w.find_urls text in
      let (rows, starts) = w.wrap text styling urls width in
      record {
        text = text;
        rows = rows;
        row_offset = 0;
        styling = styling;
        recallable = recallable;
        urls = urls;
        row_starts = starts;
      }

  -- wrap_ansi_text refuses a width of 0 before anything is changed.
  unfoldable pub append : DisplayBuffer T S R → T → S → Bool → Result Error (DisplayBuffer T S R)
  append b text styling recallable =
      let e = wrapped text styling recallable b.width in
      if b.width == 0
      then err width_not_positive
      else trim_rows (record b {
        entries = b.entries ++ e ∷ [];
        rows = b.rows ++ e.rows;
        pager = Pager.grow b.pager (length e.rows);
      })

  abbrev pub rewrapped : ℕ → Entry T S R → Entry T S R
  rewrapped width e =
      let (rows, starts) = w.wrap e.text e.styling e.urls width in
      record e { rows = rows; row_starts = starts; row_offset = 0 }

  -- `scaled` is the rounding of the pager's reflow.
  unfoldable pub change_width :
      (ℕ → ℕ → ℕ → ℕ) → DisplayBuffer T S R → ℕ → Result Error (DisplayBuffer T S R)
  change_width scaled b width =
      let entries = map (rewrapped width) b.entries in
      let rows = all_rows entries in
      trim_rows (record b {
        width = width;
        entries = entries;
        rows = rows;
        pager = Pager.set_total scaled b.pager (length rows);
      })

  unfoldable pub resize :
      (ℕ → ℕ → ℕ → ℕ) → DisplayBuffer T S R → ℤ → ℤ → Result Error (DisplayBuffer T S R)
  resize scaled b (pos (suc width)) (pos (suc height)) = do
    c ← (if suc width == b.width then ok b else change_width scaled b (suc width))
    ok (record c { pager = Pager.set_height c.pager (suc height) })
  resize scaled b (pos (suc width)) _ = err height_not_positive
  resize scaled b _ height = err width_not_positive

-- What the terminal calls on a buffer and on its pager.
pub data Call (T S : Type 0) : Type 0 where
  appends : T → S → Bool → Call T S
  resizes : ℤ → ℤ → Call T S
  scrolls : ℤ → Call T S
  clears : Call T S
  restores : Call T S
  advances : Call T S

module _ {T S R : Type 0} (w : Wrapping T S R) (scaled : ℕ → ℕ → ℕ → ℕ) where
  unfoldable pub perform : DisplayBuffer T S R → Call T S → Result Error (DisplayBuffer T S R)
  perform b (appends text styling recallable) = append w b text styling recallable
  perform b (resizes width height) = resize w scaled b width height
  perform b (scrolls amount) = ok (record b { pager = Pager.scroll_rows b.pager amount })
  perform b clears = ok (clear_screen b)
  perform b restores = ok (restore_scrollback b)
  perform b advances = ok (record b { pager = Pager.advance b.pager })

  -- A call that refuses its arguments leaves the buffer as it was. After an IndexError, which comes
  -- half way through a change, there is no buffer to go on with.
  abbrev pub after :
      DisplayBuffer T S R → Result Error (DisplayBuffer T S R) → Option (DisplayBuffer T S R)
  after b (ok c) = some c
  after b (err index_error) = none
  after b (err size_not_positive) = some b
  after b (err width_not_positive) = some b
  after b (err height_not_positive) = some b
  after b (err count_not_positive) = some b
  after b (err (pager_error e)) = some b

  unfoldable pub run : DisplayBuffer T S R → List (Call T S) → Option (DisplayBuffer T S R)
  run b [] = some b
  run b (call ∷ calls) = elim (after b (perform b call)) [ none ↦ none | some c ↦ run c calls ]
