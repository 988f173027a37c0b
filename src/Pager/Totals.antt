-- ===== src/Pager/Totals.antt =====
-- What each operation of PagerState, src/tfr/pager.py, makes of the number of rows and of the height.
use tfr.Base.{ℕ, suc, ◌+◌, ◌-◌, ◌≡◌, arith, ok, Bool, ℤ, pos, negsuc, zero}
use tfr.Pager.{
  advance, scroll_rows, PagerState, create, jump_to_end, grow, drop_rows, set_height, set_total,
}
use tfr.Pager.Invariant.{IsValid}

pub total_rows-grow : (p : PagerState) (n : ℕ) → (grow p n).total_rows ≡ p.total_rows + n
unfolding grow
total_rows-grow p n = ground arith

pub total_rows-drop_rows : (p : PagerState) (n : ℕ) → (drop_rows p n).total_rows ≡ p.total_rows - n
unfolding drop_rows
total_rows-drop_rows p n = ground arith

pub total_rows-set_height : (p : PagerState) (h : ℕ) → (set_height p h).total_rows ≡ p.total_rows
unfolding set_height
total_rows-set_height p h = ground arith

pub total_rows-set_total :
    (scaled : ℕ → ℕ → ℕ → ℕ) (p : PagerState) (n : ℕ) → (set_total scaled p n).total_rows ≡ n
unfolding set_total
total_rows-set_total scaled p n = ground arith

pub total_rows-create :
    (h o : ℤ) (enabled : Bool) (p : PagerState) → create h o enabled ≡ ok p → p.total_rows ≡ 0
unfolding create
total_rows-create (pos (suc h)) (pos o) enabled p e = ground arith
total_rows-create (pos zero) o enabled p e = ground arith
total_rows-create (pos (suc h)) (negsuc o) enabled p e = ground arith
total_rows-create (negsuc h) o enabled p e = ground arith

pub total_rows-jump_to_end : (p : PagerState) → (jump_to_end p).total_rows ≡ p.total_rows
unfolding jump_to_end
total_rows-jump_to_end p = ground arith

pub total_rows-advance : (p : PagerState) → (advance p).total_rows ≡ p.total_rows
unfolding advance
total_rows-advance p = ground arith

pub total_rows-scroll_rows :
    (p : PagerState) (amount : ℤ) → (scroll_rows p amount).total_rows ≡ p.total_rows
unfolding scroll_rows
total_rows-scroll_rows p amount = ground arith

-- A full page budget at the end of the rows.
pub fresh-IsValid :
    (p : PagerState)
    → IsValid p
    → IsValid (record (jump_to_end p) { page_budget = (jump_to_end p).height })
unfolding jump_to_end
fresh-IsValid p v = ground arith
