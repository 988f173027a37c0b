-- ===== src/Framer.antt =====
-- TextFramer of src/tfr/sessions.py: decoded text cut into lines, with what is unfinished kept back.
-- Characters are code points.
pub mod Lossless
pub mod Frames
pub mod Chunks
pub mod Excess
pub mod Examples
use tfr.Base.{
  ℕ, suc, Bool, true, false, not, Option, none, some, List, [], ◌∷◌, ◌++◌, ℤ, pos, negsuc, leb,
  ◌==◌, if◌then◌else◌, Result, ok, err, length, ltb,
}

pub record TextFramer : Type 0 where
  pub maximum_frame_characters : ℕ
  pub pending : List ℕ

pub data Error : Type 0 where
  maximum_not_positive : Error

unfoldable pub create : ℤ → Result Error TextFramer
create (pos (suc n)) = ok (record { maximum_frame_characters = suc n; pending = [] })
create _ = err maximum_not_positive

unfoldable pub has_pending : TextFramer → Bool
has_pending f = elim f.pending [ [] ↦ false | _ ∷ _ ↦ true ]

-- The frames and what is left of the pending text.
abbrev pub Cut : Type 0
Cut = List (List ℕ) × List ℕ

abbrev pub emit : List ℕ → Cut → Cut
emit frame (frames, rest) = (frame ∷ frames, rest)

abbrev pub line_feed : ℕ
line_feed = 10

abbrev pub carriage_return : ℕ
carriage_return = 13

-- The test at the head of a round: a piece of the largest size is a frame of its own.
unfoldable pub is_full : ℕ → List ℕ → Bool
is_full maximum current = leb maximum (length current)

abbrev pub flushed : Bool → List ℕ → Cut → Cut
flushed full current cut = if full then emit current cut else cut

abbrev pub kept : Bool → List ℕ → List ℕ
kept full current = if full then [] else current

-- The round at the last index: a carriage return ends the loop there and is kept back.
unfoldable pub last_round : ℕ → List ℕ → Cut
last_round c line = if c == line_feed then (line ∷ [], []) else ([], line)

-- The branches of a round at c, with d behind it: the line ends at c, or behind both, or goes on.
unfoldable pub round : ℕ → ℕ → Cut → Cut → Cut → Cut
round c d next_line after_both go_on =
    if c == line_feed
    then next_line
    else if c == carriage_return
    then (if d == line_feed then after_both else next_line)
    else go_on

-- The loop of feed: `current` is pending[start:index], and the list is pending[index:].
unfoldable pub scan : ℕ → List ℕ → List ℕ → Cut
scan maximum current [] = ([], current)
scan maximum current (c ∷ []) =
    let full = is_full maximum current in
    flushed full current (last_round c (kept full current ++ c ∷ []))
scan maximum current (c ∷ d ∷ rest) =
    let full = is_full maximum current in
    let line = kept full current in
    let next_line = emit (line ++ c ∷ []) (scan maximum [] (d ∷ rest)) in
    let after_both = emit (line ++ c ∷ d ∷ []) (scan maximum [] rest) in
    let go_on = scan maximum (line ++ c ∷ []) (d ∷ rest) in
    flushed full current (round c d next_line after_both go_on)

-- The framer after the text, and the frames that are complete.
unfoldable pub feed : TextFramer → List ℕ → TextFramer × List (List ℕ)
feed f text =
    let (frames, rest) = scan f.maximum_frame_characters [] (f.pending ++ text) in
    (record f { pending = rest }, frames)

unfoldable pub flush : TextFramer → TextFramer × Option (List ℕ)
unfolding has_pending
flush f = if has_pending f then (record f { pending = [] }, some f.pending) else (f, none)
