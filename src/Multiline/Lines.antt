-- ===== src/Multiline/Lines.antt =====
-- The lines that prepare_multiline_text of src/tfr/multiline.py finds in a text.
use tfr.Base.{
  ℕ, ◌≡◌, refl, ap, ◌∙◌, false, List, [], ◌∷◌, ◌++◌, arith, ◌==◌, Bool-cases, inl, inr, contains,
  All,
}
use tfr.Multiline.{
  starts_with_newline, replace_crlf, replace_cr, cons_first, split_lines, join_lines, pop_empty,
}

-- A text without a character.
unfoldable pub Lacks : ℕ → List ℕ → Type 0
Lacks x text = contains x text ≡ false

pub data LineEnd : Type 0 where
  line_feed carriage_return both : LineEnd

abbrev pub characters : LineEnd → List ℕ
characters line_feed = 0x0a ∷ []
characters carriage_return = 0x0d ∷ []
characters both = 0x0d ∷ 0x0a ∷ []

-- Each line with its end.
abbrev pub terminated : LineEnd → List (List ℕ) → List ℕ
terminated e [] = []
terminated e (line ∷ lines) = line ++ (characters e ++ terminated e lines)

abbrev pub IsLine : List ℕ → Type 0
IsLine line = Lacks 0x0a line × Lacks 0x0d line

abbrev pub lines_of : List ℕ → List (List ℕ)
lines_of text = pop_empty (split_lines (replace_cr (replace_crlf text)))

starts_with_newline-terminated :
    (lines : List (List ℕ))
    → All IsLine lines
    → starts_with_newline (terminated carriage_return lines) ≡ false
unfolding starts_with_newline Lacks contains
starts_with_newline-terminated [] h = refl
starts_with_newline-terminated ([] ∷ lines) h = refl
starts_with_newline-terminated ((c ∷ line) ∷ lines) h = (let first = h.0.0 in ground arith)

normalize_line :
    (line xs : List ℕ)
    → IsLine line
    → replace_cr (replace_crlf (line ++ xs)) ≡ line ++ replace_cr (replace_crlf xs)
unfolding replace_cr replace_crlf Lacks contains
normalize_line [] xs h = refl
normalize_line (c ∷ line) xs h =
    let rest = normalize_line line xs (ground arith, ground arith) in
    let other : (c == 0x0d) ≡ false = ground arith in rw (other, other) (ap (◌∷◌ c) rest)

normalize_end :
    (e : LineEnd) (lines : List (List ℕ))
    → All IsLine lines
    → replace_cr (replace_crlf (characters e ++ terminated e lines))
      ≡ 0x0a ∷ replace_cr (replace_crlf (terminated e lines))
unfolding replace_cr replace_crlf
normalize_end line_feed lines h = refl
normalize_end both lines h = refl
normalize_end carriage_return lines h = rw (starts_with_newline-terminated lines h) refl

split_line :
    (line xs : List ℕ) → Lacks 0x0a line → split_lines (line ++ 0x0a ∷ xs) ≡ line ∷ split_lines xs
unfolding split_lines Lacks contains
split_line [] xs h = refl
split_line (c ∷ line) xs h =
    let other : (c == 0x0a) ≡ false = ground arith in
    rw (other, split_line line xs (ground arith)) refl

split-terminated :
    (e : LineEnd) (lines : List (List ℕ))
    → All IsLine lines
    → split_lines (replace_cr (replace_crlf (terminated e lines))) ≡ lines ++ [] ∷ []
unfolding replace_cr replace_crlf split_lines
split-terminated e [] h = refl
split-terminated e (line ∷ lines) h =
    ap split_lines (
      normalize_line line (characters e ++ terminated e lines) h.0
      ∙ ap (◌++◌ line) (normalize_end e lines h.1))
    ∙ split_line line (replace_cr (replace_crlf (terminated e lines))) h.0.0
    ∙ ap (◌∷◌ line) (split-terminated e lines h.1)

pop_empty-append : (lines : List (List ℕ)) → pop_empty (lines ++ [] ∷ []) ≡ lines
unfolding pop_empty
pop_empty-append [] = refl
pop_empty-append ([] ∷ []) = refl
pop_empty-append ((c ∷ line) ∷ []) = refl
pop_empty-append ([] ∷ next ∷ lines) = ap (◌∷◌ []) (pop_empty-append (next ∷ lines))
pop_empty-append ((c ∷ line) ∷ next ∷ lines) = ap (◌∷◌ (c ∷ line)) (pop_empty-append (next ∷ lines))

pub lines_of-terminated :
    (e : LineEnd) (lines : List (List ℕ)) → All IsLine lines → lines_of (terminated e lines) ≡ lines
lines_of-terminated e lines h = ap pop_empty (split-terminated e lines h) ∙ pop_empty-append lines

Lacks-replace_cr : (text : List ℕ) → Lacks 0x0d (replace_cr text)
unfolding replace_cr Lacks contains
Lacks-replace_cr [] = refl
Lacks-replace_cr (c ∷ text) = (let rest = Lacks-replace_cr text in ground arith)

cons_first-IsLine :
    (c : ℕ) (lines : List (List ℕ))
    → (c == 0x0a) ≡ false
    → (c == 0x0d) ≡ false
    → All IsLine lines
    → All IsLine (cons_first c lines)
unfolding Lacks contains
cons_first-IsLine c [] h k m = ((rw h refl, rw k refl), tt)
cons_first-IsLine c (line ∷ lines) h k m = ((rw h m.0.0, rw k m.0.1), m.1)

split_lines-IsLine : (text : List ℕ) → Lacks 0x0d text → All IsLine (split_lines text)
unfolding split_lines Lacks contains
split_lines-IsLine [] h = ((refl, refl), tt)
split_lines-IsLine (c ∷ text) h =
    let lines = split_lines-IsLine text (ground arith) in
    let printed : (c == 0x0d) ≡ false = ground arith in
    elim (Bool-cases (c == 0x0a)) [
      | inl e ↦ rw e ((refl, refl), lines)
      | inr e ↦ rw e (cons_first-IsLine c (split_lines text) e printed lines)
    ]

pub pop_empty-All {κ} :
    (P : List ℕ → Type κ) (lines : List (List ℕ)) → All P lines → All P (pop_empty lines)
unfolding pop_empty
pop_empty-All P [] h = tt
pop_empty-All P ([] ∷ []) h = tt
pop_empty-All P ((c ∷ line) ∷ []) h = h
pop_empty-All P ([] ∷ next ∷ lines) h = (h.0, pop_empty-All P (next ∷ lines) h.1)
pop_empty-All P ((c ∷ line) ∷ next ∷ lines) h = (h.0, pop_empty-All P (next ∷ lines) h.1)

pub lines_of-IsLine : (text : List ℕ) → All IsLine (lines_of text)
lines_of-IsLine text =
    pop_empty-All IsLine (split_lines (replace_cr (replace_crlf text)))
      (split_lines-IsLine (replace_cr (replace_crlf text)) (Lacks-replace_cr (replace_crlf text)))

pub Lacks-append_left : (x : ℕ) (xs ys : List ℕ) → Lacks x (xs ++ ys) → Lacks x xs
unfolding Lacks contains
Lacks-append_left x [] ys h = refl
Lacks-append_left x (c ∷ xs) ys h =
    let rest : contains x xs ≡ false = Lacks-append_left x xs ys (ground arith) in ground arith

pub Lacks-append_right : (x : ℕ) (xs ys : List ℕ) → Lacks x (xs ++ ys) → Lacks x ys
unfolding Lacks contains
Lacks-append_right x [] ys h = h
Lacks-append_right x (c ∷ xs) ys h = Lacks-append_right x xs ys (ground arith)

pub Lacks-append : (x : ℕ) (xs ys : List ℕ) → Lacks x xs → Lacks x ys → Lacks x (xs ++ ys)
unfolding Lacks contains
Lacks-append x [] ys h k = k
Lacks-append x (c ∷ xs) ys h k =
    let rest : contains x (xs ++ ys) ≡ false = Lacks-append x xs ys (ground arith) k in ground arith

pub join_lines-All :
    (x : ℕ) (lines : List (List ℕ)) → Lacks x (join_lines lines) → All (Lacks x) lines
unfolding join_lines
join_lines-All x [] h = tt
join_lines-All x (line ∷ []) h = (h, tt)
join_lines-All x (line ∷ next ∷ lines) h = (
  Lacks-append_left x line (0x0a ∷ join_lines (next ∷ lines)) h,
  join_lines-All x (next ∷ lines) (
      Lacks-append_right x (0x0a ∷ []) (join_lines (next ∷ lines))
        (Lacks-append_right x line (0x0a ∷ join_lines (next ∷ lines)) h)),
)
