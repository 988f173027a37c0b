-- ===== src/Framer/Examples.antt =====
-- Runs of TextFramer, and the theorems at concrete inputs.
use tfr.Base.{codes, ℕ, ◌≡◌, refl, List, [], ◌∷◌, ◌++◌, arith, length, concat, All}
use tfr.Framer.{TextFramer, line_feed, carriage_return, feed, scan, is_full, round, last_round}
use tfr.Framer.Lossless.{feed_lossless}
use tfr.Framer.Frames.{IsFrame, IsHeld, feed-IsFrame}
use tfr.Framer.Chunks.{feed_split}
use tfr.Framer.Excess.{crlf_exceeds_maximum}

abbrev framer : TextFramer
framer = record { maximum_frame_characters = 4; pending = codes "a" ++ carriage_return ∷ [] }

abbrev text : List ℕ
text = line_feed ∷ codes "bcdefgh" ++ line_feed ∷ codes "Pr"

feed_example : feed framer text ≡ (
  record { maximum_frame_characters = 4; pending = codes "Pr" },
  (codes "a" ++ carriage_return ∷ line_feed ∷ [])
      ∷ codes "bcde"
      ∷ (codes "fgh" ++ line_feed ∷ [])
      ∷ [],
)
unfolding feed scan is_full round last_round
feed_example = refl

feed_lossless_example :
    concat (feed framer text).1 ++ (feed framer text).0.pending ≡ framer.pending ++ text
feed_lossless_example = feed_lossless framer text

feed-IsFrame_example : All (IsFrame 4) (feed framer text).1 × IsHeld 4 (feed framer text).0.pending
feed-IsFrame_example = feed-IsFrame framer text (omega arith)

feed_split_example : feed framer (codes "xy" ++ text) ≡ (
    let (f', frames) = feed framer (codes "xy") in
    let (f'', more) = feed f' text in (f'', frames ++ more))
feed_split_example = feed_split framer (codes "xy") text (omega arith)

crlf_exceeds_maximum_example :
    let f : TextFramer = record { maximum_frame_characters = 4; pending = [] } in
    let line : List ℕ = codes "abc" ++ carriage_return ∷ line_feed ∷ [] in
    (feed f line ≡ (f, line ∷ [])) × (length line ≡ 5)
crlf_exceeds_maximum_example =
    crlf_exceeds_maximum (codes "abc") ((refl, refl), ((refl, refl), ((refl, refl), tt)))
