-- ===== src/Framer/Excess.antt =====
-- The length limit of TextFramer, src/tfr/sessions.py, and a CR LF that straddles it.
use tfr.Base.{ℕ, suc, ◌+◌, ◌≡◌, refl, ◌∙◌, List, [], ◌∷◌, ◌++◌, arith, length, length-append}
use tfr.Framer.{TextFramer, line_feed, carriage_return, round, scan, feed}
use tfr.Framer.Frames.{IsPlain}
use tfr.Framer.Chunks.{not_full, scan-replay}

scan_line :
    (maximum : ℕ) (body : List ℕ)
    → maximum ≡ suc (length body)
    → IsPlain body
    → scan maximum [] (body ++ carriage_return ∷ line_feed ∷ [])
      ≡ ((body ++ carriage_return ∷ line_feed ∷ []) ∷ [], [])
scan_line maximum body h p =
    scan-replay maximum [] body (carriage_return ∷ line_feed ∷ []) p (omega arith)
    ∙ unfold scan round in rw (not_full maximum body (omega arith))

-- A line of one character less than the maximum with a CR LF is one frame of one character more than
-- the maximum: the limit is tested before the carriage return and not again before the line feed.
pub crlf_exceeds_maximum :
    (body : List ℕ)
    → IsPlain body
    → let f : TextFramer = record { maximum_frame_characters = suc (length body); pending = [] } in
      let text : List ℕ = body ++ carriage_return ∷ line_feed ∷ [] in
      (feed f text ≡ (f, text ∷ [])) × (length text ≡ f.maximum_frame_characters + 1)
unfolding feed
crlf_exceeds_maximum body p =
    (rw (scan_line (suc (length body)) body refl p), rw length-append (omega arith))
