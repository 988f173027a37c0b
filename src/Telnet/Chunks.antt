-- ===== src/Telnet/Chunks.antt =====
-- How the feed loop of src/tfr/telnet.py splits its input: chunk boundaries, quoted data and whole
-- frames.
use mathlib.Core.Path.{fun_ext}
use tfr.Base.{ℕ, ◌≡◌, refl, sym, List, [], ◌∷◌, ◌++◌, append_assoc, Result, ok, err, ◌>>=◌}
use tfr.Telnet.{Codec, TelnetResult, Fault, feed, receive, join, no_result}

-- One run after another, with what both yield.
abbrev pub Run : Type 0
Run = Result Fault (Codec × TelnetResult)

abbrev pub after : TelnetResult → Run → Run
after first (ok (c, rest)) = ok (c, join first rest)
after first (err e) = err e

abbrev pub then_feed : Run → (Codec → Run) → Run
then_feed (ok (c, first)) k = after first (k c)
then_feed (err e) k = err e

after-after : (a b : TelnetResult) (r : Run) → after a (after b r) ≡ after (join a b) r
after-after a b (ok (c, d)) = simp append_assoc
after-after a b (err e) = refl

then_feed-after :
    (a : TelnetResult) (r : Run) (g : Codec → Run)
    → then_feed (after a r) g ≡ after a (then_feed r g)
then_feed-after a (ok (d, b)) g = sym (after-after a b (g d))
then_feed-after a (err e) g = refl

then_feed_assoc :
    (m : Run) (f g : Codec → Run)
    → then_feed (then_feed m f) g ≡ then_feed m (λ c. then_feed (f c) g)
then_feed_assoc (err e) f g = refl
then_feed_assoc (ok (c, a)) f g = then_feed-after a (f c) g

bind-after :
    (a : TelnetResult) (r : Run)
    → (◌>>=◌ {A = Codec × TelnetResult} r (λ (d, b). ok (d, join a b))) ≡ after a r
bind-after a (ok q) = refl
bind-after a (err e) = refl

bind-then_feed :
    (r : Run) (xs : List ℕ)
    → (◌>>=◌ {A = Codec × TelnetResult} r
        (λ (c, a). ◌>>=◌ {A = Codec × TelnetResult} (feed c xs) (λ (d, b). ok (d, join a b))))
      ≡ then_feed r (λ c. feed c xs)
bind-then_feed (ok (c, a)) xs = bind-after a (feed c xs)
bind-then_feed (err e) xs = refl

pub feed-cons :
    (c : Codec) (x : ℕ) (xs : List ℕ) → feed c (x ∷ xs) ≡ then_feed (receive c x) (λ c'. feed c' xs)
unfolding feed
feed-cons c x xs = bind-then_feed (receive c x) xs

pub after-no_result : (r : Run) → after no_result r ≡ r
after-no_result (ok q) = refl
after-no_result (err e) = refl

-- The split of the input into chunks does not matter: feeding a joined chunk is feeding its two
-- parts in turn, with the bytes, responses and events in the same order, and with the same fault.
pub feed-append :
    (c : Codec) (xs ys : List ℕ) → feed c (xs ++ ys) ≡ then_feed (feed c xs) (λ c'. feed c' ys)
unfolding feed
feed-append c [] ys = sym (after-no_result (feed c ys))
feed-append c (x ∷ xs) ys =
    rw (feed-cons c x (xs ++ ys), feed-cons c x xs)
      (rw (fun_ext λ c'. feed-append c' xs ys)
        (sym (then_feed_assoc (receive c x) (λ c'. feed c' xs) (λ c'. feed c' ys))))
