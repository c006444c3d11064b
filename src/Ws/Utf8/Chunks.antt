-- ===== src/Ws/Utf8/Chunks.antt =====
-- Feeding in chunks: what fragmentation relies on.
use ws_server.Base.{Option, none, some, List, [], ◌∷◌, ◌++◌, ◌≡◌, refl, ℕ}
use ws_server.Ws.Utf8.{Utf8St, feed_byte, utf8_feed}

abbrev pub then_feed : Option Utf8St → List ℕ → Option Utf8St
then_feed none bs = none
then_feed (some st) bs = utf8_feed st bs

-- Feeding two chunks in turn is feeding them joined, wherever the bytes are cut.
pub utf8_feed-append :
    (st : Utf8St) (xs ys : List ℕ) → utf8_feed st (xs ++ ys) ≡ then_feed (utf8_feed st xs) ys
unfolding utf8_feed
utf8_feed-append st [] ys = refl
utf8_feed-append st (b ∷ xs) ys = go (λ st'. utf8_feed-append st' xs ys) (feed_byte st b)
  where
    go :
        ((st' : Utf8St) → utf8_feed st' (xs ++ ys) ≡ then_feed (utf8_feed st' xs) ys)
        → (r : Option Utf8St)
        → (elim r [ none ↦ none | some st' ↦ utf8_feed st' (xs ++ ys) ])
          ≡ then_feed (elim r [ none ↦ none | some st' ↦ utf8_feed st' xs ]) ys
    go rest none = refl
    go rest (some st') = rest st'

pub utf8_feed_nil : (st : Utf8St) → utf8_feed st [] ≡ some st
unfolding utf8_feed
utf8_feed_nil st = refl
