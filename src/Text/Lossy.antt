-- ===== src/Text/Lossy.antt =====
-- `String::from_utf8_lossy`: what is no UTF-8 becomes U+FFFD, one for each longest piece that could
-- have been the start of a character.
use ws2tcp_local_core.Base.{ℕ, [], ◌∷◌, ◌++◌, Option, none, some}
use ws2tcp_local_core.Text.{Text, Bytes}
use ws2tcp_local_core.Text.Utf8.{Decoder, start, missing, step}

abbrev replacement : ℕ
replacement = 0xFFFD

-- a byte that no character starts with is replaced by itself
abbrev restarted : Option (Decoder × Text) → Decoder × Text
restarted none = (start, replacement ∷ [])
restarted (some next) = next

-- one byte: the piece before it is replaced where it does not go on
abbrev pub lossy_step : Decoder → Option (Decoder × Text) → Option (Decoder × Text) → Decoder × Text
lossy_step d (some next) again = next
lossy_step start none again = (start, replacement ∷ [])
lossy_step (missing _ _ _ _) none again = let (d', out) = restarted again in (d', replacement ∷ out)

unfoldable pub lossy : Decoder → Bytes → Text
unfolding step
lossy start [] = []
lossy (missing _ _ _ _) [] = replacement ∷ []
lossy d (b ∷ bs) = let (d', out) = lossy_step d (step d b) (step start b) in out ++ lossy d' bs

unfoldable pub from_utf8_lossy : Bytes → Text
unfolding lossy
from_utf8_lossy = lossy start
