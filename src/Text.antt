-- ===== src/Text.antt =====
-- `str` of Rust's standard library: a text is the list of its characters (Unicode scalar values),
-- a byte string the list of its bytes. The children model the methods that the crate calls.
pub mod Utf8
pub mod Lossy
pub mod Split
pub mod Pieces
pub mod Cuts
pub mod Trim
pub mod Terminated
pub mod Lines
pub mod Number
pub mod Equal
use Prim.Native.Char.{code}
use Prim.Native.String.{String}
use ws2tcp_local_core.Base.{
  ℕ, ◌+◌, ◌-◌, Bool, true, false, ◌&&◌, ◌||◌, List, [], ◌∷◌, map, ◌==◌, within, if◌then◌else◌, not,
}

abbrev pub Bytes : Type 0
Bytes = List ℕ

abbrev pub Text : Type 0
Text = List ℕ

-- The characters of a literal.
abbrev pub lit : String → Text
lit String.[] = []
lit (String.◌∷◌ c s) = code c ∷ lit s

-- `char::is_whitespace`: the Unicode property White_Space.
unfoldable pub is_whitespace : ℕ → Bool
is_whitespace c =
    within 9 13 c
    || c == 32
    || c == 0x85
    || c == 0xA0
    || c == 0x1680
    || within 0x2000 0x200A c
    || c == 0x2028
    || c == 0x2029
    || c == 0x202F
    || c == 0x205F
    || c == 0x3000

unfoldable pub is_digit : ℕ → Bool
is_digit = within b'0' b'9'

-- `u8::is_ascii_alphanumeric`
unfoldable pub is_alphanumeric : ℕ → Bool
is_alphanumeric c = within b'a' b'z' c || within b'A' b'Z' c || within b'0' b'9' c

-- `u8::is_ascii_whitespace`
unfoldable pub is_ascii_whitespace : ℕ → Bool
is_ascii_whitespace c = c == 9 || c == 10 || c == 12 || c == 13 || c == 32

unfoldable pub lower : ℕ → ℕ
lower c = if within b'A' b'Z' c then c + 32 else c

unfoldable pub to_ascii_lowercase : Text → Text
unfolding lower
to_ascii_lowercase = map lower

-- `==` of two texts
unfoldable pub equal : Text → Text → Bool
equal [] [] = true
equal (x ∷ xs) (y ∷ ys) = x == y && equal xs ys
equal _ _ = false

unfoldable pub eq_ignore_ascii_case : Text → Text → Bool
unfolding equal to_ascii_lowercase
eq_ignore_ascii_case a b = equal (to_ascii_lowercase a) (to_ascii_lowercase b)

unfoldable pub is_empty : Text → Bool
is_empty [] = true
is_empty (_ ∷ _) = false

-- `trim_start_matches` of a class of characters
unfoldable pub trim_start : (ℕ → Bool) → Text → Text
trim_start p [] = []
trim_start p (c ∷ s) = if p c then trim_start p s else c ∷ s

-- `trim_end_matches`
unfoldable pub trim_end : (ℕ → Bool) → Text → Text
unfolding is_empty
trim_end p [] = []
trim_end p (c ∷ s) = let r = trim_end p s in if is_empty r && p c then [] else c ∷ r

unfoldable pub trim_matches : (ℕ → Bool) → Text → Text
unfolding trim_start trim_end
trim_matches p s = trim_end p (trim_start p s)

unfoldable pub trim : Text → Text
unfolding trim_matches is_whitespace
trim = trim_matches is_whitespace
