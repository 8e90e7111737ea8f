-- ===== src/Text/Equal.antt =====
-- Equality of texts decides the path type.
use ws2tcp_local_core.Base.{◌≡◌, ◌↔◌, true, [], ◌∷◌, ap, arith}
use ws2tcp_local_core.Text.{Text, equal, to_ascii_lowercase, eq_ignore_ascii_case}

pub equal_iff : (a b : Text) → (equal a b ≡ true) ↔ (a ≡ b)
unfolding equal
equal_iff [] [] = ground arith
equal_iff (x ∷ a) (y ∷ b) = ground (arith, equal_iff a b)
equal_iff [] (y ∷ b) = ground arith
equal_iff (x ∷ a) [] = ground arith

-- Two texts are alike but for case when their lower cases are the same.
pub eq_ignore_ascii_case_iff :
    (a b : Text) → (eq_ignore_ascii_case a b ≡ true) ↔ (to_ascii_lowercase a ≡ to_ascii_lowercase b)
unfolding eq_ignore_ascii_case
eq_ignore_ascii_case_iff a b = equal_iff (to_ascii_lowercase a) (to_ascii_lowercase b)

-- Texts that are alike compare alike with any third.
pub eq_ignore_ascii_case_left :
    (a b c : Text)
    → eq_ignore_ascii_case a b ≡ true
    → eq_ignore_ascii_case a c ≡ eq_ignore_ascii_case b c
eq_ignore_ascii_case_left a b c h =
    let e = (eq_ignore_ascii_case_iff a b).0 h in
    unfold eq_ignore_ascii_case in ap (λ s. equal s (to_ascii_lowercase c)) e
