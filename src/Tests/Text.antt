-- ===== src/Tests/Text.antt =====
-- Runs of the text functions of the Go library that the models use.
use thism.Base.{◌≡◌, refl, trim_space, to_lower}

trim_test : trim_space "  a b\n" ≡ "a b"
unfolding trim_space
trim_test = refl

lower_test : to_lower "AbZ-9" ≡ "abz-9"
unfolding to_lower
lower_test = refl
