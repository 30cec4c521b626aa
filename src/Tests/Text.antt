-- ===== src/Tests/Text.antt =====
-- Trimming and numbers, on small texts.
use simple_logger.Base.{◌≡◌, refl, some, codes}
use simple_logger.Text.{trim?, is_blank}
use simple_logger.Text.Trim.{trim?_idem}

trim?_idem_example : trim? is_blank (codes "a b") ≡ some (codes "a b")
unfolding trim?
trim?_idem_example = trim?_idem is_blank (codes " a b ") refl
