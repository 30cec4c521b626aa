-- ===== src/Logger/Names.antt =====
-- The names of tags and files in src/logger.cpp.
use simple_logger.Base.{
  ℕ, zero, suc, ◌≡◌, ◌≢◌, refl, ap, ◌∙◌, Bool, true, false, Option, none, some, [], ◌∷◌, ◌++◌,
  Bytes, arith, All, All-append, Lacks, length, replicate, if◌then◌else◌, ◌==◌, Bool-cases, inl,
  inr,
}
use simple_logger.Base.Int.{ℤ, pos, negsuc}
use simple_logger.Text.{find_first_not_of}
use simple_logger.Text.Decimal.{print_nat, to_string}
use simple_logger.Text.Decimal.RoundTrip.{IsDigit, print_nat-IsDigit}
use simple_logger.Config.{Settings}
use simple_logger.Logger.{
  is_safe, sanitize, without_dots, sanitize_tag, split_ext, stem_and_ext, base_name, with_tag,
  make_filename,
}

abbrev pub AllSafe : Bytes → Type 0
AllSafe = All (λ c. is_safe c ≡ true)

sanitize-AllSafe : (s : Bytes) → AllSafe (sanitize s)
unfolding sanitize
sanitize-AllSafe [] = tt
sanitize-AllSafe (c ∷ s) = (ground arith, sanitize-AllSafe s)

length-sanitize : (s : Bytes) → length (sanitize s) ≡ length s
unfolding sanitize
length-sanitize [] = refl
length-sanitize (c ∷ s) = ap suc (length-sanitize s)

length-replicate : (n c : ℕ) → length (replicate n c) ≡ n
length-replicate zero c = refl
length-replicate (suc n) c = ap suc (length-replicate n c)

bars_safe : (n : ℕ) → AllSafe (replicate n b'_')
bars_safe zero = tt
bars_safe (suc n) = (refl, bars_safe n)

abbrev dots : ℕ → Bool
dots c = c == b'.'

-- A tag's name: safe bytes, as many as the tag has, and not only dots.
abbrev pub IsTagName : Bytes → Bytes → Type 0
IsTagName tag t =
    AllSafe t × (length t ≡ length tag) × (find_first_not_of (λ c. c == b'.') t ≢ none)

without_dots-IsTagName :
    (tag t : Bytes) (o : Option ℕ)
    → t ≢ []
    → AllSafe t
    → length t ≡ length tag
    → find_first_not_of dots t ≡ o
    → IsTagName tag (without_dots t o)
unfolding find_first_not_of
without_dots-IsTagName tag [] none n h l e = absurd (n refl)
without_dots-IsTagName tag (c ∷ t) none n h l e =
    (bars_safe (length (c ∷ t)), length-replicate (length (c ∷ t)) b'_' ∙ l, λ z. cc)
without_dots-IsTagName tag t (some i) n h l e = (h, l, λ z. cc (z, e))

-- Each tag that is not empty becomes a name of safe bytes, which have no slash among them; it is as
-- long as the tag, and it is not made of dots alone, so it is neither "." nor "..".
pub sanitize_tag-IsTagName : (tag : Bytes) → tag ≢ [] → IsTagName tag (sanitize_tag tag)
unfolding sanitize_tag
sanitize_tag-IsTagName [] h = absurd (h refl)
sanitize_tag-IsTagName (c ∷ tag) h =
    let t = sanitize (c ∷ tag) in
    without_dots-IsTagName (c ∷ tag) t (find_first_not_of dots t) (unfold sanitize in λ e. cc)
      (sanitize-AllSafe (c ∷ tag)) (length-sanitize (c ∷ tag)) refl

abbrev pub slash : ℕ
slash = b'/'

safe-Lacks : (s : Bytes) → AllSafe s → Lacks slash s
safe-Lacks [] h = tt
safe-Lacks (c ∷ s) h = (λ e. absurd (no_slash c h.0 e), safe-Lacks s h.1)
  where
    no_slash : (c : ℕ) → is_safe c ≡ true → c ≡ slash → ⊥
    no_slash c h e = ground arith

digits-Lacks : (s : Bytes) → All IsDigit s → Lacks slash s
digits-Lacks [] h = tt
digits-Lacks (c ∷ s) h = (ground arith, digits-Lacks s h.1)

to_string-Lacks : (z : ℤ) → Lacks slash (to_string z)
unfolding to_string
to_string-Lacks (pos n) = digits-Lacks (print_nat n) (print_nat-IsDigit n)
to_string-Lacks (negsuc n) =
    (omega arith, digits-Lacks (print_nat (suc n)) (print_nat-IsDigit (suc n)))

abbrev BothLack : Option (Bytes × Bytes) → Type 0
BothLack none = Unit
BothLack (some (stem, ext)) = Lacks slash stem × Lacks slash ext

split_ext-BothLack : (s : Bytes) → Lacks slash s → BothLack (split_ext s)
unfolding split_ext
split_ext-BothLack [] h = tt
split_ext-BothLack (c ∷ s) h = step (split_ext s) (split_ext-BothLack s h.1)
  where
    step :
        (o : Option (Bytes × Bytes))
        → BothLack o
        → BothLack (elim o [
          | some (stem, ext) ↦ some (c ∷ stem, ext)
          | none ↦ if c == b'.' then some ([], c ∷ s) else none
        ])
    step (some (stem, ext)) k = ((h.0, k.0), k.1)
    step none k = elim (Bool-cases (c == b'.')) [
      | inl dot ↦ rw dot (tt, h)
      | inr other ↦ rw other tt
    ]

stem_and_ext-Lacks :
    (base : Bytes) (o : Option (Bytes × Bytes))
    → Lacks slash base
    → BothLack o
    → BothLack (some (stem_and_ext base o))
stem_and_ext-Lacks base none h k = (h, tt)
stem_and_ext-Lacks base (some (stem, ext)) h k = k

base_name-Lacks :
    (pid : ℤ) (timestamp base : Bytes)
    → Lacks slash timestamp
    → Lacks slash base
    → BothLack (some (base_name pid timestamp base))
base_name-Lacks pid timestamp [] h k = (
  All-append _ (to_string pid) (b'-' ∷ timestamp) (to_string-Lacks pid) (omega arith, h),
  omega arith,
)
base_name-Lacks pid timestamp (c ∷ base) h k =
    stem_and_ext-Lacks (c ∷ base) (split_ext (c ∷ base)) k (split_ext-BothLack (c ∷ base) k)

tag_lacks : (tag : Bytes) → Lacks slash (sanitize_tag tag)
unfolding sanitize_tag
tag_lacks [] = tt
tag_lacks (c ∷ tag) =
    safe-Lacks _ (unfold sanitize_tag in (sanitize_tag-IsTagName (c ∷ tag) (λ e. cc)).0)

with_tag-Lacks : (tag name : Bytes) → Lacks slash name → Lacks slash (with_tag tag name)
with_tag-Lacks [] name h = h
with_tag-Lacks (c ∷ tag) name h =
    All-append _ (sanitize_tag (c ∷ tag)) (b'-' ∷ name) (tag_lacks (c ∷ tag)) (omega arith, h)

-- If the time's text and the configured file name have no slash, then no file name has one, whatever
-- the tag and the module are called: each file is one entry of the run's directory.
pub make_filename-Lacks :
    (settings : Settings) (pid : ℤ) (timestamp module_display : Bytes)
    → Lacks slash timestamp
    → Lacks slash settings.file_name
    → Lacks slash (make_filename settings pid timestamp module_display)
unfolding make_filename
make_filename-Lacks settings pid timestamp shown h k =
    let parts = base_name-Lacks pid timestamp settings.file_name h k in
    let stem = (base_name pid timestamp settings.file_name).0 in
    let ext = (base_name pid timestamp settings.file_name).1 in
    let own : Lacks slash (stem ++ b'-' ∷ sanitize shown) =
      All-append _ stem (b'-' ∷ sanitize shown) parts.0
        (omega arith, safe-Lacks (sanitize shown) (sanitize-AllSafe shown)) in
    with_tag-Lacks settings.run_tag _ (
      All-append _ (if settings.file_per_module then stem ++ b'-' ∷ sanitize shown else stem) ext
        (either settings.file_per_module (stem ++ b'-' ∷ sanitize shown) stem own parts.0) parts.1)
  where
    either :
        (b : Bool) (x y : Bytes) → Lacks slash x → Lacks slash y → Lacks slash (if b then x else y)
    either true x y p q = p
    either false x y p q = q
