-- ===== src/Logger/Reload/Cache.antt =====
-- The cache of parsed formats in `reload_locked` of src/logger.cpp.
use simple_logger.Base.{
  ℕ, suc, ◌≡◌, ◌≢◌, ◌<◌, ◌≤◌, ◌^◌, refl, sym, ap, subst, ◌∙◌, Bool, true, false, Option, none, some,
  [], ◌∷◌, ◌++◌, Bytes, arith, Lacks, All, beq, beq_iff, beq_refl, less, Bool-cases, inl, inr,
}
use simple_logger.Base.Dict
use simple_logger.Base.Dict.{Dict, lookup, lookup-insert}
use simple_logger.Base.Int.{ℤ, pos, negsuc, pos_part, neg_part}
use simple_logger.Text.Decimal.{print_nat, to_string, strtol}
use simple_logger.Text.Decimal.RoundTrip.{strtol-to_string, IsDigit, print_nat-IsDigit}
use simple_logger.Format.{FormatSpec, parse_format}
use simple_logger.Logger.{Logger}
use simple_logger.Logger.Reload.{digit_of, spec_key, publish, publish_spec}

-- A 64-bit number of nanoseconds.
abbrev pub IsLong : ℤ → Type 0
IsLong z = (pos_part z < 2 ^ 63) × (neg_part z ≤ 2 ^ 63)

pub to_string_inj : (a b : ℤ) → IsLong a → IsLong b → to_string a ≡ to_string b → a ≡ b
to_string_inj a b h k e = cc (ap strtol e, strtol-to_string a h.0 h.1, strtol-to_string b k.0 k.1)

mark_inside : (s t : Bytes) → Lacks 1 (s ++ 1 ∷ t) → ⊥
mark_inside [] t h = h.0 refl
mark_inside (c ∷ s) t h = mark_inside s t h.1

digits_lack : (s : Bytes) → All IsDigit s → Lacks 1 s
digits_lack [] h = tt
digits_lack (c ∷ s) h = (ground arith, digits_lack s h.1)

to_string_lacks : (z : ℤ) → Lacks 1 (to_string z)
unfolding to_string
to_string_lacks (pos n) = digits_lack (print_nat n) (print_nat-IsDigit n)
to_string_lacks (negsuc n) =
    (omega arith, digits_lack (print_nat (suc n)) (print_nat-IsDigit (suc n)))

-- The marks around the two digits are the last ones of a key.
late_mark :
    (x y : ℕ) (ds f : Bytes) (t : Bytes)
    → x ≢ 1
    → y ≢ 1
    → Lacks 1 ds
    → 1 ∷ x ∷ y ∷ 1 ∷ ds ≡ f ++ 1 ∷ t
    → f ≢ []
    → (a b : ℕ) (ds' : Bytes) → t ≡ a ∷ b ∷ 1 ∷ ds'
    → ⊥
late_mark x y ds [] t hx hy l e n a b ds' h = n refl
late_mark x y ds (c ∷ []) t hx hy l e n a b ds' h = hx (cc e)
late_mark x y ds (c ∷ d ∷ []) t hx hy l e n a b ds' h = hy (cc e)
late_mark x y ds (c ∷ d ∷ g ∷ []) t hx hy l e n a b ds' h =
    let inside : ds ≡ (a ∷ b ∷ []) ++ 1 ∷ ds' = cc (e, h) in
    mark_inside (a ∷ b ∷ []) ds' (subst (Lacks 1) inside l)
late_mark x y ds (c ∷ d ∷ g ∷ k ∷ f) t hx hy l e n a b ds' h =
    let inside : ds ≡ f ++ 1 ∷ t = cc e in mark_inside f t (subst (Lacks 1) inside l)

key_split :
    (f f' : Bytes) (x y x' y' : ℕ) (ds ds' : Bytes)
    → x ≢ 1
    → y ≢ 1
    → x' ≢ 1
    → y' ≢ 1
    → Lacks 1 ds
    → Lacks 1 ds'
    → f ++ 1 ∷ x ∷ y ∷ 1 ∷ ds ≡ f' ++ 1 ∷ x' ∷ y' ∷ 1 ∷ ds'
    → (f ≡ f') × (x ≡ x') × (y ≡ y') × (ds ≡ ds')
key_split [] [] x y x' y' ds ds' hx hy hx' hy' l l' e = (refl, cc e, cc e, cc e)
key_split [] (c ∷ f') x y x' y' ds ds' hx hy hx' hy' l l' e =
    absurd (late_mark x y ds (c ∷ f') (x' ∷ y' ∷ 1 ∷ ds') hx hy l e (λ z. cc) x' y' ds' refl)
key_split (c ∷ f) [] x y x' y' ds ds' hx hy hx' hy' l l' e =
    absurd (late_mark x' y' ds' (c ∷ f) (x ∷ y ∷ 1 ∷ ds) hx' hy' l' (sym e) (λ z. cc) x y ds refl)
key_split (c ∷ f) (c' ∷ f') x y x' y' ds ds' hx hy hx' hy' l l' e =
    let rest = key_split f f' x y x' y' ds ds' hx hy hx' hy' l l' (cc e) in
    let same : c ∷ f ≡ c' ∷ f' = cc (e, rest.0) in (same, rest.1, rest.2, rest.3)

digit_of-ne : (b : Bool) → digit_of b ≢ 1
digit_of-ne true e = absurd (omega arith)
digit_of-ne false e = absurd (omega arith)

digit_of_inj : (a b : Bool) → digit_of a ≡ digit_of b → a ≡ b
digit_of_inj true true e = refl
digit_of_inj true false e = absurd (omega arith)
digit_of_inj false true e = absurd (omega arith)
digit_of_inj false false e = refl

pub spec_key_inj :
    (f f' : Bytes) (t t' e e' : Bool) (a b : ℤ)
    → IsLong a
    → IsLong b
    → spec_key f t e a ≡ spec_key f' t' e' b
    → (f ≡ f') × (t ≡ t') × (e ≡ e') × (a ≡ b)
spec_key_inj f f' t t' e e' a b h k same =
    let (p, q, r, z) =
      key_split f f' (digit_of t) (digit_of e) (digit_of t') (digit_of e') (to_string a)
        (to_string b) (digit_of-ne t) (digit_of-ne e) (digit_of-ne t') (digit_of-ne e')
        (to_string_lacks a) (to_string_lacks b) same in
    (p, digit_of_inj t t' q, digit_of_inj e e' r, to_string_inj a b h k z)

-- Each cached spec is the parsed format of its key.
pub record IsParsed (key : Bytes) (spec : FormatSpec) : Type 0 where
  pub format : Bytes
  pub time : Bool
  pub elapsed : Bool
  pub start : ℤ
  pub long : IsLong start
  pub named : key ≡ spec_key format time elapsed start
  pub parsed : spec ≡ parse_format format time elapsed start

abbrev pub IsCached : Dict FormatSpec → Type 0
IsCached = All (λ (entry : Bytes × FormatSpec). IsParsed entry.0 entry.1)

lookup-IsParsed :
    (key : Bytes) (cache : Dict FormatSpec) (spec : FormatSpec)
    → IsCached cache
    → lookup key cache ≡ some spec
    → IsParsed key spec
unfolding lookup
lookup-IsParsed key [] spec h e = cc
lookup-IsParsed key ((k, v) ∷ cache) spec h e = elim (Bool-cases (beq k key)) [
  | inl same ↦ let found : v ≡ spec = ground arith in rw (← found, ← (beq_iff k key).0 same) h.0
  | inr other ↦ lookup-IsParsed key cache spec h.1 (ground arith)
]

insert-IsCached :
    (key : Bytes) (spec : FormatSpec) (cache : Dict FormatSpec)
    → IsParsed key spec
    → IsCached cache
    → IsCached (Dict.insert key spec cache)
unfolding Dict.insert
insert-IsCached key spec [] p h = (p, tt)
insert-IsCached key spec ((k, v) ∷ cache) p h =
    let behind = insert-IsCached key spec cache p h.1 in
    elim (Bool-cases (beq k key)) [
      | inl same ↦ let here : IsParsed k spec = rw ((beq_iff k key).0 same) p in rw same (here, h.1)
      | inr other ↦ elim (Bool-cases (less key k)) [
        | inl before ↦ rw (other, before) (p, h)
        | inr after ↦ rw (other, after) (h.0, behind)
      ]
    ]

abbrev wanted_key : Logger → Bytes
wanted_key lg =
    spec_key lg.settings.format lg.settings.enable_time lg.settings.enable_elapsed lg.start_epoch_ns

abbrev pub wanted : Logger → FormatSpec
wanted lg =
    parse_format lg.settings.format lg.settings.enable_time lg.settings.enable_elapsed
      lg.start_epoch_ns

found_is_wanted :
    (lg : Logger) (spec : FormatSpec)
    → IsLong lg.start_epoch_ns
    → IsParsed (wanted_key lg) spec
    → spec ≡ wanted lg
found_is_wanted lg spec long p =
    let s = lg.settings in
    let (f, t, e, z) =
      spec_key_inj s.format p.format s.enable_time p.time s.enable_elapsed p.elapsed
        lg.start_epoch_ns p.start long p.long p.named in
    p.parsed ∙ rw (f, t, e, z) refl

publish_right :
    (lg : Logger) (o : Option FormatSpec)
    → IsLong lg.start_epoch_ns
    → IsCached lg.spec_cache
    → lookup (wanted_key lg) lg.spec_cache ≡ o
    → let lg' = publish (wanted_key lg) (wanted lg) o lg in
      (lg'.fmt_ptr ≡ some (wanted lg)) × IsCached lg'.spec_cache
publish_right lg (some spec) long cached e = (
  ap some
      (found_is_wanted lg spec long (lookup-IsParsed (wanted_key lg) lg.spec_cache spec cached e)),
  cached,
)
publish_right lg none long cached e =
    let s = lg.settings in
    (
      refl,
      insert-IsCached (wanted_key lg) (wanted lg) lg.spec_cache
          (record {
            format = s.format;
            time = s.enable_time;
            elapsed = s.enable_elapsed;
            start = lg.start_epoch_ns;
            long = long;
            named = refl;
            parsed = refl;
          })
          cached,
    )

-- With a cache of parsed formats and a start time of 64 bits: the published spec is the parsed format
-- of the settings, whether it was cached or not, and the cache still holds parsed formats.
pub publish_spec-wanted :
    (lg : Logger)
    → IsLong lg.start_epoch_ns
    → IsCached lg.spec_cache
    → ((publish_spec lg).fmt_ptr ≡ some (wanted lg)) × IsCached (publish_spec lg).spec_cache
unfolding publish_spec
publish_spec-wanted lg long cached =
    publish_right lg (lookup (wanted_key lg) lg.spec_cache) long cached refl

publish_again :
    (lg : Logger) (o : Option FormatSpec)
    → lookup (wanted_key lg) lg.spec_cache ≡ o
    → let lg' = publish (wanted_key lg) (wanted lg) o lg in
      publish (wanted_key lg) (wanted lg) (lookup (wanted_key lg) lg'.spec_cache) lg' ≡ lg'
publish_again lg (some spec) e = rw e refl
publish_again lg none e =
    rw
      (
        lookup-insert (wanted_key lg) (wanted_key lg) (wanted lg) lg.spec_cache,
        beq_refl (wanted_key lg),
      )
      refl

-- Publishing again without a change of the format's inputs changes nothing: no spec is added.
pub publish_spec_idem : (lg : Logger) → publish_spec (publish_spec lg) ≡ publish_spec lg
unfolding publish_spec
publish_spec_idem lg = publish_again lg (lookup (wanted_key lg) lg.spec_cache) refl
