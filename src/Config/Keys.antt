-- ===== src/Config/Keys.antt =====
-- The chain of tests of `apply_kv` of src/config.cpp: which text each scalar key is.
use simple_logger.Base.{
  ℕ, ◌<◌, ◌≡◌, refl, ap, ◌∙◌, arith, Bytes, codes, beq, beq_iff, ◌==◌, if◌then◌else◌, Bool-cases,
  inl, inr, Option-cases,
}
use simple_logger.Config.{Key, key_of, after_prefix, module_prefix}

-- The scalar keys are 1 to 17.
abbrev pub tag : Key → ℕ
tag (Key.module_level m) = 0
tag Key.disable = 1
tag Key.verbosity = 2
tag Key.dir = 3
tag Key.tag = 4
tag Key.file = 5
tag Key.file_per_module = 6
tag Key.file_name = 7
tag Key.stdout = 8
tag Key.stdout_only = 9
tag Key.stdout_modules = 10
tag Key.format = 11
tag Key.time = 12
tag Key.elapsed = 13
tag Key.color = 14
tag Key.flush = 15
tag Key.retain_runs = 16
tag Key.retain_days = 17
tag Key.unknown = 18

abbrev pub name_at : ℕ → Bytes
name_at n =
    if n == 1
    then codes "disable"
    else if n == 2
    then codes "verbosity"
    else if n == 3
    then codes "dir"
    else if n == 4
    then codes "tag"
    else if n == 5
    then codes "file"
    else if n == 6
    then codes "file.per_module"
    else if n == 7
    then codes "file.name"
    else if n == 8
    then codes "stdout"
    else if n == 9
    then codes "stdout.only"
    else if n == 10
    then codes "stdout.modules"
    else if n == 11
    then codes "format"
    else if n == 12
    then codes "time"
    else if n == 13
    then codes "elapsed"
    else if n == 14
    then codes "color"
    else if n == 15
    then codes "flush"
    else if n == 16
    then codes "retain.runs"
    else codes "retain.days"

abbrev pub name : Key → Bytes
name k = name_at (tag k)

abbrev pub IsScalar : ℕ → Type 0
IsScalar n = (0 < n) × (n < 18)

-- If `k` is a scalar key, it is the key of the text `key`.
record Named (key : Bytes) (k : Key) : Type 0 where
  same : IsScalar (tag k) → key ≡ name k

Named-if :
    (key : Bytes) (k rest : Key) → Named key rest → Named key (if beq key (name k) then k else rest)
Named-if key k rest n = elim (Bool-cases (beq key (name k))) [
  | inl e ↦ rw e (record { same = λ _. (beq_iff key (name k)).0 e })
  | inr e ↦ rw e n
]

key_of-Named : (key : Bytes) → Named key (key_of key)
unfolding key_of
key_of-Named key = elim (Option-cases (after_prefix module_prefix key)) [
  | inl e ↦
      rw (e, key_of)
        (Named-if key Key.disable _ (
          Named-if key Key.verbosity _ (
            Named-if key Key.dir _ (
              Named-if key Key.tag _ (
                Named-if key Key.file _ (
                  Named-if key Key.file_per_module _ (
                    Named-if key Key.file_name _ (
                      Named-if key Key.stdout _ (
                        Named-if key Key.stdout_only _ (
                          Named-if key Key.stdout_modules _ (
                            Named-if key Key.format _ (
                              Named-if key Key.time _ (
                                Named-if key Key.elapsed _ (
                                  Named-if key Key.color _ (
                                    Named-if key Key.flush _ (
                                      Named-if key Key.retain_runs _ (
                                        Named-if key Key.retain_days _ (record {
                                          same = λ h. absurd (omega arith);
                                        }))))))))))))))))))
  | inr (m, e) ↦ rw (e, key_of) (record { same = λ h. absurd (omega arith) })
]

key_of-name : (k : Key) → IsScalar (tag k) → key_of (name k) ≡ k
unfolding key_of beq
key_of-name (Key.module_level m) h = absurd (omega arith)
key_of-name Key.unknown h = absurd (omega arith)
key_of-name _ h = refl

-- A text is a scalar key's exactly when it is spelled as that key.
pub tag-key_of :
    (key : Bytes) (k : Key) → IsScalar (tag k) → (tag (key_of key) == tag k) ≡ beq key (name k)
tag-key_of key k h = elim (Bool-cases (beq key (name k))) [
  | inl e ↦
      let found : key_of key ≡ k = ap key_of ((beq_iff key (name k)).0 e) ∙ key_of-name k h in
      rw (e, found) (ground arith)
  | inr e ↦ elim (Bool-cases (tag (key_of key) == tag k)) [
    | inl t ↦
        let same : tag (key_of key) ≡ tag k = ground arith in
        let spelled : key ≡ name k = (key_of-Named key).same (rw same h) ∙ ap name_at same in
        absurd (cc (e, (beq_iff key (name k)).1 spelled))
    | inr f ↦ rw (e, f)
  ]
]
