-- ===== src/Config/Layers.antt =====
-- The layers of src/logger.cpp: file, environment and calls, merged by `reload_locked`.
use simple_logger.Base.{◌≡◌, refl, ap, ◌∙◌, Option, none, some, [], ◌∷◌, Bytes, beq_iff, arith}
use simple_logger.Base.Dict.{lookup, insert, lookup-insert, lookup-Above, IsSorted, insert-IsSorted}
use simple_logger.Level.{Registry}
use simple_logger.Errors.{ErrorState}
use simple_logger.Config.{Kv, default_settings, apply_kv}
use simple_logger.Config.Apply.{resolve, apply_kv-resolve}

-- `for (const auto& kv : layer) merged[kv.first] = kv.second;`
unfoldable pub overlay : Kv → Kv → Kv
overlay [] merged = merged
overlay ((k, v) ∷ layer) merged = overlay layer (insert k v merged)

-- `merged` of `reload_locked`
unfoldable pub merge : Kv → Kv → Kv → Kv
unfolding overlay
merge file env api = overlay api (overlay env file)

-- The first text, or the second if there is none.
abbrev pub or_else : Option Bytes → Option Bytes → Option Bytes
or_else none o = o
or_else (some v) o = some v

pub overlay-IsSorted : (layer merged : Kv) → IsSorted merged → IsSorted (overlay layer merged)
unfolding overlay
overlay-IsSorted [] merged h = h
overlay-IsSorted ((k, v) ∷ layer) merged h =
    overlay-IsSorted layer (insert k v merged) (insert-IsSorted k v merged h)

pub lookup-overlay :
    (j : Bytes) (layer merged : Kv)
    → IsSorted layer
    → lookup j (overlay layer merged) ≡ or_else (lookup j layer) (lookup j merged)
unfolding overlay lookup
lookup-overlay j [] merged h = refl
lookup-overlay j ((k, v) ∷ layer) merged h = ground (
  arith,
  lookup-overlay j layer (insert k v merged) h.1,
  lookup-insert k j v merged,
  lookup-Above k layer h.0,
  beq_iff k j,
)

-- For sorted layers, a key's text in the merged map is that of the calls, or else that of the
-- environment, or else that of the file.
pub lookup-merge :
    (j : Bytes) (file env api : Kv)
    → IsSorted env
    → IsSorted api
    → lookup j (merge file env api)
      ≡ or_else (lookup j api) (or_else (lookup j env) (lookup j file))
unfolding merge
lookup-merge j file env api he ha =
    lookup-overlay j api (overlay env file) ha
    ∙ ap (or_else (lookup j api)) (lookup-overlay j env file he)

-- For sorted layers, the settings of the merged map are, but for the modules' levels, those that
-- `resolve` reads off the layers: each setting by its own key, from the calls, or else from the
-- environment, or else from the file.
pub apply_kv-merge :
    (r : Registry) (file env api : Kv) (e : ErrorState)
    → IsSorted file
    → IsSorted env
    → IsSorted api
    → record (apply_kv r (merge file env api) default_settings e).0 { module_level = [] }
      ≡ resolve r (λ k. or_else (lookup k api) (or_else (lookup k env) (lookup k file)))
apply_kv-merge r file env api e hf he ha =
    apply_kv-resolve r (merge file env api) e
      (unfold merge in overlay-IsSorted api (overlay env file) (overlay-IsSorted env file hf))
    ∙ ap (resolve r) (λ i k. lookup-merge k file env api he ha i)
