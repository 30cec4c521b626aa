-- ===== src/Config/Env/Sorted.antt =====
-- The order of the map that `read_env` of src/config.cpp makes.
use simple_logger.Base.{Option, none, some, List, [], ◌∷◌, Bytes, Bool, true, false, codes}
use simple_logger.Base.Dict.{IsSorted, insert-IsSorted}
use simple_logger.Text.{cut_at, split}
use simple_logger.Config.{Kv}
use simple_logger.Config.File.{set_text}
use simple_logger.Config.Env.{
  read_token, read_tokens, read_verbosity, maps, assign_if, read_no_color, read_maps, read_env,
}

read_token-IsSorted :
    (tok : Bytes) (cut : Option (Bytes × Bytes)) (have : Bool) (kv : Kv)
    → IsSorted kv
    → IsSorted (read_token tok cut (have, kv)).1
read_token-IsSorted tok none true kv h = h
read_token-IsSorted tok none false kv h = insert-IsSorted _ tok kv h
read_token-IsSorted tok (some (l, r)) have kv h = insert-IsSorted _ _ kv h

read_tokens-IsSorted :
    (toks : List Bytes) (have : Bool) (kv : Kv)
    → IsSorted kv
    → IsSorted (read_tokens toks (have, kv))
unfolding read_tokens
read_tokens-IsSorted [] have kv h = h
read_tokens-IsSorted (tok ∷ toks) have kv h =
    let next = read_token tok (cut_at b'=' tok) (have, kv) in
    read_tokens-IsSorted toks next.0 next.1 (read_token-IsSorted tok (cut_at b'=' tok) have kv h)

read_verbosity-IsSorted : (o : Option Bytes) → IsSorted (read_verbosity o)
read_verbosity-IsSorted none = tt
read_verbosity-IsSorted (some v) = read_tokens-IsSorted (split v b',') false [] tt

read_no_color-IsSorted : (o : Option Bytes) (kv : Kv) → IsSorted kv → IsSorted (read_no_color o kv)
read_no_color-IsSorted none kv h = h
read_no_color-IsSorted (some v) kv h = insert-IsSorted _ _ kv h

assign_if-IsSorted :
    (key : Bytes) (o : Option Bytes) (kv : Kv) → IsSorted kv → IsSorted (assign_if key o kv)
assign_if-IsSorted key none kv h = h
assign_if-IsSorted key (some v) kv h = insert-IsSorted key v kv h

read_maps-IsSorted :
    (get : Bytes → Option Bytes) (ms : List (Bytes × Bytes)) (kv : Kv)
    → IsSorted kv
    → IsSorted (read_maps get ms kv)
unfolding read_maps
read_maps-IsSorted get [] kv h = h
read_maps-IsSorted get ((env, key) ∷ ms) kv h =
    read_maps-IsSorted get ms (assign_if key (get env) kv) (assign_if-IsSorted key (get env) kv h)

pub read_env-IsSorted : (getenv : Bytes → Option Bytes) → IsSorted (read_env getenv)
unfolding read_env
read_env-IsSorted getenv =
    let get : Bytes → Option Bytes = λ name. set_text (getenv name) in
    read_maps-IsSorted get maps _ (
      read_no_color-IsSorted (get (codes "NO_COLOR")) _
        (read_verbosity-IsSorted (get (codes "SLOG_VERBOSITY"))))
