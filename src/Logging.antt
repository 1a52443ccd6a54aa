-- ===== src/Logging.antt =====
-- internal/logging/logging.go: the level and the attributes of a logger, and the correlation ID of a
-- context. What slog prints is left out.
use distributed_service_mesh.Base.Dict.{get, Dict}
use distributed_service_mesh.Base.Text.{text_eq_instance, text_eq, codes, Text}
use distributed_service_mesh.Base.{refl, ◌++◌, some, ◌∷◌, none, not, List, if◌then◌else◌, [], ◌≡◌}

pub data Level : Type 0 where
  debug : Level
  info : Level
  warn : Level
  error : Level

-- A slog.Logger: the level of its handler, and what `With` has added.
pub record Logger : Type 0 where
  pub level : Level
  pub attrs : List (Text × Text)

unfoldable pub level_of : Text → Level
level_of level =
    if text_eq level (codes "debug")
    then debug
    else if text_eq level (codes "warn")
    then warn
    else if text_eq level (codes "error")
    then error
    else info

-- `New`
unfoldable pub new_logger : Text → Logger
unfolding level_of
new_logger level = record { level = level_of level; attrs = [] }

-- The values of a context.Context by their keys, the innermost first.
abbrev pub Context : Type 0
Context = Dict Text Text

abbrev pub background : Context
background = []

abbrev pub correlation_id_key : Text
correlation_id_key = codes "correlation_id"

unfoldable pub with_correlation_id : Context → Text → Context
with_correlation_id ctx id = (correlation_id_key, id) ∷ ctx

unfoldable pub correlation_id : Context → Text
correlation_id ctx = elim (get correlation_id_key ctx) [ none ↦ [] | some id ↦ id ]

unfoldable pub from_context : Context → Logger → Logger
unfolding correlation_id
from_context ctx base =
    let id = correlation_id ctx in
    if not (text_eq id [])
    then record base { attrs = base.attrs ++ (correlation_id_key, id) ∷ [] }
    else base

correlation_id-with : (ctx : Context) (id : Text) → correlation_id (with_correlation_id ctx id) ≡ id
unfolding correlation_id with_correlation_id get text_eq
correlation_id-with ctx id = refl

pub from_context-with :
    (ctx : Context) (id : Text) (base : Logger)
    → from_context (with_correlation_id ctx id) base ≡ (
        if not (text_eq id [])
        then record base { attrs = base.attrs ++ (correlation_id_key, id) ∷ [] }
        else base)
unfolding from_context
from_context-with ctx id base = rw (correlation_id-with ctx id, from_context) refl

-- The name of a level in the configuration.
unfoldable pub level_name : Level → Text
level_name debug = codes "debug"
level_name info = codes "info"
level_name warn = codes "warn"
level_name error = codes "error"
