-- ===== src/Routing/Paths.antt =====
-- packages/schema/src/routing.ts: `normalizeRoutePath`, over the characters of the path.
pub mod NormalForm
use Prim.Native.Char.{Char, code}
use Prim.Native.String
use grid_story.Prelude.{String, Bool, true, false, ◌&&◌, ◌||◌, nat_beq, if◌then◌else◌}

abbrev pub is_slash : Char → Bool
is_slash c = nat_beq (code c) b'/'

abbrev pub ends_path : Char → Bool
ends_path c = nat_beq (code c) b'?' || nat_beq (code c) b'#'

-- `input.split(/[?#]/, 1)[0]`.
unfoldable pub before_query : String → String
before_query String.[] = String.[]
before_query (String.◌∷◌ c s) = if ends_path c then String.[] else String.◌∷◌ c (before_query s)

abbrev pub begins_with_slash : String → Bool
begins_with_slash String.[] = false
begins_with_slash (String.◌∷◌ c s) = is_slash c

-- `path.replace(/\/{2,}/g, '/')`: a slash before another one goes.
unfoldable pub collapse : String → String
collapse String.[] = String.[]
collapse (String.◌∷◌ c s) =
    if is_slash c && begins_with_slash s then collapse s else String.◌∷◌ c (collapse s)

-- `path.replace(/\/$/, '')`.
unfoldable pub strip_slash : String → String
strip_slash String.[] = String.[]
strip_slash (String.◌∷◌ c String.[]) = if is_slash c then String.[] else String.◌∷◌ c String.[]
strip_slash (String.◌∷◌ c (String.◌∷◌ d s)) = String.◌∷◌ c (strip_slash (String.◌∷◌ d s))

-- The last step, which leaves a path of one character alone.
unfoldable pub strip_route : String → String
strip_route String.[] = String.[]
strip_route (String.◌∷◌ c String.[]) = String.◌∷◌ c String.[]
strip_route (String.◌∷◌ c (String.◌∷◌ d s)) = strip_slash (String.◌∷◌ c (String.◌∷◌ d s))

abbrev pub slash : Char
slash = "/"

unfoldable pub normalize_route_path : String → String
normalize_route_path input = strip_route (collapse (String.◌∷◌ slash (before_query input)))
