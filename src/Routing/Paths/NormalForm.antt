-- ===== src/Routing/Paths/NormalForm.antt =====
-- The normal form of a route path.
use Prim.Native.Char.{Char}
use grid_story.Prelude.{
  String, ◌≡◌, refl, ap, ◌∙◌, subst, ◌↔◌, Bool, true, false, ◌&&◌, arith, Bool-cases, inl, inr,
}
use grid_story.Routing.Paths.{
  is_slash, ends_path, before_query, begins_with_slash, collapse, strip_slash, strip_route, slash,
  normalize_route_path,
}

-- No character ends the path, and no slash follows a slash.
abbrev pub IsClean : String → Type 0
IsClean String.[] = Unit
IsClean (String.◌∷◌ c s) =
    (ends_path c ≡ false) × ((is_slash c && begins_with_slash s) ≡ false) × IsClean s

-- The text does not end in a slash.
abbrev pub IsOpenEnded : String → Type 0
IsOpenEnded String.[] = Unit
IsOpenEnded (String.◌∷◌ c String.[]) = is_slash c ≡ false
IsOpenEnded (String.◌∷◌ c (String.◌∷◌ d s)) = IsOpenEnded (String.◌∷◌ d s)

-- A slash alone, or a slash and a clean text that does not end in one.
abbrev pub IsRoute : String → Type 0
IsRoute String.[] = ⊥
IsRoute (String.◌∷◌ c s) = (is_slash c ≡ true) × IsClean (String.◌∷◌ c s) × IsOpenEnded s

abbrev NoQuery : String → Type 0
NoQuery String.[] = Unit
NoQuery (String.◌∷◌ c s) = (ends_path c ≡ false) × NoQuery s

before_query-NoQuery : (s : String) → NoQuery (before_query s)
unfolding before_query
before_query-NoQuery String.[] = tt
before_query-NoQuery (String.◌∷◌ c s) = elim (Bool-cases (ends_path c)) [
  | inl e ↦ rw e tt
  | inr e ↦ rw e (e, before_query-NoQuery s)
]

begins-collapse : (s : String) → begins_with_slash (collapse s) ≡ begins_with_slash s
unfolding collapse
begins-collapse String.[] = refl
begins-collapse (String.◌∷◌ c s) = ground (arith, begins-collapse s)

collapse-IsClean : (s : String) → NoQuery s → IsClean (collapse s)
unfolding collapse
collapse-IsClean String.[] h = tt
collapse-IsClean (String.◌∷◌ c s) h = ground (arith, collapse-IsClean s h.1, begins-collapse s)

-- A single character is stripped to nothing or kept.
one_char :
    (P : String → Type 0) (c : Char)
    → (is_slash c ≡ true → P String.[])
    → (is_slash c ≡ false → P (String.◌∷◌ c String.[]))
    → P (strip_slash (String.◌∷◌ c String.[]))
unfolding strip_slash
one_char P c gone kept = elim (Bool-cases (is_slash c)) [
  | inl e ↦ rw e (gone e)
  | inr e ↦ rw e (kept e)
]

and_false : (b : Bool) → (b && false) ≡ false
and_false b = ground arith

strip-IsClean : (s : String) → IsClean s → IsClean (strip_slash s)
unfolding strip_slash
strip-IsClean String.[] h = tt
strip-IsClean (String.◌∷◌ c String.[]) h = one_char IsClean c (λ e. tt) (λ e. h)
strip-IsClean (String.◌∷◌ c (String.◌∷◌ d String.[])) h =
    one_char (λ t. IsClean (String.◌∷◌ c t)) d (λ e. (h.0, and_false (is_slash c), tt)) (λ e. h)
strip-IsClean (String.◌∷◌ c (String.◌∷◌ d (String.◌∷◌ e s))) h =
    (h.0, h.1, strip-IsClean (String.◌∷◌ d (String.◌∷◌ e s)) h.2)

-- A clean text has at most one slash at its end.
strip-IsOpenEnded : (s : String) → IsClean s → IsOpenEnded (strip_slash s)
unfolding strip_slash
strip-IsOpenEnded String.[] h = tt
strip-IsOpenEnded (String.◌∷◌ c String.[]) h = one_char IsOpenEnded c (λ e. tt) (λ e. e)
strip-IsOpenEnded (String.◌∷◌ c (String.◌∷◌ d String.[])) h =
    one_char (λ t. IsOpenEnded (String.◌∷◌ c t)) d (λ e. ground (arith, h.1)) (λ e. e)
strip-IsOpenEnded (String.◌∷◌ c (String.◌∷◌ d (String.◌∷◌ e s))) h =
    strip-IsOpenEnded (String.◌∷◌ d (String.◌∷◌ e s)) h.2

collapse_id : (s : String) → IsClean s → collapse s ≡ s
unfolding collapse
collapse_id String.[] h = refl
collapse_id (String.◌∷◌ c s) h = rw h.1 (ap (String.◌∷◌ c) (collapse_id s h.2))

before_query_id : (s : String) → IsClean s → before_query s ≡ s
unfolding before_query
before_query_id String.[] h = refl
before_query_id (String.◌∷◌ c s) h = rw h.0 (ap (String.◌∷◌ c) (before_query_id s h.2))

strip_id : (s : String) → IsOpenEnded s → strip_slash s ≡ s
unfolding strip_slash
strip_id String.[] h = refl
strip_id (String.◌∷◌ c String.[]) h = rw h refl
strip_id (String.◌∷◌ c (String.◌∷◌ d s)) h = ap (String.◌∷◌ c) (strip_id (String.◌∷◌ d s) h)

strip_route-IsRoute :
    (s : String) → IsClean s → begins_with_slash s ≡ true → IsRoute (strip_route s)
unfolding strip_route strip_slash
strip_route-IsRoute String.[] h b = cc
strip_route-IsRoute (String.◌∷◌ c String.[]) h b = (b, h, tt)
strip_route-IsRoute (String.◌∷◌ c (String.◌∷◌ d s)) h b =
    (b, strip-IsClean (String.◌∷◌ c (String.◌∷◌ d s)) h, strip-IsOpenEnded (String.◌∷◌ d s) h.2)

strip_route_id : (s : String) → IsRoute s → strip_route s ≡ s
unfolding strip_route strip_slash
strip_route_id String.[] h = absurd h
strip_route_id (String.◌∷◌ c String.[]) h = refl
strip_route_id (String.◌∷◌ c (String.◌∷◌ d s)) h = ap (String.◌∷◌ c) (strip_id (String.◌∷◌ d s) h.2)

collapse_first :
    (s : String) → begins_with_slash s ≡ true → collapse (String.◌∷◌ slash s) ≡ collapse s
unfolding collapse
collapse_first s h = rw h refl

collapse_route : (s : String) → IsRoute s → collapse (String.◌∷◌ slash s) ≡ s
collapse_route String.[] h = absurd h
collapse_route (String.◌∷◌ c s) h =
    collapse_first (String.◌∷◌ c s) h.0 ∙ collapse_id (String.◌∷◌ c s) h.1

pub normalize_route_path-IsRoute : (input : String) → IsRoute (normalize_route_path input)
unfolding normalize_route_path
normalize_route_path-IsRoute input =
    let path = String.◌∷◌ slash (before_query input) in
    strip_route-IsRoute (collapse path) (collapse-IsClean path (refl, before_query-NoQuery input))
      (begins-collapse path)

IsRoute-IsClean : (s : String) → IsRoute s → IsClean s
IsRoute-IsClean String.[] h = absurd h
IsRoute-IsClean (String.◌∷◌ c s) h = h.1

pub normalize_route : (path : String) → IsRoute path → normalize_route_path path ≡ path
unfolding normalize_route_path
normalize_route path h =
    ap (λ t. strip_route (collapse (String.◌∷◌ slash t)))
      (before_query_id path (IsRoute-IsClean path h))
    ∙ ap strip_route (collapse_route path h)
    ∙ strip_route_id path h

-- Every input is normalized to a route: a slash alone, or a text that begins with a slash, has
-- no `?` and no `#`, no two slashes in a row, and no slash at its end. The inputs that
-- normalization leaves alone are the routes.
pub routes_iff :
    (input : String)
    → IsRoute (normalize_route_path input) × (IsRoute input ↔ (normalize_route_path input ≡ input))
routes_iff input =
    let route = normalize_route_path-IsRoute input in
    (route, (normalize_route input, λ same. subst IsRoute same route))
