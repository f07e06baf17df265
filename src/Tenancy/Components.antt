-- ===== src/Tenancy/Components.antt =====
-- The parts of a cache tag: an encoded identifier has no colon, and different ones stay different.
use Prim.Native.Char.{Char, code}
use text.Mathlib.TextLemmas.{
  append_assoc, append-nil, append_cancel_left, nil-append, cons-append, head-eq_of_cons-eq,
  tail-eq_of_cons-eq, nil≢cons,
}
use text.Mathlib.TextEquality.{Char-path}
use grid_story.Prelude.{
  String, Bool, true, false, not, string_eq, ◌≡◌, inl, inr, refl, sym, ap, ◌∙◌, subst, arith,
  Bool-cases, nat_beq, if◌then◌else◌,
}
use grid_story.Canonical.{◌<>◌}
use grid_story.Tenancy.{
  is_unreserved, hex_digits, percent, percent_bytes, encode_uri_component, replace_colons,
  cache_component,
}
use grid_story.Tenancy.Keys.{AllAre, is_part}

abbrev is_colon : Char → Bool
is_colon c = nat_beq (code c) b':'

abbrev pub keeps : Char → Bool
keeps c = not (is_colon c)

AllAre-append :
    (part : Char → Bool) (s t : String) → AllAre part s → AllAre part t → AllAre part (s <> t)
AllAre-append part String.[] t a b = subst (AllAre part) (sym (nil-append t)) b
AllAre-append part (String.◌∷◌ c s) t a b =
    subst (AllAre part) (sym (cons-append c s t)) (a.0, AllAre-append part s t a.1 b)

replaced : Char → String
replaced c = if is_colon c then "%3A" else String.◌∷◌ c String.[]

replaced-AllAre : (c : Char) → AllAre keeps (replaced c)
unfolding replaced
replaced-AllAre c = elim (Bool-cases (is_colon c)) [
  | inl e ↦ rw e (refl, (refl, (refl, tt)))
  | inr e ↦ rw e (ap not e, tt)
]

replace_colons-AllAre : (s : String) → AllAre keeps (replace_colons s)
unfolding replace_colons replaced
replace_colons-AllAre String.[] = tt
replace_colons-AllAre (String.◌∷◌ c s) =
    AllAre-append keeps (replaced c) (replace_colons s) (replaced-AllAre c)
      (replace_colons-AllAre s)

replace_colons-append :
    (s t : String) → replace_colons (s <> t) ≡ replace_colons s <> replace_colons t
unfolding replace_colons replaced
replace_colons-append String.[] t =
    ap replace_colons (nil-append t) ∙ sym (nil-append (replace_colons t))
replace_colons-append (String.◌∷◌ c s) t =
    ap replace_colons (cons-append c s t)
    ∙ ap (λ r. replaced c <> r) (replace_colons-append s t)
    ∙ sym (append_assoc (replaced c) (replace_colons s) (replace_colons t))

colon_bytes : (c : Char) → is_colon c ≡ true → percent_bytes (code c) ≡ "%3A"
unfolding percent_bytes percent hex_digits
colon_bytes c h = let e : code c ≡ b':' = ground (arith, h) in ap percent_bytes e

-- What the encoding of one identifier character is replaced by.
encoded_part :
    (c : Char)
    → is_part c ≡ true
    → replace_colons
        (if is_unreserved (code c) then String.◌∷◌ c String.[] else percent_bytes (code c))
      ≡ replaced c
unfolding replaced replace_colons
encoded_part c h = elim (Bool-cases (is_colon c)) [
  | inl e ↦
      let reserved : is_unreserved (code c) ≡ false = ground (arith, e) in
      rw (reserved, colon_bytes c e, e) refl
  | inr e ↦
      let free : is_unreserved (code c) ≡ true = ground (arith, h, e) in rw (free, e) (append-nil _)
]

cache_component-cons :
    (c : Char) (s : String)
    → is_part c ≡ true
    → cache_component (String.◌∷◌ c s) ≡ replaced c <> cache_component s
unfolding cache_component encode_uri_component
cache_component-cons c s h =
    replace_colons-append
      (if is_unreserved (code c) then String.◌∷◌ c String.[] else percent_bytes (code c))
      (encode_uri_component s)
    ∙ ap (λ r. r <> replace_colons (encode_uri_component s)) (encoded_part c h)

head_of : Char → Char
head_of c = if is_colon c then "%" else c

more_of : Char → String
more_of c = if is_colon c then "3A" else ""

replaced-head : (c : Char) → replaced c ≡ String.◌∷◌ (head_of c) (more_of c)
unfolding replaced head_of more_of
replaced-head c = elim (Bool-cases (is_colon c)) [ inl e ↦ rw e refl | inr e ↦ rw e refl ]

head_of_unique : (c d : Char) → is_part c ≡ true → is_part d ≡ true → head_of c ≡ head_of d → c ≡ d
unfolding head_of
head_of_unique c d h k e = elim (Bool-cases (is_colon c)) [
  | inl p ↦ elim (Bool-cases (is_colon d)) [
    | inl q ↦ Char-path c d (ground (arith, p, q))
    | inr q ↦ let f : "%" ≡ d = rw (p, q) at e in absurd (let g = ap is_part f ∙ k in cc)
  ]
  | inr p ↦ elim (Bool-cases (is_colon d)) [
    | inl q ↦ let f : c ≡ "%" = rw (p, q) at e in absurd (let g = ap is_part (sym f) ∙ h in cc)
    | inr q ↦ rw (p, q) at e
  ]
]

component_head :
    (c : Char) (s : String)
    → is_part c ≡ true
    → cache_component (String.◌∷◌ c s) ≡ String.◌∷◌ (head_of c) (more_of c <> cache_component s)
component_head c s h =
    cache_component-cons c s h
    ∙ ap (λ r. r <> cache_component s) (replaced-head c)
    ∙ cons-append (head_of c) (more_of c) (cache_component s)

nothing : "" ≡ cache_component ""
unfolding cache_component replace_colons encode_uri_component
nothing = refl

pub cache_component_unique :
    (s t : String)
    → AllAre is_part s
    → AllAre is_part t
    → cache_component s ≡ cache_component t
    → s ≡ t
cache_component_unique String.[] String.[] a b h = refl
cache_component_unique String.[] (String.◌∷◌ d t) a b h =
    absurd (nil≢cons (nothing ∙ h ∙ component_head d t b.0))
cache_component_unique (String.◌∷◌ c s) String.[] a b h =
    absurd (nil≢cons (nothing ∙ sym h ∙ component_head c s a.0))
cache_component_unique (String.◌∷◌ c s) (String.◌∷◌ d t) a b h =
    let whole = sym (component_head c s a.0) ∙ h ∙ component_head d t b.0 in
    let e = head_of_unique c d a.0 b.0 (head-eq_of_cons-eq whole) in
    let left = tail-eq_of_cons-eq whole in
    let rest =
      append_cancel_left (more_of c) _ _
        (left ∙ ap (λ x. more_of x <> cache_component t) (sym e)) in
    ap (λ x. String.◌∷◌ x s) e ∙ ap (String.◌∷◌ d) (cache_component_unique s t a.1 b.1 rest)

pub cache_component-AllAre : (s : String) → AllAre keeps (cache_component s)
unfolding cache_component
cache_component-AllAre s = replace_colons-AllAre (encode_uri_component s)
