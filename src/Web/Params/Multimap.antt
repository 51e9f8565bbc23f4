-- ===== src/Web/Params/Multimap.antt =====
-- The methods of url_search_params.rs against a multimap from names to the lists of their values.
use starlingmonkey_ng.Prelude.{
  ◌≡◌, refl, Bool, true, false, Option, none, some, List, [], ◌∷◌, ◌++◌, if◌then◌else◌, is_some,
  arith,
}
use starlingmonkey_ng.Web.Text.{Text, text_eq, text_eq_iff}
use starlingmonkey_ng.Web.Params.{
  Pair, Pairs, retain, find, any, position, append, delete, get, get_all, has, set_value,
  retain_first, set,
}

abbrev pub Multimap : Type 0
Multimap = Text → List Text

-- What a list of pairs means.
abbrev pub values_of : Pairs → Multimap
values_of list name = get_all name list

abbrev pub contains : Text → List Text → Bool
contains value [] = false
contains value (v ∷ vs) = if text_eq v value then true else contains value vs

abbrev pub without : Text → List Text → List Text
without value [] = []
without value (v ∷ vs) = if text_eq v value then without value vs else v ∷ without value vs

abbrev pub first : List Text → Option Text
first [] = none
first (v ∷ vs) = some v

abbrev pub update_at : Text → (List Text → List Text) → Multimap → Multimap
update_at name f m other = if text_eq name other then f (m other) else m other

get_all-append :
    (name value other : Text) (list : Pairs)
    → get_all other (append name value list)
      ≡ (if text_eq name other then get_all other list ++ value ∷ [] else get_all other list)
unfolding get_all append retain
get_all-append name value other [] = ground arith
get_all-append name value other (p ∷ list) = ground (arith, get_all-append name value other list)

get_all-delete_name :
    (name other : Text) (list : Pairs)
    → get_all other (delete name none list)
      ≡ (if text_eq name other then [] else get_all other list)
unfolding get_all delete retain
get_all-delete_name name other [] = ground arith
get_all-delete_name name other (p ∷ list) = ground (
  arith,
  text_eq_iff p.0 name,
  text_eq_iff p.0 other,
  text_eq_iff name other,
  get_all-delete_name name other list,
)

get_all-delete_value :
    (name value other : Text) (list : Pairs)
    → get_all other (delete name (some value) list)
      ≡ (if text_eq name other then without value (get_all other list) else get_all other list)
unfolding get_all delete retain
get_all-delete_value name value other [] = ground arith
get_all-delete_value name value other (p ∷ list) = ground (
  arith,
  text_eq_iff p.0 name,
  text_eq_iff p.0 other,
  text_eq_iff name other,
  get_all-delete_value name value other list,
)

get-get_all : (name : Text) (list : Pairs) → get name list ≡ first (get_all name list)
unfolding get get_all find retain
get-get_all name [] = refl
get-get_all name (p ∷ list) = ground (arith, get-get_all name list)

has-get_all :
    (name : Text) (value : Text) (list : Pairs)
    → has name (some value) list ≡ contains value (get_all name list)
unfolding has get_all any retain
has-get_all name value [] = refl
has-get_all name value (p ∷ list) = ground (arith, has-get_all name value list)

has_name-get_all :
    (name : Text) (list : Pairs) → has name none list ≡ is_some (first (get_all name list))
unfolding has get_all any retain
has_name-get_all name [] = refl
has_name-get_all name (p ∷ list) = ground (arith, has_name-get_all name list)

-- One step of `set` along the list.
set-cons :
    (name value : Text) (p : Pair) (list : Pairs)
    → set name value (p ∷ list) ≡ (
        if text_eq p.0 name
        then (p.0, value) ∷ retain_first name true list
        else p ∷ set name value list)
unfolding set position set_value retain_first append
set-cons name value p list = ground arith

get_all-retain_first :
    (name other : Text) (list : Pairs)
    → get_all other (retain_first name true list)
      ≡ (if text_eq name other then [] else get_all other list)
unfolding get_all retain_first retain
get_all-retain_first name other [] = ground arith
get_all-retain_first name other (p ∷ list) = ground (
  arith,
  text_eq_iff p.0 name,
  text_eq_iff p.0 other,
  text_eq_iff name other,
  get_all-retain_first name other list,
)

get_all-set_nil :
    (name value other : Text)
    → get_all other (set name value []) ≡ (if text_eq name other then value ∷ [] else [])
unfolding get_all set position append retain
get_all-set_nil name value other = ground arith

get_all-set :
    (name value other : Text) (list : Pairs)
    → get_all other (set name value list)
      ≡ (if text_eq name other then value ∷ [] else get_all other list)
unfolding get_all retain
get_all-set name value other [] = get_all-set_nil name value other
get_all-set name value other (p ∷ list) = ground (
  arith,
  set-cons name value p list,
  text_eq_iff p.0 name,
  text_eq_iff p.0 other,
  text_eq_iff name other,
  get_all-retain_first name other list,
  get_all-set name value other list,
)

-- The list of pairs is a multimap. `append` adds the value at the end of those of its name, `delete`
-- with no value removes all values of the name, `delete` with a value removes exactly the values
-- equal to it, and `set` leaves its value as the only one; each leaves the values of other names
-- alone. `get` is the first value of a name, if there is one, and `has` tells whether there is one,
-- or one that equals the given value.
pub params-Multimap :
    (name value other : Text) (list : Pairs)
    → (values_of (append name value list) other
        ≡ update_at name (λ vs. vs ++ value ∷ []) (values_of list) other)
      × (values_of (delete name none list) other ≡ update_at name (λ vs. []) (values_of list) other)
      × (values_of (delete name (some value) list) other
          ≡ update_at name (without value) (values_of list) other)
      × (values_of (set name value list) other
          ≡ update_at name (λ vs. value ∷ []) (values_of list) other)
      × (get name list ≡ first (values_of list name))
      × (has name (some value) list ≡ contains value (values_of list name))
      × (has name none list ≡ is_some (first (values_of list name)))
params-Multimap name value other list = (
  get_all-append name value other list,
  get_all-delete_name name other list,
  get_all-delete_value name value other list,
  get_all-set name value other list,
  get-get_all name list,
  has-get_all name value list,
  has_name-get_all name list,
)
