-- ===== src/Web/Params.antt =====
-- The list of name-value pairs of url_search_params.rs in crates/builtins/web-url/src, and what the
-- methods of URLSearchParams read from it and make of it.
pub mod Multimap
pub mod Order
pub mod Sort
use starlingmonkey_ng.Prelude.{
  ℕ, zero, suc, ◌+◌, ◌%◌, ◌^◌, Bool, true, false, not, ◌&&◌, ◌||◌, Option, none, some, List, [],
  ◌∷◌, ◌++◌, map, ltb, if◌then◌else◌, length,
}
use starlingmonkey_ng.Web.Text.{Text, text_eq, utf8, utf16}
use Prim.Native.Nat.{compare, Ordering}

abbrev pub Pair : Type 0
Pair = Text × Text

abbrev pub Pairs : Type 0
Pairs = List Pair

-- `Vec::retain`
unfoldable pub retain : (Pair → Bool) → Pairs → Pairs
retain keep [] = []
retain keep (p ∷ ps) = if keep p then p ∷ retain keep ps else retain keep ps

-- `iter().find(..)`
unfoldable pub find : (Pair → Bool) → Pairs → Option Pair
find test [] = none
find test (p ∷ ps) = if test p then some p else find test ps

-- `iter().any(..)`
unfoldable pub any : (Pair → Bool) → Pairs → Bool
any test [] = false
any test (p ∷ ps) = if test p then true else any test ps

-- `iter().position(..)`
unfoldable pub position : (Pair → Bool) → Pairs → Option ℕ
position test [] = none
position test (p ∷ ps) =
    if test p then some 0 else elim (position test ps) [ none ↦ none | some i ↦ some (suc i) ]

-- `len() as u32`
unfoldable pub size : Pairs → ℕ
size list = length list % 2 ^ 32

unfoldable pub append : Text → Text → Pairs → Pairs
append name value list = list ++ (name, value) ∷ []

unfoldable pub delete : Text → Option Text → Pairs → Pairs
unfolding retain
delete name (some value) list = retain (λ p. not (text_eq p.0 name) || not (text_eq p.1 value)) list
delete name none list = retain (λ p. not (text_eq p.0 name)) list

unfoldable pub get : Text → Pairs → Option Text
unfolding find
get name list = elim (find (λ p. text_eq p.0 name) list) [ none ↦ none | some p ↦ some p.1 ]

unfoldable pub get_all : Text → Pairs → List Text
unfolding retain
get_all name list = map (λ (p : Pair). p.1) (retain (λ p. text_eq p.0 name) list)

unfoldable pub has : Text → Option Text → Pairs → Bool
unfolding any
has name (some value) list = any (λ p. text_eq p.0 name && text_eq p.1 value) list
has name none list = any (λ p. text_eq p.0 name) list

-- `list[i].1 = value`, within bounds.
unfoldable pub set_value : ℕ → Text → Pairs → Pairs
set_value i value [] = []
set_value zero value (p ∷ ps) = (p.0, value) ∷ ps
set_value (suc i) value (p ∷ ps) = p ∷ set_value i value ps

-- The `retain` of `set`, with its `seen_first`.
unfoldable pub retain_first : Text → Bool → Pairs → Pairs
retain_first name seen_first [] = []
retain_first name seen_first (p ∷ ps) =
    if not (text_eq p.0 name)
    then p ∷ retain_first name seen_first ps
    else if not seen_first
    then p ∷ retain_first name true ps
    else retain_first name seen_first ps

unfoldable pub set : Text → Text → Pairs → Pairs
unfolding position set_value retain_first append
set name value list = elim (position (λ p. text_eq p.0 name) list) [
  | some first_index ↦ retain_first name false (set_value first_index value list)
  | none ↦ append name value list
]

-- `cmp` on sequences of numbers.
unfoldable pub lexicographic : List ℕ → List ℕ → Ordering
lexicographic [] [] = Ordering.eq
lexicographic [] (y ∷ ys) = Ordering.lt
lexicographic (x ∷ xs) [] = Ordering.gt
lexicographic (x ∷ xs) (y ∷ ys) = elim (compare x y) [
  | Ordering.lt ↦ Ordering.lt
  | Ordering.eq ↦ lexicographic xs ys
  | Ordering.gt ↦ Ordering.gt
]

unfoldable pub is_ascii : Text → Bool
is_ascii [] = true
is_ascii (c ∷ s) = ltb c 0x80 && is_ascii s

-- The comparison that `sort` passes to `sort_by`; strings compare by their bytes.
unfoldable pub compare_names : Text → Text → Ordering
unfolding is_ascii lexicographic utf8 utf16
compare_names a_name b_name =
    if is_ascii a_name
    then lexicographic (utf8 a_name) (utf8 b_name)
    else lexicographic (utf16 a_name) (utf16 b_name)

-- `slice::sort_by` is stable: a pair comes before the later ones that compare equal to it.
unfoldable pub insert_sorted : Pair → Pairs → Pairs
unfolding compare_names
insert_sorted p [] = p ∷ []
insert_sorted p (q ∷ qs) = elim (compare_names p.0 q.0) [
  | Ordering.gt ↦ q ∷ insert_sorted p qs
  | Ordering.lt ↦ p ∷ q ∷ qs
  | Ordering.eq ↦ p ∷ q ∷ qs
]

unfoldable pub sort : Pairs → Pairs
unfolding insert_sorted
sort [] = []
sort (p ∷ ps) = insert_sorted p (sort ps)
