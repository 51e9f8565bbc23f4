-- ===== src/Web/Params/Sort.antt =====
-- `sort` of url_search_params.rs.
use starlingmonkey_ng.Prelude.{
  ◌≡◌, ◌≢◌, refl, sym, subst, ◌∙◌, [], ◌∷◌, All, arith, ◌⊎◌, inl, inr, length, suc,
}
use starlingmonkey_ng.Web.Text.{Text, text_eq_iff}
use starlingmonkey_ng.Web.Params.{Pair, Pairs, retain, get_all, compare_names, insert_sorted, sort}
use starlingmonkey_ng.Web.Params.Order.{
  ◌≼◌, compare_names_refl, compare_names_flip, compare_names_trans,
}
use Prim.Native.Nat.{Ordering}

Ordering-cases : (o : Ordering) → (o ≡ Ordering.gt) ⊎ (o ≢ Ordering.gt)
Ordering-cases Ordering.gt = inl refl
Ordering-cases Ordering.lt = inr (λ h. cc)
Ordering-cases Ordering.eq = inr (λ h. cc)

abbrev NoLess : Text → Pair → Type 0
NoLess name p = name ≼ p.0

-- The name of each pair is at most the names of all later ones.
abbrev pub IsSorted : Pairs → Type 0
IsSorted [] = Unit
IsSorted (p ∷ ps) = All (λ (q : Pair). p.0 ≼ q.0) ps × IsSorted ps

insert_sorted-after :
    (p q : Pair) (qs : Pairs)
    → compare_names p.0 q.0 ≡ Ordering.gt
    → insert_sorted p (q ∷ qs) ≡ q ∷ insert_sorted p qs
unfolding insert_sorted
insert_sorted-after p q qs h = ground arith

insert_sorted-before : (p q : Pair) (qs : Pairs) → p.0 ≼ q.0 → insert_sorted p (q ∷ qs) ≡ p ∷ q ∷ qs
unfolding insert_sorted
insert_sorted-before p q qs h = ground arith

All-insert_sorted :
    (name : Text) (p : Pair) (ps : Pairs)
    → name ≼ p.0
    → All (NoLess name) ps
    → All (NoLess name) (insert_sorted p ps)
unfolding insert_sorted
All-insert_sorted name p [] h _ = (h, tt)
All-insert_sorted name p (q ∷ qs) h (hq, hs) = elim (Ordering-cases (compare_names p.0 q.0)) [
  | inl after ↦
      subst (All (NoLess name)) (sym (insert_sorted-after p q qs after))
        (hq, All-insert_sorted name p qs h hs)
  | inr before ↦ subst (All (NoLess name)) (sym (insert_sorted-before p q qs before)) (h, (hq, hs))
]

All-trans : (a b : Text) (ps : Pairs) → a ≼ b → All (NoLess b) ps → All (NoLess a) ps
All-trans a b [] h _ = tt
All-trans a b (p ∷ ps) h (hp, hs) = (compare_names_trans a b p.0 h hp, All-trans a b ps h hs)

insert_sorted-IsSorted : (p : Pair) (ps : Pairs) → IsSorted ps → IsSorted (insert_sorted p ps)
unfolding insert_sorted
insert_sorted-IsSorted p [] _ = (tt, tt)
insert_sorted-IsSorted p (q ∷ qs) (hq, hs) = elim (Ordering-cases (compare_names p.0 q.0)) [
  | inl after ↦ subst IsSorted (sym (insert_sorted-after p q qs after)) (
    All-insert_sorted q.0 p qs (compare_names_flip p.0 q.0 after) hq,
    insert_sorted-IsSorted p qs hs,
  )
  | inr before ↦
      subst IsSorted (sym (insert_sorted-before p q qs before))
        ((before, All-trans p.0 q.0 qs before hq), (hq, hs))
]

sort-IsSorted : (ps : Pairs) → IsSorted (sort ps)
unfolding sort
sort-IsSorted [] = tt
sort-IsSorted (p ∷ ps) = insert_sorted-IsSorted p (sort ps) (sort-IsSorted ps)

same_name : (a b : Text) → compare_names a b ≡ Ordering.gt → a ≢ b
same_name a b h e = cc (compare_names_refl a, h)

get_all-insert_sorted :
    (name : Text) (p : Pair) (ps : Pairs)
    → get_all name (insert_sorted p ps) ≡ get_all name (p ∷ ps)
unfolding get_all retain
get_all-insert_sorted name p [] = unfold insert_sorted in refl
get_all-insert_sorted name p (q ∷ qs) = elim (Ordering-cases (compare_names p.0 q.0)) [
  | inl after ↦ rw (insert_sorted-after p q qs after) (
      ground (
        arith,
        get_all-insert_sorted name p qs,
        same_name p.0 q.0 after,
        text_eq_iff p.0 name,
        text_eq_iff q.0 name,
      ))
  | inr before ↦ rw (insert_sorted-before p q qs before)
]

get_all-cons :
    (name : Text) (p : Pair) (ps qs : Pairs)
    → get_all name ps ≡ get_all name qs
    → get_all name (p ∷ ps) ≡ get_all name (p ∷ qs)
unfolding get_all retain
get_all-cons name p ps qs h = ground arith

get_all-sort : (name : Text) (ps : Pairs) → get_all name (sort ps) ≡ get_all name ps
unfolding sort
get_all-sort name [] = refl
get_all-sort name (p ∷ ps) =
    get_all-insert_sorted name p (sort ps) ∙ get_all-cons name p (sort ps) ps (get_all-sort name ps)

length-insert_sorted : (p : Pair) (ps : Pairs) → length (insert_sorted p ps) ≡ suc (length ps)
unfolding insert_sorted
length-insert_sorted p [] = refl
length-insert_sorted p (q ∷ qs) = ground (arith, length-insert_sorted p qs)

length-sort : (ps : Pairs) → length (sort ps) ≡ length ps
unfolding sort
length-sort [] = refl
length-sort (p ∷ ps) = ground (arith, length-insert_sorted p (sort ps), length-sort ps)

-- After `sort` the name of each pair is at most the names of all later pairs, the list is as long as
-- before, and every name has the same values in the same order.
pub sort-IsSorted_stable :
    (ps : Pairs)
    → IsSorted (sort ps)
      × (length (sort ps) ≡ length ps)
      × ((name : Text) → get_all name (sort ps) ≡ get_all name ps)
sort-IsSorted_stable ps = (sort-IsSorted ps, length-sort ps, λ name. get_all-sort name ps)
