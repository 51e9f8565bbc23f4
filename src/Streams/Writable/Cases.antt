-- ===== src/Streams/Writable/Cases.antt =====
-- Properties of a match, from those of its cases, which may use what the value is.
use starlingmonkey_ng.Prelude.{◌≡◌, refl, List, [], ◌∷◌}
use starlingmonkey_ng.Streams.QueueWithSizes.{
  Value, ValueWithSize, chunk, close_sentinel, Throws, ok, err,
}
use starlingmonkey_ng.Streams.Writable.{WritableStreamState, writable, closed, erroring, errored}

-- A property of both cases holds of a match on a list; the cases may use what the list is.
pub list_cases_eq :
    {A B : Type 0} (P : B → Type 0) (xs : List A) {x : B} {f : A → List A → B}
    → (xs ≡ [] → P x)
    → ((y : A) (ys : List A) → xs ≡ y ∷ ys → P (f y ys))
    → P (elim xs [ [] ↦ x | y ∷ ys ↦ f y ys ])
list_cases_eq P [] p g = p refl
list_cases_eq P (y ∷ ys) p g = g y ys refl

-- A property of each kind of queue holds of a match on one.
pub queue_cases_eq :
    {F B : Type 0} (P : B → Type 0) (xs : List (ValueWithSize F)) {x y : B}
    → (xs ≡ [] → P x)
    → ((v : Value) (n : F) (vs : List (ValueWithSize F)) → xs ≡ chunk v n ∷ vs → P y)
    → {z : B} → ((vs : List (ValueWithSize F)) → xs ≡ close_sentinel ∷ vs → P z)
    → P (elim xs [ [] ↦ x | chunk v n ∷ vs ↦ y | close_sentinel ∷ vs ↦ z ])
queue_cases_eq P [] p c s = p refl
queue_cases_eq P (chunk v n ∷ vs) p c s = c v n vs refl
queue_cases_eq P (close_sentinel ∷ vs) p c s = s vs refl

-- The same, of a match on the state.
pub state_cases_eq :
    {B : Type 0} (P : B → Type 0) (st : WritableStreamState) {a b c d : B}
    → (st ≡ closed → P a)
    → (st ≡ errored → P b)
    → (st ≡ erroring → P c)
    → (st ≡ writable → P d)
    → P (elim st [ closed ↦ a | errored ↦ b | erroring ↦ c | writable ↦ d ])
state_cases_eq P closed a b c d = a refl
state_cases_eq P errored a b c d = b refl
state_cases_eq P erroring a b c d = c refl
state_cases_eq P writable a b c d = d refl

pub throws_cases_eq :
    {A B : Type 0} (P : B → Type 0) (r : Throws A) {f : A → B} {g : Value → B}
    → ((a : A) → r ≡ ok a → P (f a))
    → ((e : Value) → r ≡ err e → P (g e))
    → P (elim r [ ok a ↦ f a | err e ↦ g e ])
throws_cases_eq P (ok a) f g = f a refl
throws_cases_eq P (err e) f g = g e refl
