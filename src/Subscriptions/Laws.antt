-- ===== src/Subscriptions/Laws.antt =====
-- Laws of the maps of subscriptions.
use kcpq.Subscriptions.{SessionId, SubMap, lookup, sessions_at, insert, delete, contains, total}
use kcpq.Prelude.{
  ◌+◌, ◌≡◌, inl, inr, refl, sym, subst, ◌∙◌, ◌||◌, none, some, List, [], ◌∷◌, ◌++◌, Bytes, beq,
  beq_iff, if◌then◌else◌, length, arith, Bool-cases,
}

pub beq_sym : (s t : Bytes) → beq s t ≡ beq t s
beq_sym s t = elim (Bool-cases (beq s t)) [
  | inl e ↦ e ∙ sym ((beq_iff t s).1 (sym ((beq_iff s t).0 e)))
  | inr e ↦ elim (Bool-cases (beq t s)) [
    | inl e' ↦ absurd (cc (sym e ∙ (beq_iff s t).1 (sym ((beq_iff t s).0 e'))))
    | inr e' ↦ e ∙ sym e'
  ]
]

pub lookup-insert :
    (k j : Bytes) (v : List SessionId) (m : SubMap)
    → lookup j (insert k v m) ≡ (if beq k j then some v else lookup j m)
unfolding lookup insert
lookup-insert k j v [] = refl
lookup-insert k j v ((i, w) ∷ m) =
    ground (arith, beq_iff k j, beq_iff i k, beq_iff i j, lookup-insert k j v m)

pub lookup-delete :
    (k j : Bytes) (m : SubMap) → lookup j (delete k m) ≡ (if beq k j then none else lookup j m)
unfolding lookup delete
lookup-delete k j [] = ground arith
lookup-delete k j ((i, w) ∷ m) =
    ground (arith, beq_iff k j, beq_iff i k, beq_iff i j, lookup-delete k j m)

pub sessions_at-insert :
    (k j : Bytes) (v : List SessionId) (m : SubMap)
    → sessions_at j (insert k v m) ≡ (if beq k j then v else sessions_at j m)
unfolding sessions_at
sessions_at-insert k j v m = ground (arith, lookup-insert k j v m)

pub sessions_at-delete :
    (k j : Bytes) (m : SubMap)
    → sessions_at j (delete k m) ≡ (if beq k j then [] else sessions_at j m)
unfolding sessions_at
sessions_at-delete k j m = ground (arith, lookup-delete k j m)

pub eq-nil : (ss : List SessionId) → length ss ≡ 0 → ss ≡ []
eq-nil [] e = refl
eq-nil (x ∷ ss) e = absurd (omega arith)

pub lookup→sessions_at :
    (k : Bytes) (m : SubMap) (v : List SessionId) → lookup k m ≡ some v → sessions_at k m ≡ v
unfolding sessions_at
lookup→sessions_at k m v e = ground arith

pub sessions_at-none : (k : Bytes) (m : SubMap) → lookup k m ≡ none → sessions_at k m ≡ []
unfolding sessions_at
sessions_at-none k m e = ground arith

pub contains-append :
    (s : SessionId) (xs ys : List SessionId)
    → contains s (xs ++ ys) ≡ (contains s xs || contains s ys)
unfolding contains
contains-append s [] ys = refl
contains-append s (x ∷ xs) ys = ground (arith, contains-append s xs ys)

-- Keys are distinct, as in every Go map.
abbrev pub DistinctKeys : SubMap → Type 0
DistinctKeys [] = Unit
DistinctKeys ((k, v) ∷ m) = (lookup k m ≡ none) × DistinctKeys m

pub insert-DistinctKeys :
    (k : Bytes) (v : List SessionId) (m : SubMap) → DistinctKeys m → DistinctKeys (insert k v m)
unfolding insert lookup
insert-DistinctKeys k v [] h = (refl, tt)
insert-DistinctKeys k v ((j, w) ∷ m) (fresh, h) = elim (Bool-cases (beq j k)) [
  | inl e ↦ rw e (subst (λ i. lookup i m ≡ none) ((beq_iff j k).0 e) fresh, h)
  | inr e ↦ rw e (ground (arith, lookup-insert k j v m, beq_sym k j), insert-DistinctKeys k v m h)
]

pub delete-DistinctKeys : (k : Bytes) (m : SubMap) → DistinctKeys m → DistinctKeys (delete k m)
unfolding delete lookup
delete-DistinctKeys k [] h = tt
delete-DistinctKeys k ((j, w) ∷ m) (fresh, h) = elim (Bool-cases (beq j k)) [
  | inl e ↦ rw e (delete-DistinctKeys k m h)
  | inr e ↦ rw e (ground (arith, lookup-delete k j m), delete-DistinctKeys k m h)
]

-- What `total` counts changes by what the entry changes.
pub total-insert :
    (k : Bytes) (v : List SessionId) (m : SubMap)
    → total (insert k v m) + length (sessions_at k m) ≡ total m + length v
unfolding insert lookup total sessions_at
total-insert k v [] = omega arith
total-insert k v ((j, w) ∷ m) = ground (arith, total-insert k v m)

pub total-delete :
    (k : Bytes) (m : SubMap)
    → DistinctKeys m
    → total (delete k m) + length (sessions_at k m) ≡ total m
unfolding delete lookup total sessions_at
total-delete k [] h = omega arith
total-delete k ((j, w) ∷ m) (fresh, h) = elim (Bool-cases (beq j k)) [
  | inl e ↦
      ground (arith, total-delete k m h, subst (λ i. lookup i m ≡ none) ((beq_iff j k).0 e) fresh)
  | inr e ↦ ground (arith, total-delete k m h)
]
