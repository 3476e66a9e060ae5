-- ===== src/EventLog/Keys.antt =====
-- Replacement by key in the event log of pkg/monetdroid/hub.go.
use monetdroid.Prelude.{
  ℕ, ◌+◌, ◌≤◌, ◌≡◌, ◌≢◌, refl, Bool, true, false, not, List, [], ◌∷◌, Text, is_empty, is_empty_iff,
  same, same_iff, same_refl, keep, any, count, count-append, Bool-cases, inl, inr, arith, ap, ◌∙◌,
  if◌then◌else◌,
}
use mathlib.Core.Path.{subst}
use monetdroid.EventLog.{SseEvent, EventLog, supersede, append, effective_key, has_key, has_parent}

count-keep-le {ℓ} : {A : Type ℓ} (p q : A → Bool) (xs : List A) → count p (keep q xs) ≤ count p xs
count-keep-le p q [] = omega arith
count-keep-le p q (x ∷ xs) = ground (arith, count-keep-le p q xs)

count-keep-not {ℓ} :
    {A : Type ℓ} (p : A → Bool) (xs : List A) → count p (keep (λ x. not (p x)) xs) ≡ 0
count-keep-not p [] = refl
count-keep-not p (x ∷ xs) = ground (arith, count-keep-not p xs)

count_of_not_any {ℓ} : {A : Type ℓ} (p : A → Bool) (xs : List A) → any p xs ≡ false → count p xs ≡ 0
count_of_not_any p [] h = refl
count_of_not_any p (x ∷ xs) h = ground (arith, count_of_not_any p xs)

count-supersede-le :
    (key : Text) (p : SseEvent → Bool) (es : List SseEvent)
    → count p (supersede key es) ≤ count p es
unfolding supersede
count-supersede-le key p es = elim (Bool-cases (any (has_key key) es)) [
  | inl old ↦ rw old (
      omega (
        arith,
        count-keep-le p (λ e. not (has_parent key e)) (keep (λ e. not (has_key key e)) es),
        count-keep-le p (λ e. not (has_key key e)) es,
      ))
  | inr new ↦ rw new (omega arith)
]

-- Nothing under the key is left.
count-supersede : (key : Text) (es : List SseEvent) → count (has_key key) (supersede key es) ≡ 0
unfolding supersede
count-supersede key es = elim (Bool-cases (any (has_key key) es)) [
  | inl old ↦ rw old (
      omega (
        arith,
        count-keep-le (has_key key) (λ e. not (has_parent key e))
            (keep (λ e. not (has_key key e)) es),
        count-keep-not (has_key key) es,
      ))
  | inr new ↦ rw new (count_of_not_any (has_key key) es new)
]

count-same-supersede :
    (name k : Text) (es : List SseEvent)
    → same name k ≡ true
    → count (has_key k) (supersede name es) ≡ 0
count-same-supersede name k es h =
    subst (λ key. count (has_key key) (supersede name es) ≡ 0) ((same_iff name k).0 h)
      (count-supersede name es)

-- No key but the empty one is shared by two events.
abbrev pub IsCompact : EventLog → Type 0
IsCompact l = (k : Text) → k ≢ [] → count (has_key k) l.events ≤ 1

pub append-IsCompact :
    (l : EventLog) (event key parent : Text) → IsCompact l → IsCompact (append l event key parent).0
unfolding append
append-IsCompact l event key parent c k h =
    let name = effective_key event key in
    let e : SseEvent = record {
      seq = (append l event key parent).1;
      event = event;
      compact_key = name;
      parent_key = parent;
    } in
    elim (Bool-cases (is_empty name)) [
      | inl plain ↦ rw plain (
          ground (
            arith,
            count-append (has_key k) l.events (e ∷ []),
            is_empty_iff name,
            same_iff name k,
            c k h,
          ))
      | inr keyed ↦ rw keyed (elim (Bool-cases (same name k)) [
        | inl hit ↦
            rw (count-append (has_key k) (supersede name l.events) (e ∷ []))
              (ground (arith, count-same-supersede name k l.events hit))
        | inr miss ↦
            rw (count-append (has_key k) (supersede name l.events) (e ∷ []))
              (ground (arith, count-supersede-le name (has_key k) l.events, c k h))
      ])
    ]

-- A key in use is taken over: nothing else under it is left, and nothing whose parent it was.
count_parent-supersede :
    (key : Text) (es : List SseEvent)
    → any (has_key key) es ≡ true
    → count (has_parent key) (supersede key es) ≡ 0
unfolding supersede
count_parent-supersede key es used =
    rw used (count-keep-not (has_parent key) (keep (λ e. not (has_key key e)) es))

-- The events that pass the test are neither under the key nor below it.
abbrev pub IsApart : Text → (SseEvent → Bool) → Type 0
IsApart key p = (e : SseEvent) → p e ≡ true → (has_key key e ≡ false) × (has_parent key e ≡ false)

count-keep_all {ℓ} :
    {A : Type ℓ} (p q : A → Bool) (xs : List A)
    → ((x : A) → p x ≡ true → q x ≡ true)
    → count p (keep q xs) ≡ count p xs
count-keep_all p q [] h = refl
count-keep_all p q (x ∷ xs) h = ground (arith, count-keep_all p q xs h, h x)

count_apart-supersede :
    (key : Text) (p : SseEvent → Bool) (es : List SseEvent)
    → IsApart key p
    → count p (supersede key es) ≡ count p es
unfolding supersede
count_apart-supersede key p es h = elim (Bool-cases (any (has_key key) es)) [
  | inl old ↦ rw old (
      count-keep_all p (λ e. not (has_parent key e)) (keep (λ e. not (has_key key e)) es)
        (λ e t. ap not (h e t).1)
      ∙ count-keep_all p (λ e. not (has_key key e)) es (λ e t. ap not (h e t).0))
  | inr new ↦ rw new refl
]

-- The event that `append` stores.
abbrev pub stored : EventLog → Text → Text → Text → SseEvent
stored l event key parent = record {
  seq = (append l event key parent).1;
  event = event;
  compact_key = effective_key event key;
  parent_key = parent;
}

abbrev pub one_if : Bool → ℕ
one_if b = if b then 1 else 0

-- If the key of an append is in use, then after it exactly the new event is under the key, no other
-- event has the key as its parent, and of any events that are neither under the key nor below it
-- as many are left as before, the new one counted.
pub append_replaces :
    (l : EventLog) (event key parent : Text) (p : SseEvent → Bool)
    → effective_key event key ≢ []
    → any (has_key (effective_key event key)) l.events ≡ true
    → IsApart (effective_key event key) p
    → (count (has_key (effective_key event key)) (append l event key parent).0.events ≡ 1)
      × (count (has_parent (effective_key event key)) (append l event key parent).0.events
          ≡ one_if (same parent (effective_key event key)))
      × (count p (append l event key parent).0.events
          ≡ count p l.events + one_if (p (stored l event key parent)))
unfolding append
append_replaces l event key parent p h used apart =
    let name = effective_key event key in
    let e = stored l event key parent in
    let keyed : is_empty name ≡ false = ground (arith, is_empty_iff name) in
    rw keyed (
      rw (count-append (has_key name) (supersede name l.events) (e ∷ []))
          (ground (arith, count-supersede name l.events, same_refl name)),
      rw (count-append (has_parent name) (supersede name l.events) (e ∷ []))
          (ground (arith, count_parent-supersede name l.events used)),
      rw (count-append p (supersede name l.events) (e ∷ []))
          (ground (arith, count_apart-supersede name p l.events apart)),
    )
