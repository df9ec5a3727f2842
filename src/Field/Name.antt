-- ===== src/Field/Name.antt =====
-- ext/endpoint_security/field.c, referenced_schema_name: which part of a type it writes, and that it
-- fits.
use mathlib.Core.List.{append_assoc}
use mathlib.Core.Path.{ap₂}
use endpoint_security.Base.{
  ℕ, ◌+◌, ◌-◌, ◌<◌, ◌≤◌, Bool, ◌≡◌, ◌⊎◌, inl, inr, refl, ap, sym, subst, subst⁻¹, ◌∙◌, true, false,
  ◌||◌, Option, none, some, [], ◌∷◌, ◌++◌, leb, ==→eq, Bool-cases, arith,
}
use endpoint_security.Base.Lists.{length, take, length-append, take-append}
use endpoint_security.Field.{CString}
use endpoint_security.Field.Text.{
  text, starts_with, find_part, name_between, referenced_schema_name,
}

starts_with_rest :
    (s prefix : CString) → starts_with s prefix ≡ true → (rest : CString) × (s ≡ prefix ++ rest)
unfolding starts_with
starts_with_rest s [] h = (s, refl)
starts_with_rest [] (p ∷ prefix) h = ground arith
starts_with_rest (c ∷ s) (p ∷ prefix) h =
    let (rest, e) = starts_with_rest s prefix (ground arith) in
    (rest, ap₂ ◌∷◌ (==→eq c p (ground arith)) e)

starts_with-append :
    (s rest prefix : CString) → starts_with s prefix ≡ true → starts_with (s ++ rest) prefix ≡ true
unfolding starts_with
starts_with-append s rest [] h = refl
starts_with-append [] rest (p ∷ prefix) h = ground arith
starts_with-append (c ∷ s) rest (p ∷ prefix) h = ground (arith, starts_with-append s rest prefix)

starts_with_cut :
    (s rest prefix : CString)
    → starts_with (s ++ rest) prefix ≡ false
    → starts_with s prefix ≡ false
starts_with_cut s rest prefix f = elim (Bool-cases (starts_with s prefix)) [
  | inl t ↦ let t' = starts_with-append s rest prefix t in absurd (ground (arith, f, t'))
  | inr n ↦ n
]

-- The first place of `part`
pub record FoundAt (s part left : CString) : Type 0 where
  pub before : CString
  pub whole : s ≡ before ++ left
  pub begins : starts_with left part ≡ true
  pub first : find_part before part ≡ none

find_part-FoundAt :
    (s : CString) (p : ℕ) (part : CString) (left : CString)
    → find_part s (p ∷ part) ≡ some left
    → FoundAt s (p ∷ part) left
unfolding find_part starts_with
find_part-FoundAt [] p part left h = ground arith
find_part-FoundAt (c ∷ s) p part left h = elim (Bool-cases (starts_with (c ∷ s) (p ∷ part))) [
  | inl t ↦
      let same : c ∷ s ≡ left = ground (arith, t) in
      record {
        before = [];
        whole = same;
        begins = subst (λ x. starts_with x (p ∷ part) ≡ true) same t;
        first = refl;
      }
  | inr f ↦
      let r = find_part-FoundAt s p part left (ground (arith, f)) in
      record {
        before = c ∷ r.before;
        whole = ap (λ x. c ∷ x) r.whole;
        begins = r.begins;
        first =
            let not_here =
              starts_with_cut (c ∷ r.before) left (p ∷ part)
                (ap (λ x. starts_with (c ∷ x) (p ∷ part)) (sym r.whole) ∙ f) in
            ground (arith, not_here, r.first);
      }
]

-- What stands between the two marks in a type
pub record IsReference (type name : CString) : Type 0 where
  pub prefixed : starts_with name (text "es_") ≡ true
  pub before : CString
  pub after : CString
  pub inside : type ≡ before ++ (name ++ after)
  pub first : find_part before (text "es_") ≡ none
  pub stem : CString
  pub ended : name ≡ stem ++ text "_t"
  pub shortest : find_part stem (text "_t") ≡ none

module _ (stem rest : CString) where
  abbrev whole_text : CString
  whole_text = stem ++ (text "_t" ++ rest)

  cut : take (length whole_text - length (text "_t" ++ rest) + 2) whole_text ≡ stem ++ text "_t"
  cut =
      let size : length whole_text - length (text "_t" ++ rest) + 2 ≡ length stem + 2 =
        omega (arith, length-append stem (text "_t" ++ rest)) in
      ap (λ n. take n whole_text) size ∙ take-append stem (text "_t" ++ rest) 2

-- A text that starts with "es_" has no "_t" before its third byte, so what is cut starts with it too.
cut_prefixed :
    (stem rest : CString)
    → starts_with (stem ++ (text "_t" ++ rest)) (text "es_") ≡ true
    → starts_with (stem ++ text "_t") (text "es_") ≡ true
unfolding starts_with
cut_prefixed [] rest h = ground arith
cut_prefixed (a ∷ []) rest h = ground arith
cut_prefixed (a ∷ b ∷ []) rest h = ground arith
cut_prefixed (a ∷ b ∷ c ∷ stem) rest h = ground arith

module _ (type : CString) (start end : CString) (a : FoundAt type (text "es_") start)
    (b : FoundAt start (text "_t") end) where
  abbrev size : ℕ
  size = length start - length end + 2

  name_eq : take size start ≡ b.before ++ text "_t"
  name_eq =
      let (rest, e) = starts_with_rest end (text "_t") b.begins in
      let whole : start ≡ b.before ++ (text "_t" ++ rest) = b.whole ∙ ap (λ x. b.before ++ x) e in
      ap₂ (λ x y. take (length x - length y + 2) x) whole e ∙ cut b.before rest

  size_eq : length (take size start) ≡ size
  size_eq =
      let (rest, e) = starts_with_rest end (text "_t") b.begins in
      let whole : start ≡ b.before ++ (text "_t" ++ rest) = b.whole ∙ ap (λ x. b.before ++ x) e in
      omega (
        arith,
        ap length name_eq,
        ap length whole,
        ap length e,
        length-append b.before (text "_t"),
        length-append b.before (text "_t" ++ rest),
      )

  reference : IsReference type (take size start)
  reference =
      let (rest, e) = starts_with_rest end (text "_t") b.begins in
      let whole : start ≡ b.before ++ (text "_t" ++ rest) = b.whole ∙ ap (λ x. b.before ++ x) e in
      record {
        prefixed =
            subst⁻¹ (λ x. starts_with x (text "es_") ≡ true) name_eq
              (cut_prefixed b.before rest
                (subst (λ x. starts_with x (text "es_") ≡ true) whole a.begins));
        before = a.before;
        after = rest;
        inside =
            a.whole
            ∙ ap (λ x. a.before ++ x)
                (whole
                  ∙ sym (append_assoc b.before (text "_t") rest)
                  ∙ ap (λ x. x ++ rest) (sym name_eq));
        first = a.first;
        stem = b.before;
        ended = name_eq;
        shortest = b.first;
      }

-- A type with no "es_", or with no "_t" behind the first
abbrev pub HasNoReference : CString → Type 0
HasNoReference type =
    (find_part type (text "es_") ≡ none)
    ⊎ (start : CString) × FoundAt type (text "es_") start × (find_part start (text "_t") ≡ none)

-- What the buffer holds for a type whose name is not left out at once
abbrev pub Marked : CString → ℕ → CString → Type 0
Marked type capacity name =
    (HasNoReference type × (name ≡ []))
    ⊎ (part : CString) × IsReference type part
      × (((length part < capacity) × (name ≡ part)) ⊎ ((capacity ≤ length part) × (name ≡ [])))

abbrev pub is_aggregate : CString → Bool
is_aggregate type = starts_with type (text "union ") || starts_with type (text "struct ")

abbrev pub NamesSchema : CString → ℕ → CString → Type 0
NamesSchema type capacity name =
    ((is_aggregate type ≡ true) × (name ≡ []))
    ⊎ (is_aggregate type ≡ false) × Marked type capacity name

name_between-Marked :
    (type : CString) (capacity : ℕ) (start : CString)
    → find_part type (text "es_") ≡ some start
    → (r : Option CString) → find_part start (text "_t") ≡ r
    → Marked type capacity (name_between (some start) capacity)
unfolding name_between
name_between-Marked type capacity start a none e =
    subst⁻¹ (Marked type capacity) (rw (name_between, e))
      (inl (inr (start, find_part-FoundAt type 101 (115 ∷ 95 ∷ []) start a, e), refl))
name_between-Marked type capacity start a (some end') e =
    let at_start = find_part-FoundAt type 101 (115 ∷ 95 ∷ []) start a in
    let at_end = find_part-FoundAt start 95 (116 ∷ []) end' e in
    let is_part = reference type start end' at_start at_end in
    let long = size_eq type start end' at_start at_end in
    elim (Bool-cases (leb capacity (length start - length end' + 2))) [
      | inl t ↦
          subst⁻¹ (Marked type capacity) (rw (name_between, e, t))
            (inr (_, is_part, inr (ground (arith, long), refl)))
      | inr f ↦
          subst⁻¹ (Marked type capacity) (rw (name_between, e, f))
            (inr (_, is_part, inl (ground (arith, long), refl)))
    ]

find_part-Marked :
    (type : CString) (capacity : ℕ) (r : Option CString)
    → find_part type (text "es_") ≡ r
    → Marked type capacity (name_between r capacity)
unfolding name_between
find_part-Marked type capacity none e = inl (inl e, refl)
find_part-Marked type capacity (some start) e =
    name_between-Marked type capacity start e (find_part start (text "_t")) refl

-- referenced_schema_name writes nothing for a type that starts with "union " or "struct ", and
-- nothing for one that has no "es_", or no "_t" behind the first. Else it takes the part of the
-- type from the first "es_" to the first "_t" behind that, the "_t" included: before that part the
-- type has no "es_", and the part has no "_t" before its end. It writes the part if it fits, with
-- its 0, in the buffer's `capacity`, and nothing if it does not.
pub referenced_schema_name-NamesSchema :
    (type : CString) (capacity : ℕ)
    → NamesSchema type capacity (referenced_schema_name type capacity)
unfolding referenced_schema_name
referenced_schema_name-NamesSchema type capacity = elim (Bool-cases (is_aggregate type)) [
  | inl t ↦ subst⁻¹ (NamesSchema type capacity) (rw (referenced_schema_name, t)) (inl (t, refl))
  | inr f ↦
      subst⁻¹ (NamesSchema type capacity) (rw (referenced_schema_name, f))
        (inr (f, find_part-Marked type capacity (find_part type (text "es_")) refl))
]
