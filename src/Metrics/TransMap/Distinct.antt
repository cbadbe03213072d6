-- ===== src/Metrics/TransMap/Distinct.antt =====
-- A transaction map against the list of all distinct names of its cycle.
use appoptics_apm_go.Base.{
  ℕ, zero, suc, ◌≤◌, ◌<◌, ◌≡◌, refl, ap, sym, ◌∙◌, Bool, true, false, ltb, List, [], ◌∷◌, ◌++◌,
  length, length-append, length-take, take, arith, if◌then◌else◌, Bool-cases, inl, inr, ltb→lt,
}
use appoptics_apm_go.Base.Text.{Text, text_eq_iff}
use appoptics_apm_go.Base.Split.{named}
use appoptics_apm_go.Metrics.TransMap.{TransMap, reset_names, is_within_limit}

take-all : (c : ℕ) (d : List Text) → length d ≤ c → take c d ≡ d
take-all zero [] h = refl
take-all zero (x ∷ d) h = absurd (omega arith)
take-all (suc c) [] h = refl
take-all (suc c) (x ∷ d) h = ap (◌∷◌ x) (take-all c d (omega arith))

take-more : (c : ℕ) (d e : List Text) → c ≤ length d → take c (d ++ e) ≡ take c d
take-more zero d e h = refl
take-more (suc c) [] e h = absurd (omega arith)
take-more (suc c) (x ∷ d) e h = ap (◌∷◌ x) (take-more c d e (omega arith))

named-take :
    (name : Text) (c : ℕ) (d : List Text) → named name (take c d) ≡ true → named name d ≡ true
named-take name zero d h = absurd (ground arith)
named-take name (suc c) [] h = absurd (ground arith)
named-take name (suc c) (x ∷ d) h = ground (arith, named-take name c d)

named-last : (name : Text) (d : List Text) → named name (d ++ (name ∷ [])) ≡ true
named-last name [] = ground (arith, text_eq_iff name name)
named-last name (x ∷ d) = ground (arith, named-last name d)

-- The distinct names of the cycle, in the order in which they came.
unfoldable pub add_name : Text → List Text → List Text
add_name name d = if named name d then d else d ++ (name ∷ [])

unfoldable pub distinct : List Text → List Text → List Text
distinct [] d = d
distinct (name ∷ names) d = distinct names (add_name name d)

distinct_last :
    (names : List Text) (name : Text) (d : List Text)
    → distinct (names ++ (name ∷ [])) d ≡ add_name name (distinct names d)
unfolding distinct
distinct_last [] name d = refl
distinct_last (x ∷ names) name d = distinct_last names name (add_name x d)

-- The map after the names of a cycle.
unfoldable pub record_all : List Text → TransMap → TransMap
record_all [] t = t
record_all (name ∷ names) t = record_all names (is_within_limit name t).1

pub record Follows (c : ℕ) (d : List Text) (t : TransMap) : Type 0 where
  pub cap_is : t.curr_cap ≡ c
  pub names_are : t.transaction_names ≡ take c d
  pub overflow_is : t.overflow ≡ ltb c (length d)

module _ (c : ℕ) (d : List Text) (t : TransMap) (name : Text) (h : Follows c d t) where
  in_names : (b : Bool) → named name t.transaction_names ≡ b → named name (take c d) ≡ b
  in_names b e = ap (named name) (sym h.names_are) ∙ e

  -- Whether the map has room is whether fewer distinct names than the capacity have come.
  room_of : (b : Bool) → ltb (length t.transaction_names) t.curr_cap ≡ b → ltb (length d) c ≡ b
  room_of b e = ground (arith, length-take c d, ap length h.names_are, h.cap_is)

  admitted :
      named name t.transaction_names ≡ false
      → ltb (length t.transaction_names) t.curr_cap ≡ true
      → Follows c
          (d ++ (name ∷ []))
          (record t { transaction_names = t.transaction_names ++ (name ∷ []) })
        × (true ≡ named name (take c (d ++ (name ∷ []))))
  admitted new room = (
    record {
      cap_is = h.cap_is;
      names_are =
          ap (λ (ns : List Text). ns ++ (name ∷ []))
            (h.names_are ∙ take-all c d (omega (arith, few)))
          ∙ sym whole;
      overflow_is = ground (arith, few, h.overflow_is, length-append d (name ∷ []));
    },
    sym (ap (named name) whole ∙ named-last name d),
  )
    where
      few : length d < c
      few = ltb→lt (length d) c (room_of true room)

      whole : take c (d ++ (name ∷ [])) ≡ d ++ (name ∷ [])
      whole = take-all c (d ++ (name ∷ [])) (omega (arith, few, length-append d (name ∷ [])))

  refused_known :
      named name t.transaction_names ≡ false
      → ltb (length t.transaction_names) t.curr_cap ≡ false
      → named name d ≡ true
      → Follows c d (record t { overflow = true }) × (false ≡ named name (take c d))
  refused_known new full known = (
    record {
      cap_is = h.cap_is;
      names_are = h.names_are;
      overflow_is = elim (Bool-cases (ltb c (length d))) [
        | inl past ↦ sym past
        | inr whole ↦ absurd (
            ground (
              arith,
              known,
              in_names false new,
              ap (named name) (take-all c d (ground (arith, whole))),
            ))
      ];
    },
    sym (in_names false new),
  )

  refused_new :
      named name t.transaction_names ≡ false
      → ltb (length t.transaction_names) t.curr_cap ≡ false
      → Follows c (d ++ (name ∷ [])) (record t { overflow = true })
        × (false ≡ named name (take c (d ++ (name ∷ []))))
  refused_new new full = (
    record {
      cap_is = h.cap_is;
      names_are = h.names_are ∙ sym same;
      overflow_is = ground (arith, room_of false full, length-append d (name ∷ []));
    },
    sym (ap (named name) same ∙ in_names false new),
  )
    where
      same : take c (d ++ (name ∷ [])) ≡ take c d
      same = take-more c d (name ∷ []) (ground (arith, room_of false full))

step-Follows :
    (c : ℕ) (d : List Text) (t : TransMap) (name : Text)
    → Follows c d t
    → Follows c (add_name name d) (is_within_limit name t).1
      × ((is_within_limit name t).0 ≡ named name (take c (add_name name d)))
unfolding add_name is_within_limit
step-Follows c d t name h = elim (Bool-cases (named name t.transaction_names)) [
  | inl known ↦
      rw (known, named-take name c d (in_names c d t name h true known))
        (h, sym (in_names c d t name h true known))
  | inr new ↦ elim (Bool-cases (ltb (length t.transaction_names) t.curr_cap)) [
    | inl room ↦ rw (new, room, absent room new) (admitted c d t name h new room)
    | inr full ↦ elim (Bool-cases (named name d)) [
      | inl known ↦ rw (new, full, known) (refused_known c d t name h new full known)
      | inr fresh ↦ rw (new, full, fresh) (refused_new c d t name h new full)
    ]
  ]
]
  where
    absent :
        ltb (length t.transaction_names) t.curr_cap ≡ true
        → named name t.transaction_names ≡ false
        → named name d ≡ false
    absent room new =
        ap (named name) (sym (take-all c d (ground (arith, room_of c d t name h true room))))
        ∙ in_names c d t name h false new

run-Follows :
    (c : ℕ) (names d : List Text) (t : TransMap)
    → Follows c d t
    → Follows c (distinct names d) (record_all names t)
unfolding distinct record_all
run-Follows c [] d t h = h
run-Follows c (name ∷ names) d t h = run-Follows c names _ _ (step-Follows c d t name h).0

new-Follows : (t : TransMap) → Follows t.next_cap [] (reset_names t)
unfolding reset_names
new-Follows t = record {
  cap_is = refl;
  names_are = sym (take-all t.next_cap [] (omega arith));
  overflow_is = ground arith;
}

-- In a report cycle, whatever names came before, a name is within the limit just if it is among
-- the first distinct names of the cycle, as many as the capacity at the reset allows; and the map
-- overflows just if more distinct names came.
pub is_within_limit_lem :
    (t : TransMap) (names : List Text) (name : Text)
    → ((is_within_limit name (record_all names (reset_names t))).0
        ≡ named name (take t.next_cap (distinct (names ++ (name ∷ [])) [])))
      × ((record_all names (reset_names t)).overflow ≡ ltb t.next_cap (length (distinct names [])))
is_within_limit_lem t names name =
    let h = run-Follows t.next_cap names [] (reset_names t) (new-Follows t) in
    (
      (step-Follows t.next_cap (distinct names []) (record_all names (reset_names t)) name h).1
          ∙ ap (λ (d : List Text). named name (take t.next_cap d))
              (sym (distinct_last names name [])),
      h.overflow_is,
    )
