-- ===== src/Data/Boilerplate/Counted.antt =====
-- How often a segment occurs.
use mathlib.Core.Path.{ap₂}
use dealership_agent.Base.{
  Bool, Bool-cases, List, String, [], ap, arith, eq_iff, false, if◌then◌else◌, inl, inr, leb,
  leb→le, len, member, refl, strip, suc, sym, true, ℕ, ◌++◌, ◌+◌, ◌=ₛ◌, ◌↔◌, ◌∙◌, ◌∷◌, ◌≡◌, ◌≤◌,
}
use dealership_agent.Data.Boilerplate.{
  Counter, boilerplate_min_occurrences, boilerplate_segments, bump, bump_all, count_texts, frequent,
  long_segments, segment_counts, segment_re, segments_of,
}
use dealership_agent.Data.Pattern.{split}

abbrev pub occurrences : String → List String → ℕ
occurrences s [] = 0
occurrences s (t ∷ ts) = if t =ₛ s then suc (occurrences s ts) else occurrences s ts

abbrev pub all_segments : List String → List String
all_segments [] = []
all_segments (text ∷ texts) = segments_of text ++ all_segments texts

abbrev count_of : String → Counter → ℕ
count_of s [] = 0
count_of s ((t, n) ∷ rest) = if t =ₛ s then n else count_of s rest

-- The keys of a counter are distinct.
abbrev HasKeys : Counter → Type 0
HasKeys [] = Unit
HasKeys ((s, n) ∷ rest) = (count_of s rest ≡ 0) × HasKeys rest

count_of-bump :
    (s t : String) (c : Counter)
    → count_of t (bump s c) ≡ (if s =ₛ t then suc (count_of t c) else count_of t c)
unfolding bump
count_of-bump s t [] = refl
count_of-bump s t ((u, n) ∷ rest) =
    ground (arith, eq_iff u s, eq_iff u t, eq_iff s t, count_of-bump s t rest)

bump-HasKeys : (s : String) (c : Counter) → HasKeys c → HasKeys (bump s c)
unfolding bump
bump-HasKeys s [] h = (refl, tt)
bump-HasKeys s ((t, n) ∷ rest) h = elim (Bool-cases (t =ₛ s)) [
  | inl e ↦ rw e h
  | inr e ↦ rw e (count_of-bump s t rest ∙ other e, bump-HasKeys s rest h.1)
]
  where
    other : (t =ₛ s) ≡ false → (if s =ₛ t then suc (count_of t rest) else count_of t rest) ≡ 0
    other e = ground (arith, eq_iff s t, eq_iff t s)

bump_all-HasKeys : (ss : List String) (c : Counter) → HasKeys c → HasKeys (bump_all ss c)
unfolding bump_all
bump_all-HasKeys [] c h = h
bump_all-HasKeys (s ∷ ss) c h = bump_all-HasKeys ss (bump s c) (bump-HasKeys s c h)

count_of-bump_all :
    (ss : List String) (c : Counter) (t : String)
    → count_of t (bump_all ss c) ≡ count_of t c + occurrences t ss
unfolding bump_all
count_of-bump_all [] c t = omega arith
count_of-bump_all (s ∷ ss) c t =
    count_of-bump_all ss (bump s c) t
    ∙ (ap (λ k. k + occurrences t ss) (count_of-bump s t c) ∙ step (s =ₛ t) (count_of t c))
  where
    step :
        (b : Bool) (n : ℕ)
        → (if b then suc n else n) + occurrences t ss
          ≡ n + (if b then suc (occurrences t ss) else occurrences t ss)
    step true n = omega arith
    step false n = refl

occurrences-append :
    (t : String) (xs ys : List String)
    → occurrences t (xs ++ ys) ≡ occurrences t xs + occurrences t ys
occurrences-append t [] ys = omega arith
occurrences-append t (x ∷ xs) ys = elim (Bool-cases (x =ₛ t)) [
  | inl e ↦ rw e (omega (arith, occurrences-append t xs ys))
  | inr e ↦ rw e (occurrences-append t xs ys)
]

count_texts-HasKeys :
    (texts : List String) (c : Counter) → HasKeys c → HasKeys (count_texts texts c)
unfolding count_texts
count_texts-HasKeys [] c h = h
count_texts-HasKeys (text ∷ texts) c h =
    count_texts-HasKeys texts (bump_all (segments_of text) c)
      (bump_all-HasKeys (segments_of text) c h)

count_of-count_texts :
    (texts : List String) (c : Counter) (t : String)
    → count_of t (count_texts texts c) ≡ count_of t c + occurrences t (all_segments texts)
unfolding count_texts
count_of-count_texts [] c t = omega arith
count_of-count_texts (text ∷ texts) c t = omega (
  arith,
  count_of-count_texts texts (bump_all (segments_of text) c) t,
  count_of-bump_all (segments_of text) c t,
  occurrences-append t (segments_of text) (all_segments texts),
)

member-frequent :
    (c : Counter) (s : String)
    → HasKeys c
    → member s (frequent c) ≡ leb boilerplate_min_occurrences (count_of s c)
member-frequent [] s h = refl
member-frequent ((t, n) ∷ rest) s h = elim (Bool-cases (t =ₛ s)) [
  | inl e ↦
      let same : t ≡ s = (eq_iff t s).0 e in
      let gone : member s (frequent rest) ≡ false =
        member-frequent rest s h.1
        ∙ ap (leb boilerplate_min_occurrences) (ap (λ u. count_of u rest) (sym same) ∙ h.0) in
      let found : (s =ₛ t) ≡ true = (eq_iff s t).1 (sym same) in
      elim (Bool-cases (leb boilerplate_min_occurrences n)) [
        | inl k ↦ rw (e, k, found) refl
        | inr k ↦ rw (e, k) gone
      ]
  | inr e ↦
      let lost : (s =ₛ t) ≡ false = apart e in
      elim (Bool-cases (leb boilerplate_min_occurrences n)) [
        | inl k ↦ rw (e, k, lost) (member-frequent rest s h.1)
        | inr k ↦ rw (e, k) (member-frequent rest s h.1)
      ]
]
  where
    apart : (t =ₛ s) ≡ false → (s =ₛ t) ≡ false
    apart e = ground (arith, eq_iff s t, eq_iff t s)

-- How many of the parts are the text, without the spaces around them.
abbrev pub times : String → List String → ℕ
times s [] = 0
times s (p ∷ ps) = if strip p =ₛ s then suc (times s ps) else times s ps

-- The parts of all descriptions, cut at double breaks and behind the ends of sentences.
abbrev pub times_in : String → List String → ℕ
times_in s [] = 0
times_in s (text ∷ texts) = times s (split segment_re text) + times_in s texts

occurrences-long_segments :
    (s : String) (ps : List String)
    → occurrences s (long_segments ps) ≡ (if leb 20 (len s) then times s ps else 0)
unfolding long_segments
occurrences-long_segments s [] = elim (Bool-cases (leb 20 (len s))) [
  | inl e ↦ rw e refl
  | inr e ↦ rw e refl
]
occurrences-long_segments s (p ∷ ps) =
    let ih = occurrences-long_segments s ps in
    elim (Bool-cases (strip p =ₛ s)) [
      | inl same ↦
          let e : len (strip p) ≡ len s = ap len ((eq_iff (strip p) s).0 same) in
          elim (Bool-cases (leb 20 (len s))) [
            | inl long ↦ rw (e, long, same) (ap suc (ih ∙ (rw long refl)))
            | inr short ↦ rw (e, short) (ih ∙ (rw short refl))
          ]
      | inr other ↦ elim (Bool-cases (leb 20 (len (strip p)))) [
        | inl long ↦ rw (long, other) ih
        | inr short ↦ rw (short, other) ih
      ]
    ]

occurrences-all_segments :
    (s : String) (texts : List String)
    → occurrences s (all_segments texts) ≡ (if leb 20 (len s) then times_in s texts else 0)
unfolding segments_of
occurrences-all_segments s [] = elim (Bool-cases (leb 20 (len s))) [
  | inl e ↦ rw e refl
  | inr e ↦ rw e refl
]
occurrences-all_segments s (text ∷ texts) =
    occurrences-append s (segments_of text) (all_segments texts)
    ∙ (ap₂ (λ a b. a + b) (occurrences-long_segments s (split segment_re text))
          (occurrences-all_segments s texts)
        ∙ join (leb 20 (len s)))
  where
    join :
        (b : Bool)
        → (if b then times s (split segment_re text) else 0) + (if b then times_in s texts else 0)
          ≡ (if b then times s (split segment_re text) + times_in s texts else 0)
    join true = refl
    join false = refl

-- A text is a boilerplate segment exactly if it has at least twenty characters and, without the
-- spaces around it, is a part of the descriptions at least fifty times, however many of these stand in
-- one description.
pub boilerplate_segments_iff :
    (texts : List String) (s : String)
    → (member s (boilerplate_segments texts) ≡ true) ↔ ((20 ≤ len s) × (50 ≤ times_in s texts))
unfolding boilerplate_segments segment_counts
boilerplate_segments_iff texts s =
    let m = member-frequent (count_texts texts []) s (count_texts-HasKeys texts [] tt) in
    let n : count_of s (count_texts texts []) ≡ occurrences s (all_segments texts) =
      count_of-count_texts texts [] s ∙ omega arith in
    let k : count_of s (count_texts texts []) ≡ (if leb 20 (len s) then times_in s texts else 0) =
      n ∙ occurrences-all_segments s texts in
    let found : member s (boilerplate_segments texts)
        ≡ leb 50 (if leb 20 (len s) then times_in s texts else 0) =
      m ∙ ap (leb 50) k in
    elim (Bool-cases (leb 20 (len s))) [
      | inl long ↦
          let found' : member s (boilerplate_segments texts) ≡ leb 50 (times_in s texts) =
            (rw long at found) in
          (
            λ h. (leb→le 20 (len s) long, leb→le 50 _ (sym found' ∙ h)),
            λ (l, h). found' ∙ enough 50 (times_in s texts) h,
          )
      | inr short ↦
          let found' : member s (boilerplate_segments texts) ≡ false = (rw short at found) in
          (λ h. absurd (clash found' h), λ (l, h). absurd (clash short (enough 20 (len s) l)))
    ]
  where
    enough : (a b : ℕ) → a ≤ b → leb a b ≡ true
    enough a b h = ground arith

    clash : {b : Bool} → b ≡ false → b ≡ true → ⊥
    clash e f = absurd (ground arith)
