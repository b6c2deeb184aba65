-- ===== src/Moderation/Accepts.antt =====
-- What the text checks let through, said without their loops.
use Prim.Native.Char.{code}
use podcast_backend.Prelude.{
  ℕ, ◌≤◌, String, true, false, none, some, List, [], ◌∷◌, ◌++◌, ltb, str_eq, eq_iff, ◌≡◌, ◌≢◌, ◌↔◌,
  ◌⊎◌, refl, sym, ap, subst, ◌∙◌, inl, inr, arith, In, Bool-cases,
}
use podcast_backend.Moderation.{
  is_control, is_dangerous_format_rune, spoils, rune_count, has_prefix, contains, has_bad_rune,
  has_line_break, has_blocked, Filter, check_text, check_display_name, trim_space, TextError,
}

-- The code points of a text.
abbrev pub codes : String → List ℕ
codes String.[] = []
codes (String.◌∷◌ c s) = code c ∷ codes s

-- The text b stands somewhere in s.
abbrev pub Within : String → String → Type 0
Within b s = (before : List ℕ) × (after : List ℕ) × (codes s ≡ before ++ (codes b ++ after))

abbrev Starts : String → String → Type 0
Starts b s = (after : List ℕ) × (codes s ≡ codes b ++ after)

prefix-Starts : (s b : String) → has_prefix s b ≡ true → Starts b s
unfolding has_prefix
prefix-Starts s String.[] e = (codes s, refl)
prefix-Starts String.[] (String.◌∷◌ d b) e = absurd (cc)
prefix-Starts (String.◌∷◌ c s) (String.◌∷◌ d b) e =
    let here : code c ≡ code d = ground arith in
    let rest : has_prefix s b ≡ true = ground arith in
    let (after, q) = prefix-Starts s b rest in (after, cc)

Starts-prefix : (s b : String) → Starts b s → has_prefix s b ≡ true
unfolding has_prefix
Starts-prefix s String.[] e = refl
Starts-prefix String.[] (String.◌∷◌ d b) (after, e) = absurd (cc)
Starts-prefix (String.◌∷◌ c s) (String.◌∷◌ d b) (after, e) =
    let here : code c ≡ code d = cc in
    let rest : codes s ≡ codes b ++ after = cc in
    let tail = Starts-prefix s b (after, rest) in ground arith

contains-Within : (s b : String) → contains s b ≡ true → Within b s
unfolding contains
contains-Within String.[] b e = let (after, q) = prefix-Starts String.[] b e in ([], after, q)
contains-Within (String.◌∷◌ c s) b e = elim (Bool-cases (has_prefix (String.◌∷◌ c s) b)) [
  | inl here ↦ let (after, q) = prefix-Starts (String.◌∷◌ c s) b here in ([], after, q)
  | inr other ↦
      let later : contains s b ≡ true = ground arith in
      let (before, after, q) = contains-Within s b later in
      (code c ∷ before, after, ap (λ xs. code c ∷ xs) q)
]

Within-contains : (s b : String) → Within b s → contains s b ≡ true
unfolding contains
Within-contains String.[] b ([], after, e) = Starts-prefix String.[] b (after, e)
Within-contains String.[] b (x ∷ before, after, e) = absurd (cc)
Within-contains (String.◌∷◌ c s) b ([], after, e) =
    let here = Starts-prefix (String.◌∷◌ c s) b (after, e) in ground arith
Within-contains (String.◌∷◌ c s) b (x ∷ before, after, e) =
    let tail : codes s ≡ before ++ (codes b ++ after) = cc in
    let later = Within-contains s b (before, after, tail) in ground arith

-- A rune that a text may hold: a tab, a line break, or one that is neither a control character nor
-- an invisible format character.
abbrev pub Fine : ℕ → Type 0
Fine n =
    (n ≡ 9) ⊎ (n ≡ 10) ⊎ (n ≡ 13) ⊎ ((is_control n ≡ false) × (is_dangerous_format_rune n ≡ false))

-- The text is fit to show under the blocklist.
pub record Fit (f : Filter) (s : String) : Type 0 where
  pub runes : (n : ℕ) → In n (codes s) → Fine n
  pub free : (b : String) → In b f.blocklist → b ≢ "" → Within b (f.to_lower s) → ⊥

pub record FitName (f : Filter) (s : String) : Type 0 where
  pub filled : s ≢ ""
  pub short : rune_count s ≤ 60
  pub single : (n : ℕ) → In n (codes s) → (n ≢ 10) × (n ≢ 13)
  pub fit : Fit f s

Fine-spoils : (n : ℕ) → spoils n ≡ false → Fine n
unfolding spoils
Fine-spoils n e = ground arith

spoils-Fine : (n : ℕ) → Fine n → spoils n ≡ false
unfolding spoils
spoils-Fine n e = ground arith

bad_rune-Fine : (s : String) → has_bad_rune s ≡ false → (n : ℕ) → In n (codes s) → Fine n
unfolding has_bad_rune
bad_rune-Fine String.[] e n i = elim i [ ]
bad_rune-Fine (String.◌∷◌ c s) e n (inl q) =
    let here : spoils (code c) ≡ false = ground arith in
    subst Fine (sym q) (Fine-spoils (code c) here)
bad_rune-Fine (String.◌∷◌ c s) e n (inr i) = bad_rune-Fine s (ground arith) n i

Fine-bad_rune : (s : String) → ((n : ℕ) → In n (codes s) → Fine n) → has_bad_rune s ≡ false
unfolding has_bad_rune
Fine-bad_rune String.[] h = refl
Fine-bad_rune (String.◌∷◌ c s) h =
    let here = spoils-Fine (code c) (h (code c) (inl refl)) in
    let rest = Fine-bad_rune s (λ n i. h n (inr i)) in ground arith

line_break-single :
    (s : String) → has_line_break s ≡ false → (n : ℕ) → In n (codes s) → (n ≢ 10) × (n ≢ 13)
unfolding has_line_break
line_break-single String.[] e n i = elim i [ ]
line_break-single (String.◌∷◌ c s) e n (inl q) = (λ x. ground arith, λ x. ground arith)
line_break-single (String.◌∷◌ c s) e n (inr i) = line_break-single s (ground arith) n i

single-line_break :
    (s : String) → ((n : ℕ) → In n (codes s) → (n ≢ 10) × (n ≢ 13)) → has_line_break s ≡ false
unfolding has_line_break
single-line_break String.[] h = refl
single-line_break (String.◌∷◌ c s) h =
    let here = h (code c) (inl refl) in
    let rest = single-line_break s (λ n i. h n (inr i)) in ground arith

str_ne : (x y : String) → x ≢ y → str_eq x y ≡ false
str_ne x y other = elim (Bool-cases (str_eq x y)) [
  | inl same ↦ absurd (other ((eq_iff x y).0 same))
  | inr e ↦ e
]

named-blank : (x : String) → str_eq x "" ≡ false → x ≢ ""
named-blank x named e = true-false (sym ((eq_iff x "").1 e) ∙ named)
  where
    true-false : true ≡ false → ⊥
    true-false q = cc

blocked-free :
    (lower : String) (bs : List String)
    → has_blocked lower bs ≡ false
    → (b : String) → In b bs
    → b ≢ ""
    → Within b lower
    → ⊥
unfolding has_blocked
blocked-free lower [] e b i filled w = elim i [ ]
blocked-free lower (x ∷ bs) e b (inl q) filled w =
    let named = str_ne x "" (λ z. filled (q ∙ z)) in
    let found = Within-contains lower x (subst (λ k. Within k lower) q w) in ground arith
blocked-free lower (x ∷ bs) e b (inr i) filled w = blocked-free lower bs (ground arith) b i filled w

free-blocked :
    (lower : String) (bs : List String)
    → ((b : String) → In b bs → b ≢ "" → Within b lower → ⊥)
    → has_blocked lower bs ≡ false
unfolding has_blocked
free-blocked lower [] h = refl
free-blocked lower (x ∷ bs) h =
    let rest = free-blocked lower bs (λ b i. h b (inr i)) in
    elim (Bool-cases (str_eq x "")) [
      | inl blank ↦ ground arith
      | inr named ↦ elim (Bool-cases (contains lower x)) [
        | inl found ↦
            absurd (h x (inl refl) (λ z. named-blank x named z) (contains-Within lower x found))
        | inr absent ↦ ground arith
      ]
    ]

some-none : {e : TextError} → some e ≡ none → ⊥
some-none e = cc

module _ (f : Filter) (s : String) where
  check_text-Fit : check_text f s ≡ none → Fit f s
  unfolding check_text
  check_text-Fit e = elim (Bool-cases (has_bad_rune s)) [
    | inl bad ↦ absurd (some-none (rw bad at e))
    | inr good ↦ elim (Bool-cases (has_blocked (f.to_lower s) f.blocklist)) [
      | inl bad ↦ absurd (some-none (rw (good, bad) at e))
      | inr clear ↦ record {
        runes = bad_rune-Fine s good;
        free = blocked-free (f.to_lower s) f.blocklist clear;
      }
    ]
  ]

  Fit-check_text : Fit f s → check_text f s ≡ none
  unfolding check_text
  Fit-check_text fit =
      rw (Fine-bad_rune s fit.runes, free-blocked (f.to_lower s) f.blocklist fit.free) refl

module _ (f : Filter) (s t : String) (q : trim_space s ≡ t) where
  name-FitName : check_display_name f s ≡ none → FitName f t
  unfolding check_display_name
  name-FitName e = elim (Bool-cases (str_eq t "")) [
    | inl blank ↦ absurd (some-none (rw (q, blank) at e))
    | inr named ↦ elim (Bool-cases (ltb 60 (rune_count t))) [
      | inl long ↦ absurd (some-none (rw (q, named, long) at e))
      | inr short ↦ elim (Bool-cases (has_line_break t)) [
        | inl broken ↦ absurd (some-none (rw (q, named, short, broken) at e))
        | inr single ↦ record {
          filled = named-blank t named;
          short = ground arith;
          single = line_break-single t single;
          fit = check_text-Fit f t (rw (q, named, short, single) at e);
        }
      ]
    ]
  ]

  FitName-name : FitName f t → check_display_name f s ≡ none
  unfolding check_display_name
  FitName-name fit =
      let short : ltb 60 (rune_count t) ≡ false = let k = fit.short in ground arith in
      rw
        (
          q,
          str_ne t "" fit.filled,
          short,
          single-line_break t fit.single,
          Fit-check_text f t fit.fit,
        )
        refl

-- A display name is accepted exactly if, trimmed, it is not empty, has at most sixty runes and no
-- line break, holds no control character but a tab and no invisible format character, and no entry
-- of the blocklist, but the empty one, stands anywhere in its lower case.
pub check_display_name-FitName :
    (f : Filter) (s : String) → (check_display_name f s ≡ none) ↔ FitName f (trim_space s)
check_display_name-FitName f s =
    (name-FitName f s (trim_space s) refl, FitName-name f s (trim_space s) refl)
