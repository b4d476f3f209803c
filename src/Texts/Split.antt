-- ===== src/Texts/Split.antt =====
-- Go's `strings.Split` and `strings.TrimSpace`.
use Prim.Native.Char.{Char, code}
use text.Mathlib.TextLemmas.{nil-append, cons-append, cons≢nil}
use bandwidth_monitor.Common.{
  ℕ, String, ◌≡◌, refl, sym, ap, ◌∙◌, ◌≢◌, inl, inr, Bool, true, false, ◌&&◌, ◌||◌, List, [], ◌∷◌,
  ◌++◌, arith, leb, nat_beq, if◌then◌else◌, Bool-cases, nat_eq, string_eq,
}
use bandwidth_monitor.Texts.{◌<>◌}

abbrev pub one_char : Char → String
one_char c = String.◌∷◌ c String.[]

-- The first part of a list of parts gets a character in front.
abbrev pub onto_first : Char → List String → List String
onto_first c [] = one_char c ∷ []
onto_first c (p ∷ ps) = String.◌∷◌ c p ∷ ps

-- `strings.Split(s, sep)` for a separator of one character, given by its code point.
unfoldable pub split_on : ℕ → String → List String
split_on sep String.[] = "" ∷ []
split_on sep (String.◌∷◌ c s) =
    let rest = split_on sep s in if nat_beq (code c) sep then "" ∷ rest else onto_first c rest

-- The characters that Unicode calls white space.
abbrev pub is_space : ℕ → Bool
is_space c =
    leb 9 c && leb c 13
    || nat_beq c 32
    || nat_beq c 0x85
    || nat_beq c 0xa0
    || nat_beq c 0x1680
    || leb 0x2000 c && leb c 0x200a
    || nat_beq c 0x2028
    || nat_beq c 0x2029
    || nat_beq c 0x202f
    || nat_beq c 0x205f
    || nat_beq c 0x3000

unfoldable pub trim_left : String → String
trim_left String.[] = ""
trim_left (String.◌∷◌ c s) =
    let rest = trim_left s in if is_space (code c) then rest else String.◌∷◌ c s

abbrev trimmed_end : Char → String → String
trimmed_end c String.[] = if is_space (code c) then "" else one_char c
trimmed_end c (String.◌∷◌ d s) = String.◌∷◌ c (String.◌∷◌ d s)

unfoldable pub trim_right : String → String
trim_right String.[] = ""
trim_right (String.◌∷◌ c s) = trimmed_end c (trim_right s)

-- `strings.TrimSpace`
unfoldable pub trim_space : String → String
unfolding trim_left trim_right
trim_space s = trim_right (trim_left s)

-- The text has no separator.
unfoldable pub Lacks : ℕ → String → Type 0
Lacks sep String.[] = Unit
Lacks sep (String.◌∷◌ c s) = (nat_beq (code c) sep ≡ false) × Lacks sep s

-- The text has no white space.
unfoldable pub HasNoSpace : String → Type 0
HasNoSpace String.[] = Unit
HasNoSpace (String.◌∷◌ c s) = (is_space (code c) ≡ false) × HasNoSpace s

abbrev pub comma : ℕ
comma = b','

onto_first-append :
    (c : Char) (ps qs : List String) → ps ≢ [] → onto_first c (ps ++ qs) ≡ onto_first c ps ++ qs
onto_first-append c [] qs h = absurd (h refl)
onto_first-append c (p ∷ ps) qs h = refl

cons-ne-nil : {A : Type 0} (x : A) (xs : List A) → (x ∷ xs) ≢ []
cons-ne-nil x xs h = cc

onto_first-ne-nil : (c : Char) (ps : List String) → onto_first c ps ≢ []
onto_first-ne-nil c [] = cons-ne-nil _ _
onto_first-ne-nil c (p ∷ ps) = cons-ne-nil _ _

split_on-ne-nil : (sep : ℕ) (s : String) → split_on sep s ≢ []
unfolding split_on
split_on-ne-nil sep String.[] = cons-ne-nil _ _
split_on-ne-nil sep (String.◌∷◌ c s) = elim (Bool-cases (nat_beq (code c) sep)) [
  | inl here ↦ rw here (cons-ne-nil _ _)
  | inr other ↦ rw other (onto_first-ne-nil c (split_on sep s))
]

-- The parts of two texts with a separator between them are the parts of both.
pub split_on-append :
    (d : Char) (s t : String)
    → split_on (code d) (s <> (String.◌∷◌ d t)) ≡ split_on (code d) s ++ split_on (code d) t
unfolding split_on
split_on-append d String.[] t =
    let same : nat_beq (code d) (code d) ≡ true = ground arith in
    ap (split_on (code d)) (nil-append (String.◌∷◌ d t)) ∙ rw same refl
split_on-append d (String.◌∷◌ c s) t =
    ap (split_on (code d)) (cons-append c s (String.◌∷◌ d t))
    ∙ elim (Bool-cases (nat_beq (code c) (code d))) [
      | inl here ↦ rw here (ap (◌∷◌ "") (split_on-append d s t))
      | inr other ↦ rw other (
          ap (onto_first c) (split_on-append d s t)
          ∙ onto_first-append c (split_on (code d) s) (split_on (code d) t)
              (split_on-ne-nil (code d) s))
    ]

-- A text without a separator is its only part.
pub split_on-Lacks : (sep : ℕ) (s : String) → Lacks sep s → split_on sep s ≡ s ∷ []
unfolding split_on Lacks
split_on-Lacks sep String.[] h = refl
split_on-Lacks sep (String.◌∷◌ c s) h = rw (h.0, split_on-Lacks sep s h.1)

trim_left-HasNoSpace : (s : String) → HasNoSpace s → trim_left s ≡ s
unfolding trim_left HasNoSpace
trim_left-HasNoSpace String.[] h = refl
trim_left-HasNoSpace (String.◌∷◌ c s) h = rw h.0 refl

trimmed_end-keep :
    (c : Char) (s : String) → is_space (code c) ≡ false → trimmed_end c s ≡ String.◌∷◌ c s
trimmed_end-keep c String.[] h = rw h refl
trimmed_end-keep c (String.◌∷◌ d s) h = refl

trim_right-HasNoSpace : (s : String) → HasNoSpace s → trim_right s ≡ s
unfolding trim_right HasNoSpace
trim_right-HasNoSpace String.[] h = refl
trim_right-HasNoSpace (String.◌∷◌ c s) h =
    ap (trimmed_end c) (trim_right-HasNoSpace s h.1) ∙ trimmed_end-keep c s h.0

pub trim_space-HasNoSpace : (s : String) → HasNoSpace s → trim_space s ≡ s
unfolding trim_space
trim_space-HasNoSpace s h = ap trim_right (trim_left-HasNoSpace s h) ∙ trim_right-HasNoSpace s h

pub comma-append : (t : String) → "," <> t ≡ String.◌∷◌ "," t
comma-append t = cons-append "," "" t ∙ ap (String.◌∷◌ ",") (nil-append t)

-- The parts of two texts with a comma between them.
pub split_on-comma :
    (s t : String) → split_on comma (s <> "," <> t) ≡ split_on comma s ++ split_on comma t
split_on-comma s t = ap (λ u. split_on comma (s <> u)) (comma-append t) ∙ split_on-append "," s t

pub append-not-blank : (s t : String) → s ≢ "" → (s <> t) ≢ ""
append-not-blank String.[] t h = absurd (h refl)
append-not-blank (String.◌∷◌ c s) t h = λ e. cons≢nil (sym (cons-append c s t) ∙ e)
