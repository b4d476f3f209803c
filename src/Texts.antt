-- ===== src/Texts.antt =====
-- Go's strings as far as the program takes them apart: their concatenation and their order.
pub mod Split
use Prim.Native.Char.{code}
use Prim.Native.String.{◌++◌}
use bandwidth_monitor.Common.{◌≡◌, refl, Bool, true, false, if◌then◌else◌, String, ltb, arith}
use bandwidth_monitor.Sorting.{IsOrder, Any}

-- `s + t`
infixr 55 ◌<>◌
abbrev pub ◌<>◌ : String → String → String
s <> t = s ++ t

-- `s < t`. Go compares bytes; in UTF-8 that is the order of the code points.
unfoldable pub less_text : String → String → Bool
less_text s String.[] = false
less_text String.[] (String.◌∷◌ d t) = true
less_text (String.◌∷◌ c s) (String.◌∷◌ d t) =
    let rest = less_text s t in
    if ltb (code c) (code d) then true else if ltb (code d) (code c) then false else rest

less_text_asymm : (s t : String) → less_text s t ≡ true → less_text t s ≡ false
unfolding less_text
less_text_asymm String.[] String.[] h = refl
less_text_asymm String.[] (String.◌∷◌ d t) h = refl
less_text_asymm (String.◌∷◌ c s) String.[] h = ground arith
less_text_asymm (String.◌∷◌ c s) (String.◌∷◌ d t) h = ground (arith, less_text_asymm s t)

less_text_trans :
    (s t u : String) → less_text t s ≡ false → less_text u t ≡ false → less_text u s ≡ false
unfolding less_text
less_text_trans String.[] t String.[] h k = refl
less_text_trans String.[] String.[] (String.◌∷◌ e u) h k = refl
less_text_trans String.[] (String.◌∷◌ d t) (String.◌∷◌ e u) h k = refl
less_text_trans (String.◌∷◌ c s) String.[] u h k = absurd (ground arith)
less_text_trans (String.◌∷◌ c s) (String.◌∷◌ d t) String.[] h k = absurd (ground arith)
less_text_trans (String.◌∷◌ c s) (String.◌∷◌ d t) (String.◌∷◌ e u) h k =
    ground (arith, less_text_trans s t u)

-- A strict order of values by a text.
pub less_text-IsOrder {ℓ} :
    {A : Type ℓ} (f : A → String) → IsOrder Any (λ a b. less_text (f a) (f b))
less_text-IsOrder f = record {
  asymm = λ a b _ _ h. less_text_asymm (f a) (f b) h;
  trans = λ a b c _ _ _ h k. less_text_trans (f a) (f b) (f c) h k;
}
