-- ===== src/Console/Forms/Lines.antt =====
-- Lists that are typed into a form, one value on each line.
use Prim.Native.Char.{Char}
use Prim.Native.String
use Prim.Native.String.append
use meshonator.Base.{
  ◌≡◌, refl, ap, ◌∙◌, String, Bool, false, ◌||◌, List, [], ◌∷◌, All, arith, nat_eq,
}
use meshonator.Base.Text.{strip, is_empty}
use meshonator.Console.Forms.{is_break, chunks, stripped, parse_multi_value}

-- a character of the text breaks it
unfoldable pub has_break : String → Bool
has_break String.[] = false
has_break (String.◌∷◌ c s) = is_break c || has_break s

-- the values as a user types them, a line each
unfoldable pub typed : List String → String
typed [] = String.[]
typed (v ∷ values) = String.◌++◌ v (String.◌++◌ "\n" (typed values))

-- a value with no break in it, no space around it, and something in it
pub record Plain (v : String) : Type 0 where
  pub unbroken : has_break v ≡ false
  pub trimmed : strip v ≡ v
  pub filled : is_empty v ≡ false

append-nil : (t : String) → String.◌++◌ String.[] t ≡ t
append-nil t = λ i. append.nil t i

append-cons :
    (c : Char) (s t : String) → String.◌++◌ (String.◌∷◌ c s) t ≡ String.◌∷◌ c (String.◌++◌ s t)
append-cons c s t = λ i. append.cons c s t i

abbrev newline : Char
newline = "\n"

chunks-break : (t : String) → chunks (String.◌++◌ "\n" t) ≡ "" ∷ chunks t
unfolding chunks is_break nat_eq
chunks-break t = ap chunks (append-cons newline "" t ∙ ap (String.◌∷◌ newline) (append-nil t))

chunks-line :
    (v t : String)
    → has_break v ≡ false
    → chunks (String.◌++◌ v (String.◌++◌ "\n" t)) ≡ v ∷ chunks t
unfolding chunks has_break
chunks-line String.[] t h = ap chunks (append-nil (String.◌++◌ "\n" t)) ∙ chunks-break t
chunks-line (String.◌∷◌ c s) t h =
    ap chunks (append-cons c s (String.◌++◌ "\n" t)) ∙ ground (arith, h, chunks-line s t)

stripped-typed :
    (values : List String) → All Plain values → stripped (chunks (typed values)) ≡ values
unfolding typed stripped chunks strip is_empty
stripped-typed [] h = refl
stripped-typed (v ∷ values) (plain, h) =
    ap stripped (chunks-line v (typed values) plain.unbroken)
    ∙ ground (arith, plain.trimmed, plain.filled, stripped-typed values h)

-- What is typed as one value on each line is parsed as these values, if each of them has something
-- in it, no space around it, and no comma or line break in it.
pub parse_multi_value-typed :
    (values : List String) → All Plain values → parse_multi_value (typed values) ≡ values
unfolding parse_multi_value
parse_multi_value-typed values h = stripped-typed values h
