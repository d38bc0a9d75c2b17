-- ===== src/Prelude/Text.antt =====
-- Texts: `str.strip`, `str.isspace` and membership tests. A `String` is its list of code points.
use Prim.Native.Nat.{ℕ, zero, suc, ◌/◌, ◌%◌}
use Prim.Native.Char.{code}
use Prim.Native.String.{String, ◌++◌ as str_append}
use mathlib.Core.Path.{◌≡◌, refl}
use mathlib.Core.Bool.{Bool, true, false, ◌&&◌, ◌||◌}
use mathlib.Core.List.{List, [], ◌∷◌}
use text.Mathlib.Text.{◌==◌ as str_eq}
use ai_document_ops_system.Prelude.Tests.{leb, ◌==◌, if◌then◌else◌}

abbrev pub codes : String → List ℕ
codes String.[] = []
codes (String.◌∷◌ c s) = code c ∷ codes s

-- The code points for which `str.isspace` holds.
unfoldable pub is_space : ℕ → Bool
is_space c =
    (leb 9 c && leb c 13)
    || (leb 28 c && leb c 32)
    || c == 133
    || c == 160
    || c == 5760
    || (leb 8192 c && leb c 8202)
    || c == 8232
    || c == 8233
    || c == 8239
    || c == 8287
    || c == 12288

-- `not value.strip()`: nothing but white space.
unfoldable pub is_blank : String → Bool
unfolding is_space
is_blank String.[] = true
is_blank (String.◌∷◌ c s) = is_space (code c) && is_blank s

unfoldable pub lstrip : String → String
unfolding is_space
lstrip String.[] = String.[]
lstrip (String.◌∷◌ c s) = if is_space (code c) then lstrip s else String.◌∷◌ c s

-- The text without the white space at its end.
unfoldable pub rstrip : String → String
unfolding is_blank
rstrip String.[] = String.[]
rstrip (String.◌∷◌ c s) = if is_blank (String.◌∷◌ c s) then String.[] else String.◌∷◌ c (rstrip s)

-- `value.strip()`
unfoldable pub strip : String → String
unfolding lstrip rstrip
strip s = rstrip (lstrip s)

-- `not value`
unfoldable pub is_empty_text : String → Bool
is_empty_text String.[] = true
is_empty_text (String.◌∷◌ c s) = false

-- `value in {…}` on texts.
unfoldable pub one_of : String → List String → Bool
one_of s [] = false
one_of s (t ∷ ts) = str_eq s t || one_of s ts

strip_test : strip " a b\t" ≡ "a b"
unfolding strip
strip_test = refl

unfoldable pub starts_with : String → String → Bool
starts_with String.[] s = true
starts_with (String.◌∷◌ c p) String.[] = false
starts_with (String.◌∷◌ c p) (String.◌∷◌ d s) = code c == code d && starts_with p s

-- `part in whole`, on texts.
unfoldable pub contains : String → String → Bool
unfolding starts_with
contains part String.[] = starts_with part String.[]
contains part (String.◌∷◌ c s) = starts_with part (String.◌∷◌ c s) || contains part s

contains_test : (contains "b c" "ab cd" ≡ true) × (contains "bc" "ab cd" ≡ false)
unfolding contains
contains_test = (refl, refl)

unfoldable pub digit : ℕ → String
digit zero = "0"
digit (suc zero) = "1"
digit (suc (suc zero)) = "2"
digit (suc (suc (suc zero))) = "3"
digit (suc (suc (suc (suc zero)))) = "4"
digit (suc (suc (suc (suc (suc zero))))) = "5"
digit (suc (suc (suc (suc (suc (suc zero)))))) = "6"
digit (suc (suc (suc (suc (suc (suc (suc zero))))))) = "7"
digit (suc (suc (suc (suc (suc (suc (suc (suc zero)))))))) = "8"
digit n = "9"

-- The decimal digits of `n` in front of `rest`; a number has no more digits than its value plus one.
show_from : ℕ → ℕ → String → String
unfolding digit
show_from zero n rest = rest
show_from (suc fuel) n rest =
    let shown = str_append (digit (n % 10)) rest in
    let more = show_from fuel (n / 10) shown in if n / 10 == 0 then shown else more

-- `str(n)`
unfoldable pub show_ℕ : ℕ → String
unfolding show_from
show_ℕ n = show_from (suc n) n ""

show_test : show_ℕ 1207 ≡ "1207"
unfolding show_ℕ
show_test = refl

-- The rest of a word, or what follows white space: white space that more text follows is one blank.
squeeze_from : Bool → String → String
unfolding is_space
squeeze_from pending String.[] = ""
squeeze_from pending (String.◌∷◌ c s) = elim (is_space (code c)) [
  | true ↦ squeeze_from true s
  | false ↦
      let rest = String.◌∷◌ c (squeeze_from false s) in
      if pending then str_append " " rest else rest
]

-- `" ".join(value.split())`
unfoldable pub squeeze : String → String
unfolding lstrip squeeze_from
squeeze s = squeeze_from false (lstrip s)

squeeze_test : squeeze "  a  bc \t d " ≡ "a bc d"
unfolding squeeze
squeeze_test = refl

-- `value[:n]`
unfoldable pub take_text : ℕ → String → String
take_text zero s = ""
take_text (suc n) String.[] = ""
take_text (suc n) (String.◌∷◌ c s) = String.◌∷◌ c (take_text n s)

-- `"".join(parts)`: the text of an f-string.
unfoldable pub concat_text : List String → String
concat_text [] = ""
concat_text (t ∷ ts) = str_append t (concat_text ts)

-- `value or default`, and `str(flag).lower()`.
unfoldable pub text_or : String → String → String
unfolding is_empty_text
text_or value default = if is_empty_text value then default else value

unfoldable pub show_Bool : Bool → String
show_Bool true = "true"
show_Bool false = "false"

-- `separator.join(parts)`
unfoldable pub join_text : String → List String → String
join_text separator [] = ""
join_text separator (t ∷ []) = t
join_text separator (t ∷ u ∷ ts) =
    str_append t (str_append separator (join_text separator (u ∷ ts)))
