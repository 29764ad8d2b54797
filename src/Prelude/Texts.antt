-- ===== src/Prelude/Texts.antt =====
-- The operations of Python's `str` that the code uses: strip, startswith, and a test for hex ids.
use Prim.Native.Nat.{ℕ}
use Prim.Native.Char.{code}
use Prim.Native.String.{String}
use mathlib.Core.Bool.{Bool, true, false, ◌&&◌, ◌||◌}
use mathlib.Core.List.{List, [], ◌∷◌}
use python_ai_agent_flow.Prelude.Tests.{leb, eqb, if◌then◌else◌}
use python_ai_agent_flow.Prelude.Lists.{length, all, any}

-- The code points of a text.
abbrev pub codes : String → List ℕ
codes String.[] = []
codes (String.◌∷◌ c s) = code c ∷ codes s

abbrev within : ℕ → ℕ → ℕ → Bool
within lo hi c = leb lo c && leb c hi

-- `c.isspace()`
unfoldable pub is_space : ℕ → Bool
is_space c =
    within 9 13 c
    || (within 28 32 c
        || (within 8192 8202 c
            || (within 8232 8233 c || any (eqb c) (133 ∷ 160 ∷ 5760 ∷ 8239 ∷ 8287 ∷ 12288 ∷ []))))

-- `s.strip()`, on code points.
unfoldable pub strip_left : List ℕ → List ℕ
unfolding is_space
strip_left [] = []
strip_left (c ∷ cs) = if is_space c then strip_left cs else c ∷ cs

unfoldable pub keep_unless_blank : ℕ → List ℕ → List ℕ
keep_unless_blank c [] = if is_space c then [] else c ∷ []
keep_unless_blank c (d ∷ ds) = c ∷ d ∷ ds

unfoldable pub strip_right : List ℕ → List ℕ
unfolding keep_unless_blank is_space
strip_right [] = []
strip_right (c ∷ cs) = keep_unless_blank c (strip_right cs)

unfoldable pub strip : List ℕ → List ℕ
unfolding strip_left strip_right
strip s = strip_right (strip_left s)

-- `s.strip()`, as a text.
unfoldable pub stripped_left : String → String
stripped_left String.[] = String.[]
stripped_left (String.◌∷◌ c s) =
    let rest = stripped_left s in if is_space (code c) then rest else String.◌∷◌ c s

abbrev keep_unless_blank_text : Bool → String → String → String
keep_unless_blank_text true s String.[] = String.[]
keep_unless_blank_text _ s rest = s

unfoldable pub stripped_right : String → String
stripped_right String.[] = String.[]
stripped_right (String.◌∷◌ c s) =
    let rest = stripped_right s in
    keep_unless_blank_text (is_space (code c)) (String.◌∷◌ c rest) rest

abbrev pub stripped : String → String
stripped s = stripped_right (stripped_left s)

-- `s.startswith(prefix)`
unfoldable pub starts_with : List ℕ → List ℕ → Bool
starts_with s [] = true
starts_with [] (p ∷ ps) = false
starts_with (c ∷ cs) (p ∷ ps) = eqb c p && starts_with cs ps

unfoldable pub is_hex : ℕ → Bool
is_hex c = within b'0' b'9' c || within b'a' b'f' c

-- `re.fullmatch("^" + prefix + "[0-9a-f]{32}$", s)`
unfoldable pub is_hex_id : List ℕ → List ℕ → Bool
unfolding is_hex
is_hex_id [] s = eqb (length s) 32 && all is_hex s
is_hex_id (p ∷ ps) [] = false
is_hex_id (p ∷ ps) (c ∷ cs) = eqb c p && is_hex_id ps cs
