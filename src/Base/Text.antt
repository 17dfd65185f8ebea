-- ===== src/Base/Text.antt =====
-- Go's `strings`, `path` and `strconv` functions, as far as the driver uses them. A text is a string
-- of characters; a separator is the code of one ASCII character.
pub mod Laws
use csi_plugin.Base.Tests.{eqb, leb, ltb, if◌then◌else◌}
use csi_plugin.Base.Int.{ℤ, pos, negsuc}
use Prim.Native.Nat.{ℕ, ◌+◌, ◌-◌, ◌*◌, ◌/◌, ◌%◌, ◌^◌, zero, suc}
use Prim.Native.Char.{Char, code}
use Prim.Native.String.{String, ◌++◌ as ◌<>◌}
use mathlib.Core.Bool.{Bool, true, false, not, ◌&&◌, ◌||◌}
use mathlib.Core.Option.{Option, none, some}
use mathlib.Core.List.{List, [], ◌∷◌, foldl, reverse, filter_map}
use text.Mathlib.Text.{◌==◌, starts_with}

cons_head : Char → List String → List String
cons_head c [] = []
cons_head c (s ∷ l) = (String.◌∷◌ c s) ∷ l

-- strings.Split(s, sep)
unfoldable pub split : ℕ → String → List String
unfolding cons_head
split sep String.[] = "" ∷ []
split sep (String.◌∷◌ c s) =
    let rest = split sep s in if eqb (code c) sep then "" ∷ rest else cons_head c rest

-- strings.Join(l, sep)
unfoldable pub join : String → List String → String
join sep [] = ""
join sep (s ∷ []) = s
join sep (s ∷ t ∷ l) = s <> sep <> join sep (t ∷ l)

-- Whether the character `sep` stands in the text.
unfoldable pub has_char : ℕ → String → Bool
has_char sep String.[] = false
has_char sep (String.◌∷◌ c s) = eqb (code c) sep || has_char sep s

-- strings.Contains(s, t)
unfoldable pub contains : String → String → Bool
contains String.[] t = t == ""
contains (String.◌∷◌ c s) t = starts_with (String.◌∷◌ c s) t || contains s t

-- strings.Count(s, t) for a `t` that is not empty and does not overlap itself.
unfoldable pub count : String → String → ℕ
count String.[] t = 0
count (String.◌∷◌ c s) t =
    let rest = count s t in if starts_with (String.◌∷◌ c s) t then suc rest else rest

-- strings.Trim(s, cutset) for one character.
cut_left : ℕ → String → String
cut_left c String.[] = ""
cut_left c (String.◌∷◌ d s) =
    let rest = cut_left c s in if eqb (code d) c then rest else String.◌∷◌ d s

cut_right : ℕ → String → String
cut_right c String.[] = ""
cut_right c (String.◌∷◌ d s) =
    let rest = cut_right c s in if eqb (code d) c && rest == "" then "" else String.◌∷◌ d rest

unfoldable pub trim : ℕ → String → String
unfolding cut_left cut_right
trim c s = cut_right c (cut_left c s)

-- strings.HasSuffix(s, suffix)
unfoldable pub has_suffix : String → String → Bool
has_suffix String.[] suffix = suffix == ""
has_suffix (String.◌∷◌ c s) suffix =
    let rest = has_suffix s suffix in if String.◌∷◌ c s == suffix then true else rest

-- fmt.Sprintf(format, arg) for a format whose only verb is `%s`. A format with another verb, or with
-- `%%`, is formatted otherwise in Go.
unfoldable pub sprintf : String → String → String
sprintf String.[] arg = ""
sprintf (String.◌∷◌ c String.[]) arg = String.◌∷◌ c String.[]
sprintf (String.◌∷◌ c (String.◌∷◌ d s)) arg =
    let rest = sprintf (String.◌∷◌ d s) arg in
    if eqb (code c) b'%' && eqb (code d) b's' then arg <> s else String.◌∷◌ c rest

-- unicode.IsSpace
unfoldable pub is_space : Char → Bool
is_space ch =
    let c = code ch in
    (leb 9 c && leb c 13)
    || eqb c 32
    || eqb c 0x85
    || eqb c 0xa0
    || eqb c 0x1680
    || (leb 0x2000 c && leb c 0x200a)
    || eqb c 0x2028
    || eqb c 0x2029
    || eqb c 0x202f
    || eqb c 0x205f
    || eqb c 0x3000

trim_left : String → String
trim_left String.[] = ""
trim_left (String.◌∷◌ c s) = let rest = trim_left s in if is_space c then rest else String.◌∷◌ c s

trim_right : String → String
trim_right String.[] = ""
trim_right (String.◌∷◌ c s) =
    let rest = trim_right s in if is_space c && rest == "" then "" else String.◌∷◌ c rest

-- strings.TrimSpace
unfoldable pub trim_space : String → String
unfolding trim_left trim_right is_space
trim_space s = trim_right (trim_left s)

-- strings.TrimPrefix(s, t) for a `t` of one character, and strings.TrimSuffix likewise.
unfoldable pub trim_prefix : ℕ → String → String
trim_prefix sep String.[] = ""
trim_prefix sep (String.◌∷◌ c s) = if eqb (code c) sep then s else String.◌∷◌ c s

unfoldable pub trim_suffix : ℕ → String → String
trim_suffix sep String.[] = ""
trim_suffix sep (String.◌∷◌ c s) =
    let rest = trim_suffix sep s in if eqb (code c) sep && s == "" then "" else String.◌∷◌ c rest

-- The components of a path before its last slash, and the one behind it.
init : List String → List String
init [] = []
init (s ∷ []) = []
init (s ∷ t ∷ l) = s ∷ init (t ∷ l)

-- path.Clean works through the components with the kept ones on a stack, innermost first: an empty
-- one and "." are skipped, and ".." drops the last name, or is kept where the path is not rooted.
clean_step : Bool → List String → String → List String
clean_step rooted stack name =
    if name == "" || name == "."
    then stack
    else if not (name == "..")
    then name ∷ stack
    else elim stack [
      | [] ↦ if rooted then [] else ".." ∷ []
      | last ∷ rest ↦ if last == ".." then ".." ∷ last ∷ rest else rest
    ]

render : Bool → List String → String
render rooted [] = if rooted then "/" else "."
render rooted (s ∷ l) = if rooted then "/" <> join "/" (s ∷ l) else join "/" (s ∷ l)

clean_parts : Bool → List String → String
unfolding clean_step render join
clean_parts rooted parts = render rooted (reverse (foldl (clean_step rooted) [] parts))

abbrev slash : ℕ
slash = b'/'

is_rooted : String → Bool
is_rooted String.[] = false
is_rooted (String.◌∷◌ c s) = eqb (code c) slash

-- path.Clean
unfoldable pub clean : String → String
unfolding clean_parts split is_rooted
clean p = clean_parts (is_rooted p) (split slash p)

-- path.Dir and filepath.Dir: the cleaned text before the last slash.
unfoldable pub dir : String → String
unfolding clean_parts split init is_rooted
dir p = clean_parts (is_rooted p) (init (split slash p))

last_name : String → List String → String
last_name found [] = found
last_name found (s ∷ l) = last_name (if s == "" then found else s) l

-- path.Base and filepath.Base: the last component, trailing slashes removed.
unfoldable pub base : String → String
unfolding last_name split
base p =
    if p == ""
    then "."
    else let name = last_name "" (split slash p) in if name == "" then "/" else name

-- path.Join of two elements.
unfoldable pub join_path : String → String → String
unfolding clean
join_path a b =
    if a == ""
    then (if b == "" then "" else clean b)
    else if b == ""
    then clean a
    else clean (a <> "/" <> b)

digits : ℕ → String → Option ℕ
digits n String.[] = some n
digits n (String.◌∷◌ ch s) =
    let c = code ch in
    let rest = digits (n * 10 + (c - 48)) s in if leb 48 c && leb c 57 then rest else none

bounded : Bool → Option ℕ → Option ℤ
bounded neg none = none
bounded false (some n) = if leb n (2 ^ 63 - 1) then some (pos n) else none
bounded true (some n) =
    if leb n (2 ^ 63) then some (if eqb n 0 then pos 0 else negsuc (n - 1)) else none

unsigned : Bool → String → Option ℤ
unfolding digits bounded
unsigned neg s = if s == "" then none else bounded neg (digits 0 s)

-- strconv.ParseInt(s, 10, 64); `none` is an error.
unfoldable pub parse_int : String → Option ℤ
unfolding unsigned
parse_int String.[] = none
parse_int (String.◌∷◌ c s) =
    if eqb (code c) b'-'
    then unsigned true s
    else if eqb (code c) b'+'
    then unsigned false s
    else unsigned false (String.◌∷◌ c s)

-- strconv.ParseBool; `none` is an error.
unfoldable pub parse_bool : String → Option Bool
parse_bool s =
    if s == "1" || s == "t" || s == "T" || s == "true" || s == "TRUE" || s == "True"
    then some true
    else if s == "0" || s == "f" || s == "F" || s == "false" || s == "FALSE" || s == "False"
    then some false
    else none

digit : ℕ → List String → String
digit n [] = ""
digit zero (t ∷ texts) = t
digit (suc n) (t ∷ texts) = digit n texts

abbrev numerals : List String
numerals = "0" ∷ "1" ∷ "2" ∷ "3" ∷ "4" ∷ "5" ∷ "6" ∷ "7" ∷ "8" ∷ "9" ∷ []

-- The decimal digits of a number before `rest`; there are fewer of them than `fuel`.
format_digits : ℕ → ℕ → String → String
unfolding digit
format_digits zero n rest = rest
format_digits (suc fuel) n rest =
    let text = digit (n % 10) numerals <> rest in
    let more = format_digits fuel (n / 10) text in if ltb n 10 then text else more

-- strconv.FormatInt(i, 10)
unfoldable pub format_int : ℤ → String
unfolding format_digits
format_int (pos n) = format_digits (suc n) n ""
format_int (negsuc n) = "-" <> format_digits (suc (suc n)) (suc n) ""
