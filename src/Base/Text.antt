-- ===== src/Base/Text.antt =====
-- Tests of texts.
use Prim.Native.String.{String, [], ◌∷◌}
use Prim.Native.Char.{Char, code}
use Prim.Native.Nat.{ℕ, zero, suc, ◌+◌, ◌-◌, ◌*◌}
use mathlib.Core.Option.{Option, none, some}
use mathlib.Core.Bool.{Bool, true, false, ◌&&◌, ◌||◌}
use luminair_service_aws_dsq.Base.Int.{ℤ, pos, negsuc}
use luminair_service_aws_dsq.Base.Lists.{leb}
use luminair_service_aws_dsq.Base.Equality.{◌==◌, nat_eq, string_eq, if◌then◌else◌}

-- `str::ends_with`
unfoldable pub ends_with : String → String → Bool
ends_with [] suffix = "" == suffix
ends_with (c ∷ s) suffix = let rest = ends_with s suffix in (c ∷ s) == suffix || rest

-- `str::starts_with`
unfoldable pub starts_with : String → String → Bool
starts_with s [] = true
starts_with [] (_ ∷ _) = false
starts_with (c ∷ s) (d ∷ prefix) = code c == code d && starts_with s prefix

-- The character at the place in `tos` that the given one has in `froms`, if it is there.
abbrev translate : String → String → Char → Char
translate [] tos c = c
translate (_ ∷ _) [] c = c
translate (f ∷ froms) (t ∷ tos) c = if code c == code f then t else translate froms tos c

-- `str::to_ascii_lowercase`
unfoldable pub to_ascii_lowercase : String → String
to_ascii_lowercase [] = []
to_ascii_lowercase (c ∷ s) =
    translate "ABCDEFGHIJKLMNOPQRSTUVWXYZ" "abcdefghijklmnopqrstuvwxyz" c ∷ to_ascii_lowercase s

-- `str::replace` of a character by another.
unfoldable pub substitute : Char → Char → Char → Char
substitute old new c = if code c == code old then new else c

unfoldable pub replace : Char → Char → String → String
replace old new [] = []
replace old new (c ∷ s) = substitute old new c ∷ replace old new s

-- Whether a character occurs in a text.
unfoldable pub contains_char : Char → String → Bool
contains_char d [] = false
contains_char d (c ∷ s) = code c == code d || contains_char d s

-- The digits of a decimal numeral, after those that make up `acc`.
abbrev parse_digits : ℕ → String → Option ℕ
parse_digits acc [] = some acc
parse_digits acc (c ∷ s) =
    if leb 48 (code c) && leb (code c) 57 then parse_digits (10 * acc + (code c - 48)) s else none

abbrev parse_numeral : String → Option ℕ
parse_numeral [] = none
parse_numeral (c ∷ s) = parse_digits 0 (c ∷ s)

abbrev parse_magnitude : String → Option ℕ
parse_magnitude [] = none
parse_magnitude (c ∷ s) = if code c == code "+" then parse_numeral s else parse_numeral (c ∷ s)

abbrev in_range : ℕ → Option ℕ → Option ℕ
in_range bound none = none
in_range bound (some n) = if leb n bound then some n else none

-- `parse::<usize>()`, of 64 bits
unfoldable pub parse_usize : String → Option ℕ
parse_usize s = in_range 18_446_744_073_709_551_615 (parse_magnitude s)

abbrev negated : Option ℕ → Option ℤ
negated none = none
negated (some zero) = some (pos 0)
negated (some (suc n)) = some (negsuc n)

abbrev signed : Option ℕ → Option ℤ
signed none = none
signed (some n) = some (pos n)

-- `parse::<i64>()`
unfoldable pub parse_i64 : String → Option ℤ
parse_i64 [] = none
parse_i64 (c ∷ s) =
    if code c == code "-"
    then negated (in_range 9_223_372_036_854_775_808 (parse_numeral s))
    else signed (in_range 9_223_372_036_854_775_807 (parse_magnitude (c ∷ s)))

-- `char::is_whitespace`: the characters with the property White_Space.
abbrev is_whitespace : Char → Bool
is_whitespace c =
    let n = code c in
    leb 9 n && leb n 13
    || (n == 32
        || (n == 133
            || (n == 160
                || (n == 5760
                    || (leb 8192 n && leb n 8202
                        || (n == 8232
                            || (n == 8233 || (n == 8239 || (n == 8287 || n == 12288)))))))))

abbrev trim_start : String → String
trim_start [] = []
trim_start (c ∷ s) = if is_whitespace c then trim_start s else c ∷ s

abbrev keep_unless_blank : Char → String → String
keep_unless_blank c [] = if is_whitespace c then [] else c ∷ []
keep_unless_blank c (d ∷ s) = c ∷ d ∷ s

abbrev trim_end : String → String
trim_end [] = []
trim_end (c ∷ s) = keep_unless_blank c (trim_end s)

-- `str::trim`
unfoldable pub trim : String → String
trim s = trim_end (trim_start s)
