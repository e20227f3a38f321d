-- ===== src/Router/Text.antt =====
-- The functions of packages `strings` and `regexp` that internal/router/router.go calls, and
-- `patternToRegex`.
use api_gateway_go.Base.{
  ℕ, zero, suc, ◌+◌, ◌-◌, ◌≡◌, ◌≢◌, refl, Bool, true, false, ◌&&◌, ◌||◌, Option, none, some, List,
  [], ◌∷◌, ◌++◌, map, Bytes, codes, eqb, leb, if◌then◌else◌, length, arith,
}

-- `strings.HasPrefix(s, p)`
unfoldable pub prefix? : Bytes → Bytes → Bool
prefix? [] s = true
prefix? (a ∷ p) [] = false
prefix? (a ∷ p) (b ∷ s) = eqb a b && prefix? p s

-- `strings.Contains(s, p)`
unfoldable pub infix? : Bytes → Bytes → Bool
unfolding prefix?
infix? p [] = prefix? p []
infix? p (b ∷ s) = prefix? p (b ∷ s) || infix? p s

-- `strings.Count(s, c)` for a text of one byte
unfoldable pub count : ℕ → Bytes → ℕ
count c [] = 0
count c (b ∷ s) = let rest = count c s in if eqb b c then suc rest else rest

upper : ℕ → ℕ
upper c = if leb b'a' c && leb c b'z' then c - 32 else c

unfoldable pub to_upper : Bytes → Bytes
unfolding upper
to_upper s = map upper s

-- `strings.ReplaceAll` for a nonempty `old`: after a match, its remaining bytes are skipped.
unfoldable pub replace_from : Bytes → Bytes → ℕ → Bytes → Bytes
replace_from old new skip [] = []
replace_from old new (suc skip) (b ∷ s) = replace_from old new skip s
replace_from old new zero (b ∷ s) =
    let matched = new ++ replace_from old new (length old - 1) s in
    let copied = b ∷ replace_from old new 0 s in if prefix? old (b ∷ s) then matched else copied

unfoldable pub replace_all : Bytes → Bytes → Bytes → Bytes
replace_all old new s = replace_from old new 0 s

unfoldable pub has_byte : ℕ → Bytes → Bool
has_byte c [] = false
has_byte c (b ∷ s) = eqb b c || has_byte c s

abbrev backslash : ℕ
backslash = 92

-- The bytes that `regexp.QuoteMeta` escapes.
abbrev pub meta_bytes : Bytes
meta_bytes = backslash ∷ codes ".+*?()|[]{}^$"

unfoldable pub quote_meta : Bytes → Bytes
unfolding has_byte
quote_meta [] = []
quote_meta (b ∷ s) =
    let rest = quote_meta s in if has_byte b meta_bytes then backslash ∷ b ∷ rest else b ∷ rest

is_letter : ℕ → Bool
is_letter c = (leb b'a' c && leb c b'z') || ((leb b'A' c && leb c b'Z') || eqb c b'_')

is_word : ℕ → Bool
unfolding is_letter
is_word c = is_letter c || (leb b'0' c && leb c b'9')

-- The bytes of the class [a-zA-Z0-9_] that the text begins with.
word : Bytes → Bytes
unfolding is_word
word [] = []
word (b ∷ s) = let rest = word s in if is_word b then b ∷ rest else []

abbrev drop : ℕ → Bytes → Bytes
drop zero s = s
drop (suc n) [] = []
drop (suc n) (b ∷ s) = drop n s

-- A name [a-zA-Z_][a-zA-Z0-9_]* that the terminator follows, at the start of the text.
name_before : Bytes → Bytes → Option Bytes
unfolding word is_letter prefix?
name_before end [] = none
name_before end (b ∷ s) =
    let name = b ∷ word s in
    if is_letter b && prefix? end (drop (length (word s)) s) then some name else none

-- The capture of `\{([a-zA-Z_][a-zA-Z0-9_]*)\}` at the start of the text.
param_at : Bytes → Option Bytes
unfolding name_before
param_at [] = none
param_at (b ∷ s) = if eqb b b'{' then name_before (codes "}") s else none

-- The names that `FindAllStringSubmatch` collects: after a match, the scan goes on behind it.
unfoldable pub names_from : ℕ → Bytes → List Bytes
unfolding param_at
names_from skip [] = []
names_from (suc skip) (b ∷ s) = names_from skip s
names_from zero (b ∷ s) =
    let plain = names_from 0 s in
    elim (param_at (b ∷ s)) [ none ↦ plain | some name ↦ name ∷ names_from (length name + 1) s ]

unfoldable pub param_names : Bytes → List Bytes
param_names pattern = names_from 0 pattern

-- The match of the expression for a quoted placeholder: a backslash, an opening brace, a name, a
-- backslash and a closing brace. It gives the name.
quoted_param_at : Bytes → Option Bytes
unfolding name_before
quoted_param_at [] = none
quoted_param_at (a ∷ []) = none
quoted_param_at (a ∷ b ∷ s) =
    if eqb a backslash && eqb b b'{' then name_before (backslash ∷ codes "}") s else none

unfoldable pub replace_params_from : ℕ → Bytes → Bytes
unfolding quoted_param_at
replace_params_from skip [] = []
replace_params_from (suc skip) (b ∷ s) = replace_params_from skip s
replace_params_from zero (b ∷ s) =
    let plain = b ∷ replace_params_from 0 s in
    elim (quoted_param_at (b ∷ s)) [
      | none ↦ plain
      | some name ↦ codes "([^/]+)" ++ replace_params_from (length name + 3) s
    ]

-- `paramReplaceRegex.ReplaceAllString(result, "([^/]+)")`
unfoldable pub replace_params : Bytes → Bytes
replace_params s = replace_params_from 0 s

-- `patternToRegex`: the expression without its anchors, and the parameter names.
unfoldable pub pattern_to_regex : Bytes → Bytes × List Bytes
pattern_to_regex pattern =
    let quoted = quote_meta pattern in
    let params = replace_params quoted in
    let double = replace_all (backslash ∷ b'*' ∷ backslash ∷ b'*' ∷ []) (codes ".*") params in
    (replace_all (backslash ∷ b'*' ∷ []) (codes "[^/]*") double, param_names pattern)

pattern_to_regex_wildcards :
    (pattern_to_regex (codes "/a.b/*/**")).0 ≡ codes "/a" ++ backslash ∷ codes ".b/[^/]*/.*"
unfolding pattern_to_regex quote_meta replace_params replace_params_from replace_all replace_from
    prefix? param_names names_from
pattern_to_regex_wildcards = refl

pattern_to_regex_params :
    pattern_to_regex (codes "/u/{id}/{x1}")
    ≡ (codes "/u/([^/]+)/([^/]+)", codes "id" ∷ codes "x1" ∷ [])
unfolding pattern_to_regex quote_meta replace_params replace_params_from replace_all replace_from
    prefix? param_names names_from
pattern_to_regex_params = refl

-- A byte that occurs nowhere is not written by `QuoteMeta` either, unless it is the backslash.
quote_meta-has_byte :
    (c : ℕ) (s : Bytes) → c ≢ backslash → has_byte c s ≡ false → has_byte c (quote_meta s) ≡ false
unfolding quote_meta has_byte
quote_meta-has_byte c [] ne h = refl
quote_meta-has_byte c (b ∷ s) ne h = ground (arith, quote_meta-has_byte c s ne)

-- Nothing is replaced where the second byte of the searched text does not occur.
replace_from-absent :
    (a c : ℕ) (o new s : Bytes) → has_byte c s ≡ false → replace_from (a ∷ c ∷ o) new 0 s ≡ s
unfolding replace_from prefix? has_byte
replace_from-absent a c o new [] h = refl
replace_from-absent a c o new (x ∷ []) h = ground arith
replace_from-absent a c o new (x ∷ y ∷ s) h = ground (arith, replace_from-absent a c o new (y ∷ s))

replace_params_from-absent : (s : Bytes) → has_byte b'{' s ≡ false → replace_params_from 0 s ≡ s
unfolding replace_params_from quoted_param_at has_byte
replace_params_from-absent [] h = refl
replace_params_from-absent (x ∷ []) h = refl
replace_params_from-absent (x ∷ y ∷ s) h = ground (arith, replace_params_from-absent (y ∷ s))

names_from-absent : (s : Bytes) → has_byte b'{' s ≡ false → names_from 0 s ≡ []
unfolding names_from param_at has_byte
names_from-absent [] h = refl
names_from-absent (x ∷ s) h = ground (arith, names_from-absent s)

-- A pattern without braces and stars becomes its own quotation, with no parameter.
pub pattern_to_regex_exact :
    (pattern : Bytes)
    → has_byte b'{' pattern ≡ false
    → has_byte b'*' pattern ≡ false
    → pattern_to_regex pattern ≡ (quote_meta pattern, [])
unfolding pattern_to_regex replace_params replace_all param_names
pattern_to_regex_exact pattern brace star =
    let no_brace = quote_meta-has_byte b'{' pattern (omega arith) brace in
    let no_star = quote_meta-has_byte b'*' pattern (omega arith) star in
    rw (replace_params_from-absent (quote_meta pattern) no_brace) (
      rw
        (replace_from-absent backslash b'*' (backslash ∷ b'*' ∷ []) (codes ".*")
          (quote_meta pattern) no_star)
        (rw (replace_from-absent backslash b'*' [] (codes "[^/]*") (quote_meta pattern) no_star)
          (rw (names_from-absent pattern brace))))
