-- ===== src/DeviceFlow/UserCode.antt =====
-- User codes: `generateUserCode` and `ShortCodeRedirectHandler` of
-- internal/handlers/device_oauth.go and `normalizeUserCode` of internal/handlers/oauth_web.go.
-- A text is the list of its code points.
pub mod Laws
use osm_device_adapter.Prelude.{
  ℕ, zero, suc, ◌-◌, Bool, not, ◌&&◌, ◌||◌, Option, none, some, List, [], ◌∷◌, ◌++◌, leb, ◌==◌,
  if◌then◌else◌, length, take, drop, filter, get_elem?,
}

-- `strings.ToUpper` on one code point, as far as the filter that follows can tell: besides the
-- small ASCII letters only U+0131 and U+017F have an upper case among A-Z.
to_upper : ℕ → ℕ
to_upper c =
    if leb b'a' c && leb c b'z'
    then c - 32
    else if c == 0x131
    then b'I'
    else if c == 0x17f
    then b'S'
    else c

-- The class `[A-Z0-9]`, whose complement the regular expression removes.
unfoldable pub is_alnum : ℕ → Bool
is_alnum c = leb b'A' c && leb c b'Z' || leb b'0' c && leb c b'9'

-- `raw[:4] + "-" + raw[4:]`
abbrev pub hyphenate : List ℕ → List ℕ
hyphenate raw = take 4 raw ++ b'-' ∷ drop 4 raw

upper_all : List ℕ → List ℕ
unfolding to_upper
upper_all [] = []
upper_all (c ∷ cs) = to_upper c ∷ upper_all cs

clean : List ℕ → List ℕ
unfolding upper_all is_alnum
clean input = filter is_alnum (upper_all input)

-- `none` is the error.
unfoldable pub normalize_user_code : List ℕ → Option (List ℕ)
unfolding clean
normalize_user_code input =
    let cleaned = clean input in
    if not (length cleaned == 8) then none else some (hyphenate cleaned)

-- "BCDFGHJKLMNPQRSTVWXZ"
abbrev pub charset : List ℕ
charset =
    b'B' ∷ b'C' ∷ b'D' ∷ b'F' ∷ b'G' ∷ b'H' ∷ b'J' ∷ b'K' ∷ b'L' ∷ b'M' ∷ b'N' ∷ b'P' ∷ b'Q' ∷ b'R'
    ∷ b'S' ∷ b'T' ∷ b'V' ∷ b'W' ∷ b'X' ∷ b'Z' ∷ []

abbrev code_length : ℕ
code_length = 8

-- What `rand.Int(rand.Reader, max)` gives at the i-th call: an index, or `none` for its error. An
-- index outside of the charset would panic; it is `none` here too.
abbrev pub Draws : Type 0
Draws = ℕ → Option ℕ

draw_char : Option ℕ → Option ℕ
draw_char none = none
draw_char (some idx) = get_elem? charset idx

abbrev prepend : Option ℕ → Option (List ℕ) → Option (List ℕ)
prepend none rest = none
prepend (some c) none = none
prepend (some c) (some cs) = some (c ∷ cs)

-- `left` rounds of the loop, the next of which is round `i`.
draw_code : ℕ → ℕ → Draws → Option (List ℕ)
draw_code zero i draws = some []
draw_code (suc left) i draws = prepend (draw_char (draws i)) (draw_code left (suc i) draws)

abbrev map_hyphenate : Option (List ℕ) → Option (List ℕ)
map_hyphenate none = none
map_hyphenate (some raw) = some (hyphenate raw)

pub generate_user_code : Draws → Option (List ℕ)
generate_user_code draws = map_hyphenate (draw_code code_length 0 draws)

-- `strings.ReplaceAll(userCode, "-", "")`
pub strip_hyphens : List ℕ → List ℕ
strip_hyphens code = filter (λ c. not (c == b'-')) code

pub data Redirect : Type 0 where
  invalid_short_code invalid_format : Redirect
  found : List ℕ → Redirect

-- `strings.TrimPrefix(path, "/d/")`, and `none` where the prefix is not there, which the handler
-- sees by `code == r.URL.Path`.
trim_d : List ℕ → Option (List ℕ)
trim_d (a ∷ b ∷ c ∷ rest) = if a == b'/' && b == b'd' && c == b'/' then some rest else none
trim_d _ = none

-- "?user_code="
abbrev pub user_code_query : List ℕ
user_code_query = b'?' ∷ b'u' ∷ b's' ∷ b'e' ∷ b'r' ∷ b'_' ∷ b'c' ∷ b'o' ∷ b'd' ∷ b'e' ∷ b'=' ∷ []

redirect_to : List ℕ → Option (List ℕ) → Redirect
redirect_to device_prefix none = invalid_format
redirect_to device_prefix (some code) = found (device_prefix ++ user_code_query ++ code)

redirect_code : List ℕ → Option (List ℕ) → Redirect
redirect_code device_prefix none = invalid_short_code
redirect_code device_prefix (some []) = invalid_short_code
redirect_code device_prefix (some (c ∷ cs)) =
    redirect_to device_prefix (normalize_user_code (c ∷ cs))

pub short_code_redirect : List ℕ → List ℕ → Redirect
short_code_redirect device_prefix path = redirect_code device_prefix (trim_d path)
