-- ===== src/Admin/Paths.antt =====
-- The parameter in the paths of the admin pages: `strings.HasPrefix`, `strings.HasSuffix` and the
-- slice between them, as internal/handlers/admin_api.go, admin_scoreboards.go and admin_timer.go
-- write them.
use Prim.Native.String.{◌++◌ as append, len, slice}
use text.Mathlib.Text.{starts_with}
use text.Mathlib.TextLemmas.{append_assoc}
use text.Mathlib.TextPositions.{
  len-append, slice-append_right, slice-append_middle, starts_with-append,
}
use osm_device_adapter.Prelude.{
  ◌+◌, ◌-◌, ◌<◌, ◌≡◌, subst, String, Bool, true, false, not, ◌&&◌, ◌||◌, arith, ltb, leb, str_eq,
  eq_refl, if◌then◌else◌,
}

unfoldable pub ends_with : String → String → Bool
ends_with text suffix =
    leb (len suffix) (len text) && str_eq (slice text (len text - len suffix) (len text)) suffix

-- `out_of_range` is the run-time panic of a slice whose end comes before its start.
pub data PathPart : Type 0 where
  no_match out_of_range : PathPart
  part : String → PathPart

unfoldable pub path_part : String → String → String → PathPart
unfolding ends_with
path_part prefix suffix path =
    if not (starts_with path prefix) || not (ends_with path suffix)
    then no_match
    else if ltb (len path) (len prefix + len suffix)
    then out_of_range
    else part (slice path (len prefix) (len path - len suffix))

ends_with-append : (s t : String) → ends_with (append s t) t ≡ true
unfolding ends_with
ends_with-append s t =
    let start : len s + len t - len t ≡ len s = omega arith in
    let long : leb (len t) (len s + len t) ≡ true = ground arith in
    rw (len-append s t, long, start, slice-append_right s t, eq_refl t)

-- The parameter between a prefix and a suffix is read back.
pub path_part-append :
    (prefix t suffix : String) → path_part prefix suffix (append prefix (append t suffix)) ≡ part t
unfolding path_part
path_part-append prefix t suffix =
    let path = append prefix (append t suffix) in
    let starts : starts_with path prefix ≡ true = starts_with-append prefix (append t suffix) in
    let ends : ends_with path suffix ≡ true =
      subst (λ whole. ends_with whole suffix ≡ true) (append_assoc prefix t suffix)
        (ends_with-append (append prefix t) suffix) in
    let total : len path ≡ len prefix + len t + len suffix =
      omega (arith, len-append prefix (append t suffix), len-append t suffix) in
    let fits : ltb (len path) (len prefix + len suffix) ≡ false = ground (arith, total) in
    let end : len path - len suffix ≡ len prefix + len t = omega (arith, total) in
    rw (starts, ends, fits, end, slice-append_middle prefix t suffix)

-- Where the prefix and the suffix overlap in the path, as in `/api/admin/sections/scores`, the
-- slice is out of range: the handler panics.
pub path_part-overlaps :
    (prefix suffix path : String)
    → starts_with path prefix ≡ true
    → ends_with path suffix ≡ true
    → len path < len prefix + len suffix
    → path_part prefix suffix path ≡ out_of_range
unfolding path_part
path_part-overlaps prefix suffix path starts ends short =
    let cut : ltb (len path) (len prefix + len suffix) ≡ true = ground (arith, short) in
    rw (starts, ends, cut)
