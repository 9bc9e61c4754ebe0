-- ===== src/DeviceFlow/UserCode/Laws.antt =====
-- What `normalizeUserCode` makes of a text, and that generated codes survive it.
use osm_device_adapter.Prelude.{
  ℕ, zero, suc, ◌<◌, ◌≡◌, refl, ap, ◌∙◌, sym, subst, ◌⊎◌, inl, inr, Bool, true, not, none, some,
  List, [], ◌∷◌, ◌++◌, arith, ◌==◌, length, take, drop, filter, all, get_elem?,
}
use osm_device_adapter.DeviceFlow.UserCode.{
  to_upper, is_alnum, hyphenate, upper_all, clean, normalize_user_code, charset, Draws, draw_char,
  prepend, draw_code, generate_user_code, strip_hyphens, found, user_code_query, trim_d,
  redirect_to, redirect_code, short_code_redirect,
}

-- Four capital letters or digits, a dash, and four more.
pub data IsUserCode : List ℕ → Type 0 where
  of_raw : (raw : List ℕ) → length raw ≡ 8 → all is_alnum raw ≡ true → IsUserCode (hyphenate raw)

module _ (p : ℕ → Bool) where
  all-filter : (xs : List ℕ) → all p (filter p xs) ≡ true
  all-filter [] = refl
  all-filter (x ∷ xs) = ground (arith, all-filter xs)

  filter-append : (xs ys : List ℕ) → filter p (xs ++ ys) ≡ filter p xs ++ filter p ys
  filter-append [] ys = refl
  filter-append (x ∷ xs) ys = ground (arith, filter-append xs ys)

  filter-all : (xs : List ℕ) → all p xs ≡ true → filter p xs ≡ xs
  filter-all [] h = refl
  filter-all (x ∷ xs) h = ground (arith, filter-all xs)

upper_all-append : (xs ys : List ℕ) → upper_all (xs ++ ys) ≡ upper_all xs ++ upper_all ys
unfolding upper_all
upper_all-append [] ys = refl
upper_all-append (x ∷ xs) ys = ap (◌∷◌ (to_upper x)) (upper_all-append xs ys)

clean-append : (xs ys : List ℕ) → clean (xs ++ ys) ≡ clean xs ++ clean ys
unfolding clean
clean-append xs ys =
    ap (filter is_alnum) (upper_all-append xs ys)
    ∙ filter-append is_alnum (upper_all xs) (upper_all ys)

to_upper-alnum : (c : ℕ) → is_alnum c ≡ true → to_upper c ≡ c
unfolding to_upper is_alnum
to_upper-alnum c h = ground arith

upper_all-alnum : (xs : List ℕ) → all is_alnum xs ≡ true → upper_all xs ≡ xs
unfolding upper_all
upper_all-alnum [] h = refl
upper_all-alnum (x ∷ xs) h = ground (arith, to_upper-alnum x, upper_all-alnum xs)

clean-alnum : (xs : List ℕ) → all is_alnum xs ≡ true → clean xs ≡ xs
unfolding clean
clean-alnum xs h = rw (upper_all-alnum xs h) (filter-all is_alnum xs h)

clean_dash : (ys : List ℕ) → clean (b'-' ∷ ys) ≡ clean ys
unfolding clean upper_all to_upper is_alnum
clean_dash ys = refl

take-append-drop : (n : ℕ) (xs : List ℕ) → take n xs ++ drop n xs ≡ xs
take-append-drop zero xs = refl
take-append-drop (suc n) [] = refl
take-append-drop (suc n) (x ∷ xs) = ap (◌∷◌ x) (take-append-drop n xs)

clean-hyphenate : (raw : List ℕ) → clean (hyphenate raw) ≡ clean raw
clean-hyphenate raw =
    clean-append (take 4 raw) (b'-' ∷ drop 4 raw)
    ∙ ap (λ t. clean (take 4 raw) ++ t) (clean_dash (drop 4 raw))
    ∙ sym (clean-append (take 4 raw) (drop 4 raw))
    ∙ ap clean (take-append-drop 4 raw)

normalize-alnum :
    (raw s : List ℕ)
    → length raw ≡ 8
    → all is_alnum raw ≡ true
    → clean s ≡ clean raw
    → normalize_user_code s ≡ some (hyphenate raw)
unfolding normalize_user_code
normalize-alnum raw s n h e = rw (e, clean-alnum raw h, n) refl

normalize-cases :
    (s : List ℕ)
    → (normalize_user_code s ≡ none)
      ⊎ ((length (clean s) ≡ 8) × (normalize_user_code s ≡ some (hyphenate (clean s))))
unfolding normalize_user_code
normalize-cases s = ground arith

all-clean : (s : List ℕ) → all is_alnum (clean s) ≡ true
unfolding clean
all-clean s = all-filter is_alnum (upper_all s)

-- An accepted text gives a code of the form XXXX-XXXX over A-Z0-9, which is its own normal form.
pub normalize_user_code-IsUserCode :
    (s c : List ℕ)
    → normalize_user_code s ≡ some c
    → IsUserCode c × (normalize_user_code c ≡ some c)
normalize_user_code-IsUserCode s c h = elim (normalize-cases s) [
  | inl refused ↦ cc
  | inr (n, e) ↦
      let shape : hyphenate (clean s) ≡ c = cc in
      subst (λ t. IsUserCode t × (normalize_user_code t ≡ some t)) shape
        (
          of_raw (clean s) n (all-clean s),
          normalize-alnum (clean s) (hyphenate (clean s)) n (all-clean s)
              (clean-hyphenate (clean s)),
        )
]

-- The texts that `draw_code` can put together.
abbrev InRange : Draws → Type 0
InRange draws = (i : ℕ) → (idx : ℕ) × (idx < 20) × (draws i ≡ some idx)

get_elem?-all :
    (p : ℕ → Bool) (xs : List ℕ) (i : ℕ)
    → i < length xs
    → all p xs ≡ true
    → (c : ℕ) × (get_elem? xs i ≡ some c) × (p c ≡ true)
get_elem?-all p [] i h q = elim h [ ]
get_elem?-all p (x ∷ xs) zero h q = (x, refl, ground arith)
get_elem?-all p (x ∷ xs) (suc i) h q = get_elem?-all p xs i (omega arith) (ground arith)

charset-alnum : all is_alnum charset ≡ true
unfolding is_alnum
charset-alnum = refl

draw_code_total :
    (left i : ℕ) (draws : Draws)
    → InRange draws
    → (raw : List ℕ) × (draw_code left i draws ≡ some raw)
      × (length raw ≡ left)
      × (all is_alnum raw ≡ true)
unfolding draw_code draw_char
draw_code_total zero i draws h = ([], refl, refl, refl)
draw_code_total (suc left) i draws h =
    let (idx, below, drawn) = h i in
    let (c, at, alnum) = get_elem?-all is_alnum charset idx (omega arith) charset-alnum in
    let (raw, e, n, p) = draw_code_total left (suc i) draws h in
    (c ∷ raw, rw (drawn, e) (ap (λ o. prepend o (some raw)) at), ap suc n, ground arith)

clean-strip_hyphens : (s : List ℕ) → clean (strip_hyphens s) ≡ clean s
unfolding strip_hyphens clean upper_all to_upper is_alnum
clean-strip_hyphens [] = refl
clean-strip_hyphens (c ∷ s) = ground (arith, clean-strip_hyphens s)

strip_hyphens-ne-nil :
    (raw : List ℕ)
    → length raw ≡ 8
    → all is_alnum raw ≡ true
    → (c : ℕ) × (cs : List ℕ) × (strip_hyphens (hyphenate raw) ≡ c ∷ cs)
unfolding strip_hyphens is_alnum
strip_hyphens-ne-nil [] n h = absurd (omega arith)
strip_hyphens-ne-nil (x ∷ xs) n h =
    (x, filter (λ c. not (c == b'-')) (take 3 xs ++ b'-' ∷ drop 3 xs), ground arith)

-- When the random source answers, a user code is generated, of the form XXXX-XXXX; typed back as
-- it is shown, it normalizes to itself.
pub generate_user_code_round_trip :
    (draws : Draws)
    → InRange draws
    → (code : List ℕ) × (generate_user_code draws ≡ some code)
      × IsUserCode code
      × (normalize_user_code code ≡ some code)
unfolding generate_user_code
generate_user_code_round_trip draws h =
    let (raw, e, n, p) = draw_code_total 8 0 draws h in
    (
      hyphenate raw,
      rw e,
      of_raw raw n p,
      normalize-alnum raw (hyphenate raw) n p (clean-hyphenate raw),
    )

-- The path "/d/" with the code less its hyphen.
abbrev pub short_path : List ℕ → List ℕ
short_path code = b'/' ∷ b'd' ∷ b'/' ∷ strip_hyphens code

-- The short link of a user code redirects to the page's path with that code, hyphen restored.
pub short_code_redirect-short_path :
    (device_prefix code : List ℕ)
    → IsUserCode code
    → short_code_redirect device_prefix (short_path code)
      ≡ found (device_prefix ++ user_code_query ++ code)
unfolding short_code_redirect redirect_code redirect_to trim_d
short_code_redirect-short_path device_prefix code (of_raw raw n p) =
    let (c, cs, e) = strip_hyphens-ne-nil raw n p in
    let back =
      normalize-alnum raw (strip_hyphens (hyphenate raw)) n p
        (clean-strip_hyphens (hyphenate raw) ∙ clean-hyphenate raw) in
    rw e (rw (rw e at back))
