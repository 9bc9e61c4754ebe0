-- ===== src/Db/SectionSettings/Laws.antt =====
-- How the reads of internal/db/sectionsettings/store.go see its writes.
use osm_device_adapter.Prelude.{
  ◌≡◌, refl, sym, ap, ◌∙◌, String, Bool, true, false, ◌&&◌, Option, none, some, [], ◌∷◌, arith,
  if◌then◌else◌, find?, if_split, subst,
}
use mathlib.Core.Option
use osm_device_adapter.Prelude.Int.{ℤ, eq_ℤ, eq_ℤ-path, eq_ℤ_comm}
use osm_device_adapter.Prelude.Dict.{Dict}
use osm_device_adapter.Db.SectionSettings.{
  SettingsColumn, SectionSettings, SettingsTable, is_for, get_settings, parsed_settings, parsed_row,
  get_parsed, marshalled, upsert, upsert_parsed, upsert_patrol_colors,
}

both : (a b : Bool) → (a && b) ≡ true → (a ≡ true) × (b ≡ true)
both true b h = (refl, h)
both false b h = cc

parsed-marshalled : (colors : Dict String) → parsed_settings (marshalled colors) ≡ some colors
parsed-marshalled [] = refl
parsed-marshalled (c ∷ cs) = refl

-- A row for one user and section is for another, if these are the same.
is_for_other :
    (user section u n : ℤ) (s : SectionSettings)
    → is_for user section s ≡ true
    → is_for u n s ≡ (eq_ℤ user u && eq_ℤ section n)
is_for_other user section u n s hit =
    let (users, sections) = both (eq_ℤ s.osm_user_id user) (eq_ℤ s.section_id section) hit in
    ap (λ x. eq_ℤ x u && eq_ℤ s.section_id n) (eq_ℤ-path s.osm_user_id user users)
    ∙ ap (λ x. eq_ℤ user u && eq_ℤ x n) (eq_ℤ-path s.section_id section sections)

-- The three places of the row that an upsert writes.
if_new :
    (b : Bool) (new : SectionSettings)
    → Option.map (λ (r : SectionSettings). r.settings) (if b then some new else none)
      ≡ (if b then some new.settings else none)
if_new true new = refl
if_new false new = refl

if_hit :
    (b : Bool) (new s : SectionSettings) (later : Option SectionSettings)
    → Option.map
        (λ (r : SectionSettings). r.settings)
        (if b then some (record s { settings = new.settings }) else later)
      ≡ (if b
          then some new.settings
          else Option.map (λ (r : SectionSettings). r.settings) (if b then some s else later))
if_hit true new s later = refl
if_hit false new s later = refl

if_missed :
    (hit for_new : Bool) (new s : SectionSettings) (later old : Option SectionSettings)
    → (hit ≡ true → for_new ≡ false)
    → Option.map (λ (r : SectionSettings). r.settings) later ≡ (
        if for_new then some new.settings else Option.map (λ (r : SectionSettings). r.settings) old)
    → Option.map (λ (r : SectionSettings). r.settings) (if hit then some s else later) ≡ (
        if for_new
        then some new.settings
        else Option.map (λ (r : SectionSettings). r.settings) (if hit then some s else old))
if_missed true true new s later old never same = let no = never refl in cc
if_missed true false new s later old never same = refl
if_missed false for_new new s later old never same = same

-- The column that is found after an upsert.
get_settings-upsert :
    (new : SectionSettings) (user section : ℤ) (table : SettingsTable)
    → Option.map (λ s. s.settings) (get_settings user section (upsert new table)) ≡ (
        if eq_ℤ new.osm_user_id user && eq_ℤ new.section_id section
        then some new.settings
        else Option.map (λ s. s.settings) (get_settings user section table))
unfolding get_settings upsert
get_settings-upsert new user section [] =
    if_new (eq_ℤ new.osm_user_id user && eq_ℤ new.section_id section) new
get_settings-upsert new user section (s ∷ ss) =
    let for_new = eq_ℤ new.osm_user_id user && eq_ℤ new.section_id section in
    let later = get_settings-upsert new user section ss in
    if_split
      (λ (t : SettingsTable). Option.map (λ r. r.settings) (find? (is_for user section) t) ≡ (
        if for_new
        then some new.settings
        else Option.map (λ r. r.settings)
            (if is_for user section s then some s else find? (is_for user section) ss)))
      (is_for new.osm_user_id new.section_id s)
      (λ hit.
        subst
          (λ c.
            Option.map (λ r. r.settings)
              (if c
                then some (record s { settings = new.settings })
                else find? (is_for user section) ss)
            ≡ (if for_new
                then some new.settings
                else Option.map (λ r. r.settings)
                    (if c then some s else find? (is_for user section) ss)))
          (sym (is_for_other new.osm_user_id new.section_id user section s hit))
          (if_hit for_new new s (find? (is_for user section) ss)))
      (λ missed.
        if_missed (is_for user section s) for_new new s
          (find? (is_for user section) (upsert new ss)) (find? (is_for user section) ss)
          (λ hit.
            ap (λ b. b && eq_ℤ new.section_id section) (eq_ℤ_comm new.osm_user_id user)
            ∙ ap (λ b. eq_ℤ user new.osm_user_id && b) (eq_ℤ_comm new.section_id section)
            ∙ sym (is_for_other user section new.osm_user_id new.section_id s hit)
            ∙ missed)
          later)

abbrev parsed_column : Option SettingsColumn → Option (Dict String)
parsed_column none = some []
parsed_column (some c) = parsed_settings c

parsed_row-settings :
    (o : Option SectionSettings)
    → parsed_row o ≡ parsed_column (Option.map (λ (s : SectionSettings). s.settings) o)
parsed_row-settings none = refl
parsed_row-settings (some s) = refl

if_for :
    (b : Bool) (colors : Dict String) (o : Option SectionSettings)
    → parsed_column
        (if b then some (marshalled colors) else Option.map (λ (s : SectionSettings). s.settings) o)
      ≡ (if b then some colors else parsed_row o)
if_for true colors o = parsed-marshalled colors
if_for false colors o = sym (parsed_row-settings o)

-- What is stored is read back: after the colours of a section have been saved, they are what its
-- user reads, and every other user and section reads what it read before.
pub get_parsed-upsert_patrol_colors :
    (read write : Bool) (user section u n : ℤ) (colors : Dict String) (table rows : SettingsTable)
    → upsert_patrol_colors read write user section colors table ≡ some rows
    → get_parsed false u n rows
      ≡ (if eq_ℤ user u && eq_ℤ section n then some colors else get_parsed false u n table)
unfolding upsert_patrol_colors get_parsed
get_parsed-upsert_patrol_colors read write user section u n colors table rows h =
    let new : SectionSettings = record {
      osm_user_id = user;
      section_id = section;
      settings = marshalled colors;
    } in
    ap (λ t. parsed_row (get_settings u n t)) (upserted (get_parsed read user section table) h)
    ∙ parsed_row-settings (get_settings u n (upsert new table))
    ∙ ap parsed_column (get_settings-upsert new u n table)
    ∙ if_for (eq_ℤ user u && eq_ℤ section n) colors (get_settings u n table)
  where
    upserted :
        (o : Option (Dict String))
        → upsert_parsed write user section colors table o ≡ some rows
        → rows
          ≡ upsert
              (record { osm_user_id = user; section_id = section; settings = marshalled colors })
              table
    upserted none h = cc
    upserted (some old) h = ground (arith, h)
