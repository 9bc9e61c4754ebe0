-- ===== src/Db/SectionSettings.antt =====
-- internal/db/sectionsettings/store.go: the settings that a user has for a section.
pub mod Laws
use osm_device_adapter.Prelude.{
  ℕ, String, Bool, true, false, not, ◌&&◌, Option, none, some, List, [], ◌∷◌, if◌then◌else◌, find?,
  filter,
}
use osm_device_adapter.Prelude.Int.{ℤ, eq_ℤ}
use osm_device_adapter.Prelude.Dict.{Dict}

-- What the JSON column has: nothing, a text that does not decode, or an object. Of the object,
-- the field `patrolColors` (none where it is missing or null) and the other fields, as they stand.
pub data SettingsColumn : Type 0 where
  no_settings broken : SettingsColumn
  object : Option (Dict String) → Dict String → SettingsColumn

pub record SectionSettings : Type 0 where
  pub osm_user_id : ℤ
  pub section_id : ℤ
  pub settings : SettingsColumn

abbrev pub SettingsTable : Type 0
SettingsTable = List SectionSettings

abbrev pub is_for : ℤ → ℤ → SectionSettings → Bool
is_for user section s = eq_ℤ s.osm_user_id user && eq_ℤ s.section_id section

unfoldable pub get_settings : ℤ → ℤ → SettingsTable → Option SectionSettings
get_settings user section table = find? (is_for user section) table

-- `json.Unmarshal` into `SettingsJSON`, which has only the colours; none is its error.
abbrev pub colors_or_empty : Option (Dict String) → Dict String
colors_or_empty none = []
colors_or_empty (some colors) = colors

abbrev pub parsed_settings : SettingsColumn → Option (Dict String)
parsed_settings no_settings = some []
parsed_settings broken = none
parsed_settings (object colors others) = some (colors_or_empty colors)

abbrev parsed_row : Option SectionSettings → Option (Dict String)
parsed_row none = some []
parsed_row (some s) = parsed_settings s.settings

-- `GetParsed`; `fault` is the database's error.
unfoldable pub get_parsed : Bool → ℤ → ℤ → SettingsTable → Option (Dict String)
get_parsed fault user section table =
    if fault then none else parsed_row (get_settings user section table)

-- `json.Marshal` of `SettingsJSON`: an empty map is left out.
abbrev pub marshalled : Dict String → SettingsColumn
marshalled [] = object none []
marshalled (c ∷ cs) = object (some (c ∷ cs)) []

-- `ON CONFLICT ... DO UPDATE`
unfoldable pub upsert : SectionSettings → SettingsTable → SettingsTable
upsert new [] = new ∷ []
upsert new (s ∷ ss) =
    let rest = upsert new ss in
    if is_for new.osm_user_id new.section_id s
    then record s { settings = new.settings } ∷ ss
    else s ∷ rest

abbrev upsert_parsed :
    Bool → ℤ → ℤ → Dict String → SettingsTable → Option (Dict String) → Option SettingsTable
upsert_parsed fault user section colors table none = none
upsert_parsed fault user section colors table (some old) =
    if fault
    then none
    else some (
        upsert (record { osm_user_id = user; section_id = section; settings = marshalled colors })
          table)

-- `UpsertPatrolColors`: none is an error, which leaves the table.
unfoldable pub upsert_patrol_colors :
    (read : Bool) → (write : Bool) → ℤ → ℤ → Dict String → SettingsTable → Option SettingsTable
upsert_patrol_colors read write user section colors table =
    upsert_parsed write user section colors table (get_parsed read user section table)

unfoldable pub delete_settings : ℤ → ℤ → SettingsTable → SettingsTable
delete_settings user section table = filter (λ s. not (is_for user section s)) table
