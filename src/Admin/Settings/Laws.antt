-- ===== src/Admin/Settings/Laws.antt =====
-- What the settings pages of internal/handlers/admin_api.go keep.
use osm_device_adapter.Prelude.{◌≡◌, String, true, false, none, some, List, ◌∷◌, map, arith, str_eq}
use osm_device_adapter.Prelude.Int.{ℤ, eq_ℤ-refl}
use osm_device_adapter.Prelude.Dict.{Dict}
use osm_device_adapter.Db.Models.{WebSession}
use osm_device_adapter.Db.SectionSettings.{SettingsTable, upsert_patrol_colors}
use osm_device_adapter.Db.SectionSettings.Laws.{get_parsed-upsert_patrol_colors}
use osm_device_adapter.Osm.Types.{PatrolScore}
use osm_device_adapter.Admin.Replies.{json, AdminRequest, validate_csrf_token}
use osm_device_adapter.Admin.Scores.{Numerals, ScoreService}
use osm_device_adapter.Admin.Settings.{
  SettingsWorld, SettingsFaults, answers, first_bad, bad_color, color_error, info_of,
  handle_get_settings, handle_update_settings, handle_update_adhoc_settings, recolored_number,
}

csrf_tests :
    (r : AdminRequest) (s : WebSession)
    → validate_csrf_token r s ≡ none
    → (str_eq r.x_csrf_token "" ≡ false) × (str_eq r.x_csrf_token s.csrf_token ≡ true)
unfolding validate_csrf_token
csrf_tests r s token = (ground (arith, token), ground (arith, token))

-- The colours that a user saves for a section are the ones that the page of the section then
-- shows him, beside the patrols that OSM has.
pub handle_get_settings-update :
    (numerals : Numerals) (faults later : SettingsFaults) (service : ScoreService)
    (r : AdminRequest) (s : WebSession) (section term : ℤ) (colors : Dict String)
    (patrols : List PatrolScore) (w : SettingsWorld) (rows : SettingsTable)
    → validate_csrf_token r s ≡ none
    → first_bad colors ≡ none
    → upsert_patrol_colors faults.read faults.write s.osm_user_id section colors w.settings
      ≡ some rows
    → service.term section ≡ some term
    → service.patrols section term ≡ some patrols
    → later.read ≡ false
    → (handle_get_settings numerals later service s section
        (handle_update_settings numerals faults service r s section (some colors) w).0).1
      ≡ answers (
          json 200 (record {
            section_id = section;
            patrol_colors = colors;
            patrols = map (info_of numerals later service) patrols;
          }))
handle_get_settings-update numerals faults later service r s section term colors patrols w rows
      token good saved has_term has_patrols reads =
    let tested = csrf_tests r s token in
    let back =
      get_parsed-upsert_patrol_colors faults.read faults.write s.osm_user_id section s.osm_user_id
        section colors w.settings rows saved in
    rw (
      tested.0,
      tested.1,
      good,
      saved,
      has_term,
      has_patrols,
      reads,
      back,
      eq_ℤ-refl s.osm_user_id,
      eq_ℤ-refl section,
    )

-- A bad colour for a section of OSM is refused before anything is written.
pub handle_update_settings-bad :
    (numerals : Numerals) (faults : SettingsFaults) (service : ScoreService) (r : AdminRequest)
    (s : WebSession) (section : ℤ) (colors : Dict String) (patrol : String) (w : SettingsWorld)
    → validate_csrf_token r s ≡ none
    → first_bad colors ≡ some patrol
    → handle_update_settings numerals faults service r s section (some colors) w
      ≡ (w, answers (color_error patrol))
handle_update_settings-bad numerals faults service r s section colors patrol w token bad =
    let tested = csrf_tests r s token in rw (tested.0, tested.1, bad)

-- For the ad-hoc section, what was written before the loop comes to a bad colour stays, though the
-- request is refused.
pub handle_update_adhoc_settings_partial :
    (numerals : Numerals) (faults : SettingsFaults) (service : ScoreService) (r : AdminRequest)
    (s : WebSession) (first second : String) (color bad : String) (colors : Dict String)
    (w : SettingsWorld)
    → validate_csrf_token r s ≡ none
    → bad_color color ≡ false
    → bad_color bad ≡ true
    → handle_update_adhoc_settings numerals faults service r s
        (some ((first, color) ∷ (second, bad) ∷ colors))
        w
      ≡ (
        record w {
          adhoc =
              recolored_number numerals faults service s.osm_user_id color w.adhoc
                (numerals.parse_int first);
        },
        answers (color_error second),
      )
handle_update_adhoc_settings_partial numerals faults service r s first second color bad colors w
      token fine wrong =
    rw (token, fine, wrong)
