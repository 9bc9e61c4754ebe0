-- ===== src/Scores/Service/Laws.antt =====
-- What a device of the ad-hoc section is served, between the admin's updates and the cache of
-- fifteen seconds.
use osm_device_adapter.Prelude.{
  ◌+◌, ◌<◌, String, false, Option, none, some, List, [], ◌∷◌, inl, ◌≡◌, refl, sym, ap, arith,
  if◌then◌else◌,
}
use text.Mathlib.TextPositions.{eq_refl}
use osm_device_adapter.Prelude.Int.{ℤ, pos}
use osm_device_adapter.Prelude.Dict.{lookup, insert, lookup-erase, lookup-insert_self}
use osm_device_adapter.Db.Models.{DeviceCode, WebSession}
use osm_device_adapter.Db.AdhocPatrols.{list_by_user}
use osm_device_adapter.Scores.Cache.{CachedPatrolScores, no_limit, from_cached}
use osm_device_adapter.Scores.Service.{
  ScoreWorld, PollFaults, Poll, adhoc_cache_ttl, team_record, team_response, poll_scores,
}
use osm_device_adapter.Admin.Replies.{json, AdminRequest, validate_csrf_token}
use osm_device_adapter.Admin.World.{AdminWorld, AdminFaults}
use osm_device_adapter.Admin.Scores.{
  AdminScoreUpdate, AdminPatrolResult, ScoresHandled, updated, answers, Numerals,
}
use osm_device_adapter.Admin.Scores.Adhoc.{
  Loop, adhoc_each, after_loop, adhoc_updates, adhoc_body, adhoc_token, handle_update_adhoc_scores,
}

module _ (itoa : ℤ → String) (faults : PollFaults) (p : Poll) (device : DeviceCode) (user : ℤ)
    (w : ScoreWorld) (adhoc : device.section_id ≡ some (pos 0))
    (owned : device.osm_user_id ≡ some user) where
  -- Nothing is cached: the device is served the teams as the database has them, with their colours,
  -- and they are cached.
  pub poll_scores-missed :
      faults.list ≡ false
      → lookup (itoa user) w.team_cache ≡ none
      → poll_scores itoa faults p device w ≡ (
        record w {
          team_cache =
              if faults.set
              then w.team_cache
              else insert
                  (itoa user)
                  (team_record itoa p.served_at (list_by_user user w.adhoc_teams))
                  w.team_cache;
        },
        inl (team_response itoa p.served_at (list_by_user user w.adhoc_teams)),
      )
  unfolding poll_scores
  poll_scores-missed listed missed = rw (adhoc, owned, missed, listed) (ground arith)

  -- What is cached and valid is served, without colours.
  pub poll_scores-cached :
      (c : CachedPatrolScores)
      → faults.get ≡ false
      → lookup (itoa user) w.team_cache ≡ some c
      → p.cache_at < c.valid_until
      → poll_scores itoa faults p device w ≡ (w, inl (from_cached c c.valid_until no_limit none))
  unfolding poll_scores
  poll_scores-cached c got found valid = rw (adhoc, owned, got, found) (ground (arith, valid))

module _ (numerals : Numerals) (faults : AdminFaults) (user : ℤ)
    (deletes : faults.del (numerals.itoa user) ≡ false) where
  -- The result is that the user's teams are not cached after an answer of success.
  abbrev Forgets : AdminWorld × ScoresHandled → Type 0
  Forgets (w, handled) =
      (results : List AdminPatrolResult)
      → handled ≡ answers (json 200 (updated results))
      → lookup (numerals.itoa user) w.adhoc_cache ≡ none

  after_loop-Forgets :
      (w : AdminWorld) (loop : Loop numerals faults user)
      → Forgets (after_loop numerals faults user w loop)
  after_loop-Forgets w (table, none) = λ results e. cc
  after_loop-Forgets w (table, some (rs, logs)) = λ results e. ground (
    arith,
    deletes,
    lookup-erase (numerals.itoa user) (numerals.itoa user) w.adhoc_cache,
    eq_refl (numerals.itoa user),
  )

  adhoc_updates-Forgets :
      (w : AdminWorld) (updates : List AdminScoreUpdate)
      → Forgets (adhoc_updates numerals faults user w updates)
  adhoc_updates-Forgets w [] = λ results e. cc
  adhoc_updates-Forgets w (u ∷ us) =
      after_loop-Forgets w (adhoc_each numerals faults user (u ∷ us) w.adhoc)

  adhoc_body-Forgets :
      (w : AdminWorld) (body : Option (List AdminScoreUpdate))
      → Forgets (adhoc_body numerals faults user w body)
  adhoc_body-Forgets w none = λ results e. cc
  adhoc_body-Forgets w (some updates) = adhoc_updates-Forgets w updates

  adhoc_token-Forgets :
      (w : AdminWorld) (body : Option (List AdminScoreUpdate)) (refused : Option String)
      → Forgets (adhoc_token numerals faults user w body refused)
  adhoc_token-Forgets w body (some message) = λ results e. cc
  adhoc_token-Forgets w body none = adhoc_body-Forgets w body

-- After an update of ad-hoc scores that is answered with 200, where Redis deletes the cached
-- scores, the next poll of each device of the user that has the ad-hoc section, if it can list the
-- teams, is answered with the teams as the update has left them, whatever was cached before.
pub poll_scores-after_update :
    (numerals : Numerals) (faults : AdminFaults) (r : AdminRequest) (s : WebSession)
    (body : Option (List AdminScoreUpdate)) (before after : AdminWorld)
    (results : List AdminPatrolResult) (reads : PollFaults) (p : Poll) (device : DeviceCode)
    (w : ScoreWorld)
    → faults.del (numerals.itoa s.osm_user_id) ≡ false
    → handle_update_adhoc_scores numerals faults r s body before
      ≡ (after, answers (json 200 (updated results)))
    → device.section_id ≡ some (pos 0)
    → device.osm_user_id ≡ some s.osm_user_id
    → reads.list ≡ false
    → w.team_cache ≡ after.adhoc_cache
    → w.adhoc_teams ≡ after.adhoc
    → (poll_scores numerals.itoa reads p device w).1
      ≡ inl (team_response numerals.itoa p.served_at (list_by_user s.osm_user_id after.adhoc))
unfolding handle_update_adhoc_scores
poll_scores-after_update numerals faults r s body before after results reads p device w deletes ran
      adhoc owned listed shared same =
    let forgets =
      adhoc_token-Forgets numerals faults s.osm_user_id deletes before body
        (validate_csrf_token r s) results (ap (λ x. x.1) ran) in
    let missed : lookup (numerals.itoa s.osm_user_id) w.team_cache ≡ none =
      rw (shared, sym (ap (λ x. x.0.adhoc_cache) ran)) forgets in
    rw
      (
        poll_scores-missed numerals.itoa reads p device s.osm_user_id w adhoc owned listed missed,
        same,
      )
      refl

-- A poll of a device of the ad-hoc section that finds nothing cached, and caches what it lists, is
-- followed by a poll of the same device within fifteen seconds that can read the cache: it is
-- answered with the same scores, even where the teams have changed in the database, and without
-- their colours.
pub poll_scores_again :
    (itoa : ℤ → String) (faults again : PollFaults) (p q : Poll) (device : DeviceCode) (user : ℤ)
    (w later : ScoreWorld)
    → device.section_id ≡ some (pos 0)
    → device.osm_user_id ≡ some user
    → faults.list ≡ false
    → faults.set ≡ false
    → again.get ≡ false
    → lookup (itoa user) w.team_cache ≡ none
    → later.team_cache ≡ (poll_scores itoa faults p device w).0.team_cache
    → q.cache_at < p.served_at + adhoc_cache_ttl
    → (poll_scores itoa faults p device w).1
        ≡ inl (team_response itoa p.served_at (list_by_user user w.adhoc_teams))
      × (poll_scores itoa again q device later).1
        ≡ inl (
            from_cached
              (team_record itoa p.served_at (list_by_user user w.adhoc_teams))
              (p.served_at + adhoc_cache_ttl)
              no_limit
              none)
poll_scores_again itoa faults again p q device user w later adhoc owned listed sets gets missed kept
      soon =
    let first = poll_scores-missed itoa faults p device user w adhoc owned listed missed in
    let teams = team_record itoa p.served_at (list_by_user user w.adhoc_teams) in
    let found : lookup (itoa user) later.team_cache ≡ some teams =
      rw (kept, first, sets, lookup-insert_self (itoa user) teams w.team_cache) refl in
    (
      ap (λ x. x.1) first,
      ap (λ x. x.1)
          (poll_scores-cached itoa again q device user later adhoc owned teams gets found soon),
    )
