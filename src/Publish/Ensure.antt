-- ===== src/Publish/Ensure.antt =====
-- `_ensure_release` of app/services/publish_service.py: the tag and the release of one component.
use release_controller.Prelude.{
  suc, String, Bool, true, false, ◌∷◌, Outcome, ok, err, str_eq, if◌then◌else◌,
}
use release_controller.Registry.{ProjectComponent}
use release_controller.Publish.{
  Desk, Press, Answer, CallError, gitea, other, GiteaTag, GiteaRelease, not_found_error,
  conflict_error, PublishError, different_commit, gitea_failed, uncaught, PublishRequest,
}

abbrev pub asked : Desk → Desk
asked d = record d { ticks = suc d.ticks }

abbrev pub raised : CallError → PublishError
raised (gitea e message) = gitea_failed e message
raised other = uncaught

-- The release, and whether it was there already.
abbrev pub Ensured : Type 0
Ensured = Outcome PublishError (GiteaRelease × Bool)

-- The repository, the tag and the commit that one call of `_ensure_release` is for.
pub record Aim : Type 0 where
  pub component : ProjectComponent
  pub owner : String
  pub name : String
  pub tag : String
  pub commit_sha : String
  pub payload : PublishRequest

module _ (u : Press) (aim : Aim) where
  abbrev pub ask_tag : Desk → Answer GiteaTag
  ask_tag d = u.client.get_tag d.ticks aim.component aim.owner aim.name aim.tag

  abbrev pub ask_release : Desk → Answer GiteaRelease
  ask_release d = u.client.get_release_by_tag d.ticks aim.component aim.owner aim.name aim.tag

  -- `return gitea.get_release_by_tag(...), True` after a conflict
  unfoldable pub on_final : Answer GiteaRelease → Desk → Ensured × Desk
  on_final (ok release) d = (ok (release, true), d)
  on_final (err e) d = (err (raised e), d)

  unfoldable pub on_reread : Answer GiteaTag → Desk → Ensured × Desk
  on_reread (err e) d = (err (raised e), d)
  on_reread (ok tag) d =
      if str_eq tag.commit_sha aim.commit_sha
      then on_final (ask_release d) (asked d)
      else (err (different_commit aim.tag), d)

  unfoldable pub on_created : Answer GiteaRelease → Desk → Ensured × Desk
  on_created (ok release) d = (ok (release, false), d)
  on_created (err (gitea conflict_error message)) d = on_reread (ask_tag d) (asked d)
  on_created (err e) d = (err (raised e), d)

  abbrev pub request_sent : Desk → Desk
  request_sent d = record d {
    created =
        record { owner = aim.owner; name = aim.name; tag = aim.tag; commit_sha = aim.commit_sha }
        ∷ d.created;
    ticks = suc d.ticks;
  }

  unfoldable pub create : Desk → Ensured × Desk
  create d =
      on_created
        (u.client.create_release d.ticks aim.component aim.owner aim.name aim.tag aim.commit_sha
          aim.payload)
        (request_sent d)

  unfoldable pub on_release : Answer GiteaRelease → Desk → Ensured × Desk
  on_release (ok release) d = (ok (release, true), d)
  on_release (err (gitea not_found_error message)) d = create d
  on_release (err e) d = (err (raised e), d)

  unfoldable pub on_tag : Answer GiteaTag → Desk → Ensured × Desk
  on_tag (ok tag) d =
      if str_eq tag.commit_sha aim.commit_sha
      then on_release (ask_release d) (asked d)
      else (err (different_commit aim.tag), d)
  on_tag (err (gitea not_found_error message)) d = create d
  on_tag (err e) d = (err (raised e), d)

  unfoldable pub on_repository : Answer (Unit {0}) → Desk → Ensured × Desk
  on_repository (ok _) d = on_tag (ask_tag d) (asked d)
  on_repository (err e) d = (err (raised e), d)

  unfoldable pub ensure_release : Desk → Ensured × Desk
  ensure_release d =
      on_repository (u.client.get_repository d.ticks aim.component aim.owner aim.name) (asked d)
