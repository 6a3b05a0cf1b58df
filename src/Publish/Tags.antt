-- ===== src/Publish/Tags.antt =====
-- A tag is never moved (app/services/publish_service.py, `_ensure_release`).
use release_controller.Prelude.{
  ℕ, String, true, false, ◌∷◌, ◌≡◌, refl, ◌⊎◌, inl, inr, ok, err, str_eq, if-both,
}
use release_controller.Publish.{
  Desk, Press, Created, Answer, CallError, gitea, other, GiteaTag, GiteaRelease, not_found_error,
  conflict_error, different_commit,
}
use release_controller.Publish.Ensure.{
  asked, raised, Ensured, Aim, on_final, on_reread, on_created, create, on_release, on_tag,
  on_repository, ensure_release,
}

module _ (u : Press) (aim : Aim) where
  abbrev tag_at : ℕ → Answer GiteaTag
  tag_at k = u.client.get_tag k aim.component aim.owner aim.name aim.tag

  -- Gitea said that the tag is on the commit of the deployment.
  abbrev pub Seen : Type 0
  Seen =
      (k : ℕ) × (tag : GiteaTag) × (tag_at k ≡ ok tag)
      × (str_eq tag.commit_sha aim.commit_sha ≡ true)

  -- Gitea said that the tag is on another commit.
  abbrev pub Moved : Type 0
  Moved =
      (k : ℕ) × (tag : GiteaTag) × (tag_at k ≡ ok tag)
      × (str_eq tag.commit_sha aim.commit_sha ≡ false)

  -- Gitea said that there is no such tag.
  abbrev pub Missing : Type 0
  Missing = (k : ℕ) × (message : String) × (tag_at k ≡ err (gitea not_found_error message))

  abbrev pub aimed : Created
  aimed = record { owner = aim.owner; name = aim.name; tag = aim.tag; commit_sha = aim.commit_sha }

  -- At most one request went out, for this tag and this commit, after Gitea had said that the tag is
  -- missing or on this commit.
  abbrev pub Sent : Desk → Desk → Type 0
  Sent d d' = (d'.created ≡ d.created) ⊎ ((Seen ⊎ Missing) × (d'.created ≡ aimed ∷ d.created))

  pub data Ends (d : Desk) : Ensured × Desk → Type 0 where
    found :
        {release : GiteaRelease} {d' : Desk} → Seen → Sent d d' → Ends d (ok (release, true), d')
    made :
        {release : GiteaRelease} {d' : Desk}
        → Seen ⊎ Missing
        → d'.created ≡ aimed ∷ d.created
        → Ends d (ok (release, false), d')
    refused : {d' : Desk} → Moved → Sent d d' → Ends d (err (different_commit aim.tag), d')
    broken : {d' : Desk} (e : CallError) → Sent d d' → Ends d (err (raised e), d')

  on_final-Ends :
      (d d' : Desk) (answer : Answer GiteaRelease)
      → Seen
      → Sent d d'
      → Ends d (on_final u aim answer d')
  unfolding on_final
  on_final-Ends d d' (ok release) seen sent = found seen sent
  on_final-Ends d d' (err e) seen sent = broken e sent

  on_reread-Ends :
      (k : ℕ) (answer : Answer GiteaTag) (d d' : Desk)
      → tag_at k ≡ answer
      → Sent d d'
      → Ends d (on_reread u aim answer d')
  unfolding on_reread
  on_reread-Ends k (err x) d d' e sent = broken x sent
  on_reread-Ends k (ok tag) d d' e sent =
      if-both (Ends d) (str_eq tag.commit_sha aim.commit_sha) _ _
        (λ same. on_final-Ends d (asked d') _ (k, tag, e, same) sent)
        (λ moved. refused (k, tag, e, moved) sent)

  on_created-Ends :
      (answer : Answer GiteaRelease) (d d' : Desk)
      → Seen ⊎ Missing
      → d'.created ≡ aimed ∷ d.created
      → Ends d (on_created u aim answer d')
  unfolding on_created
  on_created-Ends (ok release) d d' clear one = made clear one
  on_created-Ends (err (gitea conflict_error message)) d d' clear one =
      on_reread-Ends d'.ticks _ d (asked d') refl (inr (clear, one))
  on_created-Ends (err other) d d' clear one = broken other (inr (clear, one))
  on_created-Ends (err e) d d' clear one = broken e (inr (clear, one))

  create-Ends : (d d' : Desk) → Seen ⊎ Missing → d'.created ≡ d.created → Ends d (create u aim d')
  unfolding create
  create-Ends d d' clear none_yet = on_created-Ends _ d _ clear (rw none_yet refl)

  on_release-Ends :
      (answer : Answer GiteaRelease) (d d' : Desk)
      → Seen
      → d'.created ≡ d.created
      → Ends d (on_release u aim answer d')
  unfolding on_release
  on_release-Ends (ok release) d d' seen none_yet = found seen (inl none_yet)
  on_release-Ends (err (gitea not_found_error message)) d d' seen none_yet =
      create-Ends d d' (inl seen) none_yet
  on_release-Ends (err other) d d' seen none_yet = broken other (inl none_yet)
  on_release-Ends (err e) d d' seen none_yet = broken e (inl none_yet)

  on_tag-Ends :
      (k : ℕ) (answer : Answer GiteaTag) (d d' : Desk)
      → tag_at k ≡ answer
      → d'.created ≡ d.created
      → Ends d (on_tag u aim answer d')
  unfolding on_tag
  on_tag-Ends k (ok tag) d d' e none_yet =
      if-both (Ends d) (str_eq tag.commit_sha aim.commit_sha) _ _
        (λ same. on_release-Ends _ d (asked d') (k, tag, e, same) none_yet)
        (λ moved. refused (k, tag, e, moved) (inl none_yet))
  on_tag-Ends k (err (gitea not_found_error message)) d d' e none_yet =
      create-Ends d d' (inr (k, message, e)) none_yet
  on_tag-Ends k (err other) d d' e none_yet = broken other (inl none_yet)
  on_tag-Ends k (err x) d d' e none_yet = broken x (inl none_yet)

  on_repository-Ends :
      (answer : Answer (Unit {0})) (d d' : Desk)
      → d'.created ≡ d.created
      → Ends d (on_repository u aim answer d')
  unfolding on_repository
  on_repository-Ends (ok _) d d' none_yet = on_tag-Ends d'.ticks _ d (asked d') refl none_yet
  on_repository-Ends (err e) d d' none_yet = broken e (inl none_yet)

  -- Whatever Gitea answers: at most one release is requested, for the tag and the commit of the
  -- deployment, and only after Gitea had said that the tag is missing or on this commit. A release
  -- is handed back as one that was there only if Gitea said that the tag is on this commit, and as a
  -- new one only if it was requested. The refusal for another commit comes only if Gitea said that
  -- the tag is on another one.
  pub ensure_release-Ends : (d : Desk) → Ends d (ensure_release u aim d)
  unfolding ensure_release
  ensure_release-Ends d = on_repository-Ends _ d (asked d) refl
