-- ===== src/Publish/Unique.antt =====
-- A deployment has one record of a version at most (app/services/publish_service.py, `_record_for`
-- and `uq_publish_records_deployment_version` of app/db/models/orchestration.py).
use mathlib.Core.Path.{subst}
use release_controller.Prelude.{
  suc, ◌+◌, ◌≤◌, String, ◌≡◌, refl, sym, ap, ◌∙◌, inl, inr, Bool, Option, none, some, List, [], ◌∷◌,
  ◌++◌, arith, str_eq, eq_iff, length, Bool-cases, if-both, Outcome, ok, err,
}
use release_controller.Registry.{ProjectComponent}
use release_controller.Deployment.{ReleaseBundle}
use release_controller.Publish.{
  PublishRecord, Publication, PublishRequest, Press, Desk, PublishError, configuration,
  different_commit, gitea_failed,
}
use release_controller.Publish.Ensure.{asked, Ensured}
use release_controller.Publish.Service.{
  Published, Work, Place, step_over, find_place, find_record, is_published, found_or_new,
  record_for, apply_success, apply_failure, start_publishing, on_ensured, on_record, on_repo,
  with_component, publish_component,
}
use release_controller.Publish.Events.{prepare_deployment, fail_without_record}
use release_controller.Publish.Aggregate.{of_version}
use release_controller.Publish.Orchestrator.{One, on_conflict, on_result, publish_one}

abbrev pub Unique : List PublishRecord → Type 0
Unique rs = (version : String) → length (of_version version rs) ≤ 1

same_length :
    (version : String) (r x : PublishRecord) (rs : List PublishRecord)
    → x.version ≡ r.version
    → length (of_version version (r ∷ rs)) ≡ length (of_version version (x ∷ rs))
unfolding of_version
same_length version r x rs here =
    let e : str_eq r.version version ≡ str_eq x.version version =
      ap (λ v. str_eq v version) (sym here) in
    elim (Bool-cases (str_eq x.version version)) [
      | inl hit ↦ rw (e ∙ hit) (rw hit refl)
      | inr miss ↦ rw (e ∙ miss) (rw miss refl)
    ]

-- A record in the place of another of its version.
swap_length :
    (version : String) (before after : List PublishRecord) (r x : PublishRecord)
    → x.version ≡ r.version
    → length (of_version version (before ++ r ∷ after))
      ≡ length (of_version version (before ++ x ∷ after))
unfolding of_version
swap_length version [] after r x here = same_length version r x after here
swap_length version (y ∷ before) after r x here =
    let rest = swap_length version before after r x here in
    elim (Bool-cases (str_eq y.version version)) [
      | inl hit ↦ rw hit (ap suc rest)
      | inr miss ↦ rw miss rest
    ]

swap-Unique :
    (before after : List PublishRecord) (r x : PublishRecord)
    → x.version ≡ r.version
    → Unique (before ++ x ∷ after)
    → Unique (before ++ r ∷ after)
swap-Unique before after r x here h version =
    rw (swap_length version before after r x here) (h version)

append_length :
    (version : String) (rs : List PublishRecord) (r : PublishRecord)
    → length (of_version version (rs ++ r ∷ []))
      ≡ length (of_version version rs) + length (of_version version (r ∷ []))
unfolding of_version
append_length version [] r = omega arith
append_length version (x ∷ rs) r = elim (Bool-cases (str_eq x.version version)) [
  | inl hit ↦ rw hit (let rest = append_length version rs r in omega (arith, rest))
  | inr miss ↦ rw miss (append_length version rs r)
]

-- A new record of a version that has none yet.
append-Unique :
    (rs : List PublishRecord) (r : PublishRecord)
    → of_version r.version rs ≡ []
    → Unique rs
    → Unique (rs ++ r ∷ [])
unfolding of_version
append-Unique rs r free h version =
    rw (append_length version rs r) (elim (Bool-cases (str_eq r.version version)) [
      | inl hit ↦
          let same : r.version ≡ version = (eq_iff r.version version).0 hit in
          let none_yet : of_version version rs ≡ [] = ap (λ v. of_version v rs) (sym same) ∙ free in
          rw hit (rw none_yet (omega arith))
      | inr miss ↦ rw miss (let own = h version in omega (arith, own))
    ])

step_over-found :
    (x : PublishRecord) (rest : Option Place) (before after : List PublishRecord)
    (r : PublishRecord)
    → step_over x rest ≡ some (before, r, after)
    → (inner : List PublishRecord) × (rest ≡ some (inner, r, after)) × (before ≡ x ∷ inner)
step_over-found x none before after r e = absurd (cc)
step_over-found x (some (b, y, a)) before after r e = (b, cc, cc)

-- What the lookup finds is where it says.
find_place-found :
    (version : String) (rs before after : List PublishRecord) (r : PublishRecord)
    → find_place version rs ≡ some (before, r, after)
    → rs ≡ before ++ r ∷ after
unfolding find_place
find_place-found version [] before after r e = absurd (cc)
find_place-found version (x ∷ rs) before after r e = elim (Bool-cases (str_eq x.version version)) [
  | inl hit ↦
      let here : Option Place = some ([], x, rs) in
      let at : here ≡ some (before, r, after) = ground arith in cc
  | inr miss ↦
      let deeper : step_over x (find_place version rs) ≡ some (before, r, after) = ground arith in
      let (inner, found, split) = step_over-found x (find_place version rs) before after r deeper in
      rw split (ap (λ l. x ∷ l) (find_place-found version rs inner after r found))
]

step_over-none : (x : PublishRecord) (rest : Option Place) → step_over x rest ≡ none → rest ≡ none
step_over-none x none e = refl
step_over-none x (some (b, y, a)) e = absurd (cc)

find_place-missing :
    (version : String) (rs : List PublishRecord)
    → find_place version rs ≡ none
    → of_version version rs ≡ []
unfolding find_place of_version
find_place-missing version [] e = refl
find_place-missing version (x ∷ rs) e = elim (Bool-cases (str_eq x.version version)) [
  | inl hit ↦ absurd (ground arith)
  | inr miss ↦
      let deeper : step_over x (find_place version rs) ≡ none = ground arith in
      rw miss (find_place-missing version rs (step_over-none x (find_place version rs) deeper))
]

-- The records with the one at work in its place.
abbrev Held : Work → Type 0
Held w = Unique (w.before ++ w.rec ∷ w.after)

-- The records that an operation leaves.
abbrev Left : Published × Publication × Desk → Type 0
Left r = Unique r.1.publish_records

abbrev LeftOne : One → Type 0
LeftOne r = Unique r.1.publish_records

module _ (u : Press) where
  on_ensured-Unique : (r : Ensured × Desk) (w : Work) → Held w → Left (on_ensured u r w)
  unfolding on_ensured apply_success apply_failure
  on_ensured-Unique (ok (release, already_exists), d) w h =
      swap-Unique w.before w.after _ w.rec refl h
  on_ensured-Unique (err (different_commit tag), d) w h =
      swap-Unique w.before w.after _ w.rec refl h
  on_ensured-Unique (err (gitea_failed e message), d) w h =
      swap-Unique w.before w.after _ w.rec refl h
  on_ensured-Unique (err e, d) w h = h

  on_record-Unique :
      (payload : PublishRequest) (c : ProjectComponent) (repo : String × String) (w : Work)
      → Held w
      → Left (on_record u payload c repo w)
  unfolding on_record apply_success start_publishing
  on_record-Unique payload c repo w h =
      if-both Left (is_published w.rec.status) _ _ (λ _. h)
        (λ _.
          on_ensured-Unique _ (start_publishing u payload.version w)
            (swap-Unique w.before w.after _ w.rec refl h))

  -- The record that was found stays in its place, and a new one has a version of its own.
  found_or_new-Held :
      (found : Option Place) (p : Publication) (version : String) (repo : String × String)
      (c : ProjectComponent) (d : Desk)
      → find_place version p.publish_records ≡ found
      → Unique p.publish_records
      → Held (found_or_new u found p version repo c d)
  unfolding found_or_new
  found_or_new-Held none p version repo c d e h =
      append-Unique p.publish_records _ (find_place-missing version p.publish_records e) h
  found_or_new-Held (some (before, r, after)) p version repo c d e h =
      subst Unique (find_place-found version p.publish_records before after r e) h

  on_repo-Unique :
      (payload : PublishRequest) (c : ProjectComponent)
      (repo : Outcome PublishError (String × String)) (p : Publication) (d : Desk)
      → Unique p.publish_records
      → Left (on_repo u payload c repo p d)
  unfolding on_repo record_for
  on_repo-Unique payload c (err e) p d h = h
  on_repo-Unique payload c (ok repo) p d h =
      if-both Left (u.has_connection d.ticks c) _ _
        (λ _.
          on_record-Unique payload c repo _
            (found_or_new-Held _ p payload.version repo c (asked d) refl h))
        (λ _. h)

  with_component-Unique :
      (payload : PublishRequest) (found : Option ProjectComponent) (p : Publication) (d : Desk)
      → Unique p.publish_records
      → Left (with_component u payload found p d)
  unfolding with_component
  with_component-Unique payload none p d h = h
  with_component-Unique payload (some c) p d h = on_repo-Unique payload c _ p d h

  on_conflict-Unique :
      (release : Option ReleaseBundle) (tag : String) (found : Option PublishRecord)
      (p : Publication) (d : Desk)
      → Unique p.publish_records
      → LeftOne (on_conflict u release tag found p d)
  on_conflict-Unique release tag none p d h = h
  on_conflict-Unique release tag (some r) p d h = h

  on_result-Unique :
      (release : Option ReleaseBundle) (version : String) (r : Published × Publication × Desk)
      → Left r
      → LeftOne (on_result u release version r)
  unfolding on_result fail_without_record
  on_result-Unique release version (ok (r, already_exists), p, d) h = h
  on_result-Unique release version (err (different_commit tag), p, d) h =
      on_conflict-Unique release tag (find_record version p.publish_records) p d h
  on_result-Unique release version (err (configuration message), p, d) h = h
  on_result-Unique release version (err e, p, d) h = h

  -- If a deployment has at most one record of each version, it has so after a publish, however that
  -- ends.
  pub publish_one-Unique :
      (release : Option ReleaseBundle) (payload : PublishRequest) (emit_prepare : Bool)
      (p : Publication) (d : Desk)
      → Unique p.publish_records
      → Unique (publish_one u release payload emit_prepare p d).1.publish_records
  unfolding publish_one publish_component prepare_deployment
  publish_one-Unique release payload emit_prepare p d h =
      on_result-Unique release payload.version _ (with_component-Unique payload _ _ _ h)
