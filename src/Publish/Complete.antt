-- ===== src/Publish/Complete.antt =====
-- When `publish_bundle` of app/services/publish_orchestrator.py says that a bundle is published.
use release_controller.Prelude.{
  ℕ, ◌+◌, ◌≤◌, String, Bool, true, false, Option, some, none, List, [], ◌∷◌, ◌++◌, length, All, ◌≡◌,
  refl, sym, ◌∙◌, arith, ok, err, if-both, any, ◌==◌, Bool-cases, inl, inr, not,
}
use release_controller.Workflow.{PublishStatus}
use release_controller.Deployment.{ReleaseBundle}
use release_controller.Publish.{PublishRecord, BundlePublication, PublishRequest, Press, Desk}
use release_controller.Publish.Aggregate.{
  Item, of_version, records_of, count_published, aggregate_status,
}
use release_controller.Publish.Orchestrator.{
  is_success, One, is_publishing, is_missing, count_publishing, AllPublished, with_item,
  with_conflict, after_one, publish_one, publish_all, on_all, BundleResult, refuses_version,
  publish_bundle,
}
use release_controller.Publish.Unique.{Unique, publish_one-Unique}
use release_controller.Publish.Truth.{aggregate_bundle-status}

-- One record of each version at most, and none of this version if the component does not publish.
abbrev pub Tidy : String → Item → Type 0
Tidy version i =
    Unique i.publication.publish_records
    × (is_publishing i ≡ false → of_version version i.publication.publish_records ≡ [])

-- The number of published records of the version.
abbrev pub ready : String → Item → ℕ
ready version i = count_published (of_version version i.publication.publish_records)

count_published-append :
    (rs ts : List PublishRecord)
    → count_published (rs ++ ts) ≡ count_published rs + count_published ts
unfolding count_published
count_published-append [] ts = omega arith
count_published-append (r ∷ rs) ts = ground (arith, count_published-append rs ts)

count_published-le : (rs : List PublishRecord) → count_published rs ≤ length rs
unfolding count_published
count_published-le [] = omega arith
count_published-le (r ∷ rs) = ground (arith, count_published-le rs)

abbrev pub one_if : Bool → ℕ
one_if true = 1
one_if false = 0

Tidy-ready :
    (version : String) (i : Item) → Tidy version i → ready version i ≤ one_if (is_publishing i)
unfolding count_published
Tidy-ready version i h = elim (Bool-cases (is_publishing i)) [
  | inl on ↦
      let bound = count_published-le (of_version version i.publication.publish_records) in
      rw on (omega (arith, bound, h.0 version))
  | inr off ↦ rw off (rw (h.1 off) (omega arith))
]

count_publishing-cons :
    (i : Item) (items : List Item)
    → count_publishing (i ∷ items) ≡ one_if (is_publishing i) + count_publishing items
unfolding count_publishing
count_publishing-cons i items = elim (Bool-cases (is_publishing i)) [
  | inl on ↦ rw on (omega arith)
  | inr off ↦ rw off (omega arith)
]

records_of-cons :
    (version : String) (i : Item) (items : List Item)
    → count_published (records_of version (i ∷ items))
      ≡ ready version i + count_published (records_of version items)
unfolding records_of
records_of-cons version i items =
    count_published-append (of_version version i.publication.publish_records) _

records_of-le :
    (version : String) (items : List Item)
    → All (Tidy version) items
    → count_published (records_of version items) ≤ count_publishing items
unfolding records_of count_published count_publishing
records_of-le version [] h = omega arith
records_of-le version (i ∷ items) h = omega (
  arith,
  records_of-cons version i items,
  count_publishing-cons i items,
  Tidy-ready version i h.0,
  records_of-le version items h.1,
)

-- As many published records as publishing components: each of these has its own.
ready_of_sum :
    (version : String) (items : List Item)
    → All (Tidy version) items
    → count_published (records_of version items) ≡ count_publishing items
    → All (λ i. ready version i ≡ one_if (is_publishing i)) items
ready_of_sum version [] h e = tt
ready_of_sum version (i ∷ items) h e =
    let a = records_of-cons version i items in
    let b = count_publishing-cons i items in
    let c = Tidy-ready version i h.0 in
    let d = records_of-le version items h.1 in
    (omega (arith, a, b, c, d, e), ready_of_sum version items h.1 (omega (arith, a, b, c, d, e)))

module _ (u : Press) where
  -- The deployments are tidy after the loop, if it ends.
  abbrev TidyAll : String → AllPublished → Type 0
  TidyAll version r = (tags : List String) → r.0 ≡ ok tags → All (Tidy version) r.1

  with_conflict-Tidy :
      (version : String) (conflict : Option String) (i : Item) (r : AllPublished)
      → Tidy version i
      → TidyAll version r
      → TidyAll version (with_item i (with_conflict conflict r))
  with_conflict-Tidy version none i (ok tags, items, d) h k t e = (h, k tags refl)
  with_conflict-Tidy version (some tag) i (ok tags, items, d) h k t e = (h, k tags refl)
  with_conflict-Tidy version none i (err x, items, d) h k t e = absurd (cc)
  with_conflict-Tidy version (some tag) i (err x, items, d) h k t e = absurd (cc)

  after_one-Tidy :
      (version : String) (i : Item) (items : List Item) (one : One) (later : Desk → AllPublished)
      → is_publishing i ≡ true
      → Unique one.1.publish_records
      → ((d : Desk) → TidyAll version (later d))
      → TidyAll version (after_one i items one later)
  unfolding after_one
  after_one-Tidy version i items (err x, p, d) later on h k = λ t e. absurd (cc)
  after_one-Tidy version i items (ok conflict, p, d) later on h k =
      with_conflict-Tidy version conflict (record i { publication = p }) (later d)
        (h, λ off. absurd (cc)) (k d)

  publish_all-Tidy :
      (payload : PublishRequest) (bundle : ReleaseBundle) (items : List Item) (d : Desk)
      → All (Tidy payload.version) items
      → TidyAll payload.version (publish_all u payload bundle items d)
  unfolding publish_all
  publish_all-Tidy payload bundle [] d h = λ t e. tt
  publish_all-Tidy payload bundle (i ∷ items) d h =
      let version = payload.version in
      elim (Bool-cases (is_publishing i)) [
        | inl on ↦
            let one = publish_one u (some bundle) payload false i.publication d in
            let unique = publish_one-Unique u (some bundle) payload false i.publication d h.0.0 in
            rw on (
              after_one-Tidy version i items one _ on unique
                (λ d'. publish_all-Tidy payload bundle items d' h.1))
        | inr off ↦ rw off (
            with_conflict-Tidy version none i (publish_all u payload bundle items d) h.0
              (publish_all-Tidy payload bundle items d h.1))
      ]

  -- What an answer without an exception and the status PUBLISHED say.
  abbrev Honest : String → BundleResult → Type 0
  Honest version r =
      r.0 ≡ ok tt
      → r.1.bundle.publish_status ≡ PublishStatus.published
      → All (λ i. ready version i ≡ one_if (is_publishing i)) r.2

  published_all : (n m : ℕ) → aggregate_status n m ≡ PublishStatus.published → n ≡ m
  unfolding aggregate_status
  published_all n m e = ground arith

  on_all-Honest :
      (version : String) (b : BundlePublication) (r : AllPublished)
      → TidyAll version r
      → Honest version (on_all u version b r)
  unfolding on_all
  on_all-Honest version b (err x, items, d) tidy = λ e s. absurd (cc)
  on_all-Honest version b (ok tags, items, d) tidy = λ e s.
      let status = aggregate_bundle-status u version (count_publishing items) items b d in
      ready_of_sum version items (tidy tags refl) (published_all _ _ (sym status ∙ s))

  -- If each deployment of a bundle has at most one record of each version, and none of the version
  -- asked for unless its component publishes, then `publish_bundle` raises nothing and leaves the
  -- bundle PUBLISHED only if each component that publishes has a published record of the version.
  pub publish_bundle-Honest :
      (payload : PublishRequest) (b : BundlePublication) (items : List Item) (d : Desk)
      → All (Tidy payload.version) items
      → (publish_bundle u payload b items d).0 ≡ ok tt
      → (publish_bundle u payload b items d).1.bundle.publish_status ≡ PublishStatus.published
      → All
          (λ i. ready payload.version i ≡ one_if (is_publishing i))
          (publish_bundle u payload b items d).2
  unfolding publish_bundle
  publish_bundle-Honest payload b items d tidy =
      let H = Honest payload.version in
      if-both H (not (is_success b.bundle.deployment_status)) _ _ (λ _ e. absurd (cc))
        (λ _.
          if-both H (refuses_version b.version b.bundle.publish_status payload.version) _ _
            (λ _ e. absurd (cc))
            (λ _.
              if-both H (any is_missing items) _ _ (λ _ e. absurd (cc))
                (λ _.
                  if-both H (count_publishing items == 0) _ _ (λ _ e. absurd (cc))
                    (λ _.
                      on_all-Honest payload.version _ _
                        (publish_all-Tidy payload _ items _ tidy)))))
