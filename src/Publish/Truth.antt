-- ===== src/Publish/Truth.antt =====
-- What the status of a publish says (app/services/publish_orchestrator.py,
-- app/services/recovery_service.py).
use release_controller.Prelude.{
  ℕ, suc, ◌<◌, String, true, some, List, [], ◌∷◌, length, All, ◌≡◌, refl, sym, ap, ◌∙◌, arith,
}
use release_controller.Workflow.{PublishStatus}
use release_controller.Deployment.{Text}
use release_controller.Publish.{BundlePublication, Press, Desk}
use release_controller.Publish.Aggregate.{
  Item, records_of, count_published, aggregate_status, aggregate_bundle, with_status,
}
use release_controller.Publish.Orchestrator.{is_publishing, count_publishing}
use release_controller.Publish.Recovery.{
  records_at, verdict, is_in_progress, judge_bundle, reconcile_bundle,
}

-- The two ways to judge by the same numbers agree.
verdict-aggregate_status :
    (published expected : ℕ) → verdict published expected ≡ aggregate_status published expected
unfolding verdict aggregate_status
verdict-aggregate_status published expected = ground arith

count_publishing-All :
    (items : List Item)
    → All (λ i. is_publishing i ≡ true) items
    → count_publishing items ≡ length items
unfolding count_publishing
count_publishing-All [] h = refl
count_publishing-All (i ∷ items) h = rw h.0 (ap (λ n. suc n) (count_publishing-All items h.1))

with_status-status :
    (status : PublishStatus) (now : ℕ) (b : BundlePublication)
    → (with_status status now b).bundle.publish_status ≡ status
with_status-status PublishStatus.published now b = refl
with_status-status PublishStatus.not_published now b = refl
with_status-status PublishStatus.publishing now b = refl
with_status-status PublishStatus.failed now b = refl
with_status-status PublishStatus.partial_failure now b = refl

pub aggregate_bundle-status :
    (u : Press) (version : String) (expected : ℕ) (items : List Item) (b : BundlePublication)
    (d : Desk)
    → (aggregate_bundle u version expected items b d).0.bundle.publish_status
      ≡ aggregate_status (count_published (records_of version items)) expected
unfolding aggregate_bundle
aggregate_bundle-status u version expected items b d =
    with_status-status (aggregate_status (count_published (records_of version items)) expected)
      (u.clock d.ticks) b

judge_bundle-status :
    (status : PublishStatus) (message : Text) (now : ℕ) (b : BundlePublication)
    → (judge_bundle status message now b).bundle.publish_status ≡ status
unfolding judge_bundle
judge_bundle-status PublishStatus.published message now b = refl
judge_bundle-status PublishStatus.not_published message now b = refl
judge_bundle-status PublishStatus.publishing message now b = refl
judge_bundle-status PublishStatus.failed message now b = refl
judge_bundle-status PublishStatus.partial_failure message now b = refl

reconcile_bundle-status :
    (u : Press) (version : String) (items : List Item) (b : BundlePublication) (d : Desk)
    → is_in_progress b.bundle.publish_status ≡ true
    → b.version ≡ some version
    → (reconcile_bundle u items b d).0.bundle.publish_status
      ≡ verdict (count_published (records_of version items)) (length items)
unfolding reconcile_bundle
reconcile_bundle-status u version items b d e v =
    rw e (judge_bundle-status _ _ _ b ∙ ap (λ w. verdict (records_at w items) (length items)) v)

-- If every component of a bundle publishes, then the sweep over an interrupted publish gives the
-- bundle the status that the publish itself gives it from the same records.
pub reconcile_bundle-aggregate_bundle :
    (u : Press) (version : String) (items : List Item) (b b' : BundlePublication) (d d' : Desk)
    → is_in_progress b.bundle.publish_status ≡ true
    → b.version ≡ some version
    → All (λ i. is_publishing i ≡ true) items
    → (reconcile_bundle u items b d).0.bundle.publish_status
      ≡ (aggregate_bundle u version (count_publishing items) items b' d').0.bundle.publish_status
reconcile_bundle-aggregate_bundle u version items b b' d d' e v all =
    reconcile_bundle-status u version items b d e v
    ∙ verdict-aggregate_status _ _
    ∙ ap (λ n. aggregate_status (count_published (records_of version items)) n)
        (sym (count_publishing-All items all))
    ∙ sym (aggregate_bundle-status u version (count_publishing items) items b' d')

-- If a component of a bundle does not publish, and as many records of the version are published as
-- components publish, more than none, then the publish itself ends in PUBLISHED, and the sweep over
-- the same records ends in PARTIAL_FAILURE.
pub reconcile_bundle-shortfall :
    (u : Press) (version : String) (items : List Item) (b b' : BundlePublication) (d d' : Desk)
    → is_in_progress b.bundle.publish_status ≡ true
    → b.version ≡ some version
    → count_publishing items < length items
    → 0 < count_publishing items
    → count_published (records_of version items) ≡ count_publishing items
    → ((aggregate_bundle u version (count_publishing items) items b' d').0.bundle.publish_status
        ≡ PublishStatus.published)
      × ((reconcile_bundle u items b d).0.bundle.publish_status ≡ PublishStatus.partial_failure)
unfolding verdict aggregate_status
reconcile_bundle-shortfall u version items b b' d d' e v short some_publish all = (
  aggregate_bundle-status u version (count_publishing items) items b' d' ∙ ground arith,
  reconcile_bundle-status u version items b d e v ∙ ground arith,
)
