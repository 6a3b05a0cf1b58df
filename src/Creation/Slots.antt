-- ===== src/Creation/Slots.antt =====
-- The promotion slots of the table of deployments under `create` and `create_bundle`
-- (app/services/deployment_service.py, app/services/release_orchestrator.py).
use release_controller.Prelude.{
  ℕ, suc, ◌+◌, String, ◌≡◌, refl, sym, ap, ◌∙◌, false, ◌&&◌, Option, none, some, List, [], ◌∷◌,
  ◌++◌, length, All, All-append, if-both, Outcome, ok, ◌>>=◌, or_text, Whenever, bind-Whenever,
  Whenever-bind,
}
use release_controller.Workflow.{
  WorkflowStage, BundleStatus, create_release_bundle, validate_stage, waiting,
}
use release_controller.Deployment.{Deployment, ReleaseBundle, Upstream}
use release_controller.Deployment.Slots.{
  occupies, slot_of, is_taken, IsExclusive, is_taken-Free, append-IsExclusive,
}
use release_controller.Creation.{ProjectRow, CreationError, BundleRequest, Site, Draft, Connection}
use release_controller.Creation.Insert.{flush, lifted, insert_row, Plan, new_deployment, create}
use mathlib.Core.List.{append_assoc, append-nil}
use release_controller.Drone.Builds.{repository_of}
use release_controller.Creation.Lookup.{drone_connection, project_of}
use release_controller.Creation.Selection.{selected_components, Selected}
use release_controller.Orchestrator.Advance.{advance}
use release_controller.Orchestrator.Operations.{committed}
use release_controller.Creation.Bundle.{
  write_bundle, validate_and_write, validate_all, new_bundle, plan_for, run_started, steps_of,
  context_for, Validated, Demands, Started, Creation, note_stage, create_all, prepare_bundle,
  create_bundle,
}

-- What the writes of a request make of the table: it has its new rows behind the others, each of
-- them waits, and exclusive slots stay exclusive.
pub record Laid (base : List Deployment) (draft : Draft) : Type 0 where
  pub grown : draft.rows ≡ base ++ draft.made
  pub exclusive : IsExclusive base → IsExclusive draft.rows
  pub idle : All (λ (d : Deployment). d.status ≡ waiting) draft.made

insert_row-Laid :
    (base : List Deployment) (draft : Draft) (d : Deployment) (k : ℕ)
    → d.status ≡ waiting
    → Laid base draft
    → Whenever
        (λ rows. Laid base (record draft { rows = rows; made = draft.made ++ d ∷ []; ticks = k }))
        (insert_row d draft.rows)
unfolding insert_row
insert_row-Laid base draft d k w h =
    let W =
      Whenever (λ rows.
        Laid base (record draft { rows = rows; made = draft.made ++ d ∷ []; ticks = k })) in
    if-both W (occupies d.status && is_taken (slot_of d) draft.rows) _ _ (λ _. tt)
      (λ e.
        let free : is_taken (slot_of d) draft.rows ≡ false =
          sym (ap (λ s. occupies s && is_taken (slot_of d) draft.rows) w) ∙ e in
        record {
          grown = ap (λ rows. rows ++ d ∷ []) h.grown ∙ append_assoc base draft.made (d ∷ []);
          exclusive = λ b.
              append-IsExclusive draft.rows d (is_taken-Free (slot_of d) draft.rows free)
                (h.exclusive b);
          idle = All-append _ draft.made (d ∷ []) h.idle (w, tt);
        })

abbrev LaidWith : List Deployment → Deployment × Draft → Type 0
LaidWith base made = Laid base made.1

flush-Laid :
    (base : List Deployment) (d : Deployment) (draft : Draft)
    → d.status ≡ waiting
    → Laid base draft
    → Whenever (LaidWith base) (flush d draft)
unfolding flush
flush-Laid base d draft w h =
    let k = suc (suc draft.ticks) in
    let next : List Deployment → Draft =
      λ rows. record draft { rows = rows; made = draft.made ++ d ∷ []; ticks = k } in
    Whenever-bind (λ rows. Laid base (next rows)) (LaidWith base) (insert_row d draft.rows)
      (λ rows. ok (d, next rows)) (insert_row-Laid base draft d k w h) (λ rows laid. laid)

module _ (u : Upstream) (site : Site) where
  pub create-Laid :
      (base : List Deployment) (project : ProjectRow) (plan : Plan) (draft : Draft)
      → Laid base draft
      → Whenever (LaidWith base) (create u site project plan draft)
  unfolding create new_deployment
  create-Laid base project plan draft h =
      let c = plan.component in
      let d : String × String → Connection → Deployment =
        λ repo connection. new_deployment u site draft.ticks connection repo plan in
      bind-Whenever (LaidWith base) (lifted (repository_of c))
        (λ repo.
          drone_connection site.connections project c
          >>= (λ connection. flush (d repo connection) draft))
        (λ repo _.
          bind-Whenever (LaidWith base) (drone_connection site.connections project c)
            (λ connection. flush (d repo connection) draft)
            (λ connection _. flush-Laid base (d repo connection) draft refl h))

  note_stage-Laid :
      (base : List Deployment) (release : Option ReleaseBundle) (deployment : Option Deployment)
      (stage : WorkflowStage) (status : Option String) (draft : Draft)
      → Laid base draft
      → Laid base (note_stage u site release deployment stage status draft)
  unfolding note_stage
  note_stage-Laid base release deployment stage status draft h = record {
    grown = h.grown;
    exclusive = h.exclusive;
    idle = h.idle;
  }

  create_all-Laid :
      (base : List Deployment) (project : ProjectRow) (bundle : ReleaseBundle) (target : String)
      (requested_by : Option String) (vs : List Validated) (draft : Draft)
      → Laid base draft
      → Whenever (Laid base) (create_all u site project bundle target requested_by vs draft)
  unfolding create_all
  create_all-Laid base project bundle target requested_by [] draft h = h
  create_all-Laid base project bundle target requested_by (v ∷ vs) draft h =
      let plan = plan_for u site bundle target requested_by v in
      let rest : Deployment × Draft → Outcome CreationError Draft = λ made.
        create_all u site project bundle target requested_by vs
          (note_stage u site (some bundle) (some made.0) (validate_stage v.0.key) none made.1) in
      Whenever-bind (LaidWith base) (Laid base) (create u site project plan draft) rest
        (create-Laid base project plan draft h)
        (λ made laid. create_all-Laid base project bundle target requested_by vs _ (
          note_stage-Laid base (some bundle) (some made.0) (validate_stage v.0.key) none made.1
            laid))

  -- What was prepared: the bundle is pending, and the rows are laid.
  abbrev pub Prepared : List Deployment → Started → Type 0
  Prepared base started = (started.bundle.status ≡ BundleStatus.pending) × Laid base started.draft

  write_bundle-Prepared :
      (project : ProjectRow) (bundle : ReleaseBundle) (target : String)
      (requested_by : Option String) (vs : List Validated) (k : ℕ) (rows : List Deployment)
      → bundle.status ≡ BundleStatus.pending
      → Whenever
          (Prepared (site.others rows))
          (write_bundle u site project bundle target requested_by vs k rows)
  unfolding write_bundle
  write_bundle-Prepared project bundle target requested_by vs k rows e =
      let base = site.others rows in
      let empty : Draft = record { rows = base; made = []; events = []; ticks = k } in
      let start : Laid base empty = record {
        grown = sym (append-nil base);
        exclusive = λ b. b;
        idle = tt;
      } in
      Whenever-bind (Laid base) (Prepared base)
        (create_all u site project bundle target requested_by vs empty)
        (λ draft. ok (record {
          bundle = bundle;
          draft = note_stage u site (some bundle) none create_release_bundle none draft;
        }))
        (create_all-Laid base project bundle target requested_by vs empty start)
        (λ draft laid.
          (e, note_stage-Laid base (some bundle) none create_release_bundle none draft laid))

  validate_and_write-Prepared :
      (payload : BundleRequest) (bundle_id : Option String) (demands : Demands)
      (project : ProjectRow) (selection : List Selected) (k : ℕ) (rows : List Deployment)
      → Whenever
          (Prepared (site.others rows))
          (validate_and_write u site payload bundle_id demands project selection k rows)
  unfolding validate_and_write new_bundle
  validate_and_write-Prepared payload bundle_id demands project selection k rows =
      let target = or_text payload.target project.default_target in
      let bundle : List Validated → ReleaseBundle = λ validated.
        new_bundle u site (k + length selection) bundle_id project target payload.requested_by
          validated in
      let write : List Validated → Outcome CreationError Started = λ validated.
        write_bundle u site project (bundle validated) target payload.requested_by validated
          (k + length selection + 4) rows in
      bind-Whenever (Prepared (site.others rows))
        (validate_all u site project demands target selection k rows) write
        (λ validated _.
          write_bundle-Prepared project (bundle validated) target payload.requested_by validated
            (k + length selection + 4) rows refl)

  pub prepare_bundle-Prepared :
      (payload : BundleRequest) (bundle_id : Option String) (demands : Demands) (k : ℕ)
      (rows : List Deployment)
      → Whenever
          (Prepared (site.others rows))
          (prepare_bundle u site payload bundle_id demands k rows)
  unfolding prepare_bundle
  prepare_bundle-Prepared payload bundle_id demands k rows =
      let W : Outcome CreationError Started → Type 0 = Whenever (Prepared (site.others rows)) in
      let write : ProjectRow → List Selected → Outcome CreationError Started = λ project selection.
        validate_and_write u site payload bundle_id demands project selection k rows in
      bind-Whenever (Prepared (site.others rows)) (project_of site.projects payload.project_id)
        (λ project. selected_components project payload >>= write project)
        (λ project _.
          bind-Whenever (Prepared (site.others rows)) (selected_components project payload)
            (write project)
            (λ selection _.
              validate_and_write-Prepared payload bundle_id demands project selection k rows))

  -- If no two active deployments hold one promotion slot when a request writes, whatever others have
  -- written meanwhile, then the start of a release either raises, or adds its deployments behind the
  -- others and leaves no two active ones in one slot.
  pub create_bundle-IsExclusive :
      (payload : BundleRequest) (bundle_id : Option String) (demands : Demands) (k : ℕ)
      (rows : List Deployment)
      → IsExclusive (site.others rows)
      → Whenever
          (λ (r : Creation).
            ((made : List Deployment) × (r.rows ≡ site.others rows ++ made)) × IsExclusive r.rows)
          (create_bundle u site payload bundle_id demands k rows)
  unfolding create_bundle
  create_bundle-IsExclusive payload bundle_id demands k rows h =
      let launch : Started → Outcome CreationError Creation = λ started. ok (
        run_started started
          (committed (advance u (steps_of started.draft.made) (context_for started)))) in
      Whenever-bind (Prepared (site.others rows))
        (λ (r : Creation).
          ((made : List Deployment) × (r.rows ≡ site.others rows ++ made)) × IsExclusive r.rows)
        (prepare_bundle u site payload bundle_id demands k rows) launch
        (prepare_bundle-Prepared payload bundle_id demands k rows)
        (λ started p. ((started.draft.made, p.1.grown), p.1.exclusive h))
