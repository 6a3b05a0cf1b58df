-- ===== src/Registry/Project.antt =====
-- A project and the components that are released together
-- (app/domain/registry/entities/project.py). The components are listed in the order of deployment.
use release_controller.Prelude.{
  ℕ, zero, suc, ◌+◌, ◌-◌, String, Bool, true, false, not, ◌&&◌, ◌||◌, Option, none, some, List, [],
  ◌∷◌, str_eq, length, any, leb, ◌==◌, if◌then◌else◌, or_else, Outcome, ok, err,
}

pub record Component : Type 0 where
  pub id : String
  pub project_id : String
  pub key : String
  pub display_name : String
  pub position : ℕ
  pub drone_owner : String
  pub drone_repo : String
  pub project_default_target : String
  pub project_drone_connection_id : Option String
  pub project_gitea_connection_id : Option String
  pub promote_target_override : Option String
  pub drone_connection_id : Option String
  pub publish_enabled : Bool
  pub gitea_owner : Option String
  pub gitea_repo : Option String
  pub gitea_connection_id : Option String
  pub tag_prefix : String
  pub is_active : Bool
  pub created_at : ℕ
  pub updated_at : ℕ

pub record Project : Type 0 where
  pub id : String
  pub key : String
  pub name : String
  pub description : Option String
  pub default_target : String
  pub drone_connection_id : Option String
  pub gitea_connection_id : Option String
  pub is_archived : Bool
  pub created_at : ℕ
  pub updated_at : ℕ
  pub components : List Component

pub data RegistryError : Type 0 where
  component_key_taken component_not_found slot_conflict : RegistryError

-- `self._gitea_owner and self._gitea_repo`: the empty string is falsy too.
abbrev has_text : Option String → Bool
has_text none = false
has_text (some s) = not (str_eq s "")

unfoldable pub is_publishable : Component → Bool
is_publishable c = not c.publish_enabled || (has_text c.gitea_owner && has_text c.gitea_repo)

-- `_inherit_from_project`
abbrev pub inherit : Project → Component → Component
inherit p c = record c {
  project_default_target = p.default_target;
  project_drone_connection_id = p.drone_connection_id;
  project_gitea_connection_id = p.gitea_connection_id;
}

abbrev pub set_position : ℕ → Component → Component
set_position n c = record c { position = n }

-- Python's integers, as far as a position needs them.
pub data ℤ : Type 0 where
  pos negsuc : ℕ → ℤ

abbrev pub int_leb : ℤ → ℤ → Bool
int_leb (pos m) (pos n) = leb m n
int_leb (pos m) (negsuc n) = false
int_leb (negsuc m) (pos n) = true
int_leb (negsuc m) (negsuc n) = leb n m

-- `min` and `max`
abbrev pub int_min : ℤ → ℤ → ℤ
int_min a b = if int_leb a b then a else b

abbrev pub int_max : ℤ → ℤ → ℤ
int_max a b = if int_leb a b then b else a

-- `requested or default`: no number and 0 are falsy.
abbrev pub int_or : Option ℤ → ℤ → ℤ
int_or none default = default
int_or (some (pos zero)) default = default
int_or (some n) default = n

-- `max(1, min(requested or size + 1, size + 1))`
unfoldable pub clamp_position : Option ℤ → ℕ → ℤ
clamp_position requested size =
    int_max (pos 1) (int_min (int_or requested (pos (size + 1))) (pos (size + 1)))

-- `n - 1`
abbrev pub pred : ℤ → ℤ
pred (pos zero) = negsuc 0
pred (pos (suc n)) = pos n
pred (negsuc n) = negsuc (suc n)

-- Where `list.insert` puts an item: a negative index counts from the end.
abbrev pub insert_index : ℤ → ℕ → ℕ
insert_index (pos n) size = n
insert_index (negsuc n) size = size - suc n

-- `list.insert`, at an index from the front.
unfoldable pub insert_at : ℕ → Component → List Component → List Component
insert_at zero c cs = c ∷ cs
insert_at (suc n) c [] = c ∷ []
insert_at (suc n) c (x ∷ cs) = x ∷ insert_at n c cs

-- `_renumber`, from a given number on.
unfoldable pub renumber : ℕ → List Component → List Component
renumber n [] = []
renumber n (c ∷ cs) = set_position n c ∷ renumber (suc n) cs

-- The index that a new component is inserted at.
unfoldable pub place_of : Option ℤ → ℕ → ℕ
place_of requested size = insert_index (pred (clamp_position requested size)) size

unfoldable pub add_component : Component → Option ℤ → Project → Outcome RegistryError Project
add_component c requested p =
    if any (λ (existing : Component). str_eq existing.key c.key) p.components
    then err component_key_taken
    else ok (record p {
      components =
          renumber 1
            (insert_at (place_of requested (length p.components)) (inherit p c) p.components);
    })

unfoldable pub without : String → List Component → List Component
without id [] = []
without id (c ∷ cs) = let rest = without id cs in if str_eq c.id id then rest else c ∷ rest

unfoldable pub remove_component : String → Project → Project
remove_component id p = record p { components = renumber 1 (without id p.components) }

-- `by_id[...]`: of two components with one id the later stands in the dictionary.
unfoldable pub by_id : String → List Component → Option Component
by_id id [] = none
by_id id (c ∷ cs) = elim (by_id id cs) [
  | some later ↦ some later
  | none ↦ if str_eq c.id id then some c else none
]

-- `[by_id[component_id] for ...]`; `none` where a key is missing.
unfoldable pub pick_all : List String → List Component → Option (List Component)
pick_all [] cs = some []
pick_all (id ∷ ids) cs = elim (by_id id cs) [
  | none ↦ none
  | some c ↦ elim (pick_all ids cs) [ none ↦ none | some rest ↦ some (c ∷ rest) ]
]

-- `set(by_id) <= set(component_ids)`
abbrev pub covers : List String → List Component → Bool
covers ids [] = true
covers ids (c ∷ cs) = any (λ id. str_eq c.id id) ids && covers ids cs

-- `len(by_id)`: the number of different ids.
unfoldable pub distinct : List Component → ℕ
distinct [] = 0
distinct (c ∷ cs) =
    let rest = distinct cs in
    if any (λ (later : Component). str_eq later.id c.id) cs then rest else suc rest

-- The rest of `reorder`, given the components that the ids name.
unfoldable pub placed :
    List String → Option (List Component) → Project → Outcome RegistryError Project
placed ids none p = err component_not_found
placed ids (some cs) p =
    if covers ids p.components && length ids == distinct p.components
    then ok (record p { components = renumber 1 cs })
    else err component_not_found

unfoldable pub reorder : List String → Project → Outcome RegistryError Project
reorder ids p = placed ids (pick_all ids p.components) p

unfoldable pub inherit_all : Project → List Component → List Component
inherit_all p [] = []
inherit_all p (c ∷ cs) = inherit p c ∷ inherit_all p cs

-- The arguments of `Project.apply_update`; `none` leaves a field alone.
pub record ProjectUpdate : Type 0 where
  pub name : Option String
  pub description : Option String
  pub default_target : Option String
  pub drone_connection_id : Option String
  pub gitea_connection_id : Option String
  pub is_archived : Option Bool

abbrev pub kept_or : {A : Type 0} → Option A → Option A → Option A
kept_or none old = old
kept_or (some new) old = some new

unfoldable pub apply_update : ProjectUpdate → ℕ → Project → Project
apply_update w now p =
    let p' = record p {
      name = or_else w.name p.name;
      description = kept_or w.description p.description;
      default_target = or_else w.default_target p.default_target;
      drone_connection_id = kept_or w.drone_connection_id p.drone_connection_id;
      gitea_connection_id = kept_or w.gitea_connection_id p.gitea_connection_id;
      is_archived = or_else w.is_archived p.is_archived;
      updated_at = now;
    } in
    record p' { components = inherit_all p' p.components }

unfoldable pub set_archived : Bool → ℕ → Project → Project
set_archived archived now p = record p { is_archived = archived; updated_at = now }
