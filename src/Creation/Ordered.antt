-- ===== src/Creation/Ordered.antt =====
-- The order of a release (app/services/release_orchestrator.py: `_selected_components`).
use mathlib.Core.Path.{subst}
use release_controller.Prelude.{
  ℕ, suc, ◌≤◌, String, ◌≡◌, refl, sym, ◌∙◌, Bool, true, ◌&&◌, List, [], ◌∷◌, arith, str_eq, eq_iff,
  All, leb, ◌==◌, if◌then◌else◌, if-both, Outcome, ok, ◌>>=◌, Whenever, Whenever-bind,
}
use release_controller.Registry.{ProjectComponent}
use release_controller.Creation.Lookup.{for_key, component_with}
use release_controller.Creation.{ProjectRow, CreationError, BundleRequest}
use release_controller.Creation.Selection.{
  requested, selected_components, select_all, select, sort_selected, Selected, insert_selected,
}

abbrev position_of : Selected → ℕ
position_of x = x.0.position

abbrev NotBefore : ℕ → Selected → Type 0
NotBefore n x = n ≤ position_of x

-- The positions do not fall.
abbrev pub IsAscending : List Selected → Type 0
IsAscending [] = Unit
IsAscending (x ∷ xs) = All (NotBefore (position_of x)) xs × IsAscending xs

abbrev pub Releasable : Selected → Type 0
Releasable x = x.0.is_active ≡ true

NotBefore-weaken :
    (m n : ℕ) (xs : List Selected) → m ≤ n → All (NotBefore n) xs → All (NotBefore m) xs
NotBefore-weaken m n [] h hs = tt
NotBefore-weaken m n (x ∷ xs) h hs = (omega (arith, h, hs.0), NotBefore-weaken m n xs h hs.1)

insert_selected-All {κ} :
    (P : Selected → Type κ) (x : Selected) (xs : List Selected)
    → P x
    → All P xs
    → All P (insert_selected x xs)
unfolding insert_selected
insert_selected-All P x [] h hs = (h, tt)
insert_selected-All P x (y ∷ ys) h hs =
    if-both (All P) (leb (position_of x) (position_of y)) _ _ (λ _. (h, hs))
      (λ _. (hs.0, insert_selected-All P x ys h hs.1))

insert_selected-IsAscending :
    (x : Selected) (xs : List Selected) → IsAscending xs → IsAscending (insert_selected x xs)
unfolding insert_selected
insert_selected-IsAscending x [] h = (tt, tt)
insert_selected-IsAscending x (y ∷ ys) h =
    if-both IsAscending (leb (position_of x) (position_of y)) _ _
      (λ e.
        let le : position_of x ≤ position_of y = ground arith in
        ((le, NotBefore-weaken (position_of x) (position_of y) ys le h.0), h))
      (λ e.
        let le : position_of y ≤ position_of x = ground arith in
        (
          insert_selected-All (NotBefore (position_of y)) x ys le h.0,
          insert_selected-IsAscending x ys h.1,
        ))

-- How many of the selected pairs have a key and a build number.
abbrev is_for : String → ℕ → String × ℕ → Bool
is_for key number item = str_eq item.0 key && (item.1 == number)

abbrev pub count_asked : String → ℕ → List (String × ℕ) → ℕ
count_asked key number [] = 0
count_asked key number (i ∷ is) =
    let rest = count_asked key number is in if is_for key number i then suc rest else rest

abbrev pub count_selected : String → ℕ → List Selected → ℕ
count_selected key number [] = 0
count_selected key number (x ∷ xs) =
    let rest = count_selected key number xs in
    if is_for key number (x.0.key, x.1) then suc rest else rest

insert_selected-count :
    (key : String) (number : ℕ) (x : Selected) (xs : List Selected)
    → count_selected key number (insert_selected x xs) ≡ count_selected key number (x ∷ xs)
unfolding insert_selected
insert_selected-count key number x [] = refl
insert_selected-count key number x (y ∷ ys) =
    if-both (λ l. count_selected key number l ≡ count_selected key number (x ∷ y ∷ ys))
      (leb (position_of x) (position_of y)) _ _ (λ _. refl)
      (λ _. ground (arith, insert_selected-count key number x ys))

-- What a selection has to be: in order, of components that may be released, and for what was asked.
pub record Fits (asked : List (String × ℕ)) (xs : List Selected) : Type 0 where
  pub ascending : IsAscending xs
  pub releasable : All Releasable xs
  pub same_items :
      (key : String) (number : ℕ) → count_selected key number xs ≡ count_asked key number asked

Fits-insert :
    (item : String × ℕ) (c : ProjectComponent) (asked : List (String × ℕ)) (xs : List Selected)
    → c.key ≡ item.0
    → c.is_active ≡ true
    → Fits asked xs
    → Fits (item ∷ asked) (insert_selected (c, item.1) xs)
Fits-insert item c asked xs k a f = record {
  ascending = insert_selected-IsAscending (c, item.1) xs f.ascending;
  releasable = insert_selected-All Releasable (c, item.1) xs a f.releasable;
  same_items = λ key number.
      insert_selected-count key number (c, item.1) xs
      ∙ rw k ground (arith, f.same_items key number);
}

component_with-key :
    (key : String) (cs : List ProjectComponent)
    → Whenever (λ (c : ProjectComponent). c.key ≡ key) (component_with key cs)
component_with-key key [] = tt
component_with-key key (c ∷ cs) =
    if-both (Whenever (λ (c : ProjectComponent). c.key ≡ key)) (str_eq c.key key) _ _
      (λ e. (eq_iff c.key key).0 e) (λ _. component_with-key key cs)

for_key-key :
    (key : String) (project : ProjectRow)
    → Whenever (λ (c : ProjectComponent). c.key ≡ key) (for_key key project)
unfolding for_key
for_key-key key project = component_with-key key project.components

abbrev Selects : String × ℕ → Selected → Type 0
Selects item x = (x.0.key ≡ item.0) × ((x.0.is_active ≡ true) × (x.1 ≡ item.1))

select-Selects :
    (item : String × ℕ) (c : ProjectComponent)
    → c.key ≡ item.0
    → Whenever (Selects item) (select item c)
select-Selects item c k =
    if-both (Whenever (Selects item)) c.is_active _ _ (λ e. (k, (e, refl))) (λ _. tt)

abbrev Sorts : List (String × ℕ) → List Selected → Type 0
Sorts items xs = Fits items (sort_selected xs)

select_all-Sorts :
    (project : ProjectRow) (items : List (String × ℕ))
    → Whenever (Sorts items) (select_all project items)
unfolding select_all
select_all-Sorts project [] = record {
  ascending = tt;
  releasable = tt;
  same_items = λ key number. refl;
}
select_all-Sorts project (item ∷ items) =
    let finish : Selected → List Selected → Outcome CreationError (List Selected) =
      λ one rest. ok (one ∷ rest) in
    let go : Selected → Outcome CreationError (List Selected) =
      λ one. select_all project items >>= finish one in
    Whenever-bind (λ (c : ProjectComponent). c.key ≡ item.0) (Sorts (item ∷ items))
      (for_key item.0 project) (λ c. select item c >>= go) (for_key-key item.0 project)
      (λ c k.
        Whenever-bind (Selects item) (Sorts (item ∷ items)) (select item c) go
          (select-Selects item c k)
          (λ one s.
            Whenever-bind (Sorts items) (Sorts (item ∷ items)) (select_all project items)
              (finish one) (select_all-Sorts project items)
              (λ rest f.
                subst (λ n. Fits (item ∷ items) (insert_selected (one.0, n) (sort_selected rest)))
                  (sym s.1.1) (Fits-insert item one.0 items (sort_selected rest) s.0 s.1.0 f))))

-- If a selection is accepted, it is in the order of the components' positions, whatever order was
-- asked for, all its components are active, and it has each key with each build number as often as
-- the request.
pub selected_components-Fits :
    (project : ProjectRow) (payload : BundleRequest)
    → Whenever (Fits (requested payload)) (selected_components project payload)
unfolding selected_components
selected_components-Fits project payload =
    Whenever-bind (Sorts (requested payload)) (Fits (requested payload))
      (select_all project (requested payload)) (λ xs. ok (sort_selected xs))
      (select_all-Sorts project (requested payload)) (λ xs f. f)
