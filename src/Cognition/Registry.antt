-- ===== src/Cognition/Registry.antt =====
-- internal/cognition/registry.go: decision classes, the table of call kinds, and its validation.
use script_world.Prelude.{
  ℕ, ◌<◌, ◌≡◌, ◌↔◌, refl, Bool, true, false, not, ◌||◌, Option, none, some, List, [], ◌∷◌, arith,
  ◌==◌, if◌then◌else◌, All, Option-cases, inl, inr,
}

pub data Degrade : Type 0 where
  skip reflex template : Degrade

-- The class names, the keys of `registry`; `other_class` is any other string.
pub data ClassName : Type 0 where
  planner conversation meeting consolidation chronicle metatron : ClassName
  other_class : ℕ → ClassName

-- The llm call kinds, the keys of `kindToClass`; `other_kind` is any other string.
pub data CallKind : Type 0 where
  planner conversation meeting consolidation narrator drama metatron metatron_watch : CallKind
  other_kind : ℕ → CallKind

pub record DecisionClass : Type 0 where
  pub class : ClassName
  pub points : ℕ
  pub budget_ticks : ℕ
  pub degrade : Degrade
  pub future_dated : Bool

class_eq : ClassName → ClassName → Bool
class_eq planner planner = true
class_eq conversation conversation = true
class_eq meeting meeting = true
class_eq consolidation consolidation = true
class_eq chronicle chronicle = true
class_eq metatron metatron = true
class_eq (other_class a) (other_class b) = a == b
class_eq _ _ = false

kind_eq : CallKind → CallKind → Bool
kind_eq planner planner = true
kind_eq conversation conversation = true
kind_eq meeting meeting = true
kind_eq consolidation consolidation = true
kind_eq narrator narrator = true
kind_eq drama drama = true
kind_eq metatron metatron = true
kind_eq metatron_watch metatron_watch = true
kind_eq (other_kind a) (other_kind b) = a == b
kind_eq _ _ = false

-- Membership in the map `fibonacci`.
abbrev pub is_fibonacci : ℕ → Bool
is_fibonacci n = n == 1 || n == 2 || n == 3 || n == 5 || n == 8 || n == 13

abbrev dc : ClassName → ℕ → ℕ → Degrade → Bool → DecisionClass
dc c p b d f = record { class = c; points = p; budget_ticks = b; degrade = d; future_dated = f }

unfoldable pub registry : List (ClassName × DecisionClass)
registry =
    (ClassName.planner, dc ClassName.planner 3 1200 reflex true)
    ∷ (ClassName.conversation, dc ClassName.conversation 13 7200 skip false)
    ∷ (ClassName.meeting, dc ClassName.meeting 2 3600 template false)
    ∷ (ClassName.consolidation, dc ClassName.consolidation 5 28800 skip false)
    ∷ (ClassName.chronicle, dc ClassName.chronicle 5 86400 skip false)
    ∷ (ClassName.metatron, dc ClassName.metatron 5 86400 skip false)
    ∷ []

unfoldable pub kind_to_class : List (CallKind × ClassName)
kind_to_class =
    (CallKind.planner, ClassName.planner)
    ∷ (CallKind.conversation, ClassName.conversation)
    ∷ (CallKind.meeting, ClassName.meeting)
    ∷ (CallKind.consolidation, ClassName.consolidation)
    ∷ (narrator, ClassName.chronicle)
    ∷ (drama, ClassName.chronicle)
    ∷ (CallKind.metatron, ClassName.metatron)
    ∷ (metatron_watch, ClassName.metatron)
    ∷ []

lookup_class : ClassName → List (ClassName × DecisionClass) → Option DecisionClass
lookup_class k [] = none
lookup_class k ((j, v) ∷ m) = if class_eq j k then some v else lookup_class k m

lookup_kind : CallKind → List (CallKind × ClassName) → Option ClassName
lookup_kind k [] = none
lookup_kind k ((j, v) ∷ m) = if kind_eq j k then some v else lookup_kind k m

unfoldable pub class_for : ClassName → Option DecisionClass
unfolding lookup_class class_eq registry
class_for c = lookup_class c registry

unfoldable pub class_for_kind : CallKind → Option DecisionClass
unfolding lookup_kind kind_eq kind_to_class class_for
class_for_kind k = elim (lookup_kind k kind_to_class) [ none ↦ none | some name ↦ class_for name ]

-- The errors of `Validate` and `ValidateKinds`.
pub data RegistryError : Type 0 where
  keyed_as : ClassName → RegistryError
  points_not_fibonacci : ClassName → RegistryError
  budget_not_positive : ClassName → RegistryError
  kind_unregistered : CallKind → RegistryError

-- The first loop of `Validate`, over the entries in an order of Go's choice; `none` is nil.
unfoldable pub validate_classes : List (ClassName × DecisionClass) → Option RegistryError
unfolding class_eq
validate_classes [] = none
validate_classes ((name, c) ∷ rest) =
    let next = validate_classes rest in
    if not (class_eq c.class name)
    then some (keyed_as name)
    else if not (is_fibonacci c.points)
    then some (points_not_fibonacci name)
    else if c.budget_ticks == 0
    then some (budget_not_positive name)
    else next

-- The second loop of `Validate`.
unfoldable pub validate_mapping :
    List (ClassName × DecisionClass) → List (CallKind × ClassName) → Option RegistryError
unfolding lookup_class class_eq
validate_mapping reg [] = none
validate_mapping reg ((kind, class) ∷ rest) =
    let next = validate_mapping reg rest in
    elim (lookup_class class reg) [ none ↦ some (kind_unregistered kind) | some _ ↦ next ]

unfoldable pub validate : Option RegistryError
unfolding validate_classes validate_mapping registry kind_to_class
validate = elim (validate_classes registry) [
  | some e ↦ some e
  | none ↦ validate_mapping registry kind_to_class
]

check_kinds : List CallKind → Option RegistryError
check_kinds [] = none
check_kinds (k ∷ ks) =
    let next = check_kinds ks in
    elim (class_for_kind k) [ none ↦ some (kind_unregistered k) | some _ ↦ next ]

unfoldable pub validate_kinds : List CallKind → Option RegistryError
unfolding validate check_kinds
validate_kinds ks = elim validate [ some e ↦ some e | none ↦ check_kinds ks ]

abbrev pub IsRegistered : CallKind → Type 0
IsRegistered k = (d : DecisionClass) × (class_for_kind k ≡ some d)

check_kinds_sound : (ks : List CallKind) → check_kinds ks ≡ none → All IsRegistered ks
unfolding check_kinds
check_kinds_sound [] h = tt
check_kinds_sound (k ∷ ks) h = elim (Option-cases (class_for_kind k)) [
  | inl e ↦ absurd (cc (rw (e, check_kinds) at h))
  | inr (d, e) ↦ ((d, e), check_kinds_sound ks (rw (e, check_kinds) at h))
]

check_kinds_complete : (ks : List CallKind) → All IsRegistered ks → check_kinds ks ≡ none
unfolding check_kinds
check_kinds_complete [] h = refl
check_kinds_complete (k ∷ ks) h = rw (h.0.1, check_kinds) (check_kinds_complete ks h.1)

validate-none : validate ≡ none
unfolding validate
validate-none = refl

-- `ValidateKinds` passes exactly the lists of call kinds that all resolve to a registered class.
pub validate_kinds_iff : (ks : List CallKind) → (validate_kinds ks ≡ none) ↔ All IsRegistered ks
unfolding validate_kinds
validate_kinds_iff ks = (
  λ h. check_kinds_sound ks (rw (validate-none, validate_kinds) at h),
  λ h. rw (validate-none, validate_kinds) (check_kinds_complete ks h),
)

-- Every call kind that resolves has a positive staleness budget and a Fibonacci cost.
pub class_for_kind_bounds :
    (k : CallKind) {d : DecisionClass}
    → class_for_kind k ≡ some d
    → (0 < d.budget_ticks) × (is_fibonacci d.points ≡ true)
unfolding class_for_kind
class_for_kind_bounds k e = ground arith
