-- ===== src/Domain/Auth/Rules.antt =====
-- When the authorisation rule allows an action, stated apart from the code that decides it.
use mathlib.Core.List.{Memᴰ}
use luminair_service_aws_dsq.Base.{
  Bool, true, Option, none, some, List, [], ◌∷◌, ◌≡◌, refl, ap, ◌↔◌, ◌⊎◌, inl, inr, string_eq,
  option_eq, any, Bool-cases, arith,
}
use luminair_service_aws_dsq.Domain.Ids.{DocumentTypeId, UserId}
use luminair_service_aws_dsq.Domain.Instance.{DocumentInstance, is_owned_by}
use luminair_service_aws_dsq.Domain.Auth.{
  Permission, manage_schema, create_document, read_document, update_document, delete_document,
  publish_document, manage_roles, manage_users, grants_type, matches, Role, has_permission,
  owner_rule, is_owner_action, can,
}

-- A grant for all types, or for the very type.
abbrev pub Covers : Option DocumentTypeId → Option DocumentTypeId → Type 0
Covers given asked = (given ≡ none) ⊎ ((t : DocumentTypeId) × (given ≡ some t) × (asked ≡ some t))

pub data Grants : Permission → Permission → Type 0 where
  any_schema : Grants manage_schema manage_schema
  any_roles : Grants manage_roles manage_roles
  any_users : Grants manage_users manage_users
  create :
      {a b : Option DocumentTypeId} → Covers a b → Grants (create_document a) (create_document b)
  read : {a b : Option DocumentTypeId} → Covers a b → Grants (read_document a) (read_document b)
  update :
      {a b : Option DocumentTypeId} → Covers a b → Grants (update_document a) (update_document b)
  delete :
      {a b : Option DocumentTypeId} → Covers a b → Grants (delete_document a) (delete_document b)
  publish :
      {a b : Option DocumentTypeId} → Covers a b → Grants (publish_document a) (publish_document b)

grants_type_sound : (a b : Option DocumentTypeId) → grants_type a b ≡ true → Covers a b
grants_type_sound none b h = inl refl
grants_type_sound (some a) none h = cc
grants_type_sound (some a) (some b) h = elim (string_eq.dec a b) [
  | yes same ↦ inr (b, ap some same, refl)
  | no differ ↦ absurd (differ (ground arith))
]

grants_type_complete : (a b : Option DocumentTypeId) → Covers a b → grants_type a b ≡ true
grants_type_complete a b (inl e) = rw e
grants_type_complete a b (inr (t, e, f)) = rw (e, f) (ground arith)

matches_sound : (p q : Permission) → matches p q ≡ true → Grants p q
unfolding matches
matches_sound manage_schema manage_schema h = any_schema
matches_sound manage_roles manage_roles h = any_roles
matches_sound manage_users manage_users h = any_users
matches_sound (create_document a) (create_document b) h = create (grants_type_sound a b h)
matches_sound (read_document a) (read_document b) h = read (grants_type_sound a b h)
matches_sound (update_document a) (update_document b) h = update (grants_type_sound a b h)
matches_sound (delete_document a) (delete_document b) h = delete (grants_type_sound a b h)
matches_sound (publish_document a) (publish_document b) h = publish (grants_type_sound a b h)
matches_sound _ _ h = cc

matches_complete : {p q : Permission} → Grants p q → matches p q ≡ true
unfolding matches
matches_complete any_schema = refl
matches_complete any_roles = refl
matches_complete any_users = refl
matches_complete (create {a} {b} c) = grants_type_complete a b c
matches_complete (read {a} {b} c) = grants_type_complete a b c
matches_complete (update {a} {b} c) = grants_type_complete a b c
matches_complete (delete {a} {b} c) = grants_type_complete a b c
matches_complete (publish {a} {b} c) = grants_type_complete a b c

any_sound {ℓ} :
    {A : Type ℓ} (p : A → Bool) (xs : List A) → any p xs ≡ true → (x : A) × Memᴰ x xs × (p x ≡ true)
any_sound p [] h = cc
any_sound p (x ∷ xs) h = elim (Bool-cases (p x)) [
  | inl yes_x ↦ (x, Memᴰ.head refl, yes_x)
  | inr not_x ↦ let (y, m, e) = any_sound p xs (ground arith) in (y, Memᴰ.tail m, e)
]

any_complete {ℓ} :
    {A : Type ℓ} (p : A → Bool) {x : A} {xs : List A} → Memᴰ x xs → p x ≡ true → any p xs ≡ true
any_complete p (Memᴰ.head e) h = ground arith
any_complete p (Memᴰ.tail m) h = ground (arith, any_complete p m h)

-- One of the roles has a permission that grants the action.
abbrev pub HasGrant : List Role → Permission → Type 0
HasGrant roles action =
    (role : Role) × (p : Permission) × Memᴰ role roles × Memᴰ p role.permissions × Grants p action

pub data IsOwnerAction : Permission → Type 0 where
  read : (t : Option DocumentTypeId) → IsOwnerAction (read_document t)
  update : (t : Option DocumentTypeId) → IsOwnerAction (update_document t)

-- The user created the instance, and the action is to read or to update.
abbrev pub IsOwnersRight : UserId → Permission → Option DocumentInstance → Type 0
IsOwnersRight user_id action inst =
    (i : DocumentInstance) × (inst ≡ some i)
    × (i.audit.created_by ≡ some user_id)
    × IsOwnerAction action

owner_rule_iff :
    (user_id : UserId) (action : Permission) (inst : Option DocumentInstance)
    → (owner_rule user_id action inst ≡ true) ↔ IsOwnersRight user_id action inst
unfolding is_owned_by
owner_rule_iff user_id action none = (λ h. cc, λ (i, e, _, _). cc)
owner_rule_iff user_id action (some i) = (to, λ (j, e, owned, right). from j e owned right)
  where
    right_of : (a : Permission) → is_owner_action a ≡ true → IsOwnerAction a
    right_of (update_document t) h = update t
    right_of (read_document t) h = read t
    right_of _ h = cc

    to : owner_rule user_id action (some i) ≡ true → IsOwnersRight user_id action (some i)
    to h = (i, refl, ground arith, right_of action (ground arith))

    right_back : {a : Permission} → IsOwnerAction a → is_owner_action a ≡ true
    right_back (read t) = refl
    right_back (update t) = refl

    from :
        (j : DocumentInstance)
        → some i ≡ some j
        → j.audit.created_by ≡ some user_id
        → IsOwnerAction action
        → owner_rule user_id action (some i) ≡ true
    from j e owned right = ground (arith, right_back right)

HasGrant-iff :
    (roles : List Role) (action : Permission)
    → (any (λ role. has_permission role action) roles ≡ true) ↔ HasGrant roles action
unfolding has_permission
HasGrant-iff roles action = (
  λ h.
      let (role, m, e) = any_sound _ roles h in
      let (p, n, g) = any_sound _ role.permissions e in (role, p, m, n, matches_sound p action g),
  λ (role, p, m, n, g). any_complete _ m (any_complete _ n (matches_complete g)),
)

-- An action is allowed exactly if the user created the instance and reads or updates it, or if one
-- of the user's roles has a permission that grants the action: the same kind of action, for every
-- document type or for the one that is asked for.
pub can_iff :
    (user_id : UserId) (action : Permission) (inst : Option DocumentInstance) (roles : List Role)
    → (can user_id action inst roles ≡ true)
      ↔ (IsOwnersRight user_id action inst ⊎ HasGrant roles action)
unfolding can
can_iff user_id action inst roles =
    let (own_to, own_from) = owner_rule_iff user_id action inst in
    let (role_to, role_from) = HasGrant-iff roles action in
    (
      λ h. elim (Bool-cases (owner_rule user_id action inst)) [
        | inl own ↦ inl (own_to own)
        | inr other ↦ inr (role_to (rw other at h))
      ],
      λ d. elim d [
        | inl own ↦ rw (own_from own)
        | inr grant ↦ elim (Bool-cases (owner_rule user_id action inst)) [
          | inl own ↦ rw own
          | inr other ↦ rw other (role_from grant)
        ]
      ],
    )
